-- ===== src/Sched/Doors/Ticks.antt =====
-- Advance and Cancel (internal/sched/{advance,cancel}.go) against the accounting of pool A.
use sabnzbd_go.Base.{
  true, false, ◌&&◌, is_some, inr, if◌then◌else◌, ◌∙◌, inl, Bool, Bool-cases, ℕ, ◌≡◌, ◌≢◌, refl,
  Option, none, some, arith,
}
use sabnzbd_go.Base.Result.{Result, ok, err}
use sabnzbd_go.Job.Axes.{intent_cancel, is_latched, is_unset, is_settled, State, state_unset}
use sabnzbd_go.Job.Record.{
  set_intent, door_cross, snapshot, door_transition, Job, Snapshot, begin_attempt,
}
use sabnzbd_go.Job.Error.{Err, not_outstanding}
use sabnzbd_go.Sched.Queue.{Queue}
use sabnzbd_go.Sched.Ledger.{Balances-trans, Balances, reclaim-next, HasRoom, IsBook, IsOutstanding}
use sabnzbd_go.Sched.Doors.{
  is_production, is_correctness, advance, cancel, cancel_latched, crossed_to, move_on, gated_by,
  grant_for, holds, move_to, moved_to, make_runnable, after, reclaim_lease, from_job,
}
use sabnzbd_go.Sched.Doors.Serves.{
  set_intent_lease, door_cross_lease, set_intent_error, door_cross_error, door_transition_error,
  door_transition_lease, grant_for-Balances, Serves,
}
use sabnzbd_go.Sched.Doors.Accounts.{
  none_audited, some_audited, stays-Serves, yields-Serves, park-Serves, from_job-Serves,
  finish_cancel-Serves, release_for_leases,
}

-- The queue that a lease was taken back to still has room.
pub reclaimed_room :
    (q : Queue) (l : Option ℕ) → HasRoom q.leases → HasRoom (reclaim_lease l q).0.leases
unfolding reclaim_lease
reclaimed_room q l r = omega (arith, reclaim-next q.leases l)

reclaimed_next : (q : Queue) (l : Option ℕ) → (reclaim_lease l q).0.leases.next ≡ q.leases.next
unfolding reclaim_lease
reclaimed_next q l = reclaim-next q.leases l

module _ (q : Queue) (j : Job) (b : IsBook q.leases) (o : IsOutstanding j.lease q.leases)
    (r : HasRoom q.leases) where
  -- After a grant, what leaves the leases alone balances with it.
  granted-Serves :
      (q' q'' : Queue) (j' j'' : Job) (e : Option Err)
      → Balances q.leases j.lease q'.leases j'.lease × (j'.id ≡ j.id)
      → q''.leases ≡ q'.leases
      → (j''.lease ≡ j'.lease) × (j''.id ≡ j'.id)
      → e ≢ some not_outstanding
      → Serves q j (after q'' j'' e)
  granted-Serves q' q'' j' j'' e (a, i) p (l, k) c = record {
    accounts = rw (p, l) a;
    same_job = k ∙ i;
    audited = c;
  }

  granted_only-Serves :
      (s : State) → let (q', j', _) = grant_for q j s in Serves q j (after q' j' none)
  granted_only-Serves s =
      let (a, i) = grant_for-Balances q j s b r in
      record { accounts = a; same_job = i; audited = none_audited }

  moved_to-Serves :
      (q' : Queue) (j' : Job) (from to : State) (m : Result Err Job)
      → Balances q.leases j.lease q'.leases j'.lease × (j'.id ≡ j.id)
      → door_transition to j' ≡ m
      → Serves q j (moved_to q' j' from to m)
  unfolding moved_to
  moved_to-Serves q' j' from to (ok j'') a h =
      granted-Serves q' _ j' j'' none a (release_for_leases _ _ q')
        (door_transition_lease j' j'' to h) none_audited
  moved_to-Serves q' j' from to (err e) a h =
      granted-Serves q' _ j' j' (some e) a (release_for_leases _ _ q') (refl, refl)
        (some_audited e (door_transition_error j' e to h))

  move_to-Serves : (from to : State) → Serves q j (move_to q j from to)
  unfolding move_to
  move_to-Serves from to =
      let a = grant_for-Balances q j to b r in
      elim (Bool-cases (grant_for q j to).2) [
        | inl h ↦ rw h (moved_to-Serves _ _ from to _ a refl)
        | inr h ↦ rw h (granted_only-Serves to)
      ]

  make_runnable-Serves : (s : Snapshot) → Serves q j (make_runnable s q j)
  unfolding make_runnable
  make_runnable-Serves s = elim (Bool-cases (holds q j.id s)) [
    | inl h ↦ rw h (stays-Serves q q j j none b refl (refl, refl) none_audited)
    | inr h ↦ rw h (elim (Bool-cases (is_some (gated_by q s))) [
      | inl k ↦ rw k (park-Serves q j b o)
      | inr k ↦ rw k (granted_only-Serves s.state.state)
    ])
  ]

  crossed_to-Serves :
      (to : State) (m : Result Err (Job × Option ℕ))
      → door_cross to j ≡ m
      → Serves q j (crossed_to q j to m)
  unfolding crossed_to
  crossed_to-Serves to (err e) h =
      stays-Serves q q j j (some e) b refl (refl, refl) (some_audited e (door_cross_error j e to h))
  crossed_to-Serves to (ok (j', l)) h =
      let yielded = door_cross_lease j j' to l h in
      let back = yields-Serves q q j j' l b o refl yielded in
      let q' = (reclaim_lease l q).0 in
      let (got, same) = grant_for-Balances q' j' to back.accounts.book (reclaimed_room q l r) in
      elim (Bool-cases (is_some (reclaim_lease l q).1)) [
        | inl k ↦ rw k back
        | inr k ↦ rw k (record {
          accounts =
              Balances-trans q.leases j.lease q'.leases j'.lease _ _ back.accounts got
                (omega (arith, got.turn, reclaimed_next q l));
          same_job = same ∙ back.same_job;
          audited = none_audited;
        })
      ]

  move_on-Serves : (s : Snapshot) → Serves q j (move_on s q j)
  unfolding move_on
  move_on-Serves s = elim (Bool-cases (is_some (gated_by q s))) [
    | inl k ↦ rw k (park-Serves q j b o)
    | inr k ↦ rw k (elim (Bool-cases (is_correctness s.state.state && is_production s.state.next)) [
      | inl h ↦ rw h (crossed_to-Serves s.state.next _ refl)
      | inr h ↦ rw h (move_to-Serves s.state.state s.state.next)
    ])
  ]

  -- A job that has never run is begun, unless a gate is shut.
  begin-Serves :
      (now : ℕ) (g : Bool)
      → Serves q j (if g then after q j none else from_job q j (begin_attempt now j))
  begin-Serves now true = stays-Serves q q j j none b refl (refl, refl) none_audited
  begin-Serves now false = from_job-Serves q j b o now q _ refl refl

  pub advance-Serves : (now : ℕ) → Serves q j (advance now q j)
  unfolding advance
  advance-Serves now =
      let s = snapshot j in
      elim (Bool-cases (is_latched s.intent)) [
        | inl h ↦ rw h (finish_cancel-Serves q j b o now s)
        | inr h ↦ rw h (elim (Bool-cases (is_unset s.state.state)) [
          | inl k ↦ rw k (begin-Serves now _)
          | inr k ↦ rw k (elim (Bool-cases (is_settled s.state.outcome)) [
            | inl m ↦ rw m (
                stays-Serves q _ j j none b (release_for_leases j.id state_unset q) (refl, refl)
                  none_audited)
            | inr m ↦ rw m (elim (Bool-cases (is_unset s.state.next)) [
              | inl n ↦ rw n (make_runnable-Serves s)
              | inr n ↦ rw n (move_on-Serves s)
            ])
          ])
        ])
      ]

cancel_latched-Serves :
    (now : ℕ) (q : Queue) (j : Job) (b : IsBook q.leases) (o : IsOutstanding j.lease q.leases)
    (r : Result Err Job)
    → set_intent intent_cancel j ≡ r
    → Serves q j (cancel_latched now q j r)
unfolding cancel_latched
cancel_latched-Serves now q j b o (err e) h =
    stays-Serves q q j j (some e) b refl (refl, refl)
      (some_audited e (set_intent_error j e intent_cancel h))
cancel_latched-Serves now q j b o (ok j') h =
    let (l, i) = set_intent_lease j j' intent_cancel h in
    let done = finish_cancel-Serves q j' b (rw l o) now (snapshot j') in
    record {
      accounts = rw (← l) done.accounts;
      same_job = done.same_job ∙ i;
      audited = done.audited;
    }

pub cancel-Serves :
    (now : ℕ) (q : Queue) (j : Job)
    → IsBook q.leases
    → IsOutstanding j.lease q.leases
    → Serves q j (cancel now q j)
unfolding cancel
cancel-Serves now q j b o = cancel_latched-Serves now q j b o _ refl
