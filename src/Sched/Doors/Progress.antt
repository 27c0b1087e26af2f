-- ===== src/Sched/Doors/Progress.antt =====
-- With capacity free and no gate shut, a scheduling tick gets a job going (internal/sched/advance.go).
use sabnzbd_go.Job.Error.{Err}
use sabnzbd_go.Base.{
  String, ℕ, ◌<◌, ◌≡◌, ◌⊎◌, refl, true, false, Bool-cases, inl, inr, Option, none, arith, is_some,
  ◌&&◌, length,
}
use sabnzbd_go.Sched.Doors.Slots.{same_place, transition_there, cross_there}
use sabnzbd_go.Sched.Doors.Quiet.{
  grant_for_attempts, failure, transition_ok, cross_ok, reclaim_quiet,
}
use sabnzbd_go.Sched.Doors.Ticks.{reclaimed_room}
use sabnzbd_go.Sched.Ledger.{IsBook, IsOutstanding, HasRoom}
use sabnzbd_go.Job.Record.Invariant.{door_cross-IsJob, IsJob}
use sabnzbd_go.Sched.Doors.Serves.{door_cross_lease}
use mathlib.Core.Path.{sym, subst₂}
use sabnzbd_go.Sched.Pool.{SlotPool, issue, needs_lease, needs_slot, slot_holds, acquire}
use sabnzbd_go.Base.Result.{Result, ok, err}
use sabnzbd_go.Base.Keys.{contains-insert_self, string_eq, nat_eq}
use sabnzbd_go.Job.Axes.{State, is_latched, is_unset, is_settled}
use sabnzbd_go.Job.Spine.{is_correctness, is_production, can_transition}
use sabnzbd_go.Job.Record.{
  Job, snapshot, snapshot_open, state, door_transition, door_cross, grant, holds_lease, has_run,
}
use sabnzbd_go.Sched.Queue.{Queue, release_for, holds, running, gated_by}
use sabnzbd_go.Sched.Doors.{
  After, advance, make_runnable, move_on, moved_to, move_to, crossed_to, grant_for, grant_issued,
  granted_slot, grant_slot, reclaim_lease,
}

-- The pools can serve the job at `s`: it has each token that `s` needs, or one is free.
abbrev pub CanServe : Queue → Job → State → Type 0
CanServe q j s =
    ((needs_lease s ≡ false)
      ⊎ (holds_lease j ≡ true)
      ⊎ (length q.leases.issued < q.leases.capacity))
    × ((needs_slot s ≡ false)
        ⊎ (slot_holds j.id q.slots ≡ true)
        ⊎ (length q.slots.held < q.slots.capacity))

-- The grant of a served position succeeds, and leaves the job with what the position needs.
grant_for_serves :
    (q : Queue) (j : Job) (s : State)
    → IsJob j
    → HasRoom q.leases
    → snapshot_open (snapshot j) ≡ true
    → (needs_lease s ≡ true → is_production (state j).state ≡ false)
    → CanServe q j s
    → let (q', j', got) = grant_for q j s in
      (got ≡ true)
      × (needs_lease s ≡ true → holds_lease j' ≡ true)
      × (needs_slot s ≡ true → slot_holds j.id q'.slots ≡ true)
      × (j'.id ≡ j.id)
      × (j'.attempts ≡ j.attempts)
unfolding grant_for grant_issued granted_slot grant grant_slot acquire issue slot_holds snapshot
    snapshot_open state holds_lease is_production
grant_for_serves q j s v r o c p = ground (arith, contains-insert_self j.id q.slots.held)

lease_before_boundary : (s : State) → needs_lease s ≡ true → is_production s ≡ false
unfolding needs_lease is_production
lease_before_boundary s h = ground arith

-- What running asks for, of a job that has what its place needs.
runs :
    (q : Queue) (j : Job)
    → snapshot_open (snapshot j) ≡ true
    → is_unset (state j).next ≡ true
    → is_unset (state j).state ≡ false
    → (needs_lease (state j).state ≡ true → holds_lease j ≡ true)
    → (needs_slot (state j).state ≡ true → slot_holds j.id q.slots ≡ true)
    → running q j.id (snapshot j) ≡ true
unfolding running holds snapshot
runs q j o n u l s = ground arith

runs_held :
    (q : Queue) (j : Job)
    → snapshot_open (snapshot j) ≡ true
    → is_unset (state j).next ≡ true
    → holds q j.id (snapshot j) ≡ true
    → running q j.id (snapshot j) ≡ true
unfolding running snapshot
runs_held q j o n h = ground arith

placed : (j : Job) → IsJob j → snapshot_open (snapshot j) ≡ true → is_unset (state j).state ≡ false
unfolding snapshot snapshot_open state is_unset has_run
placed j v o = ground arith

unsettled : (j : Job) → snapshot_open (snapshot j) ≡ true → is_settled (state j).outcome ≡ false
unfolding snapshot snapshot_open
unsettled j o = ground arith

module _ (now : ℕ) (q : Queue) (j : Job) (v : IsJob j) (r : HasRoom q.leases)
    (o : snapshot_open (snapshot j) ≡ true) (i : is_latched j.intent ≡ false)
    (g : is_some (gated_by q (snapshot j)) ≡ false) where
  -- A job that was paused, restarted or never served is running after one tick, at the same position,
  -- if the pools can serve it there and no gate is shut.
  pub advance-resumes :
      is_unset (state j).next ≡ true
      → CanServe q j (state j).state
      → let a = advance now q j in
        (running a.queue a.job.id (snapshot a.job) ≡ true) × (state a.job ≡ state j)
  unfolding advance make_runnable snapshot
  advance-resumes n p =
      rw (i, placed j v o, unsettled j o, n)
        (elim (Bool-cases (holds q j.id (snapshot j))) [
          | inl h ↦ rw h (runs_held q j o n h, refl)
          | inr h ↦ rw (h, g) (granted_running (state j).state refl n p)
        ])
    where
      granted_running :
          (s : State)
          → s ≡ (state j).state
          → is_unset (state j).next ≡ true
          → CanServe q j s
          → let (q', j', _) = grant_for q j s in
            (running q' j'.id (snapshot j') ≡ true) × (state j' ≡ state j)
      granted_running s e n p =
          let (got, leased, slotted, same, attempts) =
            grant_for_serves q j s v r o (λ h. rw (← e) (lease_before_boundary s h)) p in
          let (q', j', _) = grant_for q j s in
          let (place, live) = same_place j j' attempts in
          (
            runs q' j' (rw live o) (rw place n) (rw place (placed j v o)) (rw (place, ← e) leased)
                (rw (place, ← e, same) slotted),
            place,
          )

release_keeps : (q : Queue) (id : String) (s : State) → needs_slot s ≡ true → release_for id s q ≡ q
unfolding release_for
release_keeps q id s h = rw h refl

lease_held : (j k : Job) → k.lease ≡ j.lease → holds_lease k ≡ holds_lease j
unfolding holds_lease
lease_held j k e = rw e refl

reclaim_slots : (x : Option ℕ) (q : Queue) → (reclaim_lease x q).0.slots ≡ q.slots
unfolding reclaim_lease
reclaim_slots x q = refl

clash : (s : State) → needs_lease s ≡ false → needs_lease s ≡ true → ⊥
clash s p n = cc

-- A destination that needs a lease was recorded before the boundary.
next_lease :
    (j : Job)
    → IsJob j
    → snapshot_open (snapshot j) ≡ true
    → is_unset (state j).next ≡ false
    → needs_lease (state j).next ≡ true
    → is_production (state j).state ≡ false
unfolding snapshot snapshot_open state is_unset can_transition needs_lease is_production
next_lease j v o n h = ground arith

-- A job is on at `to`: it stands there with nothing recorded, and runs.
abbrev pub IsOnAt : State → After → Type 0
IsOnAt to a =
    ((state a.job).state ≡ to)
    × (is_unset (state a.job).next ≡ true)
    × (running a.queue a.job.id (snapshot a.job) ≡ true)

module _ (now : ℕ) (q : Queue) (j : Job) (v : IsJob j) (r : HasRoom q.leases) (b : IsBook q.leases)
    (l : IsOutstanding j.lease q.leases) (o : snapshot_open (snapshot j) ≡ true)
    (i : is_latched j.intent ≡ false) (g : is_some (gated_by q (snapshot j)) ≡ false) where
  transitioned :
      (from to : State) (m : Result Err Job)
      → is_unset to ≡ false
      → CanServe q j to
      → (needs_lease to ≡ true → is_production (state j).state ≡ false)
      → (door_transition to (grant_for q j to).1) ≡ m
      → failure m ≡ none
      → IsOnAt to (moved_to (grant_for q j to).0 (grant_for q j to).1 from to m)
  unfolding moved_to
  transitioned from to (err e) u p c h f = cc
  transitioned from to (ok k) u p c h f =
      let (got, leased, slotted, same, attempts) = grant_for_serves q j to v r o c p in
      let (there, live, name, next, lease) = transition_there to (grant_for q j to).1 k h in
      (
        there,
        next,
        runs (release_for k.id to (grant_for q j to).0) k live next (rw there u)
            (λ n. rw (lease_held (grant_for q j to).1 k lease) (leased (rw (← there) n)))
            (λ n.
              rw (release_keeps (grant_for q j to).0 k.id to (rw (← there) n), name, same)
                (slotted (rw (← there) n))),
      )

  moved_on :
      (from to : State)
      → is_unset to ≡ false
      → CanServe q j to
      → (needs_lease to ≡ true → is_production (state j).state ≡ false)
      → failure (door_transition to (grant_for q j to).1) ≡ none
      → IsOnAt to (move_to q j from to)
  unfolding move_to
  moved_on from to u p c f =
      rw ((grant_for_serves q j to v r o c p).0) (transitioned from to _ u p c refl f)

  crossed_over :
      (to : State) (m : Result Err (Job × Option ℕ))
      → is_unset to ≡ false
      → CanServe q j to
      → door_cross to j ≡ m
      → failure m ≡ none
      → IsOnAt to (crossed_to q j to m)
  unfolding crossed_to
  crossed_over to (err e) u p h f = cc
  crossed_over to (ok (k, x)) u p h f =
      let (there, live, same, slot, next, lease) = cross_there to j k x h in
      let (empty, yielded, _) = door_cross_lease j k to x h in
      let q₁ = (reclaim_lease x q).0 in
      let quiet = reclaim_quiet q j v b l q x refl yielded in
      let (got, leased, slotted, name, attempts) =
        grant_for_serves q₁ k to (door_cross-IsJob to j k x v h) (reclaimed_room q x r) live
          (λ n. ground arith)
          (
            inl lease,
            subst₂
                (λ (i : String) (s : SlotPool).
                  (needs_slot to ≡ false) ⊎ (slot_holds i s ≡ true) ⊎ (length s.held < s.capacity))
                (sym same) (sym (reclaim_slots x q)) p.1,
          ) in
      let (q₂, k', _) = grant_for q₁ k to in
      let (place, live') = same_place k k' attempts in
      rw quiet (
        rw place there,
        rw place next,
        runs q₂ k' (rw live' live) (rw place next) (rw (place, there) u)
            (λ n. absurd (clash to lease (rw (← there, ← place) n))) (λ n. rw name (slotted slot)),
      )

  -- A job whose work is finished is at the position that it recorded, and running there, after one
  -- tick: over the boundary too, if the pools can serve it there and no gate is shut.
  pub advance-moves :
      is_unset (state j).next ≡ false
      → CanServe q j (state j).next
      → IsOnAt (state j).next (advance now q j)
  unfolding advance move_on snapshot
  advance-moves n p =
      rw (i, placed j v o, unsettled j o, n, g)
        (elim (Bool-cases (is_correctness (state j).state && is_production (state j).next)) [
          | inl c ↦ rw c (crossed_over (state j).next _ n p refl (cross_ok j v o n c))
          | inr c ↦ rw c (
              moved_on (state j).state (state j).next n p (next_lease j v o n) (
                transition_ok j v o n c (grant_for q j (state j).next).1
                  (grant_for_attempts q j (state j).next)))
        ])
