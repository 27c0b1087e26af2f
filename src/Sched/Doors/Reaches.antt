-- ===== src/Sched/Doors/Reaches.antt =====
-- The doors of internal/sched/{advance,settle,cancel}.go move a job only through the job's own doors,
-- so what is proved of those holds under the scheduler.
use sabnzbd_go.Base.{
  ℕ, ◌≡◌, refl, true, false, not, ◌&&◌, Option, none, some, ◌∷◌, inl, inr, Bool, Bool-cases,
  is_some, if◌then◌else◌,
}
use sabnzbd_go.Base.Result.{Result, ok, err}
use sabnzbd_go.Job.Axes.{
  State, Outcome, is_settled, intent_cancel, is_latched, is_unset, cancelled, is_cancelled,
}
use sabnzbd_go.Job.Spine.{is_correctness, is_production}
use sabnzbd_go.Job.Record.{
  Job, Snapshot, snapshot, begin_attempt, door_transition, door_cross, door_finish, set_intent,
  grant, holds_lease,
}
use sabnzbd_go.Job.Step.{
  begins, transitions, crosses, finishes, intends, granted, surrenders, Reach, here, next,
}
use sabnzbd_go.Job.Error.{Err}
use sabnzbd_go.Sched.Pool.{issue, needs_lease}
use sabnzbd_go.Sched.Queue.{Queue, holds, running, gated_by}
use sabnzbd_go.Sched.Doors.{
  after, park, granted_slot, grant_issued, grant_for, reclaim_lease, from_job, retry,
  settle_finished, settle_locked, settle, finish_cancel, cancel_latched, cancel, cancel_interrupts,
  moved_to, move_to, crossed_to, make_runnable, move_on, advance,
}
use sabnzbd_go.Sched.Doors.Serves.{grant_slot_same}

pub Reach-trans : {j k m : Job} → Reach j k → Reach k m → Reach j m
Reach-trans r here = r
Reach-trans r (next t s) = next (Reach-trans r t) s

module _ (q : Queue) (j : Job) where
  granted_slot-Reach :
      (s : State) (id : ℕ) (r : Result Err Job)
      → grant (some id) j ≡ r
      → Reach j (granted_slot q j s id r).1
  unfolding granted_slot
  granted_slot-Reach s id (ok j') h =
      rw ((grant_slot_same q j' s).1) (next here (granted (some id) h))
  granted_slot-Reach s id (err e) h = here

  grant_issued-Reach : (s : State) (l : Option ℕ) → Reach j (grant_issued q j s l).1
  unfolding grant_issued
  grant_issued-Reach s none = here
  grant_issued-Reach s (some id) = granted_slot-Reach s id _ refl

pub grant_for-Reach : (q : Queue) (j : Job) (s : State) → Reach j (grant_for q j s).1
unfolding grant_for
grant_for-Reach q j s = elim (Bool-cases (needs_lease s && not (holds_lease j))) [
  | inl h ↦
      rw h (grant_issued-Reach (record q { leases = (issue q.leases).0 }) j s (issue q.leases).1)
  | inr h ↦ rw (h, (grant_slot_same q j s).1) here
]

module _ (q : Queue) (j : Job) where
  pub park-Reach : Reach j (park q j).job
  unfolding park
  park-Reach = next here (surrenders j)

  from_job-Reach :
      (now : ℕ) (q' : Queue) (r : Result Err Job)
      → begin_attempt now j ≡ r
      → Reach j (from_job q' j r).job
  unfolding from_job
  from_job-Reach now q' (ok j') h = next here (begins now h)
  from_job-Reach now q' (err e) h = here

  settle_finished-Reach :
      (o : Outcome) (now : ℕ) (r : Result Err (Job × Option ℕ))
      → door_finish o now j ≡ r
      → Reach j (settle_finished q j r).job
  unfolding settle_finished
  settle_finished-Reach o now (ok (j', l)) h = next here (finishes o now l h)
  settle_finished-Reach o now (err e) h = here

  settle_locked-Reach :
      (now : ℕ) (o : Outcome) (s : Snapshot) → Reach j (settle_locked now o s q j).job
  unfolding settle_locked
  settle_locked-Reach now o s = settle_finished-Reach _ now _ refl

  finish_cancel-Reach : (now : ℕ) (s : Snapshot) → Reach j (finish_cancel now s q j).job
  unfolding finish_cancel
  finish_cancel-Reach now s = elim (Bool-cases (is_unset s.state.state)) [
    | inl h ↦ rw h here
    | inr h ↦ rw h (elim (Bool-cases (is_settled s.state.outcome)) [
      | inl k ↦ rw k here
      | inr k ↦ rw k (elim (Bool-cases (running q j.id s)) [
        | inl m ↦ rw m (interrupt (cancel_interrupts s.state.state))
        | inr m ↦ rw m (settle_locked-Reach now cancelled s)
      ])
    ])
  ]
    where
      interrupt :
          (i : Bool)
          → Reach j
              (if not i
                then after q j none
                else after (record q { aborted = j.id ∷ q.aborted }) j none).job
      interrupt true = here
      interrupt false = here

  pub retry-Reach : (now : ℕ) → Reach j (retry now q j).job
  unfolding retry
  retry-Reach now = elim (Bool-cases (is_settled (snapshot j).state.outcome)) [
    | inl h ↦ rw h (from_job-Reach now _ _ refl)
    | inr h ↦ rw h here
  ]

  pub settle-Reach : (now : ℕ) (o : Outcome) → Reach j (settle now o q j).job
  unfolding settle
  settle-Reach now o = elim (Bool-cases (is_cancelled o)) [
    | inl h ↦ rw h here
    | inr h ↦ rw h (settle_locked-Reach now o (snapshot j))
  ]

  moved_to-Reach :
      (j' : Job) (q' : Queue) (from to : State) (m : Result Err Job)
      → Reach j j'
      → door_transition to j' ≡ m
      → Reach j (moved_to q' j' from to m).job
  unfolding moved_to
  moved_to-Reach j' q' from to (ok j'') r h = next r (transitions to h)
  moved_to-Reach j' q' from to (err e) r h = r

  move_to-Reach : (from to : State) → Reach j (move_to q j from to).job
  unfolding move_to
  move_to-Reach from to = elim (Bool-cases (grant_for q j to).2) [
    | inl h ↦ rw h (moved_to-Reach _ _ from to _ (grant_for-Reach q j to) refl)
    | inr h ↦ rw h (grant_for-Reach q j to)
  ]

  make_runnable-Reach : (s : Snapshot) → Reach j (make_runnable s q j).job
  unfolding make_runnable
  make_runnable-Reach s = elim (Bool-cases (holds q j.id s)) [
    | inl h ↦ rw h here
    | inr h ↦ rw h (elim (Bool-cases (is_some (gated_by q s))) [
      | inl k ↦ rw k park-Reach
      | inr k ↦ rw k (grant_for-Reach q j s.state.state)
    ])
  ]

  crossed_to-Reach :
      (to : State) (m : Result Err (Job × Option ℕ))
      → door_cross to j ≡ m
      → Reach j (crossed_to q j to m).job
  unfolding crossed_to
  crossed_to-Reach to (err e) h = here
  crossed_to-Reach to (ok (j', l)) h =
      let over : Reach j j' = next here (crosses to l h) in
      elim (Bool-cases (is_some (reclaim_lease l q).1)) [
        | inl k ↦ rw k over
        | inr k ↦ rw k (Reach-trans over (grant_for-Reach (reclaim_lease l q).0 j' to))
      ]

  move_on-Reach : (s : Snapshot) → Reach j (move_on s q j).job
  unfolding move_on
  move_on-Reach s = elim (Bool-cases (is_some (gated_by q s))) [
    | inl k ↦ rw k park-Reach
    | inr k ↦ rw k (elim (Bool-cases (is_correctness s.state.state && is_production s.state.next)) [
      | inl h ↦ rw h (crossed_to-Reach s.state.next _ refl)
      | inr h ↦ rw h (move_to-Reach s.state.state s.state.next)
    ])
  ]

  begin-Reach :
      (now : ℕ) (g : Bool)
      → Reach j (if g then after q j none else from_job q j (begin_attempt now j)).job
  begin-Reach now true = here
  begin-Reach now false = from_job-Reach now q _ refl

  -- A scheduling tick moves a job only through the job's own doors.
  pub advance-Reach : (now : ℕ) → Reach j (advance now q j).job
  unfolding advance
  advance-Reach now =
      let s = snapshot j in
      elim (Bool-cases (is_latched s.intent)) [
        | inl h ↦ rw h (finish_cancel-Reach now s)
        | inr h ↦ rw h (elim (Bool-cases (is_unset s.state.state)) [
          | inl k ↦ rw k (begin-Reach now _)
          | inr k ↦ rw k (elim (Bool-cases (is_settled s.state.outcome)) [
            | inl m ↦ rw m here
            | inr m ↦ rw m (elim (Bool-cases (is_unset s.state.next)) [
              | inl n ↦ rw n (make_runnable-Reach s)
              | inr n ↦ rw n (move_on-Reach s)
            ])
          ])
        ])
      ]

cancel_latched-Reach :
    (now : ℕ) (q : Queue) (j : Job) (r : Result Err Job)
    → set_intent intent_cancel j ≡ r
    → Reach j (cancel_latched now q j r).job
unfolding cancel_latched
cancel_latched-Reach now q j (err e) h = here
cancel_latched-Reach now q j (ok j') h =
    Reach-trans (next here (intends intent_cancel h)) (finish_cancel-Reach q j' now (snapshot j'))

pub cancel-Reach : (now : ℕ) (q : Queue) (j : Job) → Reach j (cancel now q j).job
unfolding cancel
cancel-Reach now q j = cancel_latched-Reach now q j _ refl
