-- ===== src/Sched/Doors/Quiet.antt =====
-- A scheduling tick on a sound job never fails (internal/sched/{advance,cancel,settle}.go).
use sabnzbd_go.Base.{
  ◌∷◌, ℕ, ◌≡◌, refl, true, false, Bool, Bool-cases, inl, inr, Option, none, some, arith, is_some,
  not, ◌&&◌, if◌then◌else◌,
}
use sabnzbd_go.Base.Result.{Result, ok, err}
use sabnzbd_go.Job.Axes.{State, is_latched, is_unset, is_settled, cancelled, state_unset}
use sabnzbd_go.Job.Spine.{can_transition, is_correctness, is_production}
use sabnzbd_go.Job.Record.{
  surrender, Job, Snapshot, snapshot, snapshot_open, state, begin_attempt, door_transition,
  door_cross, door_finish, grant,
}
use sabnzbd_go.Job.Record.Invariant.{IsJob}
use sabnzbd_go.Job.Error.{Err}
use sabnzbd_go.Sched.Queue.{Queue, release_for, holds, running, gated_by}
use sabnzbd_go.Sched.Ledger.{IsBook, IsOutstanding, reclaim-Balances}
use sabnzbd_go.Sched.Doors.{
  after, advance, reclaim_lease, from_job, make_runnable, move_on, finish_cancel, settle_locked,
  settle_finished, park, moved_to, move_to, crossed_to, grant_for, grant_issued, granted_slot,
  grant_slot, cancel_interrupts,
}
use sabnzbd_go.Sched.Doors.Serves.{door_cross_lease, door_finish_lease}
use sabnzbd_go.Sched.Doors.Accounts.{release_for_leases}

-- A grant never touches the attempts.
pub grant_for_attempts :
    (q : Queue) (j : Job) (s : State) → (grant_for q j s).1.attempts ≡ j.attempts
unfolding grant_for grant_issued granted_slot grant grant_slot
grant_for_attempts q j s = ground arith

-- The error of a result.
abbrev pub failure {ℓ} : {A : Type ℓ} → Result Err A → Option Err
failure (ok _) = none
failure (err e) = some e

-- What the open attempt's door answers depends on the attempts alone.
pub transition_ok :
    (j : Job)
    → IsJob j
    → snapshot_open (snapshot j) ≡ true
    → is_unset (state j).next ≡ false
    → (is_correctness (state j).state && is_production (state j).next) ≡ false
    → (k : Job) → k.attempts ≡ j.attempts
    → failure (door_transition (state j).next k) ≡ none
unfolding door_transition snapshot snapshot_open state is_unset is_correctness is_production
    can_transition
transition_ok j v o n c k e = ground arith

pub cross_ok :
    (j : Job)
    → IsJob j
    → snapshot_open (snapshot j) ≡ true
    → is_unset (state j).next ≡ false
    → (is_correctness (state j).state && is_production (state j).next) ≡ true
    → failure (door_cross (state j).next j) ≡ none
unfolding door_cross snapshot snapshot_open state is_unset is_correctness is_production
    can_transition
cross_ok j v o n c = ground arith

finish_ok :
    (now : ℕ) (j : Job)
    → IsJob j
    → snapshot_open (snapshot j) ≡ true
    → failure (door_finish cancelled now j) ≡ none
unfolding door_finish snapshot snapshot_open state is_unset
finish_ok now j v o = ground arith

begin_ok :
    (now : ℕ) (j : Job)
    → IsJob j
    → is_unset (state j).state ≡ true
    → failure (begin_attempt now j) ≡ none
unfolding begin_attempt state is_unset
begin_ok now j v n = ground arith

-- Being open, from the two tests that Advance makes before it acts.
pub open_of_tests :
    (j : Job)
    → is_unset (state j).state ≡ false
    → is_settled (state j).outcome ≡ false
    → snapshot_open (snapshot j) ≡ true
unfolding snapshot snapshot_open state is_unset
open_of_tests j n u = ground arith

module _ (q : Queue) (j : Job) (v : IsJob j) (b : IsBook q.leases)
    (o : IsOutstanding j.lease q.leases) where
  pub reclaim_quiet :
      (q' : Queue) (l : Option ℕ)
      → q'.leases ≡ q.leases
      → l ≡ j.lease
      → (reclaim_lease l q').1 ≡ none
  unfolding reclaim_lease
  reclaim_quiet q' l p e = rw (p, e) ((reclaim-Balances q.leases j.lease b o).1)

  park_quiet : (park q j).error ≡ none
  unfolding park surrender
  park_quiet =
      reclaim_quiet (release_for j.id state_unset q) j.lease (release_for_leases _ _ q) refl

  settled_quiet :
      (now : ℕ) (r : Result Err (Job × Option ℕ))
      → door_finish cancelled now j ≡ r
      → failure r ≡ none
      → (settle_finished q j r).error ≡ none
  unfolding settle_finished
  settled_quiet now (err e) h f = cc
  settled_quiet now (ok (k, l)) h f =
      reclaim_quiet (release_for j.id state_unset q) l (release_for_leases _ _ q)
        ((door_finish_lease j k cancelled now l h).1)

  crossed_quiet :
      (to : State) (r : Result Err (Job × Option ℕ))
      → door_cross to j ≡ r
      → failure r ≡ none
      → (crossed_to q j to r).error ≡ none
  unfolding crossed_to
  crossed_quiet to (err e) h f = cc
  crossed_quiet to (ok (k, l)) h f =
      rw (reclaim_quiet q l refl ((door_cross_lease j k to l h).1)) refl

  moved_quiet :
      (q' : Queue) (j' : Job) (from to : State) (r : Result Err Job)
      → failure r ≡ none
      → (moved_to q' j' from to r).error ≡ none
  unfolding moved_to
  moved_quiet q' j' from to (err e) f = cc
  moved_quiet q' j' from to (ok k) f = refl

  move_to_quiet :
      (from to : State)
      → ((k : Job) → k.attempts ≡ j.attempts → failure (door_transition to k) ≡ none)
      → (move_to q j from to).error ≡ none
  unfolding move_to
  move_to_quiet from to f = elim (Bool-cases (grant_for q j to).2) [
    | inl h ↦ rw h (moved_quiet _ _ from to _ (f _ (grant_for_attempts q j to)))
    | inr h ↦ rw h refl
  ]

  move_on_quiet :
      snapshot_open (snapshot j) ≡ true
      → is_unset (state j).next ≡ false
      → (move_on (snapshot j) q j).error ≡ none
  unfolding move_on snapshot
  move_on_quiet w n = elim (Bool-cases (is_some (gated_by q (snapshot j)))) [
    | inl h ↦ rw h park_quiet
    | inr h ↦
        rw h (elim (Bool-cases (is_correctness (state j).state && is_production (state j).next)) [
          | inl c ↦ rw c (crossed_quiet (state j).next _ refl (cross_ok j v w n c))
          | inr c ↦ rw c (move_to_quiet (state j).state (state j).next (transition_ok j v w n c))
        ])
  ]

  make_runnable_quiet : (s : Snapshot) → (make_runnable s q j).error ≡ none
  unfolding make_runnable
  make_runnable_quiet s = elim (Bool-cases (holds q j.id s)) [
    | inl h ↦ rw h refl
    | inr h ↦
        rw h (elim (Bool-cases (is_some (gated_by q s))) [
          | inl k ↦ rw k park_quiet
          | inr k ↦ rw k refl
        ])
  ]

  begun_quiet :
      (now : ℕ) (g : Bool) (r : Result Err Job)
      → failure r ≡ none
      → (if g then after q j none else from_job q j r).error ≡ none
  unfolding from_job
  begun_quiet now true r f = refl
  begun_quiet now false (ok k) f = refl
  begun_quiet now false (err e) f = cc

  finish_cancel_quiet : (now : ℕ) → (finish_cancel now (snapshot j) q j).error ≡ none
  unfolding finish_cancel settle_locked snapshot
  finish_cancel_quiet now = elim (Bool-cases (is_unset (state j).state)) [
    | inl n ↦ rw n refl
    | inr n ↦ rw n (elim (Bool-cases (is_settled (state j).outcome)) [
      | inl u ↦ rw u refl
      | inr u ↦ rw u (elim (Bool-cases (running q j.id (snapshot j))) [
        | inl h ↦ rw h (interrupt (cancel_interrupts (state j).state))
        | inr h ↦ rw h (
            rw (same_outcome _)
              (settled_quiet now _ refl (finish_ok now j v (open_of_tests j n u))))
      ])
    ])
  ]
    where
      interrupt :
          (i : Bool)
          → (if not i
              then after q j none
              else after (record q { aborted = j.id ∷ q.aborted }) j none).error
            ≡ none
      interrupt true = refl
      interrupt false = refl

      same_outcome : (c : Bool) → (if c then cancelled else cancelled) ≡ cancelled
      same_outcome true = refl
      same_outcome false = refl

  -- A tick on a job in a legal configuration, whose lease is on the books, is never answered with an
  -- error: every move that it makes is one that the recorded destination allows.
  pub advance_quiet : (now : ℕ) → (advance now q j).error ≡ none
  unfolding advance snapshot
  advance_quiet now = elim (Bool-cases (is_latched j.intent)) [
    | inl h ↦ rw h (finish_cancel_quiet now)
    | inr h ↦ rw h (elim (Bool-cases (is_unset (state j).state)) [
      | inl n ↦ rw n (begun_quiet now _ _ (begin_ok now j v n))
      | inr n ↦ rw n (elim (Bool-cases (is_settled (state j).outcome)) [
        | inl u ↦ rw u refl
        | inr u ↦ rw u (elim (Bool-cases (is_unset (state j).next)) [
          | inl k ↦ rw k (make_runnable_quiet (snapshot j))
          | inr k ↦ rw k (move_on_quiet (open_of_tests j n u) k)
        ])
      ])
    ])
  ]
