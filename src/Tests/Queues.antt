-- ===== src/Tests/Queues.antt =====
-- The scheduler (internal/sched) on concrete queues and worlds.
use sabnzbd_go.Sched.Ledger.{HasRoom, IsBook, IsOutstanding}
use sabnzbd_go.Sched.World.{
  settles, job_door, sets_next as act_sets_next, Action, advances, answer, run, start, step,
  submits,
}
use sabnzbd_go.Base.{
  ◌&&◌, inl, inr, List, Option, [], ap, arith, false, none, not, refl, some, true, ℕ, ◌∷◌, ◌≡◌, ◌≢◌,
}
use sabnzbd_go.Base.Keys.{contains, insert, remove, count, nat_eq}
use sabnzbd_go.Job.Attempt.{set_next, transition, Attempt, crossed, is_open}
use sabnzbd_go.Job.Axes.{
  cancelled, failed, is_latched, Intent, State, act_none, assessing, extracting, fetching,
  intent_cancel, intent_declared, intent_run, is_settled, is_unset, pending, state_eq, state_unset,
}
use sabnzbd_go.Job.Record.{
  door_cross, door_set_next, door_transition, grant, holds_lease, new, snapshot, snapshot_open, Job,
  Policy, state,
}
use sabnzbd_go.Job.Spine.{is_correctness, can_transition, is_production}
use sabnzbd_go.Sched.Doors.{
  crossed_to, grant_for, grant_issued, grant_slot, granted_slot, move_to, moved_to, reclaim_lease,
  advance, after,
}
use sabnzbd_go.Sched.Doors.Progress.{IsOnAt, advance-moves, advance-resumes}
use sabnzbd_go.Sched.Doors.Quiet.{advance_quiet}
use sabnzbd_go.Sched.Doors.SlotTicks.{advance-SlotStep}
use sabnzbd_go.Sched.Doors.Slots.{SlotStep}
use sabnzbd_go.Sched.Doors.Tick.{advance-cancelled, is_lease}
use sabnzbd_go.Sched.Pool.{
  acquire, issue, needs_lease, needs_slot, new_lease_pool, new_slot_pool, reclaim, slot_holds,
}
use sabnzbd_go.Sched.Queue.{gated_by, holds, new_queue, release_for, running, Queue}
use sabnzbd_go.Job.Admissible.{admits}
use sabnzbd_go.Job.Error.{not_outstanding}
use sabnzbd_go.Job.Record.Invariant.{IsJob}
use sabnzbd_go.Sched.World.Books.{IsWorld}
use sabnzbd_go.Sched.World.Leases.{audit_silent, run-IsWorld}

abbrev policy : Policy
policy = record { verify = true; repair = true; unpack = true; delete = true }

-- One job is submitted, served, told to assess, and moved on.
abbrev history : List (ℕ × Action)
history =
    (1, submits "a" "film" policy)
    ∷ (2, advances 0)
    ∷ (3, advances 0)
    ∷ (4, act_sets_next 0 assessing)
    ∷ (5, advances 0)
    ∷ []

-- An open attempt at `s`, with the destination `n` recorded.
abbrev at_place : State → State → Attempt
at_place s n = record {
  state = s;
  next = n;
  activity = act_none;
  outcome = pending;
  assessed = not (state_eq s fetching);
  started = 2;
  ended = 0;
}

abbrev job_at : State → State → Intent → Option ℕ → Job
job_at s n i l = record {
  id = "a";
  name = "film";
  policy = policy;
  attempts = at_place s n ∷ [];
  intent = i;
  lease = l;
  created = 1;
}

-- A queue with the lease 1 out, two leases in all and one slot, which is free.
abbrev one_out : Queue
one_out = record {
  paused = false;
  leases = record { capacity = 2; next = 1; issued = 1 ∷ [] };
  slots = record { capacity = 1; held = [] };
  aborted = [];
}

abbrev idle : Queue
idle = record one_out { leases = record { capacity = 2; next = 1; issued = [] } }

abbrev fetched : Job
fetched = job_at fetching assessing intent_run (some 1)

abbrev verified : Job
verified = job_at assessing extracting intent_run (some 1)

abbrev waiting : Job
waiting = job_at fetching state_unset intent_run none

abbrev downloading : Job
downloading = job_at fetching state_unset intent_run (some 1)

abbrev doomed : Job
doomed = job_at assessing state_unset intent_cancel (some 1)

history_run : run (start 2 1) history ≡ record {
  queue = record one_out { slots = record { capacity = 1; held = "a" ∷ [] } };
  jobs = job_at assessing state_unset intent_run (some 1) ∷ [];
}
unfolding run start step advance job_door door_set_next set_next new new_queue holds door_transition
    transition release_for new_slot_pool new_lease_pool is_correctness crossed_to door_cross
    reclaim_lease reclaim contains grant_for grant_issued issue granted_slot grant grant_slot
    needs_lease remove acquire insert moved_to move_to
history_run = refl

tick_over_the_boundary :
    advance 9 one_out verified
    ≡ after
        (record idle { slots = record { capacity = 1; held = "a" ∷ [] } })
        (job_at extracting state_unset intent_run none)
        none
unfolding advance is_correctness crossed_to door_cross reclaim_lease reclaim contains grant_for
    grant_issued issue granted_slot grant grant_slot needs_lease remove acquire insert moved_to
    move_to
tick_over_the_boundary = refl

one_out-IsBook : IsBook one_out.leases
unfolding count
one_out-IsBook = record { at = λ k. ground arith }

lease_one-IsOutstanding : IsOutstanding (some 1) one_out.leases
unfolding count
lease_one-IsOutstanding = λ k. ground arith

none-IsOutstanding : IsOutstanding none one_out.leases
none-IsOutstanding = λ k. omega arith

fetched-IsJob : IsJob fetched
unfolding is_unset is_open crossed is_production can_transition is_settled state_eq admits
    intent_declared
fetched-IsJob = ground arith

verified-IsJob : IsJob verified
unfolding is_unset is_open crossed is_production can_transition is_settled state_eq admits
    intent_declared
verified-IsJob = ground arith

waiting-IsJob : IsJob waiting
unfolding is_unset is_open crossed is_production can_transition is_settled state_eq admits
    intent_declared
waiting-IsJob = ground arith

doomed-IsJob : IsJob doomed
unfolding is_unset is_open crossed is_production can_transition is_settled state_eq admits
    intent_declared
doomed-IsJob = ground arith

run-IsWorld_example : IsWorld (run (start 2 1) history)
run-IsWorld_example = run-IsWorld 2 1 history (omega arith)

abbrev room : HasRoom (run (start 2 1) history).queue.leases
room = omega (arith, ap (λ w. w.queue.leases.next) history_run)

abbrev sound : IsWorld (run (start 2 1) history)
sound = run-IsWorld 2 1 history (omega arith)

audit_silent_example : answer (run (start 2 1) history) (9, settles 0 failed) ≢ some not_outstanding
audit_silent_example = audit_silent (run (start 2 1) history) (9, settles 0 failed) sound room

abbrev first : ℕ
first = 0

abbrev assessed_job : Job
assessed_job = job_at assessing state_unset intent_run (some 1)

-- `a` works at Extracting and holds the slot.
abbrev busy : Queue
busy = record idle { slots = record { capacity = 1; held = "a" ∷ [] } }

abbrev extracting_now : Job
extracting_now = job_at extracting state_unset intent_run none

advance_quiet_example : (advance 9 one_out verified).error ≡ none
advance_quiet_example =
    advance_quiet one_out verified verified-IsJob one_out-IsBook lease_one-IsOutstanding 9

advance-moves_example : IsOnAt extracting (advance 9 one_out verified)
unfolding needs_lease needs_slot snapshot snapshot_open is_latched gated_by is_unset is_settled
advance-moves_example =
    advance-moves 9 one_out verified verified-IsJob (omega arith) one_out-IsBook
      lease_one-IsOutstanding refl refl refl refl (inl refl, inr (inr (omega arith)))

advance-resumes_example :
    let a = advance 9 one_out waiting in
    (running a.queue a.job.id (snapshot a.job) ≡ true) × (state a.job ≡ state waiting)
unfolding needs_lease needs_slot snapshot snapshot_open is_latched gated_by is_unset is_settled
advance-resumes_example =
    advance-resumes 9 one_out waiting waiting-IsJob (omega arith) refl refl refl refl
      (inr (inr (omega arith)), inl refl)

advance-SlotStep_example : SlotStep "b" one_out verified (advance 9 one_out verified)
unfolding slot_holds needs_slot snapshot snapshot_open contains
advance-SlotStep_example = advance-SlotStep "b" one_out verified refl 9 refl

advance-cancelled_example :
    let a = advance 9 one_out doomed in
    ((state a.job).outcome ≡ cancelled)
    × (holds_lease a.job ≡ false)
    × (slot_holds "a" a.queue.slots ≡ false)
    × ((id : ℕ)
        → contains id a.queue.leases.issued
          ≡ (contains id one_out.leases.issued && not (is_lease doomed.lease id)))
    × ((state a.job).state ≡ (state doomed).state)
unfolding running holds snapshot snapshot_open slot_holds contains is_latched is_settled is_unset
    needs_lease needs_slot state
advance-cancelled_example = advance-cancelled 9 one_out doomed doomed-IsJob refl refl refl
