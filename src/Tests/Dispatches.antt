-- ===== src/Tests/Dispatches.antt =====
-- The dispatcher (internal/dispatch) on a registry of one or two jobs.
use sabnzbd_go.Dispatch.Registry.{
  duplicate_id, Dispatcher, Entry, abort, admits, begin_removal, begin_removal_locked, close,
  delete_first, erase, id_of, mark_resident, mark_written, new_dispatcher, put, register,
  registered,
}
use sabnzbd_go.Dispatch.Restart.{
  after_row, allocate, not_entered, restore, restore_row, restore_rows, row_rebuilt, row_registered,
}
use sabnzbd_go.Dispatch.Restart.Rollback.{Unchanged, restore-Unchanged}
use sabnzbd_go.Dispatch.Restore.{
  path_of, replay_activity, replay_next, replay_outcome, replay_path, replay_rest, take_hop,
  take_hops, reconstruct,
}
use sabnzbd_go.Dispatch.Steps.Claims.{ClaimIsKept, clear_due}
use sabnzbd_go.Dispatch.Steps.Traces.{new_dispatcher-IsRegistry, IsRegistry, run-IsRegistry}
use sabnzbd_go.Job.Record.{set_added, Job, Policy, new, snapshot, state, grant}
use sabnzbd_go.Dispatch.Occupy.{over, wait_live, drain, leave, occupy, renew_step}
use sabnzbd_go.Base.{
  String, Bool, List, [], arith, false, none, refl, some, suc, true, zero, ℕ, ◌∷◌, ◌≡◌,
}
use sabnzbd_go.Base.Keys.{remove}
use sabnzbd_go.Base.Result.{ok}
use sabnzbd_go.Dispatch.Ports.{Header, Persisted, negsuc}
use sabnzbd_go.Dispatch.Restore.RoundTrip.{state-reconstruct}
use sabnzbd_go.Dispatch.Steps.{
  Step, aborts, take, take_all, marks_resident, registers, begins, claims, occupies, erases, leaves,
}
use sabnzbd_go.Dispatch.Steps.Order.{Orders, are_in_order, is_in_order, run-Orders}
use sabnzbd_go.Dispatch.Steps.Teardown.{
  Quieter, erases_any, erases_it, releases, releases_all, teardown-Quieter,
}
use sabnzbd_go.Dispatch.Tick.{
  DispatchState, Outside, advanced_turn, evict_cancelled_never_run, hydrate, is_written, kept_turn,
  loaded, persist_found, persist_if_changed, reconcile_residency, row_of, save, settle_turn, tick,
  turn,
}
use sabnzbd_go.Dispatch.Tick.Recorded.{tick-IsRecorded}
use sabnzbd_go.Dispatch.Tick.Residency.{reconcile-resident}
use sabnzbd_go.Dispatch.Tick.Rows.{IsRecorded, persist-reconstruct}
use sabnzbd_go.Dispatch.Tick.Starts.{Answered, turn-Starts}
use sabnzbd_go.Dispatch.Worker.{claim_launched, launch, launch_claimed, through}
use sabnzbd_go.Job.Attempt.{Attempt, crossed, is_open}
use sabnzbd_go.Job.Axes.{
  Outcome, State, act_none, fetching, finalizing, intent_declared, intent_run, is_settled, is_unset,
  ok_outcome, pending, state_eq, state_unset,
}
use sabnzbd_go.Job.Record.Invariant.{IsJob}
use sabnzbd_go.Job.Admissible.{admits as admits_at}
use sabnzbd_go.Job.Spine.{can_transition, is_production}
use sabnzbd_go.Sched.Doors.{advance, grant_for, grant_issued, granted_slot, grant_slot}
use sabnzbd_go.Sched.Pool.{issue}
use sabnzbd_go.Sched.Queue.{holds}
use sabnzbd_go.Sched.Render.{render}

abbrev policy : Policy
policy = record { verify = true; repair = true; unpack = true; delete = true }

abbrev attempt_in : State → Bool → Outcome → Attempt
attempt_in s assessed o = record {
  state = s;
  next = state_unset;
  activity = act_none;
  outcome = o;
  assessed = assessed;
  started = 1;
  ended = 0;
}

abbrev job_with : Attempt → Job
job_with a = record (new "a" "film" policy 1) { attempts = a ∷ [] }

-- One job that downloads, and one that was completed.
abbrev downloading : Job
downloading = job_with (attempt_in fetching false pending)

abbrev completed : Job
completed = job_with (attempt_in finalizing true ok_outcome)

abbrev header : Header
header = record {
  name = "film";
  filename = "film.nzb";
  category = "*";
  priority = negsuc 99;
  bytes = 1000;
  warning = "";
  script = "";
  password = "";
  pp = 3;
  nzb_backup = "";
  url = "";
  md5 = "";
  added = 5;
}

abbrev entry : Entry
entry = record { job = 0; header = header; seq = 0 }

abbrev registry : Job → Dispatcher
registry j = record (new_dispatcher 1 1 (λ _. j)) {
  by_id = put (λ _. none) "a" (some entry);
  order = "a" ∷ [];
  next_seq = 1;
}

abbrev state_of : Job → DispatchState
state_of j = record { dispatcher = registry j; rows = λ _. none; runs = [] }

abbrev outside : Outside
outside = record {
  now = 9;
  stamps = record { started = 0; finished = 0; release_reason = ""; recovery_bytes = 0 };
  hydrated = loaded;
  saved = true;
  deleted = true;
}

-- The turn serves the job, loads its content and starts its worker.
worker_started : (turn outside 0 (state_of downloading)).runs ≡ ("a", fetching) ∷ []
unfolding turn advanced_turn through advance evict_cancelled_never_run kept_turn settle_turn
    reconcile_residency hydrate launch launch_claimed claim_launched mark_resident admits registered
    persist_if_changed persist_found save mark_written is_written render new_dispatcher new id_of
    snapshot grant_for grant_issued issue granted_slot grant grant_slot
worker_started = refl

completed-IsJob : IsJob completed
unfolding is_unset is_open crossed is_production can_transition is_settled state_eq admits_at
    intent_declared new
completed-IsJob = ground arith

state-reconstruct_example :
    (j' : Job) × (reconstruct "a" "film" policy (state completed) intent_run 9 ≡ ok j')
    × (state j' ≡ state completed)
    × (j'.intent ≡ intent_run)
    × (j'.id ≡ "a")
    × (j'.lease ≡ none)
unfolding new
state-reconstruct_example = state-reconstruct completed "film" policy 9 completed-IsJob

-- Of two markers one is given up, and the other is still there, so the late occupier and worker are refused.
abbrev attempts_to_attach : List Step
attempts_to_attach = aborts "a" ∷ occupies "a" ∷ claims "a" ∷ marks_resident "a" ∷ []

abbrev torn : Dispatcher
torn = take_all (begins "a" ∷ begins "a" ∷ []) (registry completed)

teardown-Quieter_example :
    Quieter "a" torn (take_all attempts_to_attach torn)
    × (admits (take_all attempts_to_attach torn) "a" ≡ false)
unfolding take take_all releases_all releases erases_any erases_it begin_removal
    begin_removal_locked registered new_dispatcher abort occupy
teardown-Quieter_example = teardown-Quieter "a" attempts_to_attach torn (omega arith) refl

turn-Starts_example : Answered 0 (state_of downloading) (turn outside 0 (state_of downloading))
turn-Starts_example = turn-Starts outside 0 (state_of downloading)

unwritten : IsRecorded (state_of completed)
unfolding new_dispatcher
unwritten id p h = cc

persist-reconstruct_example :
    (p : Persisted) × ((persist_if_changed outside 0 (state_of completed)).0.rows "a" ≡ some p)
    × (j' : Job) × (reconstruct p.id p.header.name p.policy p.state p.intent 9 ≡ ok j')
    × (state j' ≡ state completed)
    × (j'.intent ≡ intent_run)
    × (j'.id ≡ "a")
    × (j'.lease ≡ none)
unfolding persist_if_changed persist_found save is_written admits registered new_dispatcher id_of
    new row_of snapshot
persist-reconstruct_example =
    persist-reconstruct outside 0 9 (state_of completed) entry unwritten completed-IsJob refl refl
      refl

tick-IsRecorded_example : IsRecorded (tick (λ _. outside) (state_of completed))
tick-IsRecorded_example = tick-IsRecorded (λ _. outside) (state_of completed) unwritten

abbrev two_jobs : ℕ → Job
two_jobs zero = downloading
two_jobs (suc _) = record completed { id = "b" }

-- The second job stays where it is in the order when the first goes.
abbrev adds : List Step
adds =
    registers 0 header none
    ∷ occupies "a"
    ∷ registers 1 header none
    ∷ begins "a"
    ∷ erases "a"
    ∷ leaves "a" 0
    ∷ registers 0 header none
    ∷ []

order_kept : (take_all adds (new_dispatcher 1 1 two_jobs)).order ≡ "b" ∷ "a" ∷ []
unfolding take take_all register registered id_of occupy admits begin_removal begin_removal_locked
    erase delete_first leave remove drain new_dispatcher close new renew_step
order_kept = refl

run-IsRegistry_example :
    let d = take_all adds (new_dispatcher 1 1 two_jobs) in
    IsRegistry d × ((id : String) → ClaimIsKept id (clear_due id adds false) d)
run-IsRegistry_example = run-IsRegistry 1 1 two_jobs adds

run-Orders_example : Orders (take_all adds (new_dispatcher 1 1 two_jobs))
unfolding are_in_order is_in_order
run-Orders_example = run-Orders 1 1 two_jobs adds refl

reconcile-resident_example :
    let d = (reconcile_residency outside 0 (registry downloading)).0 in
    d.resident "a" ≡ (render d.queue (d.jobs 0)).holds
unfolding reconcile_residency admits registered new_dispatcher id_of render new snapshot holds
reconcile-resident_example = reconcile-resident outside 0 (registry downloading) refl refl

-- An occupier whose job was deregistered leaves after the key was added and occupied again: the count
-- falls to 0 beside the new occupier's token, and a wait for the occupiers is over at once.
abbrev stale_leave : List Step
stale_leave =
    registers 0 header none
    ∷ occupies "a"
    ∷ erases "a"
    ∷ registers 0 header none
    ∷ occupies "a"
    ∷ leaves "a" 0
    ∷ []

abbrev after_stale_leave : Dispatcher
after_stale_leave = take_all stale_leave (new_dispatcher 1 1 two_jobs)

stale_leave_run :
    (after_stale_leave.tokens "a" ≡ 1 ∷ []) × ((wait_live "a" after_stale_leave).1 ≡ over)
unfolding take take_all register registered id_of occupy admits erase delete_first leave remove
    drain new_dispatcher close new renew_step wait_live
stale_leave_run = (refl, refl)

-- Two rows with one id: the second is refused, and the first is taken back.
abbrev row : Persisted
row = row_of outside.stamps header 4 completed

restored :
    (restore 9 (λ rows. rows) (some (row ∷ [])) (new_dispatcher 1 1 two_jobs)).0.order ≡ "a" ∷ []
unfolding restore restore_rows after_row restore_row row_rebuilt row_registered row_of snapshot
    reconstruct take_hops take_hop path_of replay_path replay_rest replay_next replay_activity
    replay_outcome allocate register registered id_of new_dispatcher new set_added mark_written
restored = refl

restore-Unchanged_example :
    Unchanged
      (new_dispatcher 1 1 two_jobs)
      (restore 9 (λ rows. rows) (some (row ∷ row ∷ [])) (new_dispatcher 1 1 two_jobs)).0
unfolding restore restore_rows after_row restore_row row_rebuilt row_registered row_of snapshot
    reconstruct take_hops take_hop path_of replay_path replay_rest replay_next replay_activity
    replay_outcome allocate register registered id_of new_dispatcher new set_added mark_written
restore-Unchanged_example =
    restore-Unchanged 9 (λ rows. rows) (some (row ∷ row ∷ [])) (new_dispatcher 1 1 two_jobs)
      (not_entered duplicate_id) (new_dispatcher-IsRegistry 1 1 two_jobs) refl
