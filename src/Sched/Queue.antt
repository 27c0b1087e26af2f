-- ===== src/Sched/Queue.antt =====
-- internal/sched/queue.go: the queue's state and the pure predicates over a job's snapshot.
-- The mutex is left out: a door is one atomic step. The clock's reading is an argument of the doors
-- that take one, and `aborted` records the calls of Workers.Abort, newest first.
use sabnzbd_go.Base.{
  ℕ, Bool, true, false, not, ◌&&◌, Option, none, some, List, [], String, if◌then◌else◌,
}
use sabnzbd_go.Job.Axes.{
  State, is_unset, is_settled, is_pause_intent, WaitReason, no_lease, no_compute_slot, user_paused,
  global_pause,
}
use sabnzbd_go.Job.Record.{Snapshot, snapshot_open}
use sabnzbd_go.Sched.Pool.{
  LeasePool, SlotPool, new_lease_pool, new_slot_pool, set_lease_capacity, set_slot_capacity,
  release, slot_holds, needs_lease, needs_slot,
}

pub record Queue : Type 0 where
  pub paused : Bool
  pub leases : LeasePool
  pub slots : SlotPool
  pub aborted : List String

-- New panics on a nil Workers or clock; neither can be nil here.
unfoldable pub new_queue : ℕ → ℕ → Queue
unfolding new_lease_pool new_slot_pool
new_queue lease_cap slot_cap = record {
  paused = false;
  leases = new_lease_pool lease_cap;
  slots = new_slot_pool slot_cap;
  aborted = [];
}

unfoldable pub pause : Queue → Queue
pause q = record q { paused = true }

unfoldable pub resume : Queue → Queue
resume q = record q { paused = false }

unfoldable pub set_caps : ℕ → ℕ → Queue → Queue
unfolding set_lease_capacity set_slot_capacity
set_caps lease_cap slot_cap q = record q {
  leases = set_lease_capacity lease_cap q.leases;
  slots = set_slot_capacity slot_cap q.slots;
}

-- The sole owner of slot release: it frees what the state does not require.
unfoldable pub release_for : String → State → Queue → Queue
unfolding needs_slot
release_for id s q = if needs_slot s then q else record q { slots = release id q.slots }

unfoldable pub holds : Queue → String → Snapshot → Bool
unfolding needs_lease needs_slot is_unset
holds q id s =
    if is_unset s.state.state
    then false
    else if needs_lease s.state.state && not s.holds_lease
    then false
    else if needs_slot s.state.state && not (slot_holds id q.slots)
    then false
    else true

unfoldable pub running : Queue → String → Snapshot → Bool
unfolding snapshot_open is_unset holds
running q id s = snapshot_open s && is_unset s.state.next && holds q id s

-- `none` is Go's (0, false).
unfoldable pub gated_by : Queue → Snapshot → Option WaitReason
unfolding is_pause_intent
gated_by q s =
    if is_pause_intent s.intent
    then some user_paused
    else if q.paused
    then some global_pause
    else none

-- What the position `want` lacks.
lacks : Queue → String → Snapshot → State → Option WaitReason
unfolding needs_lease needs_slot
lacks q id s want =
    if needs_lease want && not s.holds_lease
    then some no_lease
    else if needs_slot want && not (slot_holds id q.slots)
    then some no_compute_slot
    else none

ungated_reason : Queue → String → Snapshot → Option WaitReason
unfolding lacks is_unset
ungated_reason q id s =
    if is_unset s.state.state
    then some no_lease
    else lacks q id s (if is_unset s.state.next then s.state.state else s.state.next)

unfoldable pub wait_reason : Queue → String → Snapshot → Option WaitReason
unfolding is_settled running gated_by ungated_reason
wait_reason q id s =
    if is_settled s.state.outcome
    then none
    else if running q id s
    then none
    else elim (gated_by q s) [ some r ↦ some r | none ↦ ungated_reason q id s ]
