-- ===== src/Sched/Doors.antt =====
-- internal/sched/{advance,settle,cancel}.go: the doors that move a job. Each returns the queue and the
-- job as it leaves them, and the error if there is one.
use sabnzbd_go.Base.{
  ℕ, Bool, true, false, not, ◌&&◌, Option, none, some, ◌∷◌, is_some, if◌then◌else◌,
}
use sabnzbd_go.Base.Result.{Result, ok, err}
use sabnzbd_go.Job.Axes.{
  State, state_unset, is_unset, Outcome, cancelled, is_cancelled, is_settled, intent_cancel,
  is_latched,
}
use sabnzbd_go.Job.Spine.{is_correctness, is_production}
use sabnzbd_go.Job.Record.{
  Job, Snapshot, snapshot, begin_attempt, surrender, door_transition, door_cross, door_finish,
  set_intent, holds_lease, grant,
}
use sabnzbd_go.Job.Error.{Err, not_settled, cancel_reserved}
use sabnzbd_go.Sched.Pool.{issue, reclaim, acquire, needs_lease, needs_slot}
use sabnzbd_go.Sched.Queue.{Queue, release_for, holds, running, gated_by}
pub mod Serves
pub mod Ticks
pub mod SlotTicks
pub mod Progress
pub mod Slots
pub mod Quiet
pub mod Tick
pub mod Reaches
pub mod Accounts

pub record After : Type 0 where
  pub queue : Queue
  pub job : Job
  pub error : Option Err

abbrev pub after : Queue → Job → Option Err → After
after q j e = record { queue = q; job = j; error = e }

-- Queue.reclaim: the sole return path of a lease.
unfoldable pub reclaim_lease : Option ℕ → Queue → Queue × Option Err
reclaim_lease l q = let (p, e) = reclaim l q.leases in (record q { leases = p }, e)

-- A door of the job that returns no lease, applied while the queue stays as it is.
unfoldable pub from_job : Queue → Job → Result Err Job → After
from_job q j (ok j') = after q j' none
from_job q j (err e) = after q j (some e)

unfoldable pub park : Queue → Job → After
park q j =
    let (j', l) = surrender j in
    let (q', e) = reclaim_lease l (release_for j.id state_unset q) in after q' j' e

-- The second half of grantFor: the compute slot.
unfoldable pub grant_slot : Queue → Job → State → Queue × Job × Bool
grant_slot q j s =
    let (p, got) = acquire j.id q.slots in
    if needs_slot s then (record q { slots = p }, j, got) else (q, j, true)

-- The job's answer to the lease that the pool issued: it takes it, or the lease goes back.
unfoldable pub granted_slot : Queue → Job → State → ℕ → Result Err Job → Queue × Job × Bool
granted_slot q j s id (ok j') = grant_slot q j' s
granted_slot q j s id (err _) = ((reclaim_lease (some id) q).0, j, false)

-- The first half of grantFor: the lease.
unfoldable pub grant_issued : Queue → Job → State → Option ℕ → Queue × Job × Bool
grant_issued q j s none = (q, j, false)
grant_issued q j s (some id) = granted_slot q j s id (grant (some id) j)

unfoldable pub grant_for : Queue → Job → State → Queue × Job × Bool
grant_for q j s =
    let (p, l) = issue q.leases in
    if needs_lease s && not (holds_lease j)
    then grant_issued (record q { leases = p }) j s l
    else grant_slot q j s

unfoldable pub retry : ℕ → Queue → Job → After
retry now q j =
    if not (is_settled (snapshot j).state.outcome)
    then after q j (some not_settled)
    else from_job (release_for j.id state_unset q) j (begin_attempt now j)

unfoldable pub cancel_interrupts : State → Bool
cancel_interrupts s = not (is_production s)

-- Finish's result: on an error nothing is released; otherwise the slot, and then the lease.
unfoldable pub settle_finished : Queue → Job → Result Err (Job × Option ℕ) → After
settle_finished q j (err e) = after q j (some e)
settle_finished q j (ok (j', l)) =
    let (q', e) = reclaim_lease l (release_for j.id state_unset q) in after q' j' e

unfoldable pub settle_locked : ℕ → Outcome → Snapshot → Queue → Job → After
settle_locked now o s q j =
    let o' = if is_latched s.intent && cancel_interrupts s.state.state then cancelled else o in
    settle_finished q j (door_finish o' now j)

unfoldable pub settle : ℕ → Outcome → Queue → Job → After
settle now o q j =
    if is_cancelled o
    then after q j (some cancel_reserved)
    else settle_locked now o (snapshot j) q j

unfoldable pub finish_cancel : ℕ → Snapshot → Queue → Job → After
finish_cancel now s q j =
    if is_unset s.state.state
    then after q j none
    else if is_settled s.state.outcome
    then after (release_for j.id state_unset q) j none
    else if running q j.id s
    then (if not (cancel_interrupts s.state.state)
        then after q j none
        else after (record q { aborted = j.id ∷ q.aborted }) j none)
    else settle_locked now cancelled s q j

unfoldable pub cancel_latched : ℕ → Queue → Job → Result Err Job → After
cancel_latched now q j (err e) = after q j (some e)
cancel_latched now q j (ok j') = finish_cancel now (snapshot j') q j'

unfoldable pub cancel : ℕ → Queue → Job → After
cancel now q j = cancel_latched now q j (set_intent intent_cancel j)

-- The tail of moveTo: Transition, and the release of what the position it leaves the job at lacks use for.
unfoldable pub moved_to : Queue → Job → State → State → Result Err Job → After
moved_to q j from to (err e) = after (release_for j.id from q) j (some e)
moved_to q j from to (ok j') = after (release_for j'.id to q) j' none

unfoldable pub move_to : Queue → Job → State → State → After
move_to q j from to =
    let (q', j', got) = grant_for q j to in
    if not got then after q' j' none else moved_to q' j' from to (door_transition to j')

-- The crossing arm of Advance, after Cross: reclaim, and then the destination's slot if there is one.
unfoldable pub crossed_to : Queue → Job → State → Result Err (Job × Option ℕ) → After
crossed_to q j to (err e) = after q j (some e)
crossed_to q j to (ok (j', l)) =
    let (q', e) = reclaim_lease l q in
    let (q'', j'', _) = grant_for q' j' to in
    if is_some e then after q' j' e else after q'' j'' none

-- Branch 2: the current state's work is unfinished.
unfoldable pub make_runnable : Snapshot → Queue → Job → After
make_runnable s q j =
    let (q', j', _) = grant_for q j s.state.state in
    if holds q j.id s
    then after q j none
    else if is_some (gated_by q s)
    then park q j
    else after q' j' none

-- Branch 3: the work is finished, and the move is to what it recorded.
unfoldable pub move_on : Snapshot → Queue → Job → After
move_on s q j =
    if is_some (gated_by q s)
    then park q j
    else if is_correctness s.state.state && is_production s.state.next
    then crossed_to q j s.state.next (door_cross s.state.next j)
    else move_to q j s.state.state s.state.next

unfoldable pub advance : ℕ → Queue → Job → After
unfolding snapshot is_latched finish_cancel is_unset gated_by begin_attempt from_job is_settled
    release_for make_runnable move_on
advance now q j =
    let s = snapshot j in
    if is_latched s.intent
    then finish_cancel now s q j
    else if is_unset s.state.state
    then (if is_some (gated_by q s) then after q j none else from_job q j (begin_attempt now j))
    else if is_settled s.state.outcome
    then after (release_for j.id state_unset q) j none
    else if is_unset s.state.next
    then make_runnable s q j
    else move_on s q j
