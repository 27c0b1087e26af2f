-- ===== src/Dispatch/Steps.antt =====
-- The spans of d.mu (internal/dispatch) in the order in which they are taken. The callers of the
-- dispatcher run at the same time; each of their calls is a few of these spans, with others between them.
use sabnzbd_go.Base.{List, Option, String, [], ℕ, ◌∷◌}
use sabnzbd_go.Base.Result.{Result, err, ok}
use sabnzbd_go.Dispatch.Occupy.{leave, occupy, wait_live, wait_live_except}
use sabnzbd_go.Dispatch.Ports.{Header, Persisted}
use sabnzbd_go.Dispatch.Registry.{
  Dispatcher, Refusal, abort, begin_removal, begin_removal_if_idle, clear_launched, erase,
  mark_not_resident, mark_resident, mark_written, register,
}
use sabnzbd_go.Dispatch.Registry.Doors.{set_header}
use sabnzbd_go.Dispatch.Worker.{claim_launched, through}
use sabnzbd_go.Job.Record.{Job}
use sabnzbd_go.Sched.Doors.{After}
use sabnzbd_go.Sched.Queue.{Queue}
pub mod Teardown
pub mod Claims
pub mod Traces
pub mod Order

pub data Step : Type 0 where
  -- a job by its pointer, with its header and its sequence
  registers : ℕ → Header → Option ℕ → Step
  begins begins_if_idle aborts erases clears claims : String → Step
  occupies waits : String → Step
  leaves waits_except : String → ℕ → Step
  marks_resident marks_not_resident : String → Step
  marks_written : Persisted → Step
  sets_header : (Header → Header) → String → Step
  -- a door of the queue, on a job by its pointer; and a method of the job alone
  calls : ℕ → (Queue → Job → After) → Step

or_same : Dispatcher → Result Refusal Dispatcher → Dispatcher
or_same d (ok d') = d'
or_same d (err _) = d

or_left : Dispatcher → Result Refusal (Dispatcher × ℕ) → Dispatcher
or_left d (ok r) = r.0
or_left d (err _) = d

unfoldable pub take : Step → Dispatcher → Dispatcher
unfolding or_same or_left register begin_removal begin_removal_if_idle abort erase clear_launched
    claim_launched occupy leave wait_live wait_live_except mark_resident mark_not_resident
    mark_written set_header through
take (registers j h seq) d = or_same d (register j h seq d)
take (begins id) d = (begin_removal id d).0
take (begins_if_idle id) d = (begin_removal_if_idle id d).0
take (aborts id) d = abort id d
take (erases id) d = erase id d
take (clears id) d = clear_launched id d
take (claims id) d = (claim_launched id d).0
take (occupies id) d = or_left d (occupy id d)
take (leaves id tok) d = leave id tok d
take (waits id) d = (wait_live id d).0
take (waits_except id tok) d = (wait_live_except id tok d).0
take (marks_resident id) d = mark_resident id d
take (marks_not_resident id) d = mark_not_resident id d
take (marks_written p) d = mark_written p d
take (sets_header f id) d = or_same d (set_header f id d)
take (calls j door) d = (through j door d).0

unfoldable pub take_all : List Step → Dispatcher → Dispatcher
unfolding take
take_all [] d = d
take_all (x ∷ xs) d = take_all xs (take x d)
