-- ===== src/Dispatch/Worker.antt =====
-- internal/dispatch/{dispatch,worker}.go: the calls that act on a registered job through the queue, and
-- the claim that keeps a job's workers to one. Each call is a few spans of the two locks in a row.
use sabnzbd_go.Base.{
  if◌then◌else◌, Bool, Option, String, false, is_some, none, not, some, true, ℕ, ◌+◌, ◌==◌, ◌||◌,
}
use sabnzbd_go.Dispatch.Occupy.{Wait, on_channel, over}
use sabnzbd_go.Dispatch.Registry.{
  Dispatcher, Entry, Refusal, admits, clear_launched, id_of, not_found, put,
}
use sabnzbd_go.Job.Axes.{Intent, Outcome, State, intent_pause, intent_run, is_cancelled}
use sabnzbd_go.Job.Error.{Err}
use sabnzbd_go.Job.Record.{Job, set_intent}
use sabnzbd_go.Sched.Doors.{After, cancel, from_job, park, retry, settle}
use sabnzbd_go.Sched.Queue.{Queue}
use sabnzbd_go.Sched.Render.{render}

-- What a call answers: the dispatcher's refusal, or the queue's or the job's error.
pub data Problem : Type 0 where
  refusal : Refusal → Problem
  queue_error : Err → Problem
  reserved_outcome : Problem

-- A door of the queue, applied to the job behind a pointer.
unfoldable pub through : ℕ → (Queue → Job → After) → Dispatcher → Dispatcher × Option Err
through j door d =
    let a = door d.queue (d.jobs j) in
    (record d { queue = a.queue; jobs = λ x. if j == x then a.job else d.jobs x }, a.error)

unfoldable pub answer : Dispatcher × Option Err → Dispatcher × Option Problem
answer (d, none) = (d, none)
answer (d, some e) = (d, some (queue_error e))

unfoldable pub call_on :
    Option Entry → (Queue → Job → After) → Dispatcher → Dispatcher × Option Problem
unfolding through answer
call_on none door d = (d, some (refusal not_found))
call_on (some e) door d = answer (through e.job door d)

-- Dispatcher.Cancel and Dispatcher.Retry
unfoldable pub cancel_job : ℕ → String → Dispatcher → Dispatcher × Option Problem
unfolding call_on
cancel_job now id d = call_on (d.by_id id) (cancel now) d

unfoldable pub retry_job : ℕ → String → Dispatcher → Dispatcher × Option Problem
unfolding call_on
retry_job now id d = call_on (d.by_id id) (retry now) d

unfoldable pub intend : Intent → Queue → Job → After
unfolding from_job
intend i q j = from_job q j (set_intent i j)

unfoldable pub pause_job : String → Dispatcher → Dispatcher × Option Problem
unfolding call_on intend
pause_job id d = call_on (d.by_id id) (intend intent_pause) d

unfoldable pub resume_job : String → Dispatcher → Dispatcher × Option Problem
unfolding call_on intend
resume_job id d = call_on (d.by_id id) (intend intent_run) d

-- Clears the claim behind a call, whatever it answered.
unfoldable pub then_clear : String → Dispatcher × Option Problem → Dispatcher × Option Problem
unfolding clear_launched
then_clear id (d, e) = (clear_launched id d, e)

unfoldable pub finish_found :
    ℕ → Outcome → String → Option Entry → Dispatcher → Dispatcher × Option Problem
unfolding then_clear call_on
finish_found now o id none d = (d, some (refusal not_found))
finish_found now o id (some e) d =
    then_clear id
      (if is_cancelled o then (d, some reserved_outcome) else call_on (some e) (settle now o) d)

unfoldable pub finished : ℕ → String → Outcome → Dispatcher → Dispatcher × Option Problem
unfolding finish_found
finished now id o d = finish_found now o id (d.by_id id) d

-- `expected != nil && e.j != expected`
unfoldable pub is_expected : Option ℕ → Entry → Bool
is_expected none e = true
is_expected (some j) e = e.job == j

unfoldable pub yield_found :
    Option ℕ → String → Option Entry → Dispatcher → Dispatcher × Option Problem
unfolding is_expected then_clear call_on
yield_found expected id none d = (d, some (refusal not_found))
yield_found expected id (some e) d =
    if not (is_expected expected e)
    then (d, some (refusal not_found))
    else then_clear id (call_on (some e) park d)

-- YieldedFor; Yielded expects nothing, and YieldedJob its job.
unfoldable pub yielded_for : String → Option ℕ → Dispatcher → Dispatcher × Option Problem
unfolding yield_found
yielded_for id expected d = yield_found expected id (d.by_id id) d

unfoldable pub claim_launched : String → Dispatcher → Dispatcher × Bool
unfolding admits
claim_launched id d =
    if not (admits d id)
    then (d, false)
    else if is_some (d.launched id)
    then (d, false)
    else (record d { launched = put d.launched id (some d.fresh); fresh = d.fresh + 1 }, true)

-- `i == IntentRun`
unfoldable pub is_run_intent : Intent → Bool
is_run_intent intent_run = true
is_run_intent _ = false

-- The call of Runner.Run that launch makes, if it makes one.
unfoldable pub launch_claimed :
    String → State → Dispatcher × Bool → Dispatcher × Option (String × State)
launch_claimed id s (d, true) = (d, some (id, s))
launch_claimed id s (d, false) = (d, none)

unfoldable pub launch : ℕ → Dispatcher → Dispatcher × Option (String × State)
unfolding render id_of claim_launched launch_claimed is_run_intent
launch j d =
    let v = render d.queue (d.jobs j) in
    if not v.running || not (is_run_intent v.intent)
    then (d, none)
    else launch_claimed (id_of d j) v.view.state (claim_launched (id_of d j) d)

-- waitLaunched up to its select
unfoldable pub wait_launched : String → Dispatcher → Wait
wait_launched id d = elim (d.launched id) [ none ↦ over | some ch ↦ on_channel ch ]
