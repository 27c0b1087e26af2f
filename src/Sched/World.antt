-- ===== src/Sched/World.antt =====
-- The queue with all of its jobs, and every action that the dispatcher, the workers and the user take
-- on them through the exported methods of internal/sched and internal/job. An action that is refused
-- leaves its error to the caller. Removing a job is the dispatcher's own business and not an action.
use sabnzbd_go.Base.{ℕ, suc, ◌+◌, Option, none, some, List, [], ◌∷◌, ◌++◌, String, get_elem?, set}
use sabnzbd_go.Base.Result.{Result, ok, err}
use sabnzbd_go.Job.Axes.{State, Outcome, Activity, Intent}
use sabnzbd_go.Job.Record.{
  Job, Policy, new, door_set_next, door_set_activity, set_intent, set_name, set_policy, set_added,
}
use sabnzbd_go.Job.Error.{Err}
use sabnzbd_go.Sched.Queue.{Queue, new_queue, pause, resume, set_caps}
use sabnzbd_go.Sched.Doors.{After, after, advance, park, retry, settle, cancel}
pub mod Books
pub mod Actions
pub mod Leases

pub record World : Type 0 where
  pub queue : Queue
  pub jobs : List Job

pub data Action : Type 0 where
  -- jobs are named by their place in the list
  advances parks retries cancels : ℕ → Action
  settles : ℕ → Outcome → Action
  sets_next : ℕ → State → Action
  sets_activity : ℕ → Activity → Action
  intends : ℕ → Intent → Action
  renames : ℕ → String → Action
  repolicies : ℕ → Policy → Action
  redates : ℕ → ℕ → Action
  submits : String → String → Policy → Action
  pauses resumes : Action
  sets_caps : ℕ → ℕ → Action

-- A method of the job alone; the queue does not see it.
unfoldable pub job_door : Result Err Job → Queue → Job → After
job_door (ok j') q j = after q j' none
job_door (err e) q j = after q j (some e)

put : World → ℕ → After → World
put w i a = record { queue = a.queue; jobs = set w.jobs i a.job }

on_found : World → ℕ → (Queue → Job → After) → Option Job → World
on_found w i door none = w
on_found w i door (some j) = put w i (door w.queue j)

on_job : World → ℕ → (Queue → Job → After) → World
on_job w i door = on_found w i door (get_elem? w.jobs i)

-- What a call on a job does to the queue and the job.
unfoldable pub call : ℕ → Action → Option (ℕ × (Queue → Job → After))
call now (advances i) = some (i, advance now)
call now (parks i) = some (i, park)
call now (retries i) = some (i, retry now)
call now (cancels i) = some (i, cancel now)
call now (settles i o) = some (i, settle now o)
call now (sets_next i n) = some (i, λ q j. job_door (door_set_next n j) q j)
call now (sets_activity i x) = some (i, λ q j. job_door (door_set_activity x j) q j)
call now (intends i x) = some (i, λ q j. job_door (set_intent x j) q j)
call now (renames i n) = some (i, λ q j. after q (set_name n j) none)
call now (repolicies i p) = some (i, λ q j. after q (set_policy p j) none)
call now (redates i t) = some (i, λ q j. after q (set_added t j) none)
call now _ = none

unfoldable pub step : World → ℕ × Action → World
unfolding on_job on_found put call
step w (now, submits id name p) = record w { jobs = w.jobs ++ new id name p now ∷ [] }
step w (now, pauses) = record w { queue = pause w.queue }
step w (now, resumes) = record w { queue = resume w.queue }
step w (now, sets_caps a b) = record w { queue = set_caps a b w.queue }
step w (now, x) = elim (call now x) [ none ↦ w | some (i, door) ↦ on_job w i door ]

answer_found : Queue → (Queue → Job → After) → Option Job → Option Err
answer_found q door none = none
answer_found q door (some j) = (door q j).error

-- The error that an action returns to its caller.
unfoldable pub answer : World → ℕ × Action → Option Err
unfolding call answer_found
answer w (now, x) = elim (call now x) [
  | none ↦ none
  | some (i, door) ↦ answer_found w.queue door (get_elem? w.jobs i)
]

-- The actions in the order in which the queue's lock serves them, each with the clock's reading.
unfoldable pub run : World → List (ℕ × Action) → World
run w [] = w
run w (x ∷ xs) = run (step w x) xs

unfoldable pub start : ℕ → ℕ → World
start lease_cap slot_cap = record { queue = new_queue lease_cap slot_cap; jobs = [] }
