-- ===== src/Job/Record.antt =====
-- internal/job/{job,lease,policy}.go: a job, and the doors through which everything else moves it.
-- The mutexes are left out: a door is one atomic step. `attempts` has the newest attempt first, and a
-- `*Lease` is an option of its id. The manifest and the progress of the job's content are not here.
use sabnzbd_go.Base.{
  ℕ, Bool, true, false, not, ◌&&◌, ◌-◌, Option, none, some, List, [], ◌∷◌, String, ◌==◌, leb, ltb,
  length, get_elem?, is_some, if◌then◌else◌,
}
use sabnzbd_go.Base.Result.{Result, ok, err, ◌>>=◌}
use sabnzbd_go.Job.Axes.{
  State, state_eq, Outcome, is_settled, Intent, intent_run, intent_declared, is_latched, Activity,
  StateView, zero_view,
}
use sabnzbd_go.Job.Attempt.{
  Attempt, new_attempt, is_open, crossed, view, set_next, transition, cross, set_activity, finish,
}
use sabnzbd_go.Job.Error.{
  Err, no_open_attempt, boundary_consumed, intent_latched, invalid_intent, already_leased,
  nil_lease, unidentified_lease, lease_after_boundary,
}
pub mod Invariant

pub record Policy : Type 0 where
  pub verify : Bool
  pub repair : Bool
  pub unpack : Bool
  pub delete : Bool

pub record Job : Type 0 where
  pub id : String
  pub name : String
  pub policy : Policy
  pub attempts : List Attempt
  pub intent : Intent
  pub lease : Option ℕ
  pub created : ℕ

-- LeaseUnset, the id of a lease that nobody issued.
abbrev pub lease_unset : ℕ
lease_unset = 0

unfoldable pub new : String → String → Policy → ℕ → Job
new id name p now = record {
  id = id;
  name = name;
  policy = p;
  attempts = [];
  intent = intent_run;
  lease = none;
  created = now;
}

unfoldable pub set_name : String → Job → Job
set_name name j = record j { name = name }

unfoldable pub set_policy : Policy → Job → Job
set_policy p j = record j { policy = p }

unfoldable pub set_added : ℕ → Job → Job
set_added t j = record j { created = t }

abbrev pub current : Job → Option Attempt
current j = elim j.attempts [ [] ↦ none | a ∷ _ ↦ some a ]

put_head : Attempt → List Attempt → List Attempt
put_head a [] = []
put_head a (_ ∷ rest) = a ∷ rest

-- The mutation of the attempt that `currentLocked` points at.
unfoldable pub put_current : Attempt → Job → Job
unfolding put_head
put_current a j = record j { attempts = put_head a j.attempts }

unfoldable pub state : Job → StateView
state j = elim (current j) [ none ↦ zero_view | some a ↦ view a ]

unfoldable pub has_run : Job → Bool
has_run j = ltb 0 (length j.attempts)

-- `Attempts()`
unfoldable pub attempt_count : Job → ℕ
attempt_count j = length j.attempts

-- `AttemptAt(i)`, oldest first; `none` is the panic on an index out of range.
unfoldable pub attempt_at : Job → ℕ → Option StateView
attempt_at j i =
    if ltb i (length j.attempts)
    then (elim (get_elem? j.attempts (length j.attempts - 1 - i)) [
      | none ↦ none
      | some a ↦ some (view a)
    ])
    else none

begin_on : ℕ → Job → Option Attempt → Result Err Job
unfolding is_open crossed new_attempt
begin_on now j none = ok (record j { attempts = new_attempt now ∷ j.attempts })
begin_on now j (some a) =
    if is_open a
    then ok j
    else if crossed a
    then err boundary_consumed
    else ok (record j { attempts = new_attempt now ∷ j.attempts })

unfoldable pub begin_attempt : ℕ → Job → Result Err Job
unfolding begin_on
begin_attempt now j = begin_on now j (current j)

-- The preamble of every door that moves the current attempt: resolve the open attempt, or fail.
unfoldable pub with_open_attempt {ℓ} : {B : Type ℓ} → Job → (Attempt → Result Err B) → Result Err B
unfolding is_open
with_open_attempt j f = elim (current j) [
  | none ↦ err no_open_attempt
  | some a ↦ if is_open a then f a else err no_open_attempt
]

-- surrenderLocked: the only writer of nil into the lease.
unfoldable pub surrender : Job → Job × Option ℕ
surrender j = (record j { lease = none }, j.lease)

unfoldable pub door_transition : State → Job → Result Err Job
unfolding with_open_attempt put_current transition
door_transition to j = with_open_attempt j (λ a. transition to a >>= λ b. ok (put_current b j))

unfoldable pub door_set_next : State → Job → Result Err Job
unfolding with_open_attempt put_current set_next
door_set_next n j = with_open_attempt j (λ a. set_next n a >>= λ b. ok (put_current b j))

unfoldable pub door_set_activity : Activity → Job → Result Err Job
unfolding with_open_attempt put_current set_activity
door_set_activity x j = with_open_attempt j (λ a. ok (put_current (set_activity x a) j))

-- The boundary door: it moves the attempt and yields the lease in one step.
unfoldable pub door_cross : State → Job → Result Err (Job × Option ℕ)
unfolding with_open_attempt put_current cross surrender
door_cross to j = with_open_attempt j (λ a. cross to a >>= λ b. ok (surrender (put_current b j)))

unfoldable pub door_finish : Outcome → ℕ → Job → Result Err (Job × Option ℕ)
unfolding with_open_attempt put_current finish surrender
door_finish o now j =
    with_open_attempt j (λ a. finish o now a >>= λ b. ok (surrender (put_current b j)))

-- `i != j.intent`, where the latched intent can only be IntentCancel.
unfoldable pub set_intent : Intent → Job → Result Err Job
unfolding intent_declared is_latched
set_intent i j =
    if not (intent_declared i)
    then err invalid_intent
    else if is_latched j.intent && not (is_latched i)
    then err intent_latched
    else ok (record j { intent = i })

unfoldable pub holds_lease : Job → Bool
holds_lease j = is_some j.lease

grant_to : ℕ → Job → Option Attempt → Result Err Job
unfolding is_open crossed
grant_to id j none = err no_open_attempt
grant_to id j (some a) =
    if not (is_open a)
    then err no_open_attempt
    else if crossed a
    then err lease_after_boundary
    else if is_some j.lease
    then err already_leased
    else ok (record j { lease = some id })

unfoldable pub grant : Option ℕ → Job → Result Err Job
unfolding grant_to
grant none j = err nil_lease
grant (some id) j = if id == lease_unset then err unidentified_lease else grant_to id j (current j)

-- What a scheduling decision reads of a job.
pub record Snapshot : Type 0 where
  pub state : StateView
  pub intent : Intent
  pub holds_lease : Bool
  pub has_run : Bool

unfoldable pub snapshot_open : Snapshot → Bool
unfolding is_settled
snapshot_open s = s.has_run && not (is_settled s.state.outcome)

unfoldable pub snapshot : Job → Snapshot
unfolding holds_lease has_run state
snapshot j = record {
  state = state j;
  intent = j.intent;
  holds_lease = holds_lease j;
  has_run = has_run j;
}

-- PP levels are a cumulative mask; the Go int is taken to be at least 0.
unfoldable pub policy_from_pp : ℕ → Policy
policy_from_pp pp = record {
  verify = leb 1 pp;
  repair = leb 1 pp;
  unpack = leb 2 pp;
  delete = leb 3 pp;
}
