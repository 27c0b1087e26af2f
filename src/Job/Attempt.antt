-- ===== src/Job/Attempt.antt =====
-- internal/job/attempt.go: one run of a job through the machine. A mutator returns the new attempt,
-- or the error, on which the Go code leaves the attempt as it was.
use sabnzbd_go.Base.{ℕ, Bool, true, false, not, ◌&&◌, Option, none, some, if◌then◌else◌}
use sabnzbd_go.Base.Result.{Result, ok, err}
use sabnzbd_go.Job.Axes.{
  State, state_unset, fetching, assessing, state_eq, is_unset, Outcome, pending, unrecoverable,
  outcome_declared, is_settled, Activity, act_none, StateView,
}
use sabnzbd_go.Job.Spine.{by_transition, by_cross, Edge, edge_from, can_transition, is_production}
use sabnzbd_go.Job.Admissible.{admits}
use sabnzbd_go.Job.Error.{
  Err, illegal_transition, cross_required, transition_required, next_already_set, invalid_outcome,
  outcome_already_set, unrecoverable_after_boundary,
}
pub mod Invariant

-- time.Time is a number of nanoseconds; 0 is the zero time.
pub record Attempt : Type 0 where
  pub state : State
  pub next : State
  pub activity : Activity
  pub outcome : Outcome
  pub assessed : Bool
  pub started : ℕ
  pub ended : ℕ

unfoldable pub new_attempt : ℕ → Attempt
new_attempt now = record {
  state = fetching;
  next = state_unset;
  activity = act_none;
  outcome = pending;
  assessed = false;
  started = now;
  ended = 0;
}

unfoldable pub is_open : Attempt → Bool
unfolding is_settled
is_open a = not (is_settled a.outcome)

unfoldable pub crossed : Attempt → Bool
unfolding is_production
crossed a = is_production a.state

abbrev pub view : Attempt → StateView
view a = record {
  state = a.state;
  next = a.next;
  activity = a.activity;
  outcome = a.outcome;
  assessed = a.assessed;
}

-- `x != StateUnset && x != y`: a verdict is recorded, and it names another destination.
recorded_other : State → State → Bool
unfolding is_unset state_eq
recorded_other x y = not (is_unset x) && not (state_eq x y)

unfoldable pub set_next : State → Attempt → Result Err Attempt
unfolding is_unset can_transition recorded_other
set_next n a =
    if is_unset n
    then err illegal_transition
    else if not (can_transition a.state n)
    then err illegal_transition
    else if recorded_other a.next n
    then err next_already_set
    else ok (record a { next = n })

-- The move that an edge allows: the destination is taken, and activity and next are cleared.
moved : State → Attempt → Attempt
moved to a = record a { state = to; activity = act_none; next = state_unset }

take_transition : State → Attempt → Option Edge → Result Err Attempt
unfolding moved state_eq
take_transition to a none = err illegal_transition
take_transition to a (some e) = elim e.door [
  | by_cross ↦ err cross_required
  | by_transition ↦
      ok (if state_eq to assessing then record (moved to a) { assessed = true } else moved to a)
]

unfoldable pub transition : State → Attempt → Result Err Attempt
unfolding is_unset recorded_other edge_from take_transition
transition to a =
    if is_unset to
    then err illegal_transition
    else if recorded_other a.next to
    then err illegal_transition
    else take_transition to a (edge_from a.state to)

take_cross : State → Attempt → Option Edge → Result Err Attempt
unfolding moved is_unset
take_cross to a none = err illegal_transition
take_cross to a (some e) = elim e.door [
  | by_transition ↦ err transition_required
  | by_cross ↦ if is_unset a.next then err illegal_transition else ok (moved to a)
]

unfoldable pub cross : State → Attempt → Result Err Attempt
unfolding recorded_other edge_from take_cross
cross to a =
    if recorded_other a.next to
    then err illegal_transition
    else take_cross to a (edge_from a.state to)

unfoldable pub set_activity : Activity → Attempt → Attempt
set_activity x a = record a { activity = x }

unfoldable pub inadmissible : Outcome → Err
inadmissible unrecoverable = unrecoverable_after_boundary
inadmissible _ = invalid_outcome

unfoldable pub finish : Outcome → ℕ → Attempt → Result Err Attempt
unfolding is_settled outcome_declared admits inadmissible
finish o now a =
    if not (is_settled o)
    then err invalid_outcome
    else if not (outcome_declared o)
    then err invalid_outcome
    else if is_settled a.outcome
    then err outcome_already_set
    else if not (admits o a.state)
    then err (inadmissible o)
    else ok (record a { activity = act_none; next = state_unset; outcome = o; ended = now })
