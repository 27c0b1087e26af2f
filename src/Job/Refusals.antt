-- ===== src/Job/Refusals.antt =====
-- When each mover of an attempt succeeds and what a refusal is (internal/job/attempt.go).
use sabnzbd_go.Base.{ℕ, ◌≡◌, ◌⊎◌, ◌↔◌, true, arith, if◌then◌else◌}
use sabnzbd_go.Base.Result.{ok, err}
use sabnzbd_go.Job.Axes.{
  State, assessing, extracting, state_unset, is_unset, Outcome, state_eq, act_none, failed,
  cancelled,
}
use sabnzbd_go.Job.Spine.{can_transition, is_production}
use sabnzbd_go.Job.Admissible.{admits}
use sabnzbd_go.Job.Attempt.{Attempt, transition, cross, finish, is_open}
use sabnzbd_go.Job.Attempt.Invariant.{IsAttempt}
use sabnzbd_go.Job.Error.{Err, is_illegal_transition, cross_required, transition_required}

-- A refused move is an ErrIllegalTransition for errors.Is, whichever door refused it and why.
pub refused_move_is_illegal :
    (to : State) (a : Attempt) (e : Err)
    → (transition to a ≡ err e) ⊎ (cross to a ≡ err e)
    → is_illegal_transition e ≡ true
unfolding transition cross is_illegal_transition
refused_move_is_illegal to a e h = ground arith

-- No recorded verdict, or this one.
abbrev pub Agrees : Attempt → State → Type 0
Agrees a to = (a.next ≡ state_unset) ⊎ (a.next ≡ to)

-- The two wrong-door refusals are returned exactly when the move is an edge that the recorded verdict
-- allows and that belongs to the other door; ErrCrossRequired only for Assessing to Extracting.
pub wrong_door_iff :
    (to : State) (a : Attempt)
    → ((transition to a ≡ err cross_required)
        ↔ ((a.state ≡ assessing) × (to ≡ extracting) × Agrees a to))
      × ((cross to a ≡ err transition_required) ↔ (
          (can_transition a.state to ≡ true)
          × (is_production a.state ≡ is_production to)
          × Agrees a to))
unfolding transition cross can_transition is_production
wrong_door_iff to a =
    ((λ h. ground arith, λ h. ground arith), (λ h. ground arith, λ h. ground arith))

-- Each moving door takes a move exactly when it is an edge, it lies on that door's side of the
-- boundary and the recorded verdict allows it; crossing also needs that the verdict was recorded.
pub moves_iff :
    (to : State) (a : Attempt)
    → (((b : Attempt) × (transition to a ≡ ok b)) ↔ (
        (can_transition a.state to ≡ true)
        × (is_production a.state ≡ is_production to)
        × Agrees a to))
      × (((b : Attempt) × (cross to a ≡ ok b))
          ↔ ((a.state ≡ assessing) × (to ≡ extracting) × (a.next ≡ extracting)))
unfolding transition cross can_transition is_production
moves_iff to a = (
  (λ h. taken h.0 h.1, λ h. (taken_by a, ground arith)),
  (λ h. crossing h.0 h.1, λ h. (crossed_by a, ground arith)),
)
  where
    taken :
        (b : Attempt)
        → transition to a ≡ ok b
        → (can_transition a.state to ≡ true)
          × (is_production a.state ≡ is_production to)
          × Agrees a to
    taken b h = ground arith

    taken_by : Attempt → Attempt
    taken_by a = record a {
      state = to;
      activity = act_none;
      next = state_unset;
      assessed = if state_eq to assessing then true else a.assessed;
    }

    crossing :
        (b : Attempt)
        → cross to a ≡ ok b
        → (a.state ≡ assessing) × (to ≡ extracting) × (a.next ≡ extracting)
    crossing b h = ground arith

    crossed_by : Attempt → Attempt
    crossed_by a = record a { state = to; activity = act_none; next = state_unset }

-- The attempt that a verdict closes: where it stood, with nothing running and nowhere to go.
abbrev pub closed_with : Outcome → ℕ → Attempt → Attempt
closed_with o now a = record a { activity = act_none; next = state_unset; outcome = o; ended = now }

-- A verdict is recorded exactly when the attempt is open and the admissibility table has the verdict
-- at its position; recording it moves nothing.
pub finish_iff :
    (o : Outcome) (now : ℕ) (a : Attempt)
    → (finish o now a ≡ ok (closed_with o now a)) ↔ ((is_open a ≡ true) × (admits o a.state ≡ true))
unfolding finish is_open
finish_iff o now a = (λ h. ground arith, λ h. ground arith)

-- An open attempt can be failed and cancelled wherever it stands, so no job is stuck unsettled.
pub open_can_settle :
    (now : ℕ) (a : Attempt)
    → IsAttempt a
    → is_open a ≡ true
    → (finish failed now a ≡ ok (closed_with failed now a))
      × (finish cancelled now a ≡ ok (closed_with cancelled now a))
unfolding finish is_open is_unset
open_can_settle now a v o = ground arith
