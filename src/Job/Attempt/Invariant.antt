-- ===== src/Job/Attempt/Invariant.antt =====
-- What holds of an attempt between two calls (internal/job/attempt.go).
use sabnzbd_go.Base.{Bool, ◌≡◌, true, false, arith, ℕ}
use sabnzbd_go.Base.Result.{ok}
use sabnzbd_go.Job.Axes.{
  Activity, act_none, State, fetching, state_eq, is_unset, Outcome, is_settled,
}
use sabnzbd_go.Job.Spine.{can_transition}
use sabnzbd_go.Job.Admissible.{admits}
use sabnzbd_go.Job.Attempt.{Attempt, new_attempt, is_open, set_next, transition, cross, finish}

abbrev pub is_idle : Activity → Bool
is_idle act_none = true
is_idle _ = false

-- A recorded destination is an edge, a settled attempt records none, has no activity and a verdict that
-- is admissible where it stands, and an attempt beyond its first download has been assessed.
pub record IsAttempt (a : Attempt) : Type 0 where
  pub placed : is_unset a.state ≡ false
  pub next_edge : is_unset a.next ≡ false → can_transition a.state a.next ≡ true
  pub settled_next : is_settled a.outcome ≡ true → is_unset a.next ≡ true
  pub settled_admits : is_settled a.outcome ≡ true → admits a.outcome a.state ≡ true
  pub settled_activity : is_settled a.outcome ≡ true → is_idle a.activity ≡ true
  pub assessed_after : state_eq a.state fetching ≡ false → a.assessed ≡ true

pub new_attempt-IsAttempt : (now : ℕ) → IsAttempt (new_attempt now)
unfolding new_attempt is_unset can_transition is_settled state_eq
new_attempt-IsAttempt now = ground arith

pub set_next-IsAttempt :
    (n : State) (a b : Attempt) → IsAttempt a → is_open a ≡ true → set_next n a ≡ ok b → IsAttempt b
unfolding set_next is_open is_settled
set_next-IsAttempt n a b v o h = ground arith

pub transition-IsAttempt :
    (to : State) (a b : Attempt)
    → IsAttempt a
    → is_open a ≡ true
    → transition to a ≡ ok b
    → IsAttempt b
unfolding transition is_open is_settled can_transition
transition-IsAttempt to a b v o h = ground arith

pub cross-IsAttempt :
    (to : State) (a b : Attempt) → IsAttempt a → is_open a ≡ true → cross to a ≡ ok b → IsAttempt b
unfolding cross is_open is_settled can_transition
cross-IsAttempt to a b v o h = ground arith

pub finish-IsAttempt :
    (o : Outcome) (now : ℕ) (a b : Attempt) → IsAttempt a → finish o now a ≡ ok b → IsAttempt b
unfolding finish is_unset
finish-IsAttempt o now a b v h = ground arith
