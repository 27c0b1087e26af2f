-- ===== src/Job/Admissible.antt =====
-- internal/job/admissibility.go: which verdict an attempt may record from which position.
use sabnzbd_go.Base.{Bool, false, true, List, [], ◌∷◌, if◌then◌else◌}
use sabnzbd_go.Job.Axes.{
  State, fetching, assessing, repairing, extracting, finalizing, state_eq, Outcome, ok_outcome,
  failed, unrecoverable, cancelled,
}

-- A map lookup of a missing key is the nil slice.
unfoldable pub admissible_at : Outcome → List State
admissible_at ok_outcome = finalizing ∷ []
admissible_at failed = fetching ∷ assessing ∷ repairing ∷ extracting ∷ finalizing ∷ []
admissible_at unrecoverable = fetching ∷ assessing ∷ repairing ∷ []
admissible_at cancelled = fetching ∷ assessing ∷ repairing ∷ extracting ∷ finalizing ∷ []
admissible_at _ = []

-- slices.Contains
has_state : State → List State → Bool
has_state s [] = false
has_state s (x ∷ xs) = if state_eq x s then true else has_state s xs

unfoldable pub admits : Outcome → State → Bool
unfolding admissible_at has_state state_eq
admits o s = has_state s (admissible_at o)
