-- ===== src/Job/Spine.antt =====
-- internal/job/transition.go: the work spine, a graph of six edges, each with the door that takes it.
use sabnzbd_go.Base.{Bool, Option, none, some, List, [], ◌∷◌, ◌||◌, if◌then◌else◌, is_some}
use sabnzbd_go.Job.Axes.{
  State, state_unset, fetching, assessing, repairing, extracting, finalizing, state_eq,
}

pub data Door : Type 0 where
  by_transition by_cross : Door

pub record Edge : Type 0 where
  pub to : State
  pub door : Door

unfoldable pub legal_edges : State → List Edge
legal_edges state_unset = []
legal_edges fetching = record { to = assessing; door = by_transition } ∷ []
legal_edges assessing =
    record { to = fetching; door = by_transition }
    ∷ record { to = repairing; door = by_transition }
    ∷ record { to = extracting; door = by_cross }
    ∷ []
legal_edges repairing = record { to = assessing; door = by_transition } ∷ []
legal_edges extracting = record { to = finalizing; door = by_transition } ∷ []
legal_edges finalizing = []

-- slices.IndexFunc and the lookup at its index.
find_edge : State → List Edge → Option Edge
find_edge to [] = none
find_edge to (e ∷ es) = if state_eq e.to to then some e else find_edge to es

unfoldable pub edge_from : State → State → Option Edge
unfolding legal_edges find_edge state_eq
edge_from from to = find_edge to (legal_edges from)

unfoldable pub can_transition : State → State → Bool
unfolding edge_from
can_transition from to = is_some (edge_from from to)

unfoldable pub is_correctness : State → Bool
unfolding state_eq
is_correctness s = state_eq s fetching || state_eq s assessing || state_eq s repairing

unfoldable pub is_production : State → Bool
unfolding state_eq
is_production s = state_eq s extracting || state_eq s finalizing
