-- ===== src/Dispatch/Restore.antt =====
-- internal/dispatch/dispatch.go: reconstruct, which replays a stored position through the doors of a new
-- job. The stored State is a declared one.
use sabnzbd_go.Base.{if◌then◌else◌, Bool, List, String, [], false, not, true, ℕ, ◌&&◌, ◌∷◌}
use sabnzbd_go.Base.Result.{◌>>=◌, Result, err, ok}
use sabnzbd_go.Job.Attempt.{cross}
use sabnzbd_go.Job.Attempt.Invariant.{is_idle}
use sabnzbd_go.Job.Axes.{
  Activity, Intent, Outcome, State, StateView, assessing, extracting, fetching, finalizing,
  is_settled, is_unset, repairing, state_eq,
}
use sabnzbd_go.Job.Error.{Err}
use sabnzbd_go.Job.Record.{
  Job, Policy, begin_attempt, door_cross, door_finish, door_set_activity, door_set_next,
  door_transition, new, set_intent,
}
pub mod RoundTrip
pub mod Names

pub data RestoreErr : Type 0 where
  refused : Err → RestoreErr
  unset_row : RestoreErr

abbrev pub lift {ℓ} : {A : Type ℓ} → Result Err A → Result RestoreErr A
lift (ok a) = ok a
lift (err e) = err (refused e)

pub record Hop : Type 0 where
  pub to : State
  pub cross : Bool

abbrev pub hop : State → Hop
hop s = record { to = s; cross = false }

abbrev pub cross_hop : State → Hop
cross_hop s = record { to = s; cross = true }

unfoldable pub take_hop : Hop → Job → Result Err Job
unfolding door_set_next door_cross door_transition
take_hop h j =
    if h.cross
    then (door_set_next h.to j >>= λ j'. door_cross h.to j' >>= λ r. ok r.0)
    else door_transition h.to j

unfoldable pub take_hops : List Hop → Job → Result Err Job
unfolding take_hop
take_hops [] j = ok j
take_hops (h ∷ hs) j = take_hop h j >>= λ j'. take_hops hs j'

unfoldable pub replay_path : State → List Hop
replay_path assessing = hop assessing ∷ []
replay_path repairing = hop assessing ∷ hop repairing ∷ []
replay_path extracting = hop assessing ∷ cross_hop extracting ∷ []
replay_path finalizing = hop assessing ∷ cross_hop extracting ∷ hop finalizing ∷ []
replay_path _ = []

unfoldable pub path_of : StateView → List Hop
unfolding state_eq replay_path
path_of v =
    if state_eq v.state fetching && v.assessed
    then hop assessing ∷ hop fetching ∷ []
    else if state_eq v.state fetching
    then []
    else replay_path v.state

-- `v == (job.StateView{})`
unfoldable pub is_zero_view : StateView → Bool
unfolding is_unset is_settled
is_zero_view v =
    is_unset v.state
    && (is_unset v.next && (is_idle v.activity && (not (is_settled v.outcome) && not v.assessed)))

unfoldable pub replay_next : State → Job → Result Err Job
unfolding is_unset door_set_next
replay_next n j = if is_unset n then ok j else door_set_next n j

unfoldable pub replay_activity : Activity → Job → Result Err Job
unfolding door_set_activity
replay_activity x j = if is_idle x then ok j else door_set_activity x j

unfoldable pub replay_outcome : Outcome → ℕ → Job → Result Err Job
unfolding is_settled door_finish
replay_outcome o now j = if not (is_settled o) then ok j else (door_finish o now j >>= λ r. ok r.0)

-- Behind the replayed position: what the row says of it.
unfoldable pub replay_rest : StateView → Intent → ℕ → Job → Result Err Job
unfolding replay_next replay_activity replay_outcome set_intent
replay_rest v intent now j = replay_next v.next j >>= λ a. replay_activity v.activity a >>= λ b.
    replay_outcome v.outcome now b >>= λ c. set_intent intent c

unfoldable pub reconstruct :
    String → String → Policy → StateView → Intent → ℕ → Result RestoreErr Job
unfolding is_unset is_zero_view begin_attempt path_of take_hops replay_rest set_intent new
reconstruct id name p v intent now =
    if is_unset v.state
    then (if not (is_zero_view v)
        then err unset_row
        else lift (set_intent intent (new id name p now)))
    else lift (
        begin_attempt now (new id name p now) >>= λ j.
        take_hops (path_of v) j >>= λ j'. replay_rest v intent now j')
