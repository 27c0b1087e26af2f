-- ===== src/Job/Status.antt =====
-- internal/job/{render,sabnzbd,repair}.go and internal/constants/status.go: what a consumer sees of a
-- job, and the verdict on whether its damage can be repaired. A Status is named, not spelled.
use sabnzbd_go.Base.{ℕ, ltb, ◌==◌, Bool, true, false, if◌then◌else◌}
use sabnzbd_go.Job.Axes.{
  State, state_unset, fetching, assessing, repairing, extracting, finalizing, Activity,
  act_crc_check, act_script, Outcome, ok_outcome, cancelled, is_settled, WaitReason, is_pause,
  Intent, StateView,
}

pub data Status : Type 0 where
  status_idle status_queued status_grabbing status_fetching status_downloading : Status
  status_paused status_propagating status_checking status_quick_check status_verifying : Status
  status_repairing status_extracting status_moving status_running status_completed : Status
  status_failed status_deleted : Status

pub record RenderView : Type 0 where
  pub view : StateView
  pub running : Bool
  pub reason : WaitReason
  pub intent : Intent
  pub holds : Bool

unfoldable pub finished_status : Outcome → Status
finished_status ok_outcome = status_completed
finished_status cancelled = status_deleted
finished_status _ = status_failed

-- `v.Activity == ActCRCCheck` and `v.Activity == ActScript`
is_crc_check : Activity → Bool
is_crc_check act_crc_check = true
is_crc_check _ = false

is_script : Activity → Bool
is_script act_script = true
is_script _ = false

-- The switch on the state of a running job.
running_status : State → StateView → Status
unfolding is_crc_check is_script
running_status fetching v = if v.assessed then status_fetching else status_downloading
running_status assessing v =
    if is_crc_check v.activity then status_quick_check else status_verifying
running_status repairing v = status_repairing
running_status extracting v = status_extracting
running_status finalizing v = if is_script v.activity then status_running else status_moving
running_status state_unset v = status_queued

unfoldable pub to_sabnzbd : RenderView → Status
unfolding is_settled finished_status is_pause running_status
to_sabnzbd v =
    if is_settled v.view.outcome
    then finished_status v.view.outcome
    else if v.running
    then running_status v.view.state v.view
    else if is_pause v.reason
    then status_paused
    else status_queued

pub data RepairState : Type 0 where
  repair_intact repair_possible repair_unknown repair_no_capacity repair_beyond_capacity :
      RepairState

unfoldable pub hopeless : RepairState → Bool
hopeless repair_no_capacity = true
hopeless repair_beyond_capacity = true
hopeless _ = false

-- The byte counts are int64s that are never negative.
unfoldable pub repair_state_from : ℕ → ℕ → Bool → RepairState
repair_state_from content_failed_bytes recovery_bytes has_par2_files =
    if content_failed_bytes == 0
    then repair_intact
    else if recovery_bytes == 0
    then (if has_par2_files then repair_unknown else repair_no_capacity)
    else if ltb recovery_bytes content_failed_bytes
    then repair_beyond_capacity
    else repair_possible
