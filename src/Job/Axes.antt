-- ===== src/Job/Axes.antt =====
-- internal/job/{state,intent,outcome,activity,wait}.go: the axes of a job.
-- Each is a Go uint8 enumeration. `Intent` and `Outcome` have doors that test for a value no
-- constant declares, so they keep a constructor for such values; the others do not.
use sabnzbd_go.Base.{ℕ, Bool, true, false}

pub data State : Type 0 where
  state_unset fetching assessing repairing extracting finalizing : State

-- Go's `==` on State.
unfoldable pub state_eq : State → State → Bool
state_eq state_unset state_unset = true
state_eq fetching fetching = true
state_eq assessing assessing = true
state_eq repairing repairing = true
state_eq extracting extracting = true
state_eq finalizing finalizing = true
state_eq _ _ = false

-- `s == StateUnset`
unfoldable pub is_unset : State → Bool
is_unset state_unset = true
is_unset _ = false

pub data Intent : Type 0 where
  intent_run intent_pause intent_cancel : Intent
  intent_undeclared : ℕ → Intent

-- slices.Contains(AllIntents(), i)
unfoldable pub intent_declared : Intent → Bool
intent_declared (intent_undeclared _) = false
intent_declared _ = true

unfoldable pub is_latched : Intent → Bool
is_latched intent_cancel = true
is_latched _ = false

-- `i == IntentPause`
unfoldable pub is_pause_intent : Intent → Bool
is_pause_intent intent_pause = true
is_pause_intent _ = false

pub data Outcome : Type 0 where
  pending ok_outcome failed unrecoverable cancelled : Outcome
  outcome_undeclared : ℕ → Outcome

-- slices.Contains(AllOutcomes(), o)
unfoldable pub outcome_declared : Outcome → Bool
outcome_declared (outcome_undeclared _) = false
outcome_declared _ = true

unfoldable pub is_settled : Outcome → Bool
is_settled pending = false
is_settled _ = true

-- `o == OutcomeCancelled`
unfoldable pub is_cancelled : Outcome → Bool
is_cancelled cancelled = true
is_cancelled _ = false

pub data Activity : Type 0 where
  act_none act_crc_check act_par2_verify act_par2_repair act_volume_recovery : Activity
  act_unpack act_deobfuscate act_cleanup act_move act_script : Activity

pub data WaitReason : Type 0 where
  no_lease no_compute_slot user_paused global_pause : WaitReason

unfoldable pub is_pause : WaitReason → Bool
is_pause user_paused = true
is_pause global_pause = true
is_pause _ = false

-- The read shape of a job's current attempt.
pub record StateView : Type 0 where
  pub state : State
  pub next : State
  pub activity : Activity
  pub outcome : Outcome
  pub assessed : Bool

-- Go's zero value of StateView: what Job.State returns for a job that has never run.
abbrev pub zero_view : StateView
zero_view = record {
  state = state_unset;
  next = state_unset;
  activity = act_none;
  outcome = pending;
  assessed = false;
}
