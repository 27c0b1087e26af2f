-- ===== src/Job/Error.antt =====
-- The sentinels of internal/job and internal/sched that a caller can match with errors.Is.
-- The text that fmt.Errorf adds is left out.
use sabnzbd_go.Base.{Bool, true, false}

pub data Err : Type 0 where
  illegal_transition cross_required transition_required next_already_set : Err
  invalid_outcome outcome_already_set unrecoverable_after_boundary : Err
  no_open_attempt boundary_consumed intent_latched invalid_intent : Err
  already_leased nil_lease unidentified_lease lease_after_boundary : Err
  not_outstanding not_settled cancel_reserved : Err

-- errors.Is(e, ErrIllegalTransition): ErrCrossRequired and ErrTransitionRequired wrap it.
unfoldable pub is_illegal_transition : Err → Bool
is_illegal_transition illegal_transition = true
is_illegal_transition cross_required = true
is_illegal_transition transition_required = true
is_illegal_transition _ = false
