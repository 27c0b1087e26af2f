-- ===== src/Tests/Jobs.antt =====
-- The job's doors (internal/job) on concrete jobs.
use sabnzbd_go.Base.{[], arith, false, none, refl, some, true, ◌↔◌, ◌∷◌, ◌≡◌}
use sabnzbd_go.Base.Result.{err, ok}
use sabnzbd_go.Job.Admissible.{admits}
use sabnzbd_go.Job.Attempt.{Attempt, cross, crossed, is_open, new_attempt, transition}
use sabnzbd_go.Job.Axes.{
  intent_declared, State, act_none, assessing, extracting, failed, finalizing, intent_run,
  is_settled, is_unset, pending, state_eq, state_unset,
}
use sabnzbd_go.Job.Boundary.{boundary_one_way, crossed_job, crossing_is_verdict}
use sabnzbd_go.Job.Error.{cross_required}
use sabnzbd_go.Job.Record.{
  Job, Policy, attempt_count, door_cross, door_transition, holds_lease, state,
}
use sabnzbd_go.Job.Record.Invariant.{IsJob}
use sabnzbd_go.Job.Refusals.{Agrees, closed_with, moves_iff}
use sabnzbd_go.Job.Spine.{can_transition, is_production}
use sabnzbd_go.Job.Step.{Reach-IsJob, crosses, here, transitions, next}
use sabnzbd_go.Job.Verdicts.{Extends, settled_attempts, verdicts_write_once}

abbrev policy : Policy
policy = record { verify = true; repair = true; unpack = false; delete = false }

-- An attempt at `s`, open, with the verdict `n` recorded.
abbrev at_place : State → State → Attempt
at_place s n = record {
  state = s;
  next = n;
  activity = act_none;
  outcome = pending;
  assessed = true;
  started = 5;
  ended = 0;
}

abbrev assessing_attempt : Attempt
assessing_attempt = at_place assessing extracting

abbrev downloading : Job
downloading = record {
  id = "a";
  name = "film";
  policy = policy;
  attempts = new_attempt 5 ∷ [];
  intent = intent_run;
  lease = some 1;
  created = 3;
}

-- Its first download failed, and the second stands assessed, with Extracting recorded.
abbrev verdict_recorded : Job
verdict_recorded = record downloading {
  attempts = assessing_attempt ∷ closed_with failed 4 (new_attempt 2) ∷ [];
}

abbrev crossed_over : Job
crossed_over = record downloading {
  attempts = at_place extracting state_unset ∷ closed_with failed 4 (new_attempt 2) ∷ [];
  lease = none;
}

crossed_over_run : door_cross extracting verdict_recorded ≡ ok (crossed_over, some 1)
unfolding door_cross cross
crossed_over_run = refl

crossing_keeps_the_lease : door_transition extracting verdict_recorded ≡ err cross_required
unfolding door_transition transition
crossing_keeps_the_lease = refl

verdict_recorded-IsJob : IsJob verdict_recorded
unfolding new_attempt is_unset is_open crossed is_production can_transition is_settled state_eq
    admits intent_declared
verdict_recorded-IsJob = ground arith

crossed_over-IsJob : IsJob crossed_over
crossed_over-IsJob =
    Reach-IsJob (next here (crosses extracting (some 1) crossed_over_run)) verdict_recorded-IsJob

abbrev on_its_way_out : Job
on_its_way_out = record crossed_over {
  attempts = at_place finalizing state_unset ∷ closed_with failed 4 (new_attempt 2) ∷ [];
}

finalized_run : door_transition finalizing crossed_over ≡ ok on_its_way_out
unfolding door_transition transition
finalized_run = refl

boundary_one_way_example :
    (crossed_job on_its_way_out ≡ true)
    × (attempt_count on_its_way_out ≡ attempt_count crossed_over)
    × (holds_lease on_its_way_out ≡ false)
unfolding crossed
boundary_one_way_example =
    boundary_one_way crossed_over-IsJob refl (next here (transitions finalizing finalized_run))

crossing_is_verdict_example :
    ((state verdict_recorded).state ≡ assessing)
    × ((state verdict_recorded).next ≡ extracting)
    × ((state crossed_over).state ≡ extracting)
    × (holds_lease crossed_over ≡ false)
    × (door_cross extracting verdict_recorded ≡ ok (crossed_over, verdict_recorded.lease))
unfolding crossed
crossing_is_verdict_example =
    crossing_is_verdict (crosses extracting (some 1) crossed_over_run) verdict_recorded-IsJob refl
      refl

verdicts_write_once_example :
    Extends (settled_attempts crossed_over) (settled_attempts verdict_recorded)
verdicts_write_once_example =
    verdicts_write_once (next here (crosses extracting (some 1) crossed_over_run))

moves_iff_example :
    (((b : Attempt) × (transition extracting assessing_attempt ≡ ok b)) ↔ (
      (can_transition assessing_attempt.state extracting ≡ true)
      × (is_production assessing_attempt.state ≡ is_production extracting)
      × Agrees assessing_attempt extracting))
    × (((b : Attempt) × (cross extracting assessing_attempt ≡ ok b)) ↔ (
        (assessing_attempt.state ≡ assessing)
        × (extracting ≡ extracting)
        × (assessing_attempt.next ≡ extracting)))
moves_iff_example = moves_iff extracting assessing_attempt

crossed_by_transition : transition extracting assessing_attempt ≡ err cross_required
unfolding transition
crossed_by_transition = refl
