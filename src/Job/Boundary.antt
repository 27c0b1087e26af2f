-- ===== src/Job/Boundary.antt =====
-- The irreversible boundary between Correctness and Production (internal/job/{transition,job}.go).
use sabnzbd_go.Base.{◌≡◌, ◌↔◌, refl, Bool, true, false, [], ◌∷◌, arith, ◌∙◌}
use sabnzbd_go.Base.Result.{ok}
use sabnzbd_go.Job.Axes.{State, fetching, assessing, repairing, extracting, finalizing, is_unset}
use sabnzbd_go.Job.Spine.{can_transition}
use sabnzbd_go.Job.Attempt.{crossed}
use sabnzbd_go.Job.Record.{
  Job, begin_attempt, surrender, door_transition, door_set_next, door_set_activity, door_cross,
  door_finish, set_intent, grant, set_name, set_policy, set_added, state, attempt_count,
  holds_lease,
}
use sabnzbd_go.Job.Record.Invariant.{IsJob}
use sabnzbd_go.Job.Step.{
  Step, begins, transitions, sets_next, sets_activity, crosses, finishes, intends, granted,
  surrenders, renames, repolicies, redates, Reach, here, next, Reach-IsJob,
}

-- The work spine, written out as a relation.
pub data Moves : State → State → Type 0 where
  downloaded : Moves fetching assessing
  fetch_more : Moves assessing fetching
  needs_repair : Moves assessing repairing
  verified : Moves assessing extracting
  repaired : Moves repairing assessing
  extracted : Moves extracting finalizing

Moves-can_transition : {s t : State} → Moves s t → can_transition s t ≡ true
unfolding can_transition
Moves-can_transition downloaded = refl
Moves-can_transition fetch_more = refl
Moves-can_transition needs_repair = refl
Moves-can_transition verified = refl
Moves-can_transition repaired = refl
Moves-can_transition extracted = refl

can_transition-Moves : (s t : State) → can_transition s t ≡ true → Moves s t
unfolding can_transition
can_transition-Moves fetching assessing h = downloaded
can_transition-Moves assessing fetching h = fetch_more
can_transition-Moves assessing repairing h = needs_repair
can_transition-Moves assessing extracting h = verified
can_transition-Moves repairing assessing h = repaired
can_transition-Moves extracting finalizing h = extracted
can_transition-Moves _ _ h = cc

-- CanTransition accepts exactly the six moves of the work spine.
pub can_transition_iff : (s t : State) → (can_transition s t ≡ true) ↔ Moves s t
can_transition_iff s t = (can_transition-Moves s t, Moves-can_transition)

-- Whether the newest attempt has crossed; false for a job that has never run.
abbrev pub crossed_job : Job → Bool
crossed_job j = elim j.attempts [ [] ↦ false | a ∷ _ ↦ crossed a ]

crossed-Step :
    {j j' : Job}
    → Step j j'
    → crossed_job j ≡ true
    → (crossed_job j' ≡ true) × (attempt_count j' ≡ attempt_count j)
unfolding attempt_count set_name set_policy set_added surrender crossed
crossed-Step (begins now h) c = unfold begin_attempt in ground arith
crossed-Step (transitions to h) c = unfold door_transition in ground arith
crossed-Step (sets_next n h) c = unfold door_set_next in ground arith
crossed-Step (sets_activity x h) c = unfold door_set_activity in ground arith
crossed-Step (crosses to l h) c = unfold door_cross in ground arith
crossed-Step (finishes o now l h) c = unfold door_finish in ground arith
crossed-Step (intends i h) c = unfold set_intent in ground arith
crossed-Step (granted l h) c = unfold grant in ground arith
crossed-Step (surrenders j) c = (c, refl)
crossed-Step (renames j name) c = (c, refl)
crossed-Step (repolicies j p) c = (c, refl)
crossed-Step (redates j t) c = (c, refl)

crossed-Reach :
    {j j' : Job}
    → Reach j j'
    → crossed_job j ≡ true
    → (crossed_job j' ≡ true) × (attempt_count j' ≡ attempt_count j)
crossed-Reach here c = (c, refl)
crossed-Reach (next r s) c =
    let (c', n) = crossed-Reach r c in let (c'', n') = crossed-Step s c' in (c'', n' ∙ n)

crossed_no_lease : (j : Job) → IsJob j → crossed_job j ≡ true → holds_lease j ≡ false
unfolding holds_lease
crossed_no_lease j v c = ground arith

-- The boundary is one-way for the job and not only for one attempt: once the newest attempt of a job
-- has crossed, then after any doors whatever it still has, no attempt was added, and the job holds
-- no lease.
pub boundary_one_way :
    {j j' : Job}
    → IsJob j
    → crossed_job j ≡ true
    → Reach j j'
    → (crossed_job j' ≡ true) × (attempt_count j' ≡ attempt_count j) × (holds_lease j' ≡ false)
boundary_one_way {j} {j'} v c r =
    let (c', n) = crossed-Reach r c in (c', n, crossed_no_lease j' (Reach-IsJob r v) c')

-- Nothing but the cross door takes a job over the boundary, and that only from Assessing with the
-- verdict Extracting recorded; the job then is at Extracting and its lease has been yielded.
pub crossing_is_verdict :
    {j j' : Job}
    → Step j j'
    → IsJob j
    → crossed_job j ≡ false
    → crossed_job j' ≡ true
    → ((state j).state ≡ assessing)
      × ((state j).next ≡ extracting)
      × ((state j').state ≡ extracting)
      × (holds_lease j' ≡ false)
      × (door_cross extracting j ≡ ok (j', j.lease))
unfolding state set_name set_policy set_added surrender crossed holds_lease
crossing_is_verdict (begins now h) v c d = unfold begin_attempt in ground arith
crossing_is_verdict (transitions to h) v c d =
    unfold door_transition is_unset can_transition in ground arith
crossing_is_verdict (sets_next n h) v c d = unfold door_set_next in ground arith
crossing_is_verdict (sets_activity x h) v c d = unfold door_set_activity in ground arith
crossing_is_verdict (crosses to l h) v c d = unfold door_cross in ground arith
crossing_is_verdict (finishes o now l h) v c d = unfold door_finish in ground arith
crossing_is_verdict (intends i h) v c d = unfold set_intent in ground arith
crossing_is_verdict (granted l h) v c d = unfold grant in ground arith
crossing_is_verdict (surrenders j) v c d = cc
crossing_is_verdict (renames j name) v c d = cc
crossing_is_verdict (repolicies j p) v c d = cc
crossing_is_verdict (redates j t) v c d = cc
