-- ===== src/Job/Verdicts.antt =====
-- The write-once verdicts of a job's attempts (internal/job/{attempt,job}.go).
use sabnzbd_go.Base.{◌≡◌, refl, List, [], ◌∷◌, ◌++◌, arith, if◌then◌else◌, ap, ◌∙◌, sym}
use sabnzbd_go.Job.Axes.{is_settled}
use sabnzbd_go.Job.Attempt.{Attempt, is_open}
use sabnzbd_go.Job.Record.{
  Job, begin_attempt, surrender, door_transition, door_set_next, door_set_activity, door_cross,
  door_finish, set_intent, grant, set_name, set_policy, set_added,
}
use sabnzbd_go.Job.Step.{
  Step, begins, transitions, sets_next, sets_activity, crosses, finishes, intends, granted,
  surrenders, renames, repolicies, redates, Reach, here, next,
}
use mathlib.Core.List.{append_assoc}

-- The attempts with a verdict, newest first: all but the open one.
abbrev pub settled_attempts : Job → List Attempt
settled_attempts j = elim j.attempts [ [] ↦ [] | a ∷ rest ↦ if is_open a then rest else a ∷ rest ]

-- `ys` extends `xs` by newer attempts.
abbrev pub Extends : List Attempt → List Attempt → Type 0
Extends ys xs = (zs : List Attempt) × (ys ≡ zs ++ xs)

Extends-refl : (xs : List Attempt) → Extends xs xs
Extends-refl xs = ([], refl)

settled-Step : {j j' : Job} → Step j j' → Extends (settled_attempts j') (settled_attempts j)
unfolding set_name set_policy set_added surrender is_open is_settled
settled-Step (begins now h) = ([], unfold begin_attempt in ground arith)
settled-Step (transitions to h) = ([], unfold door_transition in ground arith)
settled-Step (sets_next n h) = ([], unfold door_set_next in ground arith)
settled-Step (sets_activity x h) = ([], unfold door_set_activity in ground arith)
settled-Step (crosses to l h) = ([], unfold door_cross in ground arith)
settled-Step {j} {j'} (finishes o now l h) =
    (elim j'.attempts [ [] ↦ [] | a ∷ _ ↦ a ∷ [] ], unfold door_finish in ground arith)
settled-Step (intends i h) = ([], unfold set_intent in ground arith)
settled-Step (granted l h) = ([], unfold grant in ground arith)
settled-Step (surrenders j) = Extends-refl _
settled-Step (renames j name) = Extends-refl _
settled-Step (repolicies j p) = Extends-refl _
settled-Step (redates j t) = Extends-refl _

-- A verdict is superseded and never revised: whatever doors are taken, the settled attempts of a job
-- stay as they are, timestamps included, and new ones only come in front of them.
pub verdicts_write_once :
    {j j' : Job} → Reach j j' → Extends (settled_attempts j') (settled_attempts j)
verdicts_write_once {j} here = Extends-refl (settled_attempts j)
verdicts_write_once {j} (next r s) =
    let (zs, e) = verdicts_write_once r in
    let (ws, d) = settled-Step s in
    (ws ++ zs, d ∙ ap (◌++◌ ws) e ∙ sym (append_assoc ws zs (settled_attempts j)))
