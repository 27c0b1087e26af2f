-- ===== src/Job/Record/Invariant.antt =====
-- What holds of a job between two calls of its doors (internal/job/job.go).
use sabnzbd_go.Base.{
  ◌≡◌, refl, true, false, arith, ℕ, ◌<◌, List, [], ◌∷◌, Option, none, some, String,
}
use sabnzbd_go.Base.Result.{ok}
use sabnzbd_go.Job.Axes.{State, Outcome, Activity, Intent, intent_declared, is_unset, is_settled}
use sabnzbd_go.Job.Spine.{can_transition}
use sabnzbd_go.Job.Attempt.{Attempt, is_open, crossed}
use sabnzbd_go.Job.Attempt.Invariant.{IsAttempt, new_attempt-IsAttempt}
use sabnzbd_go.Job.Record.{
  Job, Policy, new, begin_attempt, surrender, door_transition, door_set_next, door_set_activity,
  door_cross, door_finish, set_intent, grant,
}

-- Every attempt but the newest is settled before the boundary.
abbrev pub AllPast : List Attempt → Type 0
AllPast [] = Unit {0}
AllPast (a ∷ rest) = IsAttempt a × (is_open a ≡ false) × (crossed a ≡ false) × AllPast rest

abbrev pub IsHistory : List Attempt → Type 0
IsHistory [] = Unit {0}
IsHistory (a ∷ rest) = IsAttempt a × AllPast rest

-- A lease is only held by an open attempt before the boundary, and it has an id.
abbrev pub LeaseFits : Option ℕ → List Attempt → Type 0
LeaseFits none rest = Unit {0}
LeaseFits (some id) [] = ⊥
LeaseFits (some id) (a ∷ rest) = (0 < id) × (is_open a ≡ true) × (crossed a ≡ false)

pub record IsJob (j : Job) : Type 0 where
  pub history : IsHistory j.attempts
  pub lease_fits : LeaseFits j.lease j.attempts
  pub intent_known : intent_declared j.intent ≡ true

-- A fresh job satisfies the invariant.
pub new-IsJob : (id name : String) (p : Policy) (now : ℕ) → IsJob (new id name p now)
unfolding new intent_declared
new-IsJob id name p now = record { history = tt; lease_fits = tt; intent_known = refl }

pub begin_attempt-IsJob : (now : ℕ) (j j' : Job) → IsJob j → begin_attempt now j ≡ ok j' → IsJob j'
unfolding begin_attempt
begin_attempt-IsJob now j j' v h = ground (arith, new_attempt-IsAttempt now)

pub door_transition-IsJob :
    (to : State) (j j' : Job) → IsJob j → door_transition to j ≡ ok j' → IsJob j'
unfolding door_transition is_open is_settled can_transition crossed
door_transition-IsJob to j j' v h = ground arith

pub door_set_next-IsJob : (n : State) (j j' : Job) → IsJob j → door_set_next n j ≡ ok j' → IsJob j'
unfolding door_set_next is_open is_settled can_transition crossed
door_set_next-IsJob n j j' v h = ground arith

pub door_set_activity-IsJob :
    (x : Activity) (j j' : Job) → IsJob j → door_set_activity x j ≡ ok j' → IsJob j'
unfolding door_set_activity is_open is_settled can_transition crossed
door_set_activity-IsJob x j j' v h = ground arith

pub surrender-IsJob : (j : Job) → IsJob j → IsJob (surrender j).0
unfolding surrender
surrender-IsJob j v = record { history = v.history; lease_fits = tt; intent_known = v.intent_known }

pub door_cross-IsJob :
    (to : State) (j j' : Job) (l : Option ℕ) → IsJob j → door_cross to j ≡ ok (j', l) → IsJob j'
unfolding door_cross is_open is_settled can_transition crossed
door_cross-IsJob to j j' l v h = ground arith

pub door_finish-IsJob :
    (o : Outcome) (now : ℕ) (j j' : Job) (l : Option ℕ)
    → IsJob j
    → door_finish o now j ≡ ok (j', l)
    → IsJob j'
unfolding door_finish is_open is_settled is_unset
door_finish-IsJob o now j j' l v h = ground arith

pub set_intent-IsJob : (i : Intent) (j j' : Job) → IsJob j → set_intent i j ≡ ok j' → IsJob j'
unfolding set_intent
set_intent-IsJob i j j' v h = ground arith

pub grant-IsJob : (l : Option ℕ) (j j' : Job) → IsJob j → grant l j ≡ ok j' → IsJob j'
unfolding grant
grant-IsJob none j j' v h = cc
grant-IsJob (some id) j j' v h = ground arith

pub rename-IsJob :
    (j : Job) (name : String) (p : Policy) (t : ℕ)
    → IsJob j
    → IsJob (record j { name = name; policy = p; created = t })
rename-IsJob j name p t v = record {
  history = v.history;
  lease_fits = v.lease_fits;
  intent_known = v.intent_known;
}
