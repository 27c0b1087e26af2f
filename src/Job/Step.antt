-- ===== src/Job/Step.antt =====
-- Every way in which the exported methods of a job change it, as one step relation
-- (internal/job/job.go). A door that refuses changes nothing and is no step.
use sabnzbd_go.Base.{ℕ, ◌≡◌, Option, String}
use sabnzbd_go.Base.Result.{ok}
use sabnzbd_go.Job.Axes.{State, Outcome, Activity, Intent}
use sabnzbd_go.Job.Record.{
  Job, Policy, begin_attempt, surrender, door_transition, door_set_next, door_set_activity,
  door_cross, door_finish, set_intent, grant, set_name, set_policy, set_added,
}
use sabnzbd_go.Job.Record.Invariant.{
  IsJob, begin_attempt-IsJob, door_transition-IsJob, door_set_next-IsJob, door_set_activity-IsJob,
  surrender-IsJob, door_cross-IsJob, door_finish-IsJob, set_intent-IsJob, grant-IsJob, rename-IsJob,
}

pub data Step : Job → Job → Type 0 where
  begins : {j j' : Job} (now : ℕ) → begin_attempt now j ≡ ok j' → Step j j'
  transitions : {j j' : Job} (to : State) → door_transition to j ≡ ok j' → Step j j'
  sets_next : {j j' : Job} (n : State) → door_set_next n j ≡ ok j' → Step j j'
  sets_activity : {j j' : Job} (x : Activity) → door_set_activity x j ≡ ok j' → Step j j'
  crosses : {j j' : Job} (to : State) (l : Option ℕ) → door_cross to j ≡ ok (j', l) → Step j j'
  finishes :
      {j j' : Job} (o : Outcome) (now : ℕ) (l : Option ℕ)
      → door_finish o now j ≡ ok (j', l)
      → Step j j'
  intends : {j j' : Job} (i : Intent) → set_intent i j ≡ ok j' → Step j j'
  granted : {j j' : Job} (l : Option ℕ) → grant l j ≡ ok j' → Step j j'
  surrenders : (j : Job) → Step j (surrender j).0
  renames : (j : Job) (name : String) → Step j (set_name name j)
  repolicies : (j : Job) (p : Policy) → Step j (set_policy p j)
  redates : (j : Job) (t : ℕ) → Step j (set_added t j)

pub data Reach (j : Job) : Job → Type 0 where
  here : Reach j j
  next : {k m : Job} → Reach j k → Step k m → Reach j m

-- Every door keeps the invariant of a job.
pub Step-IsJob : {j j' : Job} → Step j j' → IsJob j → IsJob j'
unfolding set_name set_policy set_added
Step-IsJob (begins now h) v = begin_attempt-IsJob now _ _ v h
Step-IsJob (transitions to h) v = door_transition-IsJob to _ _ v h
Step-IsJob (sets_next n h) v = door_set_next-IsJob n _ _ v h
Step-IsJob (sets_activity x h) v = door_set_activity-IsJob x _ _ v h
Step-IsJob (crosses to l h) v = door_cross-IsJob to _ _ l v h
Step-IsJob (finishes o now l h) v = door_finish-IsJob o now _ _ l v h
Step-IsJob (intends i h) v = set_intent-IsJob i _ _ v h
Step-IsJob (granted l h) v = grant-IsJob l _ _ v h
Step-IsJob (surrenders j) v = surrender-IsJob j v
Step-IsJob (renames j name) v = rename-IsJob j _ _ _ v
Step-IsJob (repolicies j p) v = rename-IsJob j _ _ _ v
Step-IsJob (redates j t) v = rename-IsJob j _ _ _ v

-- Whatever doors are taken, in any order, a job in a legal configuration stays in one.
pub Reach-IsJob : {j j' : Job} → Reach j j' → IsJob j → IsJob j'
Reach-IsJob here v = v
Reach-IsJob (next r s) v = Step-IsJob s (Reach-IsJob r v)
