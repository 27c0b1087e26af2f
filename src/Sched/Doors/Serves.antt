-- ===== src/Sched/Doors/Serves.antt =====
-- The doors of internal/sched/{advance,settle,cancel}.go against the accounting of pool A: no door
-- drops a lease, takes one twice, or reports one that it did not issue.
use sabnzbd_go.Base.{
  ℕ, ◌≡◌, ◌≢◌, refl, true, not, ◌&&◌, Option, none, some, arith, inl, inr, Bool-cases,
}
use sabnzbd_go.Base.Result.{Result, ok, err}
use sabnzbd_go.Job.Axes.{Activity, State, Intent, Outcome}
use sabnzbd_go.Job.Record.{
  door_set_next, door_set_activity, Job, begin_attempt, door_transition, door_cross, door_finish,
  set_intent, holds_lease, grant,
}
use sabnzbd_go.Job.Error.{Err, not_outstanding}
use sabnzbd_go.Sched.Pool.{LeasePool, issue, acquire, needs_lease}
use sabnzbd_go.Sched.Queue.{Queue}
use sabnzbd_go.Sched.Ledger.{
  Balances, IsBook, IsOutstanding, HasRoom, Balances-refl, Balances-trans, Balances-IsOutstanding,
  issue-Balances, reclaim-Balances, reclaim-next,
}
use sabnzbd_go.Sched.Doors.{After, grant_slot, granted_slot, grant_issued, grant_for, reclaim_lease}

-- What a door owes the pool: its accounts balance, the job is the same one, and the audit is content.
pub record Serves (q : Queue) (j : Job) (a : After) : Type 0 where
  pub accounts : Balances q.leases j.lease a.queue.leases a.job.lease
  pub same_job : a.job.id ≡ j.id
  pub audited : a.error ≢ some not_outstanding

grant_lease :
    (id : ℕ) (j j' : Job)
    → grant (some id) j ≡ ok j'
    → (j'.lease ≡ some id) × (j.lease ≡ none) × (j'.id ≡ j.id)
unfolding grant
grant_lease id j j' h = ground arith

pub grant_slot_same :
    (q : Queue) (j : Job) (s : State)
    → ((grant_slot q j s).0.leases ≡ q.leases) × ((grant_slot q j s).1 ≡ j)
unfolding grant_slot acquire
grant_slot_same q j s = ground arith

-- The job's own doors keep the lease, yield it, or refuse for a reason of their own.
module _ (j j' : Job) where
  pub begin_attempt_lease :
      (now : ℕ) → begin_attempt now j ≡ ok j' → (j'.lease ≡ j.lease) × (j'.id ≡ j.id)
  unfolding begin_attempt
  begin_attempt_lease now h = ground arith

  pub door_transition_lease :
      (to : State) → door_transition to j ≡ ok j' → (j'.lease ≡ j.lease) × (j'.id ≡ j.id)
  unfolding door_transition
  door_transition_lease to h = ground arith

  pub door_cross_lease :
      (to : State) (l : Option ℕ)
      → door_cross to j ≡ ok (j', l)
      → (j'.lease ≡ none) × (l ≡ j.lease) × (j'.id ≡ j.id)
  unfolding door_cross
  door_cross_lease to l h = ground arith

  pub door_finish_lease :
      (o : Outcome) (now : ℕ) (l : Option ℕ)
      → door_finish o now j ≡ ok (j', l)
      → (j'.lease ≡ none) × (l ≡ j.lease) × (j'.id ≡ j.id)
  unfolding door_finish
  door_finish_lease o now l h = ground arith

  pub door_set_next_lease :
      (n : State) → door_set_next n j ≡ ok j' → (j'.lease ≡ j.lease) × (j'.id ≡ j.id)
  unfolding door_set_next
  door_set_next_lease n h = ground arith

  pub door_set_activity_lease :
      (x : Activity) → door_set_activity x j ≡ ok j' → (j'.lease ≡ j.lease) × (j'.id ≡ j.id)
  unfolding door_set_activity
  door_set_activity_lease x h = ground arith

  pub set_intent_lease :
      (i : Intent) → set_intent i j ≡ ok j' → (j'.lease ≡ j.lease) × (j'.id ≡ j.id)
  unfolding set_intent
  set_intent_lease i h = ground arith

module _ (j : Job) (e : Err) where
  pub set_intent_error : (i : Intent) → set_intent i j ≡ err e → e ≢ not_outstanding
  unfolding set_intent
  set_intent_error i h = λ d. ground arith

  pub door_set_next_error : (n : State) → door_set_next n j ≡ err e → e ≢ not_outstanding
  unfolding door_set_next
  door_set_next_error n h = λ d. ground arith

  pub door_set_activity_error : (x : Activity) → door_set_activity x j ≡ err e → e ≢ not_outstanding
  unfolding door_set_activity
  door_set_activity_error x h = λ d. ground arith

  pub begin_attempt_error : (now : ℕ) → begin_attempt now j ≡ err e → e ≢ not_outstanding
  unfolding begin_attempt
  begin_attempt_error now h = λ d. ground arith

  pub door_transition_error : (to : State) → door_transition to j ≡ err e → e ≢ not_outstanding
  unfolding door_transition
  door_transition_error to h = λ d. ground arith

  pub door_cross_error : (to : State) → door_cross to j ≡ err e → e ≢ not_outstanding
  unfolding door_cross
  door_cross_error to h = λ d. ground arith

  pub door_finish_error :
      (o : Outcome) (now : ℕ) → door_finish o now j ≡ err e → e ≢ not_outstanding
  unfolding door_finish
  door_finish_error o now h = λ d. ground arith

granted_slot-Balances :
    (p : LeasePool) (l₀ : Option ℕ) (q : Queue) (j : Job) (s : State) (id : ℕ) (r : Result Err Job)
    → grant (some id) j ≡ r
    → j.lease ≡ none
    → Balances p l₀ q.leases (some id)
    → IsOutstanding (some id) q.leases
    → let (q', j', _) = granted_slot q j s id r in Balances p l₀ q'.leases j'.lease × (j'.id ≡ j.id)
unfolding granted_slot reclaim_lease
granted_slot-Balances p l₀ q j s id (ok j') h e b o =
    let (took, _, same) = grant_lease id j j' h in
    let (leases, job) = grant_slot_same q j' s in rw (leases, job, took) (b, same)
granted_slot-Balances p l₀ q j s id (err x) h e b o =
    let (back, _) = reclaim-Balances q.leases (some id) b.book o in
    (
      rw e (
          Balances-trans p l₀ q.leases (some id) _ none b back
            (omega (arith, b.turn, reclaim-next q.leases (some id)))),
      refl,
    )

grant_issued-Balances :
    (p : LeasePool) (l₀ : Option ℕ) (q : Queue) (j : Job) (s : State) (l : Option ℕ)
    → j.lease ≡ none
    → Balances p l₀ q.leases l
    → IsOutstanding l q.leases
    → let (q', j', _) = grant_issued q j s l in Balances p l₀ q'.leases j'.lease × (j'.id ≡ j.id)
unfolding grant_issued
grant_issued-Balances p l₀ q j s none e b o = (rw e b, refl)
grant_issued-Balances p l₀ q j s (some id) e b o = granted_slot-Balances p l₀ q j s id _ refl e b o

lease_free : (j : Job) (s : State) → (needs_lease s && not (holds_lease j)) ≡ true → j.lease ≡ none
unfolding holds_lease
lease_free j s h = ground arith

pub grant_for-Balances :
    (q : Queue) (j : Job) (s : State)
    → IsBook q.leases
    → HasRoom q.leases
    → let (q', j', _) = grant_for q j s in
      Balances q.leases j.lease q'.leases j'.lease × (j'.id ≡ j.id)
unfolding grant_for
grant_for-Balances q j s b r = elim (Bool-cases (needs_lease s && not (holds_lease j))) [
  | inl h ↦
      let e = lease_free j s h in
      let fresh = issue-Balances q.leases b r in
      rw h (
        grant_issued-Balances q.leases j.lease (record q { leases = (issue q.leases).0 }) j s
          (issue q.leases).1 e (rw e fresh)
          (Balances-IsOutstanding q.leases none (issue q.leases).0 (issue q.leases).1
            (λ k. omega arith) fresh))
  | inr h ↦
      let (leases, job) = grant_slot_same q j s in
      rw (h, leases, job) (Balances-refl q.leases j.lease b, refl)
]
