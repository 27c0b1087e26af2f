-- ===== src/Sched/Doors/Accounts.antt =====
-- Each door of internal/sched/{advance,settle,cancel}.go against the accounting of pool A, from the
-- parts in Sched/Doors/Serves.antt.
use sabnzbd_go.Base.{
  true, false, ◌∷◌, inr, not, if◌then◌else◌, inl, Bool, Bool-cases, ℕ, ◌≡◌, ◌≢◌, refl, Option, none,
  some, arith, String,
}
use sabnzbd_go.Base.Result.{Result, ok, err}
use sabnzbd_go.Job.Axes.{cancelled, is_unset, is_settled, is_cancelled, State, Outcome, state_unset}
use sabnzbd_go.Job.Record.{snapshot, Job, Snapshot, begin_attempt, surrender, door_finish}
use sabnzbd_go.Job.Error.{Err, not_outstanding, not_settled, cancel_reserved}
use sabnzbd_go.Sched.Queue.{Queue, release_for}
use sabnzbd_go.Sched.Ledger.{IsBook, IsOutstanding, Balances-refl, reclaim-Balances}
use sabnzbd_go.Sched.Doors.{
  cancel_interrupts, running, retry, settle, finish_cancel, after, park, reclaim_lease, from_job,
  settle_finished, settle_locked,
}
use sabnzbd_go.Sched.Doors.Serves.{
  Serves, begin_attempt_lease, door_finish_lease, begin_attempt_error, door_finish_error,
}

pub release_for_leases :
    (id : String) (s : State) (q : Queue) → (release_for id s q).leases ≡ q.leases
unfolding release_for
release_for_leases id s q = ground arith

pub none_audited : none ≢ some not_outstanding
none_audited h = cc

pub some_audited : (e : Err) → e ≢ not_outstanding → some e ≢ some not_outstanding
some_audited e h d = ground arith

-- A door that leaves pool A and the job's lease alone.
pub stays-Serves :
    (q q' : Queue) (j j' : Job) (e : Option Err)
    → IsBook q.leases
    → q'.leases ≡ q.leases
    → (j'.lease ≡ j.lease) × (j'.id ≡ j.id)
    → e ≢ some not_outstanding
    → Serves q j (after q' j' e)
stays-Serves q q' j j' e b p (l, i) a = record {
  accounts = rw (p, l) (Balances-refl q.leases j.lease b);
  same_job = i;
  audited = a;
}

-- A door that takes the job's lease back.
pub yields-Serves :
    (q q' : Queue) (j j' : Job) (l : Option ℕ)
    → IsBook q.leases
    → IsOutstanding j.lease q.leases
    → q'.leases ≡ q.leases
    → (j'.lease ≡ none) × (l ≡ j.lease) × (j'.id ≡ j.id)
    → let (q'', e) = reclaim_lease l q' in Serves q j (after q'' j' e)
unfolding reclaim_lease
yields-Serves q q' j j' l b o p (f, same, i) =
    let (accounts, quiet) = reclaim-Balances q.leases j.lease b o in
    record {
      accounts = rw (p, f, same) accounts;
      same_job = i;
      audited = rw (p, same, quiet) none_audited;
    }

module _ (q : Queue) (j : Job) (b : IsBook q.leases) (o : IsOutstanding j.lease q.leases) where
  pub park-Serves : Serves q j (park q j)
  unfolding park surrender
  park-Serves =
      yields-Serves q (release_for j.id state_unset q) j (record j { lease = none }) j.lease b o
        (release_for_leases j.id state_unset q) (refl, refl, refl)

  pub from_job-Serves :
      (now : ℕ) (q' : Queue) (r : Result Err Job)
      → q'.leases ≡ q.leases
      → begin_attempt now j ≡ r
      → Serves q j (from_job q' j r)
  unfolding from_job
  from_job-Serves now q' (ok j') p h =
      stays-Serves q q' j j' none b p (begin_attempt_lease j j' now h) none_audited
  from_job-Serves now q' (err e) p h =
      stays-Serves q q' j j (some e) b p (refl, refl)
        (some_audited e (begin_attempt_error j e now h))

  pub settle_finished-Serves :
      (o' : Outcome) (now : ℕ) (r : Result Err (Job × Option ℕ))
      → door_finish o' now j ≡ r
      → Serves q j (settle_finished q j r)
  unfolding settle_finished
  settle_finished-Serves o' now (ok (j', l)) h =
      yields-Serves q (release_for j.id state_unset q) j j' l b o
        (release_for_leases j.id state_unset q) (door_finish_lease j j' o' now l h)
  settle_finished-Serves o' now (err e) h =
      stays-Serves q q j j (some e) b refl (refl, refl)
        (some_audited e (door_finish_error j e o' now h))

  pub settle_locked-Serves :
      (now : ℕ) (o' : Outcome) (s : Snapshot) → Serves q j (settle_locked now o' s q j)
  unfolding settle_locked
  settle_locked-Serves now o' s = settle_finished-Serves _ now _ refl

  pub finish_cancel-Serves : (now : ℕ) (s : Snapshot) → Serves q j (finish_cancel now s q j)
  unfolding finish_cancel
  finish_cancel-Serves now s = elim (Bool-cases (is_unset s.state.state)) [
    | inl h ↦ rw h (stays-Serves q q j j none b refl (refl, refl) none_audited)
    | inr h ↦ rw h (elim (Bool-cases (is_settled s.state.outcome)) [
      | inl k ↦ rw k (
          stays-Serves q _ j j none b (release_for_leases j.id state_unset q) (refl, refl)
            none_audited)
      | inr k ↦ rw k (elim (Bool-cases (running q j.id s)) [
        | inl m ↦ rw m (interrupt (cancel_interrupts s.state.state))
        | inr m ↦ rw m (settle_locked-Serves now cancelled s)
      ])
    ])
  ]
    where
      interrupt :
          (i : Bool)
          → Serves q j (
              if not i
              then after q j none
              else after (record q { aborted = j.id ∷ q.aborted }) j none)
      interrupt true =
          stays-Serves q (record q { aborted = j.id ∷ q.aborted }) j j none b refl (refl, refl)
            none_audited
      interrupt false = stays-Serves q q j j none b refl (refl, refl) none_audited

  pub retry-Serves : (now : ℕ) → Serves q j (retry now q j)
  unfolding retry
  retry-Serves now = elim (Bool-cases (is_settled (snapshot j).state.outcome)) [
    | inl h ↦ rw h (from_job-Serves now _ _ (release_for_leases j.id state_unset q) refl)
    | inr h ↦ rw h (stays-Serves q q j j (some not_settled) b refl (refl, refl) (λ d. cc))
  ]

  pub settle-Serves : (now : ℕ) (o' : Outcome) → Serves q j (settle now o' q j)
  unfolding settle
  settle-Serves now o' = elim (Bool-cases (is_cancelled o')) [
    | inl h ↦ rw h (stays-Serves q q j j (some cancel_reserved) b refl (refl, refl) (λ d. cc))
    | inr h ↦ rw h (settle_locked-Serves now o' (snapshot j))
  ]
