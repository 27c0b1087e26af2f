-- ===== src/Dispatch/Tick/Residency.antt =====
-- Content is resident where resources are held, and a worker only starts on resident content
-- (reconcileResidency and launch of internal/dispatch).
use sabnzbd_go.Base.{
  Bool-cases, Option, false, inl, inr, none, some, Bool, String, arith, refl, true, ℕ, ◌≡◌,
}
use sabnzbd_go.Dispatch.Worker.{through}
use sabnzbd_go.Job.Axes.{failed}
use sabnzbd_go.Job.Error.{Err}
use sabnzbd_go.Sched.Doors.{settle}
use sabnzbd_go.Dispatch.Tick.{
  Hydrated, broken, interrupted, loaded, Outside, hydrate, hydrate_broken, reconcile_residency,
}
use sabnzbd_go.Dispatch.Registry.{Dispatcher, admits, id_of, mark_not_resident, mark_resident}
use sabnzbd_go.Sched.Render.{render}
use text.Mathlib.TextEquality.{eq_iff}

-- What a reconciliation that reports no error leaves: all but the residency as it was.
pub record Reconciled (id : String) (b : Bool) (d d' : Dispatcher) : Type 0 where
  pub queue : d'.queue ≡ d.queue
  pub jobs : d'.jobs ≡ d.jobs
  pub by_id : d'.by_id ≡ d.by_id
  pub removing : d'.removing ≡ d.removing
  pub launched : d'.launched ≡ d.launched
  pub resident : admits d id ≡ true → d'.resident id ≡ b

hydrate_broken-refuses :
    (id : String) (r : Dispatcher × Option Err) → (hydrate_broken id r).1 ≡ false
unfolding hydrate_broken
hydrate_broken-refuses id (d, some e) = refl
hydrate_broken-refuses id (d, none) = refl

hydrate-Reconciled :
    (o : Outside) (j : ℕ) (x : Hydrated) (d : Dispatcher)
    → (hydrate o j x d).1 ≡ true
    → Reconciled (id_of d j) true d (hydrate o j x d).0
unfolding hydrate mark_resident
hydrate-Reconciled o j loaded d h = elim (Bool-cases (admits d (id_of d j))) [
  | inl a ↦ rw a (record {
    queue = refl;
    jobs = refl;
    by_id = refl;
    removing = refl;
    launched = refl;
    resident = λ y. ground (arith, eq_iff (id_of d j) (id_of d j));
  })
  | inr a ↦ rw a (record {
    queue = refl;
    jobs = refl;
    by_id = refl;
    removing = refl;
    launched = refl;
    resident = λ y. cc;
  })
]
hydrate-Reconciled o j interrupted d h = cc
hydrate-Reconciled o j broken d h =
    cc (hydrate_broken-refuses (id_of d j) (through j (settle o.now failed) d))

pub reconcile-Reconciled :
    (o : Outside) (j : ℕ) (d : Dispatcher)
    → (reconcile_residency o j d).1 ≡ true
    → Reconciled (id_of d j) (render d.queue (d.jobs j)).holds d (reconcile_residency o j d).0
unfolding reconcile_residency mark_not_resident
reconcile-Reconciled o j d h = elim (Bool-cases (render d.queue (d.jobs j)).holds) [
  | inl p ↦ elim (Bool-cases (d.resident (id_of d j))) [
    | inl q ↦
        rw (p, q)
          (record {
            queue = refl;
            jobs = refl;
            by_id = refl;
            removing = refl;
            launched = refl;
            resident = λ y. q;
          })
    | inr q ↦ rw (p, q) (hydrate-Reconciled o j o.hydrated d (rw (p, q) at h))
  ]
  | inr p ↦ elim (Bool-cases (d.resident (id_of d j))) [
    | inl q ↦
        rw (p, q)
          (record {
            queue = refl;
            jobs = refl;
            by_id = refl;
            removing = refl;
            launched = refl;
            resident = λ y. ground (arith, eq_iff (id_of d j) (id_of d j));
          })
    | inr q ↦
        rw (p, q)
          (record {
            queue = refl;
            jobs = refl;
            by_id = refl;
            removing = refl;
            launched = refl;
            resident = λ y. q;
          })
  ]
]

-- After a reconciliation that reports no error, a job that admits work is resident exactly if it holds
-- what its state needs.
pub reconcile-resident :
    (o : Outside) (j : ℕ) (d : Dispatcher)
    → admits d (id_of d j) ≡ true
    → (reconcile_residency o j d).1 ≡ true
    → let d' = (reconcile_residency o j d).0 in
      d'.resident (id_of d j) ≡ (render d'.queue (d'.jobs j)).holds
reconcile-resident o j d a h =
    let r = reconcile-Reconciled o j d h in rw (r.queue, r.jobs) (r.resident a)
