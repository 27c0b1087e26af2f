-- ===== src/Sched/World/Actions.antt =====
-- Every action of a world (internal/sched, internal/job) keeps the books right.
use sabnzbd_go.Base.{ℕ, ◌+◌, ◌≤◌, ◌≡◌, ◌≢◌, refl, Option, none, some, [], ◌∷◌, arith, get_elem?}
use sabnzbd_go.Base.Result.{Result, ok, err}
use sabnzbd_go.Base.Keys.{nat_eq}
use sabnzbd_go.Job.Record.{
  Job, new, door_set_next, door_set_activity, set_intent, set_name, set_policy, set_added,
}
use sabnzbd_go.Job.Record.Invariant.{new-IsJob}
use sabnzbd_go.Job.Step.{
  Reach, here, next, sets_next, sets_activity, intends, renames, repolicies, redates, Reach-IsJob,
}
use sabnzbd_go.Job.Error.{Err, not_outstanding}
use sabnzbd_go.Sched.Pool.{set_lease_capacity}
use sabnzbd_go.Sched.Queue.{Queue, pause, resume, set_caps}
use sabnzbd_go.Sched.Ledger.{owes, held, IsBook, IsOutstanding, HasRoom}
use sabnzbd_go.Sched.Doors.{After}
use sabnzbd_go.Sched.Doors.Serves.{
  Serves, door_set_next_lease, door_set_next_error, door_set_activity_lease,
  door_set_activity_error, set_intent_lease, set_intent_error,
}
use sabnzbd_go.Sched.Doors.Accounts.{
  park-Serves, retry-Serves, settle-Serves, stays-Serves, none_audited, some_audited,
}
use sabnzbd_go.Sched.Doors.Ticks.{advance-Serves, cancel-Serves}
use sabnzbd_go.Sched.Doors.Reaches.{
  park-Reach, retry-Reach, settle-Reach, advance-Reach, cancel-Reach,
}
use sabnzbd_go.Sched.World.{
  World, Action, advances, parks, retries, cancels, settles, sets_next as act_sets_next,
  sets_activity as act_sets_activity, intends as act_intends, renames as act_renames,
  repolicies as act_repolicies, redates as act_redates, submits, pauses, resumes, sets_caps,
  job_door, put, on_found, on_job, call, step,
}
use sabnzbd_go.Sched.World.Books.{
  IsWorld, total-set, total-get, total-append, AllJobs-set, AllJobs-get, AllJobs-append,
}

-- What every call on a job respects.
abbrev pub Respects : (Queue → Job → After) → Type 0
Respects door =
    (q : Queue) (j : Job)
    → IsBook q.leases
    → IsOutstanding j.lease q.leases
    → HasRoom q.leases
    → Serves q j (door q j) × Reach j (door q j).job

-- One more id can have been issued, and the world's books are right.
abbrev pub Grown : World → World → Type 0
Grown w w' = IsWorld w' × (w'.queue.leases.next ≤ w.queue.leases.next + 1)

put-Grown :
    (w : World) (i : ℕ) (j : Job) (a : After)
    → IsWorld w
    → get_elem? w.jobs i ≡ some j
    → Serves w.queue j a
    → Reach j a.job
    → Grown w (put w i a)
unfolding put
put-Grown w i j a v h s r = (
  record {
    book = s.accounts.book;
    counts =
        λ k. omega (arith, v.counts k, s.accounts.same k, total-set (owes k) w.jobs i j a.job h);
    size = omega (arith, v.size, s.accounts.size, total-set held w.jobs i j a.job h);
    well = AllJobs-set w.jobs i a.job v.well (Reach-IsJob r (AllJobs-get w.jobs i j h v.well));
  },
  s.accounts.turn.1,
)

on_found-Grown :
    (w : World) (i : ℕ) (door : Queue → Job → After) (o : Option Job)
    → get_elem? w.jobs i ≡ o
    → IsWorld w
    → HasRoom w.queue.leases
    → Respects door
    → Grown w (on_found w i door o)
unfolding on_found
on_found-Grown w i door none h v r d = (v, omega arith)
on_found-Grown w i door (some j) h v r d =
    let (s, t) =
      d w.queue j v.book (λ k. omega (arith, v.counts k, total-get (owes k) w.jobs i j h)) r in
    put-Grown w i j (door w.queue j) v h s t

-- A door of the job alone that keeps the lease and the id, and refuses for a reason of its own.
job_door-Respects :
    (f : Job → Result Err Job)
    → ((j j' : Job) → f j ≡ ok j' → (j'.lease ≡ j.lease) × (j'.id ≡ j.id))
    → ((j : Job) (e : Err) → f j ≡ err e → e ≢ not_outstanding)
    → ((j j' : Job) → f j ≡ ok j' → Reach j j')
    → Respects (λ q j. job_door (f j) q j)
unfolding job_door
job_door-Respects f kept quiet reach q j b o room = go (f j) refl
  where
    go : (r : Result Err Job) → f j ≡ r → Serves q j (job_door r q j) × Reach j (job_door r q j).job
    go (ok j') h = (stays-Serves q q j j' none b refl (kept j j' h) none_audited, reach j j' h)
    go (err e) h =
        (stays-Serves q q j j (some e) b refl (refl, refl) (some_audited e (quiet j e h)), here)

-- So does every action that calls on a job.
abbrev pub CallRespects : Option (ℕ × (Queue → Job → After)) → Type 0
CallRespects none = Unit {0}
CallRespects (some (i, door)) = Respects door

pub call-Respects : (now : ℕ) (x : Action) → CallRespects (call now x)
unfolding call set_name set_policy set_added
call-Respects now (advances i) = λ q j b o k. (advance-Serves q j b o k now, advance-Reach q j now)
call-Respects now (parks i) = λ q j b o k. (park-Serves q j b o, park-Reach q j)
call-Respects now (retries i) = λ q j b o k. (retry-Serves q j b o now, retry-Reach q j now)
call-Respects now (cancels i) = λ q j b o k. (cancel-Serves now q j b o, cancel-Reach now q j)
call-Respects now (settles i c) = λ q j b o k. (settle-Serves q j b o now c, settle-Reach q j now c)
call-Respects now (act_sets_next i n) =
    job_door-Respects (door_set_next n) (λ j j' h. door_set_next_lease j j' n h)
      (λ j e h. door_set_next_error j e n h) (λ j j' h. next here (sets_next n h))
call-Respects now (act_sets_activity i x) =
    job_door-Respects (door_set_activity x) (λ j j' h. door_set_activity_lease j j' x h)
      (λ j e h. door_set_activity_error j e x h) (λ j j' h. next here (sets_activity x h))
call-Respects now (act_intends i x) =
    job_door-Respects (set_intent x) (λ j j' h. set_intent_lease j j' x h)
      (λ j e h. set_intent_error j e x h) (λ j j' h. next here (intends x h))
call-Respects now (act_renames i n) = λ q j b o k.
    (stays-Serves q q j _ none b refl (refl, refl) none_audited, next here (renames j n))
call-Respects now (act_repolicies i p) = λ q j b o k.
    (stays-Serves q q j _ none b refl (refl, refl) none_audited, next here (repolicies j p))
call-Respects now (act_redates i t) = λ q j b o k.
    (stays-Serves q q j _ none b refl (refl, refl) none_audited, next here (redates j t))
call-Respects now (submits a b p) = tt
call-Respects now pauses = tt
call-Respects now resumes = tt
call-Respects now (sets_caps a b) = tt

-- Every action, in every state, keeps the books right.
pub step-Grown :
    (w : World) (x : ℕ × Action) → IsWorld w → HasRoom w.queue.leases → Grown w (step w x)
unfolding step call on_job new pause resume set_caps set_lease_capacity
step-Grown w (now, advances i) v r =
    on_found-Grown w i _ _ refl v r (call-Respects now (advances i))
step-Grown w (now, parks i) v r = on_found-Grown w i _ _ refl v r (call-Respects now (parks i))
step-Grown w (now, retries i) v r = on_found-Grown w i _ _ refl v r (call-Respects now (retries i))
step-Grown w (now, cancels i) v r = on_found-Grown w i _ _ refl v r (call-Respects now (cancels i))
step-Grown w (now, settles i c) v r =
    on_found-Grown w i _ _ refl v r (call-Respects now (settles i c))
step-Grown w (now, act_sets_next i n) v r =
    on_found-Grown w i _ _ refl v r (call-Respects now (act_sets_next i n))
step-Grown w (now, act_sets_activity i x) v r =
    on_found-Grown w i _ _ refl v r (call-Respects now (act_sets_activity i x))
step-Grown w (now, act_intends i x) v r =
    on_found-Grown w i _ _ refl v r (call-Respects now (act_intends i x))
step-Grown w (now, act_renames i n) v r =
    on_found-Grown w i _ _ refl v r (call-Respects now (act_renames i n))
step-Grown w (now, act_repolicies i p) v r =
    on_found-Grown w i _ _ refl v r (call-Respects now (act_repolicies i p))
step-Grown w (now, act_redates i t) v r =
    on_found-Grown w i _ _ refl v r (call-Respects now (act_redates i t))
step-Grown w (now, submits id name p) v r =
    let j = new id name p now in
    (
      record {
        book = v.book;
        counts = λ k. omega (arith, v.counts k, total-append (owes k) w.jobs (j ∷ []));
        size = omega (arith, v.size, total-append held w.jobs (j ∷ []));
        well = AllJobs-append w.jobs (j ∷ []) v.well (new-IsJob id name p now, tt);
      },
      omega arith,
    )
step-Grown w (now, pauses) v r =
    (record { book = v.book; counts = v.counts; size = v.size; well = v.well }, omega arith)
step-Grown w (now, resumes) v r =
    (record { book = v.book; counts = v.counts; size = v.size; well = v.well }, omega arith)
step-Grown w (now, sets_caps a b) v r = (
  record { book = record { at = v.book.at }; counts = v.counts; size = v.size; well = v.well },
  omega arith,
)
