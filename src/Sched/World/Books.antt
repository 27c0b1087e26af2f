-- ===== src/Sched/World/Books.antt =====
-- The books of pool A against the leases that the jobs of a world hold.
use mathlib.Core.Path.{subst}
use sabnzbd_go.Base.{
  ℕ, zero, suc, ◌+◌, ◌≤◌, ◌≡◌, Option, some, List, [], ◌∷◌, ◌++◌, arith, length, get_elem?, set,
}
use sabnzbd_go.Base.Keys.{count, nat_eq}
use sabnzbd_go.Job.Record.{Job}
use sabnzbd_go.Job.Record.Invariant.{IsJob}
use sabnzbd_go.Sched.Ledger.{owes, held, IsBook}
use sabnzbd_go.Sched.World.{World}

abbrev pub total : (Option ℕ → ℕ) → List Job → ℕ
total f [] = 0
total f (j ∷ js) = f j.lease + total f js

abbrev pub AllJobs : List Job → Type 0
AllJobs [] = Unit {0}
AllJobs (j ∷ js) = IsJob j × AllJobs js

-- Pool A's book agrees with the jobs: every id is outstanding exactly as often as jobs hold it, which
-- is at most once, and as many leases are outstanding as there are jobs that hold one.
pub record IsWorld (w : World) : Type 0 where
  pub book : IsBook w.queue.leases
  pub counts : (k : ℕ) → count k w.queue.leases.issued ≡ total (owes k) w.jobs
  pub size : length w.queue.leases.issued ≡ total held w.jobs
  pub well : AllJobs w.jobs

pub total-set :
    (f : Option ℕ → ℕ) (js : List Job) (i : ℕ) (j j' : Job)
    → get_elem? js i ≡ some j
    → total f (set js i j') + f j.lease ≡ total f js + f j'.lease
total-set f [] i j j' h = cc
total-set f (x ∷ js) zero j j' h = ground arith
total-set f (x ∷ js) (suc i) j j' h = omega (arith, total-set f js i j j' h)

pub total-get :
    (f : Option ℕ → ℕ) (js : List Job) (i : ℕ) (j : Job)
    → get_elem? js i ≡ some j
    → f j.lease ≤ total f js
total-get f [] i j h = cc
total-get f (x ∷ js) zero j h = ground arith
total-get f (x ∷ js) (suc i) j h = omega (arith, total-get f js i j h)

pub total-append :
    (f : Option ℕ → ℕ) (xs ys : List Job) → total f (xs ++ ys) ≡ total f xs + total f ys
total-append f [] ys = omega arith
total-append f (x ∷ xs) ys = omega (arith, total-append f xs ys)

pub AllJobs-set : (js : List Job) (i : ℕ) (j' : Job) → AllJobs js → IsJob j' → AllJobs (set js i j')
AllJobs-set [] i j' a v = tt
AllJobs-set (x ∷ js) zero j' a v = (v, a.1)
AllJobs-set (x ∷ js) (suc i) j' a v = (a.0, AllJobs-set js i j' a.1 v)

pub AllJobs-get : (js : List Job) (i : ℕ) (j : Job) → get_elem? js i ≡ some j → AllJobs js → IsJob j
AllJobs-get [] i j h a = cc
AllJobs-get (x ∷ js) zero j h a = subst IsJob (ground arith) a.0
AllJobs-get (x ∷ js) (suc i) j h a = AllJobs-get js i j h a.1

pub AllJobs-append : (xs ys : List Job) → AllJobs xs → AllJobs ys → AllJobs (xs ++ ys)
AllJobs-append [] ys a b = b
AllJobs-append (x ∷ xs) ys a b = (a.0, AllJobs-append xs ys a.1 b)
