-- ===== src/Sched/World/Leases.antt =====
-- No history of actions leaks a lease or lends one twice (internal/sched and internal/job together).
use native.Mathlib.Decide.{ℕ_discrete}
use sabnzbd_go.Base.{
  ℕ, zero, suc, ◌+◌, ◌≤◌, ◌<◌, ◌≡◌, ◌≢◌, refl, ap, Option, none, some, List, [], ◌∷◌, arith, length,
  get_elem?,
}
use sabnzbd_go.Base.Keys.{count, nat_eq}
use sabnzbd_go.Job.Record.{Job}
use sabnzbd_go.Job.Error.{Err, not_outstanding}
use sabnzbd_go.Sched.Pool.{lease_id_mod, new_lease_pool}
use sabnzbd_go.Sched.Queue.{Queue, new_queue}
use sabnzbd_go.Sched.Ledger.{owes, HasRoom}
use sabnzbd_go.Sched.Doors.{After}
use sabnzbd_go.Sched.Doors.Accounts.{none_audited}
use sabnzbd_go.Sched.World.{answer_found, answer, World, Action, call, step, run, start}
use sabnzbd_go.Sched.World.Books.{total, IsWorld, total-get}
use sabnzbd_go.Sched.World.Actions.{Respects, CallRespects, call-Respects, step-Grown}

-- A fresh world's books are right.
pub start-IsWorld : (a b : ℕ) → IsWorld (start a b)
unfolding start new_queue new_lease_pool count
start-IsWorld a b = record {
  book = record { at = λ k. omega arith };
  counts = λ k. refl;
  size = refl;
  well = tt;
}

run-Grown :
    (w : World) (xs : List (ℕ × Action))
    → IsWorld w
    → w.queue.leases.next + length xs < lease_id_mod
    → IsWorld (run w xs)
unfolding run
run-Grown w [] v r = v
run-Grown w (x ∷ xs) v r =
    let (v', g) = step-Grown w x v (omega arith) in run-Grown (step w x) xs v' (omega arith)

-- Whatever the dispatcher, the workers and the user do, in any order and fewer than 2^64 times: every
-- outstanding lease is held by exactly one job, as many are outstanding as there are jobs holding one,
-- and every job is in a legal configuration.
pub run-IsWorld :
    (a b : ℕ) (xs : List (ℕ × Action)) → length xs < lease_id_mod → IsWorld (run (start a b) xs)
unfolding start new_queue new_lease_pool
run-IsWorld a b xs r = run-Grown (start a b) xs (start-IsWorld a b) (omega arith)

owed_twice :
    (k : ℕ) (js : List Job) (i m : ℕ) (j j' : Job)
    → get_elem? js i ≡ some j
    → get_elem? js m ≡ some j'
    → j.lease ≡ some k
    → j'.lease ≡ some k
    → i ≢ m
    → 2 ≤ total (owes k) js
owed_twice k [] i m j j' h g e d n = cc
owed_twice k (x ∷ js) zero zero j j' h g e d n = absurd (n refl)
owed_twice k (x ∷ js) zero (suc m) j j' h g e d n = ground (arith, total-get (owes k) js m j' g)
owed_twice k (x ∷ js) (suc i) zero j j' h g e d n = ground (arith, total-get (owes k) js i j h)
owed_twice k (x ∷ js) (suc i) (suc m) j j' h g e d n =
    omega (arith, owed_twice k js i m j j' h g e d (λ p. n (ap suc p)))

-- No two jobs hold the same lease.
pub leases_apart :
    (w : World) (i m k : ℕ) (j j' : Job)
    → IsWorld w
    → get_elem? w.jobs i ≡ some j
    → get_elem? w.jobs m ≡ some j'
    → j.lease ≡ some k
    → j'.lease ≡ some k
    → i ≡ m
leases_apart w i m k j j' v h g e d = elim (ℕ_discrete i m) [
  | yes p ↦ p
  | no n ↦
      absurd (omega (arith, owed_twice k w.jobs i m j j' h g e d n, v.counts k, (v.book.at k).0))
]

answer_found_silent :
    (w : World) (i : ℕ) (door : Queue → Job → After) (o : Option Job)
    → get_elem? w.jobs i ≡ o
    → IsWorld w
    → HasRoom w.queue.leases
    → Respects door
    → answer_found w.queue door o ≢ some not_outstanding
unfolding answer_found
answer_found_silent w i door none h v r d = none_audited
answer_found_silent w i door (some j) h v r d =
    (d w.queue j v.book (λ k. omega (arith, v.counts k, total-get (owes k) w.jobs i j h))
      r).0.audited

answer_silent :
    (w : World) (c : Option (ℕ × (Queue → Job → After)))
    → IsWorld w
    → HasRoom w.queue.leases
    → CallRespects c
    → (elim c as (λ _. Option Err) [
      | none ↦ none
      | some (i, door) ↦ answer_found w.queue door (get_elem? w.jobs i)
    ])
      ≢ some not_outstanding
answer_silent w none v r d = none_audited
answer_silent w (some (i, door)) v r d = answer_found_silent w i door _ refl v r d

-- No action of a world whose books are right is answered with ErrNotOutstanding: the queue is never
-- handed back a lease that it did not issue or has back already.
pub audit_silent :
    (w : World) (x : ℕ × Action)
    → IsWorld w
    → HasRoom w.queue.leases
    → answer w x ≢ some not_outstanding
unfolding answer
audit_silent w (now, x) v r = answer_silent w (call now x) v r (call-Respects now x)
