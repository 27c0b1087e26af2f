-- ===== src/Sched/Ledger.antt =====
-- The accounting of pool A (internal/sched/pool.go): which lease ids are outstanding against the ids
-- that jobs hold. Nothing else in the program can tell that a lease was dropped.
use sabnzbd_go.Base.{
  ℕ, ◌+◌, ◌%◌, ◌≤◌, ◌<◌, ◌≡◌, refl, true, false, Option, none, some, arith, ◌==◌, length,
  if◌then◌else◌, Bool-cases, inl, inr,
}
use sabnzbd_go.Base.Keys.{
  contains, count, nat_eq, count_pos, count_zero, count-remove, length-remove, count-insert,
  length-insert_new,
}
use sabnzbd_go.Sched.Pool.{LeasePool, issue, reclaim, lease_id_mod}

-- How often a job that holds `l` holds the lease `k`.
abbrev pub owes : ℕ → Option ℕ → ℕ
owes k none = 0
owes k (some id) = if id == k then 1 else 0

abbrev pub held : Option ℕ → ℕ
held none = 0
held (some _) = 1

-- A pool's book at one id: it is issued at most once, and not before its turn.
abbrev pub BookAt : ℕ → LeasePool → Type 0
BookAt k p = (count k p.issued ≤ 1) × (p.next < k → count k p.issued ≡ 0)

pub record IsBook (p : LeasePool) : Type 0 where
  pub at : (k : ℕ) → BookAt k p

-- What a door did to the pool and to the lease of the one job that it served: at every id, what came
-- on to the books is what the job has more.
pub record Balances (p : LeasePool) (l : Option ℕ) (p' : LeasePool) (l' : Option ℕ) : Type 0 where
  pub book : IsBook p'
  pub same : (k : ℕ) → count k p'.issued + owes k l ≡ count k p.issued + owes k l'
  pub size : length p'.issued + held l ≡ length p.issued + held l'
  pub turn : (p.next ≤ p'.next) × (p'.next ≤ p.next + 1)

-- The job's lease is on the books.
abbrev pub IsOutstanding : Option ℕ → LeasePool → Type 0
IsOutstanding l p = (k : ℕ) → owes k l ≤ count k p.issued

-- There are ids left to issue.
abbrev pub HasRoom : LeasePool → Type 0
HasRoom p = p.next + 1 < lease_id_mod

pub Balances-refl : (p : LeasePool) (l : Option ℕ) → IsBook p → Balances p l p l
Balances-refl p l b = record { book = b; same = λ k. refl; size = refl; turn = omega arith }

fresh_next : (p : LeasePool) → IsBook p → contains (p.next + 1) p.issued ≡ false
fresh_next p b = elim (Bool-cases (contains (p.next + 1) p.issued)) [
  | inl h ↦ absurd (omega (arith, count_pos (p.next + 1) p.issued h, (b.at (p.next + 1)).1))
  | inr h ↦ h
]

next_mod : (p : LeasePool) → HasRoom p → (p.next + 1) % lease_id_mod ≡ p.next + 1
next_mod p r = omega arith

-- Issuing puts the new id on the books, whoever gets it.
pub issue-Balances :
    (p : LeasePool) → IsBook p → HasRoom p → Balances p none (issue p).0 (issue p).1
unfolding issue
issue-Balances p b r = rw (next_mod p r) (record {
  book = record {
    at = λ k. ground (arith, b.at k, fresh_next p b, count-insert (p.next + 1) k p.issued);
  };
  same = λ k. ground (arith, fresh_next p b, count-insert (p.next + 1) k p.issued);
  size = ground (arith, fresh_next p b, length-insert_new (p.next + 1) p.issued);
  turn = ground arith;
})

outstanding_contains :
    (p : LeasePool) (id : ℕ) → IsOutstanding (some id) p → contains id p.issued ≡ true
outstanding_contains p id o = elim (Bool-cases (contains id p.issued)) [
  | inl h ↦ h
  | inr h ↦ absurd (ground (arith, o id, count_zero id p.issued h))
]

-- An outstanding lease is taken back without an error.
pub reclaim-Balances :
    (p : LeasePool) (l : Option ℕ)
    → IsBook p
    → IsOutstanding l p
    → Balances p l (reclaim l p).0 none × ((reclaim l p).1 ≡ none)
unfolding reclaim
reclaim-Balances p none b o = (Balances-refl p none b, refl)
reclaim-Balances p (some id) b o = rw (outstanding_contains p id o) (
  record {
    book = record { at = λ k. ground (arith, b.at k, count-remove id k p.issued) };
    same = λ k. ground (arith, b.at k, o k, count-remove id k p.issued);
    size = ground (arith, b.at id, o id, length-remove id p.issued);
    turn = ground arith;
  },
  refl,
)

pub Balances-trans :
    (p : LeasePool) (l : Option ℕ) (p' : LeasePool) (l' : Option ℕ) (p'' : LeasePool)
    (l'' : Option ℕ)
    → Balances p l p' l'
    → Balances p' l' p'' l''
    → (p''.next ≤ p.next + 1)
    → Balances p l p'' l''
Balances-trans p l p' l' p'' l'' a b t = record {
  book = b.book;
  same = λ k. omega (arith, a.same k, b.same k);
  size = omega (arith, a.size, b.size);
  turn = omega (arith, a.turn, b.turn);
}

pub Balances-IsOutstanding :
    (p : LeasePool) (l : Option ℕ) (p' : LeasePool) (l' : Option ℕ)
    → IsOutstanding l p
    → Balances p l p' l'
    → IsOutstanding l' p'
Balances-IsOutstanding p l p' l' o b k = omega (arith, b.same k, o k)

pub reclaim-next : (p : LeasePool) (l : Option ℕ) → (reclaim l p).0.next ≡ p.next
unfolding reclaim
reclaim-next p l = ground arith
