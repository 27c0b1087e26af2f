-- ===== src/Dispatch/Steps/Teardown.antt =====
-- While a removal is outstanding, nothing attaches to its job (admitsLocked and the removal marker of
-- internal/dispatch/registry.go).
use sabnzbd_go.Base.{
  Bool-cases, [], inl, leb, ◌||◌, ◌∷◌, List, Option, some, ◌-◌, if◌then◌else◌, Bool, String, arith,
  false, inr, none, refl, true, ℕ, ◌+◌, ◌<◌, ◌∙◌, ◌≡◌, ◌≤◌, ◌⊎◌,
}
use sabnzbd_go.Dispatch.Registry.{admits, put, Dispatcher}
use sabnzbd_go.Dispatch.Steps.{
  take_all, registers, begins, begins_if_idle, clears, claims, occupies, waits, leaves,
  waits_except, marks_resident, marks_not_resident, marks_written, sets_header, calls, Step, aborts,
  erases, take,
}
use sabnzbd_go.Base.Keys.{count-remove, remove, count, nat_eq}
use sabnzbd_go.Dispatch.Occupy.{drain, leave, renew_step}
use text.Mathlib.Text.{◌==◌ as str_eq}
use text.Mathlib.TextEquality.{eq_iff}

-- What a later state has attached to a job, the earlier one had.
pub record Quieter (id : String) (d d' : Dispatcher) : Type 0 where
  pub worker : (d'.launched id ≡ none) ⊎ (d'.launched id ≡ d.launched id)
  pub tokens : (t : ℕ) → count t (d'.tokens id) ≤ count t (d.tokens id)
  pub occupiers : d'.occupiers id ≤ d.occupiers id
  pub resident : d'.resident id ≡ true → d.resident id ≡ true
  pub written : d'.written id ≡ d.written id

Quieter-refl : (id : String) (d : Dispatcher) → Quieter id d d
Quieter-refl id d = record {
  worker = inr refl;
  tokens = λ t. omega arith;
  occupiers = omega arith;
  resident = λ h. h;
  written = refl;
}

Quieter-trans :
    (id : String) (a b c : Dispatcher) → Quieter id a b → Quieter id b c → Quieter id a c
Quieter-trans id a b c p q = record {
  worker = ground (arith, p.worker, q.worker);
  tokens = λ t. omega (arith, p.tokens t, q.tokens t);
  occupiers = omega (arith, p.occupiers, q.occupiers);
  resident = λ h. p.resident (q.resident h);
  written = q.written ∙ p.written;
}

-- The step does not take a removal of the job away, except one if it aborts one.
unfoldable pub releases : String → Step → ℕ
releases id (aborts x) = if str_eq x id then 1 else 0
releases _ _ = 0

unfoldable pub erases_it : String → Step → Bool
erases_it id (erases x) = str_eq x id
erases_it _ _ = false

-- What leave does behind the token and the count.
renew_step-Quieter :
    (id x : String) (ch : Option ℕ) (d : Dispatcher)
    → Quieter id d (renew_step x ch d) × (d.removing id ≤ (renew_step x ch d).removing id + 0)
unfolding renew_step
renew_step-Quieter id x none d = (Quieter-refl id d, omega arith)
renew_step-Quieter id x (some ch) d = ground arith

count-remove_le : (t tok : ℕ) (ts : List ℕ) → count t (remove tok ts) ≤ count t ts
count-remove_le t tok ts = ground (arith, count-remove tok t ts)

tokens_le :
    (id x : String) (tok : ℕ) (m : String → List ℕ) (t : ℕ)
    → count t (put m x (remove tok (m x)) id) ≤ count t (m id)
tokens_le id x tok m t = ground (arith, eq_iff x id, count-remove_le t tok (m x))

leave-Quieter :
    (id x : String) (tok : ℕ) (d : Dispatcher)
    → Quieter id d (leave x tok d) × (d.removing id ≤ (leave x tok d).removing id + 0)
unfolding leave drain
leave-Quieter id x tok d = elim (Bool-cases (leb (d.occupiers x) 1)) [
  | inl h ↦ rw h (
    record {
      worker = inr refl;
      tokens = tokens_le id x tok d.tokens;
      occupiers = ground (arith, eq_iff x id);
      resident = λ y. y;
      written = refl;
    },
    omega arith,
  )
  | inr h ↦
      let less = record d {
        tokens = put d.tokens x (remove tok (d.tokens x));
        occupiers = put d.occupiers x (d.occupiers x - 1);
      } in
      let fewer : Quieter id d less = record {
        worker = inr refl;
        tokens = tokens_le id x tok d.tokens;
        occupiers = ground (arith, eq_iff x id);
        resident = λ y. y;
        written = refl;
      } in
      let (q, r) = renew_step-Quieter id x (d.steps x) less in
      rw h (Quieter-trans id d less (renew_step x (d.steps x) less) fewer q, r)
]

-- One step, with a removal outstanding.
take-Quieter :
    (id : String) (x : Step) (d : Dispatcher)
    → 0 < d.removing id
    → erases_it id x ≡ false
    → Quieter id d (take x d) × (d.removing id ≤ (take x d).removing id + releases id x)
unfolding take erases_it releases
take-Quieter id (registers j h seq) d r e = ground arith
take-Quieter id (begins x) d r e = ground (arith, eq_iff x id)
take-Quieter id (begins_if_idle x) d r e = ground (arith, eq_iff x id)
take-Quieter id (aborts x) d r e = ground (arith, eq_iff x id)
take-Quieter id (erases x) d r e = ground (arith, eq_iff x id)
take-Quieter id (clears x) d r e = ground (arith, eq_iff x id)
take-Quieter id (claims x) d r e = ground (arith, eq_iff x id)
take-Quieter id (occupies x) d r e = ground (arith, eq_iff x id)
take-Quieter id (waits x) d r e = ground (arith, eq_iff x id)
take-Quieter id (leaves x tok) d r e = leave-Quieter id x tok d
take-Quieter id (waits_except x tok) d r e = ground (arith, eq_iff x id)
take-Quieter id (marks_resident x) d r e = ground (arith, eq_iff x id)
take-Quieter id (marks_not_resident x) d r e = ground (arith, eq_iff x id)
take-Quieter id (marks_written p) d r e = ground (arith, eq_iff p.id id)
take-Quieter id (sets_header f x) d r e = ground arith
take-Quieter id (calls j door) d r e = ground arith

-- How many markers of the job's a run gives up, and whether it erases the job.
unfoldable pub releases_all : String → List Step → ℕ
unfolding releases
releases_all id [] = 0
releases_all id (x ∷ xs) = releases id x + releases_all id xs

unfoldable pub erases_any : String → List Step → Bool
unfolding erases_it
erases_any id [] = false
erases_any id (x ∷ xs) = erases_it id x || erases_any id xs

-- As long as one of the removals of a job is outstanding, that is, a run of spans of all callers
-- neither erases the job nor gives up as many markers as it has at the start, no worker, occupier or
-- token comes to the job, no residency, and no row is recorded as written for it.
pub teardown-Quieter :
    (id : String) (xs : List Step) (d : Dispatcher)
    → releases_all id xs < d.removing id
    → erases_any id xs ≡ false
    → Quieter id d (take_all xs d) × (admits (take_all xs d) id ≡ false)
unfolding take_all releases_all erases_any admits
teardown-Quieter id [] d r e = (Quieter-refl id d, ground arith)
teardown-Quieter id (x ∷ xs) d r e =
    let (q, k) = take-Quieter id x d (omega arith) (ground arith) in
    let (qs, a) = teardown-Quieter id xs (take x d) (omega arith) (ground arith) in
    (Quieter-trans id d (take x d) (take_all xs (take x d)) q qs, a)
