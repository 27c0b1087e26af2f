-- ===== src/Base/Keys.antt =====
-- A Go `map[K]bool` that only ever stores `true`: the list of its keys.
use Prim.Native.Nat.{ℕ, ◌+◌, ◌<◌, ◌≤◌}
use Prim.Native.String.{String}
use mathlib.Core.Path.{◌≡◌, refl}
use mathlib.Core.Logic.{◌↔◌, inl, inr}
use mathlib.Core.Bool.{Bool, true, false}
use mathlib.Core.List.{List, [], ◌∷◌}
use native.Mathlib.Omega.{arith}
use text.Mathlib.Text.{◌==◌ as str_eq}
use text.Mathlib.TextEquality.{eq_iff}
use sabnzbd_go.Base.Tests.{if◌then◌else◌, ◌==◌, ==_iff, Bool-cases}
use sabnzbd_go.Base.Lists.{length}

pub record Eq {ℓ} (K : Type ℓ) : Type ℓ where
  pub beq : K → K → Bool
  pub beq_iff : (a b : K) → (beq a b ≡ true) ↔ (a ≡ b)

instance abbrev pub nat_eq : Eq ℕ
nat_eq = record { beq = ◌==◌; beq_iff = ==_iff }

instance abbrev pub string_eq : Eq String
string_eq = record { beq = str_eq; beq_iff = eq_iff }

module _ {ℓ} {K : Type ℓ} ⦃e : Eq K⦄ where
  -- `m[k]`
  unfoldable pub contains : K → List K → Bool
  contains k [] = false
  contains k (x ∷ xs) = if e.beq x k then true else contains k xs

  -- `m[k] = true`
  unfoldable pub insert : K → List K → List K
  unfolding contains
  insert k xs = if contains k xs then xs else k ∷ xs

  -- `delete(m, k)`
  unfoldable pub remove : K → List K → List K
  remove k [] = []
  remove k (x ∷ xs) = if e.beq x k then remove k xs else x ∷ remove k xs

  -- How often a key stands in the list; a map's key list has each at most once.
  unfoldable pub count : K → List K → ℕ
  count k [] = 0
  count k (x ∷ xs) = (if e.beq x k then 1 else 0) + count k xs

  pub beq_refl : (k : K) → e.beq k k ≡ true
  beq_refl k = (e.beq_iff k k).1 refl

  pub count_pos : (k : K) (xs : List K) → contains k xs ≡ true → 0 < count k xs
  unfolding contains count
  count_pos k [] h = cc
  count_pos k (x ∷ xs) h = ground (arith, count_pos k xs)

  pub count_zero : (k : K) (xs : List K) → contains k xs ≡ false → count k xs ≡ 0
  unfolding contains count
  count_zero k [] h = refl
  count_zero k (x ∷ xs) h = ground (arith, count_zero k xs)

  pub count-remove :
      (k j : K) (xs : List K) → count j (remove k xs) ≡ (if e.beq k j then 0 else count j xs)
  unfolding count remove
  count-remove k j [] = ground arith
  count-remove k j (x ∷ xs) =
      ground (arith, count-remove k j xs, e.beq_iff x k, e.beq_iff x j, e.beq_iff k j)

  pub length-remove : (k : K) (xs : List K) → length (remove k xs) + count k xs ≡ length xs
  unfolding count remove
  length-remove k [] = refl
  length-remove k (x ∷ xs) = ground (arith, length-remove k xs)

  pub count-insert :
      (k j : K) (xs : List K)
      → contains k xs ≡ false
      → count j (insert k xs) ≡ (if e.beq k j then 1 else 0) + count j xs
  unfolding insert count
  count-insert k j xs h = rw h refl

  pub length-insert_new :
      (k : K) (xs : List K) → contains k xs ≡ false → length (insert k xs) ≡ length xs + 1
  unfolding insert
  length-insert_new k xs h = rw h (omega arith)

  pub contains-insert_self : (k : K) (xs : List K) → contains k (insert k xs) ≡ true
  unfolding insert contains
  contains-insert_self k xs = elim (Bool-cases (contains k xs)) [
    | inl h ↦ rw h h
    | inr h ↦ rw (h, beq_refl k) refl
  ]

  pub contains-remove :
      (k j : K) (xs : List K)
      → contains j (remove k xs) ≡ (if e.beq k j then false else contains j xs)
  unfolding contains remove
  contains-remove k j [] = ground arith
  contains-remove k j (x ∷ xs) =
      ground (arith, contains-remove k j xs, e.beq_iff x k, e.beq_iff x j, e.beq_iff k j)

  pub contains-insert :
      (k j : K) (xs : List K)
      → contains j (insert k xs) ≡ (if e.beq k j then true else contains j xs)
  unfolding insert contains
  contains-insert k j xs = elim (Bool-cases (contains k xs)) [
    | inl h ↦ rw h (ground (arith, e.beq_iff k j))
    | inr h ↦ rw h refl
  ]

  pub length-remove_le : (k : K) (xs : List K) → length (remove k xs) ≤ length xs
  length-remove_le k xs = omega (arith, length-remove k xs)

unfoldable pub String-discrete : Discrete String
String-discrete a b = elim (Bool-cases (str_eq a b)) [
  | inl h ↦ yes ((eq_iff a b).0 h)
  | inr h ↦ no (λ p. cc ((eq_iff a b).1 p))
]
