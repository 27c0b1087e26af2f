-- ===== src/Content/Bitset/Bools.antt =====
-- The []bool that a bitset (internal/job/bitset.go) is stored as.
use sabnzbd_go.Base.{
  ap, Bool-cases, inl, inr, ◌<◌, ◌==◌, if◌then◌else◌, Bool, List, Option, [], arith, false,
  get_elem?, leb, length, none, refl, some, suc, true, zero, ℕ, ◌%◌, ◌&&◌, ◌+◌, ◌-◌, ◌/◌, ◌^◌, ◌∙◌,
  ◌∷◌, ◌≡◌, ◌≤◌,
}
use sabnzbd_go.Content.Bitset.{
  bools_from, bitset_from_bools, to_bools, zero_words, set_all, Bitset, get_bit, new_bitset,
  set_bit, word_at,
}
use sabnzbd_go.Content.Bitset.Laws.{get_bit-set_bit, IsBitset, n-set_bit, set_bit-IsBitset}
use Prim.Native.Nat.{bit_and, bit_and-bitwise}

get_elem?-zero_words : (k m : ℕ) → word_at (get_elem? (zero_words k) m) ≡ 0
unfolding zero_words
get_elem?-zero_words zero m = refl
get_elem?-zero_words (suc k) zero = refl
get_elem?-zero_words (suc k) (suc m) = get_elem?-zero_words k m

length-zero_words : (k : ℕ) → length (zero_words k) ≡ k
unfolding zero_words
length-zero_words zero = refl
length-zero_words (suc k) = omega (arith, length-zero_words k)

pub new_bitset-IsBitset : (n : ℕ) → IsBitset (new_bitset n)
unfolding new_bitset
new_bitset-IsBitset n = record { sized = length-zero_words ((n + 63) / 64) }

pub get_bit-new_bitset : (n i : ℕ) → get_bit (new_bitset n) i ≡ false
unfolding get_bit new_bitset
get_bit-new_bitset n i =
    ground (arith, get_elem?-zero_words ((n + 63) / 64) (i / 64), bit_and_zero (2 ^ (i % 64)))
  where
    bit_and_zero : (b : ℕ) → bit_and 0 b ≡ 0
    bit_and_zero b = bit_and-bitwise 0 b

abbrev is_set : Option Bool → Bool
is_set none = false
is_set (some x) = x

set_all-IsBitset : (i : ℕ) (xs : List Bool) (b : Bitset) → IsBitset b → IsBitset (set_all i xs b)
unfolding set_all
set_all-IsBitset i [] b v = v
set_all-IsBitset i (true ∷ xs) b v =
    set_all-IsBitset (i + 1) xs (set_bit b i) (set_bit-IsBitset b i v)
set_all-IsBitset i (false ∷ xs) b v = set_all-IsBitset (i + 1) xs b v

n-set_all : (i : ℕ) (xs : List Bool) (b : Bitset) → (set_all i xs b).n ≡ b.n
unfolding set_all
n-set_all i [] b = refl
n-set_all i (true ∷ xs) b = n-set_all (i + 1) xs (set_bit b i) ∙ n-set_bit b i
n-set_all i (false ∷ xs) b = n-set_all (i + 1) xs b

get_elem?-from :
    (x : Bool) (xs : List Bool) (i j : ℕ)
    → i ≤ j
    → get_elem? (x ∷ xs) (j - i) ≡ (if j == i then some x else get_elem? xs (j - (i + 1)))
get_elem?-from x xs i j h = elim (Bool-cases (j == i)) [
  | inl e ↦ let d : j - i ≡ 0 = ground arith in rw (d, e)
  | inr e ↦ let d : j - i ≡ suc (j - (i + 1)) = ground arith in rw (d, e)
]

get_bit-set_all :
    (i : ℕ) (xs : List Bool) (b : Bitset) (j : ℕ)
    → IsBitset b
    → i + length xs ≤ b.n
    → get_bit (set_all i xs b) j
      ≡ (if leb i j && is_set (get_elem? xs (j - i)) then true else get_bit b j)
unfolding set_all
get_bit-set_all i [] b j v h = ground arith
get_bit-set_all i (true ∷ xs) b j v h = ground (
  arith,
  get_bit-set_all (i + 1) xs (set_bit b i) j (set_bit-IsBitset b i v),
  n-set_bit b i,
  get_bit-set_bit b i j v,
  get_elem?-from true xs i j,
)
get_bit-set_all i (false ∷ xs) b j v h =
    ground (arith, get_bit-set_all (i + 1) xs b j v, get_elem?-from false xs i j)

pub bitset_from_bools-IsBitset : (xs : List Bool) → IsBitset (bitset_from_bools xs)
unfolding bitset_from_bools
bitset_from_bools-IsBitset xs = set_all-IsBitset 0 xs _ (new_bitset-IsBitset (length xs))

n-bitset_from_bools : (xs : List Bool) → (bitset_from_bools xs).n ≡ length xs
unfolding bitset_from_bools new_bitset
n-bitset_from_bools xs = n-set_all 0 xs (new_bitset (length xs))

pub get_bit-bitset_from_bools :
    (xs : List Bool) (j : ℕ) → get_bit (bitset_from_bools xs) j ≡ is_set (get_elem? xs j)
unfolding bitset_from_bools new_bitset
get_bit-bitset_from_bools xs j = ground (
  arith,
  get_bit-set_all 0 xs (new_bitset (length xs)) j (new_bitset-IsBitset (length xs)) (n_new xs),
  get_bit-new_bitset (length xs) j,
)
  where
    n_new : (xs : List Bool) → 0 + length xs ≤ (new_bitset (length xs)).n
    n_new xs = omega arith

bools_from_all :
    (b : Bitset) (xs : List Bool) (i : ℕ)
    → ((j : ℕ) → j < length xs → get_bit b (i + j) ≡ is_set (get_elem? xs j))
    → bools_from b i (length xs) ≡ xs
unfolding bools_from
bools_from_all b [] i h = refl
bools_from_all b (x ∷ xs) i h =
    let first : get_bit b (i + 0) ≡ x = h 0 (omega arith) in
    let at_i : i + 0 ≡ i = omega arith in
    let rest = bools_from_all b xs (i + 1) (λ j l. shifted j ∙ h (suc j) (omega arith)) in
    cc (first, ap (get_bit b) at_i, rest)
  where
    shifted : (j : ℕ) → get_bit b (i + 1 + j) ≡ get_bit b (i + suc j)
    shifted j = let e : i + 1 + j ≡ i + suc j = omega arith in ap (get_bit b) e

-- A progress record read back has the bits that were written.
pub to_bools-bitset_from_bools : (xs : List Bool) → to_bools (bitset_from_bools xs) ≡ xs
unfolding to_bools
to_bools-bitset_from_bools xs =
    ap (bools_from (bitset_from_bools xs) 0) (n-bitset_from_bools xs)
    ∙ bools_from_all (bitset_from_bools xs) xs 0 (λ j h. at_zero j ∙ get_bit-bitset_from_bools xs j)
  where
    at_zero : (j : ℕ) → get_bit (bitset_from_bools xs) (0 + j) ≡ get_bit (bitset_from_bools xs) j
    at_zero j = let e : 0 + j ≡ j = omega arith in ap (get_bit (bitset_from_bools xs)) e
