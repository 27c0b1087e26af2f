-- ===== src/Content/Bitset/Laws.antt =====
-- Each bit of a bitset (internal/job/bitset.go) is a cell of its own, though 64 of them share a word.
use sabnzbd_go.Base.{
  Bool, Bool-cases, false, inl, inr, ◌∙◌, if◌then◌else◌, List, [], arith, get_elem?, length, ltb,
  refl, set, some, suc, true, zero, ℕ, ◌%◌, ◌&&◌, ◌+◌, ◌/◌, ◌<◌, ◌==◌, ◌^◌, ◌∷◌, ◌≡◌,
}
use sabnzbd_go.Base.Bits.{bit_at-and_not, bit_at-or, bit_and_power, bit_at}
use sabnzbd_go.Content.Bitset.{clear_bit, Bitset, get_bit, set_bit, word_at}

-- There are words enough for the bits.
pub record IsBitset (b : Bitset) : Type 0 where
  pub sized : length b.words ≡ (b.n + 63) / 64

get_elem?-set :
    (ws : List ℕ) (k m v : ℕ)
    → k < length ws
    → get_elem? (set ws k v) m ≡ (if m == k then some v else get_elem? ws m)
get_elem?-set [] k m v h = absurd (omega arith)
get_elem?-set (w ∷ ws) zero zero v h = refl
get_elem?-set (w ∷ ws) zero (suc m) v h = ground arith
get_elem?-set (w ∷ ws) (suc k) zero v h = ground arith
get_elem?-set (w ∷ ws) (suc k) (suc m) v h = ground (arith, get_elem?-set ws k m v)

length-set : (ws : List ℕ) (k v : ℕ) → length (set ws k v) ≡ length ws
length-set [] k v = refl
length-set (w ∷ ws) zero v = refl
length-set (w ∷ ws) (suc k) v = omega (arith, length-set ws k v)

power_pos : (k : ℕ) → 0 < 2 ^ k
power_pos zero = omega arith
power_pos (suc k) = omega (arith, power_pos k)

get_bit_lem :
    (b : Bitset) (i : ℕ)
    → get_bit b i ≡ ltb i b.n && bit_at (i % 64) (word_at (get_elem? b.words (i / 64)))
unfolding get_bit
get_bit_lem b i =
    ground
      (arith, bit_and_power (i % 64) (word_at (get_elem? b.words (i / 64))), power_pos (i % 64))

word_in : (b : Bitset) (i : ℕ) → IsBitset b → i < b.n → i / 64 < length b.words
word_in b i v h = omega (arith, v.sized)

-- One write of a word, seen bit by bit.
module _ (b : Bitset) (i j w : ℕ) (x : Bool) (v : IsBitset b) (h : i < b.n)
    (written : (m : ℕ)
      → bit_at m w
        ≡ (if m == i % 64 then x else bit_at m (word_at (get_elem? b.words (i / 64))))) where
  bit_at-set :
      bit_at (j % 64) (word_at (get_elem? (set b.words (i / 64) w) (j / 64)))
      ≡ (if j == i then x else bit_at (j % 64) (word_at (get_elem? b.words (j / 64))))
  bit_at-set = elim (Bool-cases (j / 64 == i / 64)) [
    | inl same ↦
        let e : j / 64 ≡ i / 64 = ground arith in
        rw (get_elem?-set b.words (i / 64) (j / 64) w (word_in b i v h), same, e)
          (ground (arith, written (j % 64)))
    | inr other ↦
        rw (get_elem?-set b.words (i / 64) (j / 64) w (word_in b i v h), other) (ground arith)
  ]

  get_bit-write :
      get_bit (record b { words = set b.words (i / 64) w }) j ≡ (if j == i then x else get_bit b j)
  get_bit-write = ground (
    arith,
    get_bit_lem (record b { words = set b.words (i / 64) w }) j,
    get_bit_lem b j,
    bit_at-set,
  )

-- Setting a bit sets that one, if it is in range, and leaves every other as it was.
pub get_bit-set_bit :
    (b : Bitset) (i j : ℕ)
    → IsBitset b
    → get_bit (set_bit b i) j ≡ (if (j == i) && ltb i b.n then true else get_bit b j)
unfolding set_bit
get_bit-set_bit b i j v = elim (Bool-cases (ltb i b.n)) [
  | inl h ↦
      rw h
        (ground (arith, get_bit-write b i j _ true v (ground arith) (λ m. bit_at-or m (i % 64) _)))
  | inr h ↦ ground arith
]

-- Clearing a bit clears that one, and leaves every other as it was.
pub get_bit-clear_bit :
    (b : Bitset) (i j : ℕ)
    → IsBitset b
    → get_bit (clear_bit b i) j ≡ (if j == i then false else get_bit b j)
unfolding clear_bit
get_bit-clear_bit b i j v = elim (Bool-cases (ltb i b.n)) [
  | inl h ↦ rw h (
      ground
        (arith, get_bit-write b i j _ false v (ground arith) (λ m. bit_at-and_not m (i % 64) _)))
  | inr h ↦ ground (arith, get_bit_lem b j)
]

pub set_bit-IsBitset : (b : Bitset) (i : ℕ) → IsBitset b → IsBitset (set_bit b i)
unfolding set_bit
set_bit-IsBitset b i v = elim (Bool-cases (ltb i b.n)) [
  | inl h ↦ rw h (record { sized = length-set b.words _ _ ∙ v.sized })
  | inr h ↦ rw h v
]

pub clear_bit-IsBitset : (b : Bitset) (i : ℕ) → IsBitset b → IsBitset (clear_bit b i)
unfolding clear_bit
clear_bit-IsBitset b i v = elim (Bool-cases (ltb i b.n)) [
  | inl h ↦ rw h (record { sized = length-set b.words _ _ ∙ v.sized })
  | inr h ↦ rw h v
]

pub n-set_bit : (b : Bitset) (i : ℕ) → (set_bit b i).n ≡ b.n
unfolding set_bit
n-set_bit b i = ground arith

pub n-clear_bit : (b : Bitset) (i : ℕ) → (clear_bit b i).n ≡ b.n
unfolding clear_bit
n-clear_bit b i = ground arith
