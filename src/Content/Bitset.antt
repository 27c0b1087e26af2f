-- ===== src/Content/Bitset.antt =====
-- internal/job/bitset.go: one bit for each article, packed in 64-bit words.
use Prim.Native.Nat.{bit_and, bit_or}
use sabnzbd_go.Base.{
  if◌then◌else◌, Bool, List, Option, [], false, get_elem?, length, ltb, none, not, set, some, suc,
  zero, ℕ, ◌%◌, ◌+◌, ◌/◌, ◌==◌, ◌^◌, ◌∷◌,
}
use sabnzbd_go.Base.Bits.{bit_and_not}
pub mod Laws
pub mod Bools

pub record Bitset : Type 0 where
  pub words : List ℕ
  pub n : ℕ

-- `make([]uint64, k)`
zero_words : ℕ → List ℕ
zero_words zero = []
zero_words (suc k) = 0 ∷ zero_words k

unfoldable pub new_bitset : ℕ → Bitset
unfolding zero_words
new_bitset n = record { words = zero_words ((n + 63) / 64); n = n }

-- `b.words[k]`; reading past the end, which panics, is given as 0.
abbrev pub word_at : Option ℕ → ℕ
word_at none = 0
word_at (some w) = w

unfoldable pub get_bit : Bitset → ℕ → Bool
get_bit b i =
    if not (ltb i b.n)
    then false
    else not (bit_and (word_at (get_elem? b.words (i / 64))) (2 ^ (i % 64)) == 0)

unfoldable pub set_bit : Bitset → ℕ → Bitset
set_bit b i = if not (ltb i b.n) then b else record b {
  words = set b.words (i / 64) (bit_or (word_at (get_elem? b.words (i / 64))) (2 ^ (i % 64)));
}

unfoldable pub clear_bit : Bitset → ℕ → Bitset
clear_bit b i = if not (ltb i b.n) then b else record b {
  words = set b.words (i / 64) (bit_and_not (word_at (get_elem? b.words (i / 64))) (2 ^ (i % 64)));
}

-- The bits from `i` on, `k` of them.
bools_from : Bitset → ℕ → ℕ → List Bool
bools_from b i zero = []
bools_from b i (suc k) = get_bit b i ∷ bools_from b (i + 1) k

unfoldable pub to_bools : Bitset → List Bool
unfolding bools_from
to_bools b = bools_from b 0 b.n

-- The loop of bitsetFromBools from index `i` on.
set_all : ℕ → List Bool → Bitset → Bitset
set_all i [] b = b
set_all i (v ∷ rest) b = set_all (i + 1) rest (if v then set_bit b i else b)

unfoldable pub bitset_from_bools : List Bool → Bitset
unfolding set_all
bitset_from_bools xs = set_all 0 xs (new_bitset (length xs))
