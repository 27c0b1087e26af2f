-- ===== src/Download/Mask.antt =====
-- internal/downloader/mask.go: which servers an article was tried on. A uint64 is a number below 2^64.
use sabnzbd_go.Base.{
  if◌then◌else◌, Bool, List, Option, [], false, get_elem?, ltb, none, not, some, suc, true, zero, ℕ,
  ◌%◌, ◌&&◌, ◌+◌, ◌-◌, ◌/◌, ◌==◌, ◌^◌, ◌∷◌,
}
use sabnzbd_go.Base.Bits.{bit_and_not}
use Prim.Native.Nat.{bit_and, bit_or}
pub mod Laws
pub mod Counts

pub record ServerMask : Type 0 where
  pub fast : ℕ
  pub slow : List ℕ

abbrev pub empty_mask : ServerMask
empty_mask = record { fast = 0; slow = [] }

-- `slow[k] |= bit`, where the slice is grown with zeros first if it is too short.
or_at : ℕ → ℕ → List ℕ → List ℕ
or_at zero bit [] = bit_or 0 bit ∷ []
or_at zero bit (w ∷ ws) = bit_or w bit ∷ ws
or_at (suc k) bit [] = 0 ∷ or_at k bit []
or_at (suc k) bit (w ∷ ws) = w ∷ or_at k bit ws

-- `slow[k] &^= bit`, where there is a word `k`.
and_not_at : ℕ → ℕ → List ℕ → List ℕ
and_not_at k bit [] = []
and_not_at zero bit (w ∷ ws) = bit_and_not w bit ∷ ws
and_not_at (suc k) bit (w ∷ ws) = w ∷ and_not_at k bit ws

has_at : ℕ → Option ℕ → Bool
has_at bit none = false
has_at bit (some w) = not (bit_and w bit == 0)

unfoldable pub set : ServerMask → ℕ → ServerMask
unfolding or_at
set m idx =
    if ltb idx 64
    then record m { fast = bit_or m.fast (2 ^ idx) }
    else record m { slow = or_at (idx / 64 - 1) (2 ^ (idx % 64)) m.slow }

unfoldable pub has : ServerMask → ℕ → Bool
unfolding has_at
has m idx =
    if ltb idx 64
    then not (bit_and m.fast (2 ^ idx) == 0)
    else has_at (2 ^ (idx % 64)) (get_elem? m.slow (idx / 64 - 1))

unfoldable pub unset : ServerMask → ℕ → ServerMask
unfolding and_not_at
unset m idx =
    if ltb idx 64
    then record m { fast = bit_and_not m.fast (2 ^ idx) }
    else record m { slow = and_not_at (idx / 64 - 1) (2 ^ (idx % 64)) m.slow }

all_zero : List ℕ → Bool
all_zero [] = true
all_zero (w ∷ ws) = (w == 0) && all_zero ws

unfoldable pub is_none_tried : ServerMask → Bool
unfolding all_zero
is_none_tried m = (m.fast == 0) && all_zero m.slow

-- The loop of count over one word: `v &= v - 1` clears the lowest bit that is set. A word has 64 bits.
unfoldable pub count_word : ℕ → ℕ → ℕ
count_word zero v = 0
count_word (suc fuel) v =
    let rest = count_word fuel (bit_and v (v - 1)) in if v == 0 then 0 else 1 + rest

unfoldable pub count_words : List ℕ → ℕ
unfolding count_word
count_words [] = 0
count_words (w ∷ ws) = count_word 64 w + count_words ws

-- count
unfoldable pub count_servers : ServerMask → ℕ
unfolding count_word count_words
count_servers m = count_word 64 m.fast + count_words m.slow
