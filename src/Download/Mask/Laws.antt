-- ===== src/Download/Mask/Laws.antt =====
-- Each server of a mask (internal/downloader/mask.go) is marked apart from all others, in the one word
-- or beyond it.
use sabnzbd_go.Base.{
  if◌then◌else◌, Bool, List, Option, [], ap, arith, false, get_elem?, ltb, none, refl, some, suc,
  true, zero, ℕ, ◌%◌, ◌&&◌, ◌-◌, ◌/◌, ◌<◌, ◌==◌, ◌^◌, ◌∙◌, ◌∷◌, ◌≡◌,
}
use sabnzbd_go.Base.Bits.{bit_at-zero, bit_and_power, bit_at, bit_at-and_not, bit_at-or}
use sabnzbd_go.Download.Mask.{
  ServerMask, all_zero, and_not_at, has, has_at, is_none_tried, or_at, set, unset,
}

power_pos : (k : ℕ) → 0 < 2 ^ k
power_pos zero = omega arith
power_pos (suc k) = omega (arith, power_pos k)

abbrev pub bit_in : ℕ → Option ℕ → Bool
bit_in k none = false
bit_in k (some w) = bit_at k w

has_at_lem : (k : ℕ) (w : Option ℕ) → has_at (2 ^ k) w ≡ bit_in k w
unfolding has_at
has_at_lem k none = refl
has_at_lem k (some w) = ground (arith, bit_and_power k w, power_pos k)

pub has_lem :
    (m : ServerMask) (j : ℕ)
    → has m j
      ≡ (if ltb j 64 then bit_at j m.fast else bit_in (j % 64) (get_elem? m.slow (j / 64 - 1)))
unfolding has
has_lem m j = ground (
  arith,
  bit_and_power j m.fast,
  power_pos j,
  has_at_lem (j % 64) (get_elem? m.slow (j / 64 - 1)),
)

and_not_at_lem :
    (k b : ℕ) (ws : List ℕ) (q j : ℕ)
    → bit_in j (get_elem? (and_not_at k (2 ^ b) ws) q)
      ≡ (if (q == k) && (j == b) then false else bit_in j (get_elem? ws q))
unfolding and_not_at
and_not_at_lem k b [] q j = ground arith
and_not_at_lem zero b (w ∷ ws) zero j = ground (arith, bit_at-and_not j b w)
and_not_at_lem zero b (w ∷ ws) (suc q) j = ground arith
and_not_at_lem (suc k) b (w ∷ ws) zero j = ground arith
and_not_at_lem (suc k) b (w ∷ ws) (suc q) j = ground (arith, and_not_at_lem k b ws q j)

or_at_lem :
    (k b : ℕ) (ws : List ℕ) (q j : ℕ)
    → bit_in j (get_elem? (or_at k (2 ^ b) ws) q)
      ≡ (if (q == k) && (j == b) then true else bit_in j (get_elem? ws q))
unfolding or_at
or_at_lem zero b [] zero j = ground (arith, bit_at-or j b 0, bit_at-zero j)
or_at_lem zero b [] (suc q) j = ground arith
or_at_lem (suc k) b [] zero j = ground (arith, bit_at-zero j)
or_at_lem (suc k) b [] (suc q) j = ground (arith, or_at_lem k b [] q j)
or_at_lem zero b (w ∷ ws) zero j = ground (arith, bit_at-or j b w)
or_at_lem zero b (w ∷ ws) (suc q) j = ground arith
or_at_lem (suc k) b (w ∷ ws) zero j = ground arith
or_at_lem (suc k) b (w ∷ ws) (suc q) j = ground (arith, or_at_lem k b ws q j)

pub has-set : (m : ServerMask) (i j : ℕ) → has (set m i) j ≡ (if j == i then true else has m j)
unfolding set
has-set m i j = ground (
  arith,
  has_lem (set m i) j,
  has_lem m j,
  bit_at-or j i m.fast,
  or_at_lem (i / 64 - 1) (i % 64) m.slow (j / 64 - 1) (j % 64),
)

pub has-unset : (m : ServerMask) (i j : ℕ) → has (unset m i) j ≡ (if j == i then false else has m j)
unfolding unset
has-unset m i j = ground (
  arith,
  has_lem (unset m i) j,
  has_lem m j,
  bit_at-and_not j i m.fast,
  and_not_at_lem (i / 64 - 1) (i % 64) m.slow (j / 64 - 1) (j % 64),
)

all_zero_lem : (ws : List ℕ) (q j : ℕ) → all_zero ws ≡ true → bit_in j (get_elem? ws q) ≡ false
unfolding all_zero
all_zero_lem [] q j h = refl
all_zero_lem (w ∷ ws) zero j h = let e : w ≡ 0 = ground arith in ap (bit_at j) e ∙ bit_at-zero j
all_zero_lem (w ∷ ws) (suc q) j h = all_zero_lem ws q j (ground arith)

pub has-is_none_tried : (m : ServerMask) (j : ℕ) → is_none_tried m ≡ true → has m j ≡ false
unfolding is_none_tried
has-is_none_tried m j h =
    let e : m.fast ≡ 0 = ground arith in
    let low : bit_at j m.fast ≡ false = ap (bit_at j) e ∙ bit_at-zero j in
    let high = all_zero_lem m.slow (j / 64 - 1) (j % 64) (ground arith) in
    ground (arith, has_lem m j, low, high)
