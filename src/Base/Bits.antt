-- ===== src/Base/Bits.antt =====
-- Single bits of machine words: what setting, clearing and testing `1 << k` does to each bit.
use sabnzbd_go.Base.{
  ◌<◌, ap, false, if◌then◌else◌, true, ◌^◌, ◌%◌, ◌*◌, ◌/◌, Bool, arith, max, min, refl, suc, zero,
  ℕ, ◌+◌, ◌==◌, ◌≡◌, ◌≤◌,
}
use Prim.Native.Nat.{
  bit_and, bit_or, bit_xor, digits, bit_and-bitwise, bit_or-bitwise, bit_xor-bitwise, differ,
}
pub mod Xor

-- One digit of a bitwise operation, whatever fuel it was given.
module _ (z : ℕ → ℕ) (f : ℕ → ℕ → ℕ) (low : (b : ℕ) → z b ≡ z (b / 2) * 2 + f 0 (b % 2)) where
  digits_enough : (n m a b : ℕ) → a ≤ n → a ≤ m → digits z f n a b ≡ digits z f m a b
  digits_enough zero zero a b p q = refl
  digits_enough zero (suc m) zero b p q = refl
  digits_enough zero (suc m) (suc a) b p q = absurd (omega arith)
  digits_enough (suc n) zero zero b p q = refl
  digits_enough (suc n) zero (suc a) b p q = absurd (omega arith)
  digits_enough (suc n) (suc m) zero b p q = refl
  digits_enough (suc n) (suc m) (suc a) b p q =
      omega (arith, digits_enough n m (suc a / 2) (b / 2) (omega arith) (omega arith))

  digits_next :
      (a b : ℕ) → digits z f a a b ≡ digits z f (a / 2) (a / 2) (b / 2) * 2 + f (a % 2) (b % 2)
  digits_next zero b = low b
  digits_next (suc a) b =
      omega (arith, digits_enough a (suc a / 2) (suc a / 2) (b / 2) (omega arith) (omega arith))

pub bit_and_next : (a b : ℕ) → bit_and a b ≡ bit_and (a / 2) (b / 2) * 2 + min (a % 2) (b % 2)
bit_and_next a b = omega (
  arith,
  bit_and-bitwise a b,
  bit_and-bitwise (a / 2) (b / 2),
  digits_next (λ b. 0) min (λ b. omega arith) a b,
)

bit_or_next : (a b : ℕ) → bit_or a b ≡ bit_or (a / 2) (b / 2) * 2 + max (a % 2) (b % 2)
bit_or_next a b = omega (
  arith,
  bit_or-bitwise a b,
  bit_or-bitwise (a / 2) (b / 2),
  digits_next (λ b. b) max (λ b. omega arith) a b,
)

differ_digits : (a b : ℕ) → a < 2 → b < 2 → differ a b ≡ (a + b) % 2
differ_digits zero b p q = omega arith
differ_digits (suc a) zero p q = omega arith
differ_digits (suc zero) (suc zero) p q = refl
differ_digits (suc zero) (suc (suc b)) p q = absurd (omega arith)
differ_digits (suc (suc a)) (suc b) p q = absurd (omega arith)

pub bit_xor_next : (a b : ℕ) → bit_xor a b ≡ bit_xor (a / 2) (b / 2) * 2 + (a % 2 + b % 2) % 2
bit_xor_next a b = omega (
  arith,
  bit_xor-bitwise a b,
  bit_xor-bitwise (a / 2) (b / 2),
  digits_next (λ b. b) differ (λ b. omega arith) a b,
  differ_digits (a % 2) (b % 2) (omega arith) (omega arith),
)

-- Bit `k` of a word.
unfoldable pub bit_at : ℕ → ℕ → Bool
bit_at zero w = w % 2 == 1
bit_at (suc k) w = bit_at k (w / 2)

pub bit_at-zero : (k : ℕ) → bit_at k 0 ≡ false
unfolding bit_at
bit_at-zero zero = refl
bit_at-zero (suc k) = bit_at-zero k

-- Facts by the number of digits, which the number itself bounds.
zero_digits : (n a : ℕ) → a ≤ n → (bit_and a 0 ≡ 0) × (bit_or a 0 ≡ a) × (bit_xor a 0 ≡ a)
zero_digits n zero h = (refl, refl, refl)
zero_digits zero (suc a) h = absurd (omega arith)
zero_digits (suc n) (suc a) h =
    let (p, q, r) = zero_digits n (suc a / 2) (omega arith) in
    (
      omega (arith, bit_and_next (suc a) 0, p),
      omega (arith, bit_or_next (suc a) 0, q),
      omega (arith, bit_xor_next (suc a) 0, r),
    )

half_power : (k : ℕ) → (2 ^ suc k / 2 ≡ 2 ^ k) × (2 ^ suc k % 2 ≡ 0)
half_power k = omega arith

-- The test `w & (1 << k) != 0`.
pub bit_and_power : (k w : ℕ) → bit_and w (2 ^ k) ≡ (if bit_at k w then 2 ^ k else 0)
unfolding bit_at
bit_and_power zero w = ground (arith, bit_and_next w 1, zero_digits (w / 2) (w / 2))
bit_and_power (suc k) w =
    ground (arith, bit_and_next w (2 ^ suc k), half_power k, bit_and_power k (w / 2))

half_or : (k w : ℕ) → bit_or w (2 ^ suc k) / 2 ≡ bit_or (w / 2) (2 ^ k)
half_or k w =
    let h : 2 ^ suc k / 2 ≡ 2 ^ k = omega arith in
    omega (arith, bit_or_next w (2 ^ suc k), ap (bit_or (w / 2)) h)

-- `w |= 1 << k`
pub bit_at-or : (j k w : ℕ) → bit_at j (bit_or w (2 ^ k)) ≡ (if j == k then true else bit_at j w)
unfolding bit_at
bit_at-or zero zero w = ground (arith, bit_or_next w 1)
bit_at-or zero (suc k) w = ground (arith, bit_or_next w (2 ^ suc k), half_power k)
bit_at-or (suc j) zero w =
    let h : bit_or w 1 / 2 ≡ w / 2 =
      omega (arith, bit_or_next w 1, zero_digits (w / 2) (w / 2) (omega arith)) in
    rw h (ground arith)
bit_at-or (suc j) (suc k) w = rw (half_or k w) (ground (arith, bit_at-or j k (w / 2)))

-- Go's `w &^ m`: the bits of `w` that are not in `m`.
unfoldable pub bit_and_not : ℕ → ℕ → ℕ
bit_and_not w m = bit_xor w (bit_and w m)

half_and_not : (k w : ℕ) → bit_and_not w (2 ^ suc k) / 2 ≡ bit_and_not (w / 2) (2 ^ k)
unfolding bit_and_not
half_and_not k w =
    let h : 2 ^ suc k / 2 ≡ 2 ^ k = omega arith in
    let g : bit_and w (2 ^ suc k) / 2 ≡ bit_and (w / 2) (2 ^ k) =
      omega (arith, bit_and_next w (2 ^ suc k), ap (bit_and (w / 2)) h) in
    let e : bit_xor (w / 2) (bit_and w (2 ^ suc k) / 2)
        ≡ bit_xor (w / 2) (bit_and (w / 2) (2 ^ k)) =
      ap (bit_xor (w / 2)) g in
    omega (arith, bit_xor_next w (bit_and w (2 ^ suc k)), e)

-- `w &^= 1 << k`
pub bit_at-and_not :
    (j k w : ℕ) → bit_at j (bit_and_not w (2 ^ k)) ≡ (if j == k then false else bit_at j w)
unfolding bit_at bit_and_not
bit_at-and_not zero zero w =
    let e : bit_xor w (bit_and w 1) % 2 ≡ 0 =
      omega (arith, bit_xor_next w (bit_and w 1), bit_and_next w 1) in
    ground (arith, e)
bit_at-and_not zero (suc k) w =
    let e : bit_xor w (bit_and w (2 ^ suc k)) % 2 ≡ w % 2 =
      omega (arith, bit_xor_next w (bit_and w (2 ^ suc k)), bit_and_next w (2 ^ suc k)) in
    ground (arith, e)
bit_at-and_not (suc j) zero w =
    let none_left : bit_and w 1 / 2 ≡ 0 =
      omega (arith, bit_and_next w 1, zero_digits (w / 2) (w / 2) (omega arith)) in
    let e : bit_xor (w / 2) (bit_and w 1 / 2) ≡ bit_xor (w / 2) 0 =
      ap (bit_xor (w / 2)) none_left in
    let h : bit_xor w (bit_and w 1) / 2 ≡ w / 2 =
      omega (arith, bit_xor_next w (bit_and w 1), zero_digits (w / 2) (w / 2) (omega arith), e) in
    rw h (ground arith)
bit_at-and_not (suc j) (suc k) w =
    rw (half_and_not k w) (ground (arith, bit_at-and_not j k (w / 2)))
