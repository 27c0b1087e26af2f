-- ===== src/Base/Bits/Xor.antt =====
-- The laws of bit_xor, digit by digit.
use Prim.Native.Nat.{bit_xor}
use sabnzbd_go.Base.{arith, refl, suc, zero, ℕ, ◌%◌, ◌*◌, ◌+◌, ◌/◌, ◌<◌, ◌^◌, ◌≡◌, ◌≤◌}
use sabnzbd_go.Base.Bits.{bit_xor_next}

pub xor_half : (a b : ℕ) → bit_xor a b / 2 ≡ bit_xor (a / 2) (b / 2)
xor_half a b = omega (arith, bit_xor_next a b)

pub xor_parity : (a b : ℕ) → bit_xor a b % 2 ≡ (a % 2 + b % 2) % 2
xor_parity a b = omega (arith, bit_xor_next a b)

xor_assoc_within :
    (n a b c : ℕ) → a ≤ n → b ≤ n → c ≤ n → bit_xor (bit_xor a b) c ≡ bit_xor a (bit_xor b c)
xor_assoc_within zero zero zero zero p q r = refl
xor_assoc_within zero zero zero (suc c) p q r = absurd (omega arith)
xor_assoc_within zero zero (suc b) c p q r = absurd (omega arith)
xor_assoc_within zero (suc a) b c p q r = absurd (omega arith)
xor_assoc_within (suc n) a b c p q r =
    let rest =
      xor_assoc_within n (a / 2) (b / 2) (c / 2) (omega arith) (omega arith) (omega arith) in
    let left : bit_xor (bit_xor a b / 2) (c / 2) ≡ bit_xor (a / 2) (bit_xor b c / 2) =
      rw (xor_half a b, xor_half b c) rest in
    omega (
      arith,
      left,
      bit_xor_next (bit_xor a b) c,
      bit_xor_next a (bit_xor b c),
      xor_parity a b,
      xor_parity b c,
    )

pub xor_assoc : (a b c : ℕ) → bit_xor (bit_xor a b) c ≡ bit_xor a (bit_xor b c)
xor_assoc a b c = xor_assoc_within (a + b + c) a b c (omega arith) (omega arith) (omega arith)

xor_comm_within : (n a b : ℕ) → a ≤ n → b ≤ n → bit_xor a b ≡ bit_xor b a
xor_comm_within zero zero zero p q = refl
xor_comm_within zero zero (suc b) p q = absurd (omega arith)
xor_comm_within zero (suc a) b p q = absurd (omega arith)
xor_comm_within (suc n) a b p q = omega (
  arith,
  xor_comm_within n (a / 2) (b / 2) (omega arith) (omega arith),
  bit_xor_next a b,
  bit_xor_next b a,
)

pub xor_comm : (a b : ℕ) → bit_xor a b ≡ bit_xor b a
xor_comm a b = xor_comm_within (a + b) a b (omega arith) (omega arith)

xor_self_within : (n a : ℕ) → a ≤ n → bit_xor a a ≡ 0
xor_self_within zero zero p = refl
xor_self_within zero (suc a) p = absurd (omega arith)
xor_self_within (suc n) a p =
    omega (arith, xor_self_within n (a / 2) (omega arith), bit_xor_next a a)

pub xor_self : (a : ℕ) → bit_xor a a ≡ 0
xor_self a = xor_self_within a a (omega arith)

xor_zero_within : (n a : ℕ) → a ≤ n → bit_xor 0 a ≡ a
xor_zero_within zero zero p = refl
xor_zero_within zero (suc a) p = absurd (omega arith)
xor_zero_within (suc n) a p =
    omega (arith, xor_zero_within n (a / 2) (omega arith), bit_xor_next 0 a)

pub xor_zero : (a : ℕ) → bit_xor 0 a ≡ a
xor_zero a = xor_zero_within a a (omega arith)

-- What is in both goes.
pub xor_cancel : (m a b : ℕ) → bit_xor (bit_xor m a) (bit_xor m b) ≡ bit_xor a b
xor_cancel m a b =
    cc (xor_comm m a, xor_assoc a m (bit_xor m b), xor_assoc m m b, xor_self m, xor_zero b)

pub xor_middle : (m a b : ℕ) → bit_xor m (bit_xor a b) ≡ bit_xor a (bit_xor m b)
xor_middle m a b = cc (xor_assoc m a b, xor_assoc a m b, xor_comm m a)

pub xor_double : (a b : ℕ) → bit_xor (a * 2) (b * 2) ≡ bit_xor a b * 2
xor_double a b =
    let x : a * 2 / 2 ≡ a = omega arith in
    let y : b * 2 / 2 ≡ b = omega arith in
    let k : bit_xor (a * 2 / 2) (b * 2 / 2) ≡ bit_xor a b = rw (x, y) refl in
    omega (arith, k, bit_xor_next (a * 2) (b * 2))

pub xor_one : (a : ℕ) → bit_xor 1 (a * 2) ≡ a * 2 + 1
xor_one a =
    let y : a * 2 / 2 ≡ a = omega arith in
    let k : bit_xor 0 (a * 2 / 2) ≡ a = rw y (xor_zero a) in
    omega (arith, k, bit_xor_next 1 (a * 2))

pub xor_bound : (k a b : ℕ) → a < 2 ^ k → b < 2 ^ k → bit_xor a b < 2 ^ k
xor_bound zero zero zero p q = omega arith
xor_bound zero zero (suc b) p q = absurd (omega arith)
xor_bound zero (suc a) b p q = absurd (omega arith)
xor_bound (suc k) a b p q =
    omega (arith, xor_bound k (a / 2) (b / 2) (omega arith) (omega arith), bit_xor_next a b)
