-- ===== src/Durable/Crc/Repeated.antt =====
-- Combine (internal/crc32util/crc32combine.go) against the checksum register that it stands for: a zero
-- bit that is appended to a message moves the register by one step, and the matrices are powers of it.
use Prim.Native.Nat.{bit_xor}
use sabnzbd_go.Base.{
  Bool-cases, List, [], ap, arith, if◌then◌else◌, inl, inr, map, refl, suc, sym, zero, ℕ, ◌%◌, ◌*◌,
  ◌+◌, ◌/◌, ◌<◌, ◌==◌, ◌^◌, ◌∙◌, ◌∷◌, ◌≡◌,
}
use sabnzbd_go.Base.Bits.Xor.{
  xor_assoc, xor_bound, xor_cancel, xor_double, xor_half, xor_middle, xor_one, xor_parity,
}
use sabnzbd_go.Durable.Crc.{
  combine, gf2_matrix_mul, gf2_matrix_square, poly, rows, shift_by, shift_matrix,
}

-- The register after one more zero bit.
unfoldable pub zero_bit : ℕ → ℕ
zero_bit crc = if crc % 2 == 1 then bit_xor poly (crc / 2) else crc / 2

unfoldable pub times : ℕ → (ℕ → ℕ) → ℕ → ℕ
times zero f x = x
times (suc n) f x = times n f (f x)

gf2_matrix_mul-zero : (mat : List ℕ) → gf2_matrix_mul mat 0 ≡ 0
unfolding gf2_matrix_mul
gf2_matrix_mul-zero [] = refl
gf2_matrix_mul-zero (m ∷ mat) = gf2_matrix_mul-zero mat

gf2_matrix_mul-xor :
    (mat : List ℕ) (a b : ℕ)
    → gf2_matrix_mul mat (bit_xor a b) ≡ bit_xor (gf2_matrix_mul mat a) (gf2_matrix_mul mat b)
unfolding gf2_matrix_mul
gf2_matrix_mul-xor [] a b = refl
gf2_matrix_mul-xor (m ∷ mat) a b =
    let x = gf2_matrix_mul mat (a / 2) in
    let y = gf2_matrix_mul mat (b / 2) in
    let rest : gf2_matrix_mul mat (bit_xor a b / 2) ≡ bit_xor x y =
      ap (gf2_matrix_mul mat) (xor_half a b) ∙ gf2_matrix_mul-xor mat (a / 2) (b / 2) in
    ground (arith, rest, xor_parity a b, xor_cancel m x y, xor_middle m x y, xor_assoc m x y)

gf2_matrix_mul-map :
    (src mat : List ℕ) (v : ℕ)
    → gf2_matrix_mul (map (gf2_matrix_mul src) mat) v ≡ gf2_matrix_mul src (gf2_matrix_mul mat v)
unfolding gf2_matrix_mul
gf2_matrix_mul-map src [] v = sym (gf2_matrix_mul-zero src)
gf2_matrix_mul-map src (m ∷ mat) v = ground (
  arith,
  gf2_matrix_mul-map src mat (v / 2),
  gf2_matrix_mul-xor src m (gf2_matrix_mul mat (v / 2)),
)

-- The square of a matrix is the matrix twice.
mul-gf2_matrix_square :
    (mat : List ℕ) (v : ℕ)
    → gf2_matrix_mul (gf2_matrix_square mat) v ≡ times 2 (gf2_matrix_mul mat) v
unfolding gf2_matrix_square times
mul-gf2_matrix_square mat v = gf2_matrix_mul-map mat mat v

times-eq : (m n : ℕ) (f : ℕ → ℕ) (x : ℕ) → m ≡ n → times m f x ≡ times n f x
times-eq m n f x e = ap (λ j. times j f x) e

times-add : (m n : ℕ) (f : ℕ → ℕ) (x : ℕ) → times (m + n) f x ≡ times n f (times m f x)
unfolding times
times-add zero n f x = times-eq (0 + n) n f x (omega arith)
times-add (suc m) n f x =
    times-eq (suc m + n) (suc (m + n)) f x (omega arith) ∙ times-add m n f (f x)

times-same : (n : ℕ) (f g : ℕ → ℕ) (x : ℕ) → ((y : ℕ) → f y ≡ g y) → times n f x ≡ times n g x
unfolding times
times-same zero f g x h = refl
times-same (suc n) f g x h = ap (times n f) (h x) ∙ times-same n f g (g x) h

times-times : (n k : ℕ) (f : ℕ → ℕ) (x : ℕ) → times n (times k f) x ≡ times (n * k) f x
unfolding times
times-times zero k f x = times-eq 0 (0 * k) f x (omega arith)
times-times (suc n) k f x =
    times-times n k f (times k f x)
    ∙ sym (times-add k (n * k) f x)
    ∙ times-eq (k + n * k) (suc n * k) f x (omega arith)

mul-twice :
    (mat : List ℕ) (n v : ℕ)
    → times n (gf2_matrix_mul (gf2_matrix_square mat)) v ≡ times (n * 2) (gf2_matrix_mul mat) v
mul-twice mat n v =
    times-same n (gf2_matrix_mul (gf2_matrix_square mat)) (times 2 (gf2_matrix_mul mat)) v
      (mul-gf2_matrix_square mat)
    ∙ times-times n 2 (gf2_matrix_mul mat) v

one_or_none : (g : ℕ → ℕ) (x n : ℕ) → (if n % 2 == 1 then g x else x) ≡ times (n % 2) g x
unfolding times
one_or_none g x n = elim (Bool-cases (n % 2 == 1)) [
  | inl h ↦ rw h (times_one ∙ times-eq 1 (n % 2) g x (ground arith))
  | inr h ↦ rw h (times_none ∙ times-eq 0 (n % 2) g x (ground arith))
]
  where
    times_one : g x ≡ times 1 g x
    times_one = refl

    times_none : x ≡ times 0 g x
    times_none = refl

-- The loop, on enough fuel, applies the square of its matrix as often as its length says.
shift_by-times :
    (fuel : ℕ) (mat : List ℕ) (n crc : ℕ)
    → 0 < n
    → n < 2 ^ fuel
    → shift_by fuel mat n crc ≡ times n (gf2_matrix_mul (gf2_matrix_square mat)) crc
unfolding shift_by
shift_by-times zero mat n crc p q = absurd (omega arith)
shift_by-times (suc fuel) mat n crc p q =
    let g = gf2_matrix_mul (gf2_matrix_square mat) in
    let crc' = if n % 2 == 1 then g crc else crc in
    let odd : crc' ≡ times (n % 2) g crc = one_or_none g crc n in
    elim (Bool-cases (n / 2 == 0)) [
      | inl h ↦ rw (h, shift_by) (odd ∙ times-eq (n % 2) n g crc (ground arith))
      | inr h ↦
          rw (h, shift_by)
            (shift_by-times fuel (gf2_matrix_square mat) (n / 2) crc' (ground arith) (omega arith)
              ∙ mul-twice (gf2_matrix_square mat) (n / 2) crc'
              ∙ ap (times (n / 2 * 2) g) odd
              ∙ sym (times-add (n % 2) (n / 2 * 2) g crc)
              ∙ times-eq (n % 2 + n / 2 * 2) n g crc (omega arith))
    ]

mul-rows_double : (n r w : ℕ) → gf2_matrix_mul (rows n (r * 2)) w ≡ gf2_matrix_mul (rows n r) w * 2
unfolding gf2_matrix_mul rows
mul-rows_double zero r w = refl
mul-rows_double (suc n) r w = ground (
  arith,
  mul-rows_double n (r * 2) (w / 2),
  xor_double r (gf2_matrix_mul (rows n (r * 2)) (w / 2)),
)

-- The rows 1, 2, 4, ... leave a number as it is.
mul-rows : (n w : ℕ) → w < 2 ^ n → gf2_matrix_mul (rows n 1) w ≡ w
unfolding gf2_matrix_mul rows
mul-rows zero w h = omega arith
mul-rows (suc n) w h =
    let rest : gf2_matrix_mul (rows n (1 * 2)) (w / 2) ≡ w / 2 * 2 =
      mul-rows_double n 1 (w / 2) ∙ ap (λ x. x * 2) (mul-rows n (w / 2) (omega arith)) in
    ground (arith, rest, xor_one (w / 2))

mul-shift_matrix : (crc : ℕ) → crc < 4294967296 → gf2_matrix_mul shift_matrix crc ≡ zero_bit crc
unfolding gf2_matrix_mul shift_matrix zero_bit
mul-shift_matrix crc h = ground (arith, mul-rows 31 (crc / 2) (omega arith))

zero_bit_bound : (crc : ℕ) → crc < 4294967296 → zero_bit crc < 4294967296
unfolding zero_bit
zero_bit_bound crc h = ground (arith, xor_bound 32 poly (crc / 2) (omega arith) (omega arith))

times-shift_matrix :
    (n crc : ℕ)
    → crc < 4294967296
    → times n (gf2_matrix_mul shift_matrix) crc ≡ times n zero_bit crc
unfolding times
times-shift_matrix zero crc h = refl
times-shift_matrix (suc n) crc h =
    ap (times n (gf2_matrix_mul shift_matrix)) (mul-shift_matrix crc h)
    ∙ times-shift_matrix n (zero_bit crc) (zero_bit_bound crc h)

-- Combine of two checksums of 32 bits and the second one's length is the first one after eight zero
-- bits for each byte of that length, xor the second one; of a length of 0, it is the first one.
pub combine-times :
    (crc1 crc2 len2 : ℕ)
    → crc1 < 4294967296
    → len2 < 9223372036854775808
    → combine crc1 crc2 len2
      ≡ (if len2 == 0 then crc1 else bit_xor (times (8 * len2) zero_bit crc1) crc2)
unfolding combine
combine-times crc1 crc2 len2 h l = elim (Bool-cases (len2 == 0)) [
  | inl z ↦ rw z refl
  | inr z ↦
      let once = gf2_matrix_square shift_matrix in
      let twice = gf2_matrix_square once in
      rw z (
        ap (λ x. bit_xor x crc2)
          (shift_by-times 64 twice len2 crc1 (ground arith) (omega arith)
            ∙ mul-twice twice len2 crc1
            ∙ mul-twice once (len2 * 2) crc1
            ∙ mul-twice shift_matrix (len2 * 2 * 2) crc1
            ∙ times-eq (len2 * 2 * 2 * 2) (8 * len2) (gf2_matrix_mul shift_matrix) crc1
                (omega arith)
            ∙ times-shift_matrix (8 * len2) crc1 h))
]
