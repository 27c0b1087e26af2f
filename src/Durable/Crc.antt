-- ===== src/Durable/Crc.antt =====
-- crc32util.Combine (internal/crc32util/crc32combine.go). A uint32 is a number below 2^32, and a
-- [32]uint32 is the list of its 32 entries.
use sabnzbd_go.Base.{
  Bool-cases, inl, inr, false, true, ◌==◌, ◌%◌, ◌/◌, ◌^◌, ◌*◌, if◌then◌else◌, List, [], arith, map,
  suc, zero, ℕ, ◌<◌, ◌∷◌, ◌≡◌,
}
use Prim.Native.Nat.{bit_xor}
pub mod Repeated

abbrev pub poly : ℕ
poly = 3988292384

-- 1, 2, 4, ...: the rows that follow the first one.
rows : ℕ → ℕ → List ℕ
rows zero row = []
rows (suc n) row = row ∷ rows n (row * 2)

unfoldable pub shift_matrix : List ℕ
unfolding rows
shift_matrix = poly ∷ rows 31 1

unfoldable pub gf2_matrix_mul : List ℕ → ℕ → ℕ
gf2_matrix_mul [] vec = 0
gf2_matrix_mul (m ∷ mat) vec =
    let rest = gf2_matrix_mul mat (vec / 2) in if vec % 2 == 1 then bit_xor m rest else rest

unfoldable pub gf2_matrix_square : List ℕ → List ℕ
unfolding gf2_matrix_mul
gf2_matrix_square src = map (gf2_matrix_mul src) src

-- The loop of Combine: `even` and `odd` are the matrix and its square in turn. On fuel.
unfoldable pub shift_by : ℕ → List ℕ → ℕ → ℕ → ℕ
unfolding gf2_matrix_square gf2_matrix_mul
shift_by zero mat n crc = crc
shift_by (suc fuel) mat n crc =
    let square = gf2_matrix_square mat in
    let crc' = if n % 2 == 1 then gf2_matrix_mul square crc else crc in
    elim (n / 2 == 0) [ true ↦ crc' | false ↦ shift_by fuel square (n / 2) crc' ]

-- The length is an int64: one that is not positive returns before the loop, as 0 does here, and a
-- positive one has fewer than 64 bits.
unfoldable pub combine : ℕ → ℕ → ℕ → ℕ
unfolding shift_matrix gf2_matrix_square shift_by
combine crc1 crc2 len2 =
    if len2 == 0
    then crc1
    else bit_xor (shift_by 64 (gf2_matrix_square (gf2_matrix_square shift_matrix)) len2 crc1) crc2
