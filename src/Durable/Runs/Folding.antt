-- ===== src/Durable/Runs/Folding.antt =====
-- What mergeAdjacentRuns (internal/durability/runstore_sqlite.go) keeps and drops.
use sabnzbd_go.Base.{
  max, refl, ◌+◌, ◌==◌, if◌then◌else◌, Bool-cases, List, [], arith, inl, inr, suc, ℕ, ◌∷◌, ◌≡◌, ◌≤◌,
}
use sabnzbd_go.Durable.Runs.{merge_adjacent_runs, runs_bound, abuts, next_cur, Run, fold_runs}

-- The order in which commitFile sorts: by offset, the longer one first.
abbrev pub Before : Run → Run → Type 0
Before a b = (a.offset ≤ b.offset) × (a.offset ≡ b.offset → b.length ≤ a.length)

abbrev pub BeforeAll : Run → List Run → Type 0
BeforeAll a [] = Unit {0}
BeforeAll a (b ∷ rest) = Before a b × BeforeAll a rest

abbrev pub InOrder : List Run → Type 0
InOrder [] = Unit {0}
InOrder (a ∷ rest) = BeforeAll a rest × InOrder rest

-- Strictly ascending offsets, from `k` on: no two rows have one primary key.
abbrev pub AscendFrom : ℕ → List Run → Type 0
AscendFrom k [] = Unit {0}
AscendFrom k (r ∷ rest) = (k ≤ r.offset) × AscendFrom (suc r.offset) rest

next_cur-BeforeAll :
    (cur r : Run) (rest : List Run)
    → BeforeAll cur rest
    → BeforeAll r rest
    → BeforeAll (next_cur cur r) rest
unfolding next_cur
next_cur-BeforeAll cur r [] b c = tt
next_cur-BeforeAll cur r (x ∷ rest) b c = (ground arith, next_cur-BeforeAll cur r rest b.1 c.1)

next_cur_offset :
    (cur r : Run)
    → (next_cur cur r).offset ≡ (
        if r.offset == cur.offset then cur.offset else if abuts cur r then cur.offset else r.offset)
unfolding next_cur
next_cur_offset cur r = ground arith

AscendFrom-raise : (k m : ℕ) (rs : List Run) → k ≤ m → AscendFrom m rs → AscendFrom k rs
AscendFrom-raise k m [] l a = tt
AscendFrom-raise k m (r ∷ rs) l a = (omega arith, a.1)

fold_runs-AscendFrom :
    (cur : Run) (rest : List Run)
    → BeforeAll cur rest
    → InOrder rest
    → AscendFrom cur.offset (fold_runs cur rest).0
unfolding fold_runs
fold_runs-AscendFrom cur [] b o = (omega arith, tt)
fold_runs-AscendFrom cur (r ∷ rest) b o =
    let ih =
      fold_runs-AscendFrom (next_cur cur r) rest (next_cur-BeforeAll cur r rest b.1 o.0) o.1 in
    elim (Bool-cases (r.offset == cur.offset)) [
      | inl h ↦ ground (arith, ih, next_cur_offset cur r)
      | inr h ↦ ground (
        arith,
        ih,
        next_cur_offset cur r,
        AscendFrom-raise (suc cur.offset) r.offset (fold_runs r rest).0,
      )
    ]

-- Whatever is merged, in the order of the sort, the rows that are written have strictly ascending
-- offsets: no two of them have one primary key.
pub merge_adjacent_runs-AscendFrom :
    (rs : List Run) → InOrder rs → AscendFrom 0 (merge_adjacent_runs rs).0
unfolding merge_adjacent_runs
merge_adjacent_runs-AscendFrom [] o = tt
merge_adjacent_runs-AscendFrom (r ∷ rest) o =
    AscendFrom-raise 0 r.offset (fold_runs r rest).0 (omega arith)
      (fold_runs-AscendFrom r rest o.0 o.1)

fold_runs_bound :
    (cur : Run) (rest : List Run)
    → BeforeAll cur rest
    → InOrder rest
    → runs_bound (fold_runs cur rest).0 ≡ max (cur.offset + cur.length) (runs_bound rest)
unfolding fold_runs runs_bound next_cur
fold_runs_bound cur [] b o = refl
fold_runs_bound cur (r ∷ rest) b o = ground (
  arith,
  fold_runs_bound (next_cur cur r) rest (next_cur-BeforeAll cur r rest b.1 o.0) o.1,
  b.0.0,
  b.0.1,
)

-- Merging in the order of the sort, and dropping what collides, keeps the highest end offset, which
-- FinalizeFile truncates the file to.
pub merge_adjacent_runs_bound :
    (rs : List Run) → InOrder rs → runs_bound (merge_adjacent_runs rs).0 ≡ runs_bound rs
unfolding merge_adjacent_runs runs_bound
merge_adjacent_runs_bound [] o = refl
merge_adjacent_runs_bound (r ∷ rest) o = fold_runs_bound r rest o.0 o.1
