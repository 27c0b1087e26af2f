-- ===== src/Durable/Runs/Merged.antt =====
-- What mergeAdjacentRuns (internal/durability/runstore_sqlite.go) leaves: maximal runs, which cover the
use sabnzbd_go.Base.{
  refl, ℕ, ◌≤◌, Bool-cases, List, [], arith, false, inl, inr, true, ◌==◌, ◌∷◌, ◌≡◌, ◌⊎◌,
}
use sabnzbd_go.Durable.Runs.{
  covered_by_any, folded, merge_adjacent_runs, Run, abuts, fold_runs, next_cur,
}

-- Two entries that the loop neither drops nor folds.
-- articles of what was merged.
abbrev pub Apart : Run → Run → Type 0
Apart a b = (b.offset == a.offset ≡ false) × (abuts a b ≡ false)

abbrev pub ApartFrom : Run → List Run → Type 0
ApartFrom a [] = Unit {0}
ApartFrom a (b ∷ rest) = Apart a b × ApartFrom b rest

abbrev pub IsMaximal : List Run → Type 0
IsMaximal [] = Unit {0}
IsMaximal (a ∷ rest) = ApartFrom a rest

next_cur-Apart :
    (prev cur r : Run)
    → Apart prev cur
    → (r.offset == cur.offset ≡ true) ⊎ (abuts cur r ≡ true)
    → Apart prev (next_cur cur r)
unfolding next_cur
next_cur-Apart prev cur r a h = ground arith

next_cur_fresh : (cur r : Run) → Apart cur r → next_cur cur r ≡ r
unfolding next_cur
next_cur_fresh cur r a = ground arith

fold_runs-ApartFrom :
    (prev cur : Run) (rest : List Run) → Apart prev cur → ApartFrom prev (fold_runs cur rest).0
unfolding fold_runs
fold_runs-ApartFrom prev cur [] a = (a, tt)
fold_runs-ApartFrom prev cur (r ∷ rest) a = elim (Bool-cases (r.offset == cur.offset)) [
  | inl h ↦
      ground (
        arith,
        fold_runs-ApartFrom prev (next_cur cur r) rest (next_cur-Apart prev cur r a (inl h)),
      )
  | inr h ↦ elim (Bool-cases (abuts cur r)) [
    | inl m ↦ ground (
      arith,
      fold_runs-ApartFrom prev (next_cur cur r) rest (next_cur-Apart prev cur r a (inr m)),
    )
    | inr m ↦ ground (arith, fold_runs-ApartFrom cur r rest (h, m), next_cur_fresh cur r (h, m))
  ]
]

fold_runs-IsMaximal : (cur : Run) (rest : List Run) → IsMaximal (fold_runs cur rest).0
unfolding fold_runs
fold_runs-IsMaximal cur [] = tt
fold_runs-IsMaximal cur (r ∷ rest) = elim (Bool-cases (r.offset == cur.offset)) [
  | inl h ↦ ground (arith, fold_runs-IsMaximal (next_cur cur r) rest)
  | inr h ↦ elim (Bool-cases (abuts cur r)) [
    | inl m ↦ ground (arith, fold_runs-IsMaximal (next_cur cur r) rest)
    | inr m ↦ ground (arith, fold_runs-ApartFrom cur r rest (h, m), next_cur_fresh cur r (h, m))
  ]
]

fold_runs_maximal :
    (cur : Run) (rest : List Run) → ApartFrom cur rest → fold_runs cur rest ≡ (cur ∷ rest, [])
unfolding fold_runs
fold_runs_maximal cur [] a = refl
fold_runs_maximal cur (r ∷ rest) a =
    ground (arith, a.0, next_cur_fresh cur r a.0, fold_runs_maximal r rest a.1)

merge_maximal : (rs : List Run) → IsMaximal rs → merge_adjacent_runs rs ≡ (rs, [])
unfolding merge_adjacent_runs
merge_maximal [] m = refl
merge_maximal (r ∷ rest) m = fold_runs_maximal r rest m

merge_adjacent_runs-IsMaximal : (rs : List Run) → IsMaximal (merge_adjacent_runs rs).0
unfolding merge_adjacent_runs
merge_adjacent_runs-IsMaximal [] = tt
merge_adjacent_runs-IsMaximal (r ∷ rest) = fold_runs-IsMaximal r rest

-- Merging is idempotent: what was merged merges no further, and collides no more.
pub merge_adjacent_runs_again :
    (rs : List Run)
    → merge_adjacent_runs (merge_adjacent_runs rs).0 ≡ ((merge_adjacent_runs rs).0, [])
merge_adjacent_runs_again rs =
    merge_maximal (merge_adjacent_runs rs).0 (merge_adjacent_runs-IsMaximal rs)

-- A run names its lowest article first.
abbrev pub AllSpans : List Run → Type 0
AllSpans [] = Unit {0}
AllSpans (r ∷ rest) = (r.first_art_idx ≤ r.last_art_idx) × AllSpans rest

fold_runs_covers :
    (cur : Run) (rest : List Run) (k : ℕ)
    → cur.first_art_idx ≤ cur.last_art_idx
    → AllSpans rest
    → (fold_runs cur rest).1 ≡ []
    → covered_by_any (fold_runs cur rest).0 k ≡ covered_by_any (cur ∷ rest) k
unfolding fold_runs covered_by_any next_cur
fold_runs_covers cur [] k v s e = refl
fold_runs_covers cur (r ∷ rest) k v s e = elim (Bool-cases (r.offset == cur.offset)) [
  | inl h ↦ absurd (ground arith)
  | inr h ↦ elim (Bool-cases (abuts cur r)) [
    | inl m ↦ ground (arith, fold_runs_covers (folded cur r) rest k (ground arith) s.1)
    | inr m ↦ ground (arith, fold_runs_covers r rest k s.0 s.1)
  ]
]

-- Where no collision is reported, the rows that are written cover exactly the articles of what was
-- merged.
pub merge_adjacent_runs_covers :
    (rs : List Run) (k : ℕ)
    → AllSpans rs
    → (merge_adjacent_runs rs).1 ≡ []
    → covered_by_any (merge_adjacent_runs rs).0 k ≡ covered_by_any rs k
unfolding merge_adjacent_runs
merge_adjacent_runs_covers [] k s e = refl
merge_adjacent_runs_covers (r ∷ rest) k s e = fold_runs_covers r rest k s.0 s.1 e
