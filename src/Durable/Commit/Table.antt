-- ===== src/Durable/Commit/Table.antt =====
-- A commit (commitFile of internal/durability/runstore_sqlite.go) replaces no row that it did not read.
use sabnzbd_go.Base.{
  Bool-cases, List, [], ap, arith, false, inl, inr, leb, ltb, map, refl, suc, true, ℕ, ◌++◌, ◌==◌,
  ◌∙◌, ◌∷◌, ◌≡◌, ◌≤◌,
}
use sabnzbd_go.Durable.Runs.{
  DurableArticle, Run, abuts, article_run, fold_runs, folded, merge_adjacent_runs, next_cur,
  subtract,
}
use sabnzbd_go.Durable.Runs.Folding.{AscendFrom, merge_adjacent_runs-AscendFrom, InOrder}
use sabnzbd_go.Durable.Commit.{
  max_end, up_to, beyond, upsert, insert_runs, commit_kept, commit_file,
}
use sabnzbd_go.Durable.Runs.Bound.{Shuffle, same, keep, exchange, further}

-- Sorting by slices.SortFunc: the same rows, by offset and then the longer ones first.
pub record IsSort (sort_runs : List Run → List Run) : Type 0 where
  pub in_order : (rs : List Run) → InOrder (sort_runs rs)
  pub shuffled : (rs : List Run) → Shuffle (sort_runs rs) rs

abbrev pub AllUpTo : ℕ → List Run → Type 0
AllUpTo k [] = Unit {0}
AllUpTo k (r ∷ rs) = (r.offset ≤ k) × AllUpTo k rs

AllUpTo-up_to : (k : ℕ) (rs : List Run) → AllUpTo k (up_to k rs)
unfolding up_to
AllUpTo-up_to k [] = tt
AllUpTo-up_to k (r ∷ rs) = ground (arith, AllUpTo-up_to k rs)

AllUpTo-append : (k : ℕ) (rs ts : List Run) → AllUpTo k rs → AllUpTo k ts → AllUpTo k (rs ++ ts)
AllUpTo-append k [] ts a b = b
AllUpTo-append k (r ∷ rs) ts a b = (a.0, AllUpTo-append k rs ts a.1 b)

AllUpTo-Shuffle : (k : ℕ) {rs ts : List Run} → Shuffle rs ts → AllUpTo k ts → AllUpTo k rs
AllUpTo-Shuffle k (same rs) a = a
AllUpTo-Shuffle k (keep r p) a = (a.0, AllUpTo-Shuffle k p a.1)
AllUpTo-Shuffle k (exchange x y rs) a = (a.1.0, (a.0, a.1.1))
AllUpTo-Shuffle k (further p q) a = AllUpTo-Shuffle k p (AllUpTo-Shuffle k q a)

AllUpTo-article_runs :
    (stored : List Run) (arts : List DurableArticle) (k : ℕ)
    → max_end arts ≤ k
    → AllUpTo k (map article_run (subtract stored arts))
unfolding max_end subtract article_run
AllUpTo-article_runs stored [] k l = tt
AllUpTo-article_runs stored (a ∷ arts) k l =
    ground (arith, AllUpTo-article_runs stored arts k (omega arith))

AllUpTo-fold_runs :
    (k : ℕ) (cur : Run) (rest : List Run)
    → cur.offset ≤ k
    → AllUpTo k rest
    → AllUpTo k (fold_runs cur rest).0
unfolding fold_runs next_cur
AllUpTo-fold_runs k cur [] l a = (l, tt)
AllUpTo-fold_runs k cur (r ∷ rest) l a = elim (Bool-cases (r.offset == cur.offset)) [
  | inl h ↦ rw h (AllUpTo-fold_runs k cur rest l a.1)
  | inr h ↦ elim (Bool-cases (abuts cur r)) [
    | inl g ↦ rw (h, g) (AllUpTo-fold_runs k (folded cur r) rest l a.1)
    | inr g ↦ rw (h, g) (l, AllUpTo-fold_runs k r rest a.0 a.1)
  ]
]

AllUpTo-merge_adjacent_runs :
    (k : ℕ) (rs : List Run) → AllUpTo k rs → AllUpTo k (merge_adjacent_runs rs).0
unfolding merge_adjacent_runs
AllUpTo-merge_adjacent_runs k [] a = tt
AllUpTo-merge_adjacent_runs k (r ∷ rest) a = AllUpTo-fold_runs k r rest a.0 a.1

-- The rows that a commit writes start no later than the articles end.
pub AllUpTo-final :
    (sort_runs : List Run → List Run)
    → IsSort sort_runs
    → (stored : List Run) (arts : List DurableArticle) (table : List Run)
    → AllUpTo
        (max_end arts)
        (merge_adjacent_runs
          (sort_runs (up_to (max_end arts) table ++ map article_run (subtract stored arts)))).0
AllUpTo-final sort_runs s stored arts table = AllUpTo-merge_adjacent_runs (max_end arts) _ (
    AllUpTo-Shuffle (max_end arts) (s.shuffled _) (
      AllUpTo-append (max_end arts) _ _ (AllUpTo-up_to (max_end arts) table)
        (AllUpTo-article_runs stored arts (max_end arts) (omega arith))))

AscendFrom-lower : (k m : ℕ) (rs : List Run) → k ≤ m → AscendFrom m rs → AscendFrom k rs
AscendFrom-lower k m [] l a = tt
AscendFrom-lower k m (r ∷ rs) l a = (omega arith, a.1)

AscendFrom-kept : (k m : ℕ) (rs : List Run) → AscendFrom k rs → AscendFrom k (beyond m rs)
unfolding beyond
AscendFrom-kept k m [] a = tt
AscendFrom-kept k m (r ∷ rs) a = elim (Bool-cases (leb r.offset m)) [
  | inl h ↦
      rw h (
        AscendFrom-lower k (suc r.offset) _ (omega arith) (AscendFrom-kept (suc r.offset) m rs a.1))
  | inr h ↦ rw h (a.0, AscendFrom-kept (suc r.offset) m rs a.1)
]

pub AscendFrom-beyond :
    (k m : ℕ) (rs : List Run) → AscendFrom k rs → AscendFrom (suc m) (beyond m rs)
unfolding beyond
AscendFrom-beyond k m [] a = tt
AscendFrom-beyond k m (r ∷ rs) a = elim (Bool-cases (leb r.offset m)) [
  | inl h ↦ rw h (AscendFrom-beyond (suc r.offset) m rs a.1)
  | inr h ↦ rw h (ground arith, AscendFrom-kept (suc r.offset) m rs a.1)
]

AscendFrom-append :
    (k m : ℕ) (rs ts : List Run)
    → AscendFrom k rs
    → AllUpTo m rs
    → k ≤ suc m
    → AscendFrom (suc m) ts
    → AscendFrom k (rs ++ ts)
AscendFrom-append k m [] ts a u l b = AscendFrom-lower k (suc m) ts l b
AscendFrom-append k m (r ∷ rs) ts a u l b =
    (a.0, AscendFrom-append (suc r.offset) m rs ts a.1 u.1 (omega (arith, u.0)) b)

insert_runs-front :
    (x : Run) (rs ts : List Run)
    → AscendFrom (suc x.offset) rs
    → insert_runs rs (x ∷ ts) ≡ x ∷ insert_runs rs ts
unfolding insert_runs upsert
insert_runs-front x [] ts a = refl
insert_runs-front x (r ∷ rs) ts a =
    let no_less : ltb r.offset x.offset ≡ false = ground (arith, a.0) in
    let no_same : (r.offset == x.offset) ≡ false = ground (arith, a.0) in
    rw (no_less, no_same)
      (insert_runs-front x rs (upsert r ts)
        (AscendFrom-lower (suc x.offset) (suc r.offset) rs (omega (arith, a.0)) a.1))

upsert_first : (r : Run) (ts : List Run) → AscendFrom (suc r.offset) ts → upsert r ts ≡ r ∷ ts
unfolding upsert
upsert_first r [] a = refl
upsert_first r (x ∷ ts) a =
    let less : ltb r.offset x.offset ≡ true = ground (arith, a.0) in rw less refl

-- Rows in order, before all that are there, are put in front: none is replaced.
pub insert_runs_before :
    (k m : ℕ) (rs ts : List Run)
    → AscendFrom k rs
    → AllUpTo m rs
    → AscendFrom (suc m) ts
    → insert_runs rs ts ≡ rs ++ ts
unfolding insert_runs
insert_runs_before k m [] ts a u b = refl
insert_runs_before k m (r ∷ rs) ts a u b =
    rw (upsert_first r ts (AscendFrom-lower (suc r.offset) (suc m) ts (omega (arith, u.0)) b)) (
      insert_runs-front r rs ts a.1
      ∙ ap (λ xs. r ∷ xs) (insert_runs_before (suc r.offset) m rs ts a.1 u.1 b))

-- A commit leaves one row for each offset, in order, also among the rows that it does not read.
pub commit_file-AscendFrom :
    (sort_runs : List Run → List Run) (sort_articles : List DurableArticle → List DurableArticle)
    (arts : List DurableArticle) (table : List Run)
    → IsSort sort_runs
    → AscendFrom 0 table
    → AscendFrom 0 (commit_file sort_runs sort_articles arts table).0
unfolding commit_file commit_kept
commit_file-AscendFrom sort_runs sort_articles arts table s a =
    kept_rows (subtract (up_to (max_end (sort_articles arts)) table) (sort_articles arts)) refl
  where
    kept_rows :
        (kept : List DurableArticle)
        → subtract (up_to (max_end (sort_articles arts)) table) (sort_articles arts) ≡ kept
        → AscendFrom 0 (commit_kept sort_runs (max_end (sort_articles arts)) kept table).0
    kept_rows [] e = a
    kept_rows (x ∷ kept) e =
        let m = max_end (sort_articles arts) in
        let rows =
          merge_adjacent_runs-AscendFrom (sort_runs (up_to m table ++ map article_run (x ∷ kept)))
            (s.in_order _) in
        let low = rw e at (AllUpTo-final sort_runs s (up_to m table) (sort_articles arts) table) in
        let past = AscendFrom-beyond 0 m table a in
        rw (insert_runs_before 0 m _ _ rows low past)
          (AscendFrom-append 0 m _ _ rows low (omega arith) past)
