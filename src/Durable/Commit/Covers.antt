-- ===== src/Durable/Commit/Covers.antt =====
-- What a commit (commitFile of internal/durability/runstore_sqlite.go) adds to the record.
use sabnzbd_go.Base.{
  Bool, Bool-cases, List, [], ap, arith, false, inl, inr, map, refl, ℕ, ◌++◌, ◌==◌, ◌||◌, ◌∙◌, ◌∷◌,
  ◌≡◌, ◌⊎◌,
}
use sabnzbd_go.Durable.Runs.{
  DurableArticle, Run, article_run, covered_by_any, merge_adjacent_runs, subtract,
}
use sabnzbd_go.Durable.Runs.Folding.{AscendFrom, merge_adjacent_runs-AscendFrom}
use sabnzbd_go.Durable.Runs.Merged.{AllSpans, merge_adjacent_runs_covers}
use sabnzbd_go.Durable.Commit.{max_end, up_to, beyond, commit_kept, commit_file}
use sabnzbd_go.Durable.Commit.Table.{AllUpTo-final, AscendFrom-beyond, IsSort, insert_runs_before}
use sabnzbd_go.Durable.Runs.Bound.{Shuffle, same, keep, exchange, further}

-- The article is one of these.
unfoldable pub names : ℕ → List DurableArticle → Bool
names k [] = false
names k (a ∷ arts) = (a.art_idx == k) || names k arts

covered_by_any-append :
    (rs ts : List Run) (k : ℕ)
    → covered_by_any (rs ++ ts) k ≡ (covered_by_any rs k || covered_by_any ts k)
unfolding covered_by_any
covered_by_any-append [] ts k = refl
covered_by_any-append (r ∷ rs) ts k = ground (arith, covered_by_any-append rs ts k)

covered_by_any-Shuffle :
    {rs ts : List Run} (k : ℕ) → Shuffle rs ts → covered_by_any rs k ≡ covered_by_any ts k
unfolding covered_by_any
covered_by_any-Shuffle k (same rs) = refl
covered_by_any-Shuffle k (keep r p) = ground (arith, covered_by_any-Shuffle k p)
covered_by_any-Shuffle k (exchange a b rs) = ground arith
covered_by_any-Shuffle k (further p q) = covered_by_any-Shuffle k p ∙ covered_by_any-Shuffle k q

pub covered_by_any-split :
    (m : ℕ) (rs : List Run) (k : ℕ)
    → covered_by_any rs k ≡ (covered_by_any (up_to m rs) k || covered_by_any (beyond m rs) k)
unfolding covered_by_any up_to beyond
covered_by_any-split m [] k = refl
covered_by_any-split m (r ∷ rs) k = ground (arith, covered_by_any-split m rs k)

-- What was subtracted is covered already.
covered_by_any-subtract :
    (stored : List Run) (arts : List DurableArticle) (k : ℕ)
    → (covered_by_any stored k || covered_by_any (map article_run (subtract stored arts)) k)
      ≡ (covered_by_any stored k || names k arts)
unfolding subtract article_run names covered_by_any
covered_by_any-subtract stored [] k = refl
covered_by_any-subtract stored (a ∷ arts) k = elim (Bool-cases (a.art_idx == k)) [
  | inl e ↦
      let here : covered_by_any stored a.art_idx ≡ covered_by_any stored k =
        ap (covered_by_any stored) (ground arith) in
      ground (arith, here, covered_by_any-subtract stored arts k)
  | inr n ↦ ground (arith, covered_by_any-subtract stored arts k)
]

AllSpans-Shuffle : {rs ts : List Run} → Shuffle rs ts → AllSpans ts → AllSpans rs
AllSpans-Shuffle (same rs) a = a
AllSpans-Shuffle (keep r p) a = (a.0, AllSpans-Shuffle p a.1)
AllSpans-Shuffle (exchange x y rs) a = (a.1.0, (a.0, a.1.1))
AllSpans-Shuffle (further p q) a = AllSpans-Shuffle p (AllSpans-Shuffle q a)

AllSpans-append : (rs ts : List Run) → AllSpans rs → AllSpans ts → AllSpans (rs ++ ts)
AllSpans-append [] ts a b = b
AllSpans-append (r ∷ rs) ts a b = (a.0, AllSpans-append rs ts a.1 b)

pub AllSpans-up_to : (m : ℕ) (rs : List Run) → AllSpans rs → AllSpans (up_to m rs)
unfolding up_to
AllSpans-up_to m [] a = tt
AllSpans-up_to m (r ∷ rs) a = ground (arith, a.0, AllSpans-up_to m rs a.1)

AllSpans-article_runs : (arts : List DurableArticle) → AllSpans (map article_run arts)
unfolding article_run
AllSpans-article_runs [] = tt
AllSpans-article_runs (a ∷ arts) = (omega arith, AllSpans-article_runs arts)

-- Without a collision, the rows that are written cover the rows that were read and the new articles.
pub covered_by_any-final :
    (sort_runs : List Run → List Run)
    → IsSort sort_runs
    → (stored : List Run) (arts : List DurableArticle) (k : ℕ) → AllSpans stored
    → (merge_adjacent_runs (sort_runs (stored ++ map article_run (subtract stored arts)))).1 ≡ []
    → covered_by_any
        (merge_adjacent_runs (sort_runs (stored ++ map article_run (subtract stored arts)))).0
        k
      ≡ (covered_by_any stored k || names k arts)
covered_by_any-final sort_runs s stored arts k a e =
    let rows = stored ++ map article_run (subtract stored arts) in
    let spans = AllSpans-append stored _ a (AllSpans-article_runs (subtract stored arts)) in
    merge_adjacent_runs_covers (sort_runs rows) k (AllSpans-Shuffle (s.shuffled rows) spans) e
    ∙ covered_by_any-Shuffle k (s.shuffled rows)
    ∙ covered_by_any-append stored _ k
    ∙ covered_by_any-subtract stored arts k

module _ (sort_runs : List Run → List Run) (sorted : List DurableArticle) (table : List Run) where
  -- The rows that a commit of these articles reads, and those that it writes.
  abbrev pub read_rows : List Run
  read_rows = up_to (max_end sorted) table

  abbrev pub written_rows : List Run
  written_rows =
      (merge_adjacent_runs (sort_runs (read_rows ++ map article_run (subtract read_rows sorted)))).0

  -- Either all articles were covered, and nothing changes, or the rows that were read are replaced.
  pub commit_cases :
      IsSort sort_runs
      → AscendFrom 0 table
      → ((subtract read_rows sorted ≡ [])
          × (commit_kept sort_runs (max_end sorted) (subtract read_rows sorted) table
              ≡ (table, [])))
        ⊎ (commit_kept sort_runs (max_end sorted) (subtract read_rows sorted) table ≡ (
          written_rows ++ beyond (max_end sorted) table,
          (merge_adjacent_runs
              (sort_runs (read_rows ++ map article_run (subtract read_rows sorted)))).1,
        ))
  unfolding commit_kept
  commit_cases s a = by_kept (subtract read_rows sorted) refl
    where
      by_kept :
          (kept : List DurableArticle)
          → subtract read_rows sorted ≡ kept
          → ((kept ≡ []) × (commit_kept sort_runs (max_end sorted) kept table ≡ (table, [])))
            ⊎ (commit_kept sort_runs (max_end sorted) kept table ≡ (
              (merge_adjacent_runs (sort_runs (read_rows ++ map article_run kept))).0
                  ++ beyond (max_end sorted) table,
              (merge_adjacent_runs (sort_runs (read_rows ++ map article_run kept))).1,
            ))
      by_kept [] e = inl (refl, refl)
      by_kept (x ∷ kept) e =
          let low = rw e at (AllUpTo-final sort_runs s read_rows sorted table) in
          inr (
            rw
              (insert_runs_before 0 (max_end sorted) _ _
                (merge_adjacent_runs-AscendFrom
                  (sort_runs (read_rows ++ map article_run (x ∷ kept))) (s.in_order _))
                low (AscendFrom-beyond 0 (max_end sorted) table a))
              refl)

-- A commit that reports no collision covers exactly the articles that were covered before and those
-- that were committed, redelivered or new.
pub commit_file_covers :
    (sort_runs : List Run → List Run) (sort_articles : List DurableArticle → List DurableArticle)
    (arts : List DurableArticle) (table : List Run) (k : ℕ)
    → IsSort sort_runs
    → names k (sort_articles arts) ≡ names k arts
    → AscendFrom 0 table
    → AllSpans table
    → (commit_file sort_runs sort_articles arts table).1 ≡ []
    → covered_by_any (commit_file sort_runs sort_articles arts table).0 k
      ≡ (covered_by_any table k || names k arts)
unfolding commit_file
commit_file_covers sort_runs sort_articles arts table k s n a v e =
    let sorted = sort_articles arts in
    let stored = read_rows sort_runs sorted table in
    let spans = AllSpans-up_to (max_end sorted) table v in
    let parts = covered_by_any-split (max_end sorted) table k in
    let fresh = covered_by_any-subtract stored sorted k in
    elim (commit_cases sort_runs sorted table s a) [
      | inl h ↦ rw (h.1) (ground (arith, n, parts, rw (h.0) at fresh))
      | inr h ↦
          let final = covered_by_any-final sort_runs s stored sorted k spans (rw h at e) in
          rw
            (
              h,
              covered_by_any-append (written_rows sort_runs sorted table)
                  (beyond (max_end sorted) table) k,
            )
            (ground (arith, n, parts, final))
    ]
