-- ===== src/Durable/Commit.antt =====
-- SQLiteRunStore.commitFile (internal/durability/runstore_sqlite.go): what a commit does to the stored
-- rows of one file. A table is those rows in the order of their offsets, which are its primary keys.
-- Both sorts are slices.SortFunc with the code's comparison.
use sabnzbd_go.Base.{if◌then◌else◌, List, [], leb, ltb, map, max, ℕ, ◌++◌, ◌+◌, ◌==◌, ◌∷◌}
use sabnzbd_go.Durable.Runs.{
  Collision, DurableArticle, Run, article_run, merge_adjacent_runs, subtract,
}
pub mod Table
pub mod Covers
pub mod Again

-- The last end among the articles.
unfoldable pub max_end : List DurableArticle → ℕ
max_end [] = 0
max_end (a ∷ arts) = max (a.offset + a.length) (max_end arts)

-- The rows that queryBracketing reads.
unfoldable pub up_to : ℕ → List Run → List Run
up_to k [] = []
up_to k (r ∷ rs) = let rest = up_to k rs in if leb r.offset k then r ∷ rest else rest

-- The rows that are left when deleteRows has removed what was read.
unfoldable pub beyond : ℕ → List Run → List Run
beyond k [] = []
beyond k (r ∷ rs) = let rest = beyond k rs in if leb r.offset k then rest else r ∷ rest

-- INSERT OR REPLACE.
unfoldable pub upsert : Run → List Run → List Run
upsert r [] = r ∷ []
upsert r (x ∷ xs) =
    let later = upsert r xs in
    if ltb r.offset x.offset then r ∷ x ∷ xs else if r.offset == x.offset then r ∷ xs else x ∷ later

unfoldable pub insert_runs : List Run → List Run → List Run
unfolding upsert
insert_runs [] table = table
insert_runs (r ∷ rs) table = insert_runs rs (upsert r table)

unfoldable pub commit_kept :
    (List Run → List Run) → ℕ → List DurableArticle → List Run → List Run × List Collision
unfolding up_to beyond insert_runs merge_adjacent_runs article_run
commit_kept sort_runs max_end [] table = (table, [])
commit_kept sort_runs max_end (a ∷ kept) table =
    let (final, collisions) =
      merge_adjacent_runs (sort_runs (up_to max_end table ++ map article_run (a ∷ kept))) in
    (insert_runs final (beyond max_end table), collisions)

unfoldable pub commit_file :
    (List Run → List Run)
    → (List DurableArticle → List DurableArticle)
    → List DurableArticle
    → List Run
    → List Run × List Collision
unfolding max_end up_to commit_kept subtract
commit_file sort_runs sort_articles arts table =
    let sorted = sort_articles arts in
    commit_kept sort_runs (max_end sorted) (subtract (up_to (max_end sorted) table) sorted) table
