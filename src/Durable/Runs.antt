-- ===== src/Durable/Runs.antt =====
-- How durable articles fold into runs (internal/durability: run.go, runstore_sqlite.go, barrier.go).
-- Offsets and lengths are int64 in the code, and here numbers: a file has fewer than 2^63 bytes.
use sabnzbd_go.Base.{
  ◌||◌, ◌==◌, ◌&&◌, if◌then◌else◌, Bool, List, [], false, leb, length, max, ℕ, ◌+◌, ◌∷◌,
}
use sabnzbd_go.Durable.Crc.{combine}
pub mod Bound
pub mod Folding
pub mod Merged

pub record DurableArticle : Type 0 where
  pub file_idx : ℕ
  pub art_idx : ℕ
  pub offset : ℕ
  pub length : ℕ
  pub crc32 : ℕ

pub record Run : Type 0 where
  pub file_idx : ℕ
  pub first_art_idx : ℕ
  pub last_art_idx : ℕ
  pub offset : ℕ
  pub length : ℕ
  pub crc32 : ℕ

pub record Collision : Type 0 where
  pub file_idx : ℕ
  pub offset : ℕ
  pub kept : ℕ
  pub dropped : ℕ

-- commitFile's single-article run.
unfoldable pub article_run : DurableArticle → Run
article_run a = record {
  file_idx = a.file_idx;
  first_art_idx = a.art_idx;
  last_art_idx = a.art_idx;
  offset = a.offset;
  length = a.length;
  crc32 = a.crc32;
}

unfoldable pub covered_by_any : List Run → ℕ → Bool
covered_by_any [] art = false
covered_by_any (r ∷ stored) art =
    (leb r.first_art_idx art && leb art r.last_art_idx) || covered_by_any stored art

-- The articles that no stored row covers.
unfoldable pub subtract : List Run → List DurableArticle → List DurableArticle
unfolding covered_by_any
subtract stored [] = []
subtract stored (a ∷ arts) =
    let kept = subtract stored arts in if covered_by_any stored a.art_idx then kept else a ∷ kept

abbrev pub abuts : Run → Run → Bool
abuts cur r = (r.offset == cur.offset + cur.length) && (r.first_art_idx == cur.last_art_idx + 1)

abbrev pub folded : Run → Run → Run
folded cur r = record cur {
  crc32 = combine cur.crc32 r.crc32 r.length;
  length = cur.length + r.length;
  last_art_idx = r.last_art_idx;
}

abbrev pub collision : Run → Run → Collision
collision cur r = record {
  file_idx = cur.file_idx;
  offset = cur.offset;
  kept = cur.first_art_idx;
  dropped = r.first_art_idx;
}

-- The accumulator after one turn of the loop of mergeAdjacentRuns.
unfoldable pub next_cur : Run → Run → Run
next_cur cur r = if r.offset == cur.offset then cur else if abuts cur r then folded cur r else r

-- The loop of mergeAdjacentRuns, with the run that it folds into.
unfoldable pub fold_runs : Run → List Run → List Run × List Collision
unfolding next_cur
fold_runs cur [] = (cur ∷ [], [])
fold_runs cur (r ∷ rest) =
    let (out, collisions) = fold_runs (next_cur cur r) rest in
    if r.offset == cur.offset
    then (out, collision cur r ∷ collisions)
    else if abuts cur r
    then (out, collisions)
    else (cur ∷ out, collisions)

unfoldable pub merge_adjacent_runs : List Run → List Run × List Collision
unfolding fold_runs
merge_adjacent_runs [] = ([], [])
merge_adjacent_runs (r ∷ rest) = fold_runs r rest

unfoldable pub runs_bound : List Run → ℕ
runs_bound [] = 0
runs_bound (r ∷ stored) = max (r.offset + r.length) (runs_bound stored)

-- The highest end offset among the stored runs and the articles about to join them.
unfoldable pub bound_over : List Run → List DurableArticle → ℕ
unfolding runs_bound
bound_over stored [] = runs_bound stored
bound_over stored (a ∷ arts) = max (a.offset + a.length) (bound_over stored arts)
