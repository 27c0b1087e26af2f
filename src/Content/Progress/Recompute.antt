-- ===== src/Content/Progress/Recompute.antt =====
-- JobProgress.recompute (internal/job/progress.go): the figures, from the bits.
use sabnzbd_go.Base.{
  if◌then◌else◌, Bool, List, Option, [], none, not, some, suc, zero, ℕ, ◌%◌, ◌&&◌, ◌+◌, ◌-◌, ◌==◌,
  ◌∷◌,
}
use sabnzbd_go.Base.Words.{add_word}
use sabnzbd_go.Content.Bitset.{get_bit}
use sabnzbd_go.Content.Manifest.{Manifest, ManifestFile, bytes_at, ends_of, num_articles}
use sabnzbd_go.Content.Progress.{FileProgress, JobProgress, is_always}
pub mod Tallies

-- The sum of `g` over `k` articles from `lo` on.
unfoldable pub tally : (ℕ → ℕ) → ℕ → ℕ → ℕ
tally g lo zero = 0
tally g lo (suc k) = g lo + tally g (lo + 1) k

-- What one article adds to each figure, by its done, emitted and failed bits.
abbrev pub pending_of : Bool → Bool → Bool → ℕ
pending_of fetching done emitted = if fetching && (not done && not emitted) then 1 else 0

abbrev pub downloaded_of : Bool → Bool → ℕ → ℕ
downloaded_of done failed bytes = if done && not failed then bytes else 0

abbrev pub failed_of : Bool → Bool → ℕ → ℕ
failed_of done failed bytes = if done && failed then bytes else 0

abbrev pub one_if : Bool → ℕ
one_if x = if x then 1 else 0

-- The bits of the articles, and their sizes.
module _ (done emitted failed : ℕ → Bool) (bytes : ℕ → ℕ) where
  unfoldable pub recount : ℕ → ℕ → ℕ → FileProgress → FileProgress
  unfolding is_always tally
  recount lo hi size f = record f {
    pending =
        tally (λ i. pending_of (is_always f.fetch) (done i) (emitted i)) lo (hi - lo)
        % 18446744073709551616;
    bytes_downloaded =
        tally (λ i. downloaded_of (done i) (failed i) (bytes i)) lo (hi - lo)
        % 18446744073709551616;
    failed_bytes =
        tally (λ i. failed_of (done i) (failed i) (bytes i)) lo (hi - lo) % 18446744073709551616;
    bytes = size;
  }

  -- The loop over the files, each from `lo` to its end.
  unfoldable pub recount_files :
      ℕ → List ℕ → List ManifestFile → List FileProgress → List FileProgress
  unfolding recount
  recount_files lo (hi ∷ ends) (mf ∷ mfs) (f ∷ fs) =
      recount lo hi mf.bytes f ∷ recount_files hi ends mfs fs
  recount_files lo _ _ fs = fs

-- One figure summed over the ranges of all files.
unfoldable pub tally_ranges : (ℕ → ℕ) → ℕ → List ℕ → ℕ
unfolding tally
tally_ranges g lo [] = 0
tally_ranges g lo (hi ∷ ends) = tally g lo (hi - lo) + tally_ranges g hi ends

-- One figure summed over the files.
unfoldable pub sum_files : (FileProgress → ℕ) → List FileProgress → ℕ
sum_files h [] = 0
sum_files h (f ∷ fs) = add_word (h f) (sum_files h fs)

abbrev pub start_of : List ℕ → ℕ
start_of [] = 0
start_of (lo ∷ _) = lo

-- Without the check at its head.
unfoldable pub recomputed : Manifest → JobProgress → JobProgress
unfolding recount_files tally_ranges sum_files
recomputed m p =
    let lo = start_of m.file_article_offsets in
    let ends = ends_of m.file_article_offsets in
    let files =
      recount_files (get_bit p.done) (get_bit p.emitted) (get_bit p.failed) (bytes_at m) lo ends
        m.files p.files in
    record p {
      files = files;
      pending_articles = sum_files (λ f. f.pending) files;
      articles_resolved =
          tally_ranges (λ i. one_if (get_bit p.done i)) lo ends % 18446744073709551616;
      articles_failed =
          tally_ranges (λ i. one_if (get_bit p.done i && get_bit p.failed i)) lo ends
          % 18446744073709551616;
      failed_bytes = sum_files (λ f. f.failed_bytes) files;
    }

-- `none` is the panic on a progress that was sized for another manifest.
unfoldable pub recompute : Manifest → JobProgress → Option JobProgress
unfolding recomputed
recompute m p = if p.done.n == num_articles m then some (recomputed m p) else none
