-- ===== src/Content/Fresh/Counts.antt =====
-- A job that was just built (newJobProgress of internal/job/progress.go) has downloaded nothing.
use sabnzbd_go.Content.Progress.Recompute.{
  start_of, one_if, downloaded_of, failed_of, pending_of, sum_files, tally, tally_ranges,
}
use sabnzbd_go.Base.{
  ◌&&◌, Bool, List, [], arith, false, length, map, refl, suc, true, zero, ℕ, ◌%◌, ◌*◌, ◌+◌, ◌-◌,
  ◌<◌, ◌∙◌, ◌∷◌, ◌≡◌,
}
use sabnzbd_go.Content.Bitset.{get_bit, new_bitset}
use sabnzbd_go.Content.Bulk.Unfinished.{last_le}
use sabnzbd_go.Base.Keys.{count}
use sabnzbd_go.Content.Bitset.Bools.{get_bit-new_bitset, new_bitset-IsBitset}
use sabnzbd_go.Content.Doors.{each_from}
use sabnzbd_go.Content.Fresh.{
  FileMeta, count_articles, file_meta, file_meta_from_manifest, file_metas, new_job_progress,
  new_job_progress_sized, seed_article, seed_metas, sum_failed, sized_file,
}
use sabnzbd_go.Content.Manifest.{Manifest, ManifestFile, bytes_at, ends_of, num_articles}
use sabnzbd_go.Content.Progress.{JobProgress, is_always}
use sabnzbd_go.Content.Progress.Counted.{FilesCounted}
use sabnzbd_go.Content.Progress.Recompute.Tallies.{Ascend, last_of}
use sabnzbd_go.Content.Progress.Marks.{IsCounted, IsManifest}

each_from_idle :
    (f : ManifestFile) (count fi base lo k : ℕ) (p : JobProgress)
    → each_from (seed_article (file_meta count f) fi base) lo k p ≡ p
unfolding each_from seed_article file_meta
each_from_idle f count fi base lo zero p = refl
each_from_idle f count fi base lo (suc k) p = each_from_idle f count fi base (lo + 1) k p

seed_metas_idle :
    (fi base lo : ℕ) (ends : List ℕ) (fs : List ManifestFile) (p : JobProgress)
    → seed_metas fi base (file_metas lo ends fs) p ≡ p
unfolding seed_metas file_metas
seed_metas_idle fi base lo [] fs p = refl
seed_metas_idle fi base lo (hi ∷ ends) [] p = refl
seed_metas_idle fi base lo (hi ∷ ends) (f ∷ fs) p =
    seed_metas_idle (fi + 1) _ hi ends fs _ ∙ each_from_idle f (hi - lo) fi base 0 (hi - lo) p

count_articles-file_metas :
    (lo : ℕ) (ends : List ℕ) (fs : List ManifestFile)
    → Ascend lo ends
    → length fs ≡ length ends
    → lo + count_articles (file_metas lo ends fs) ≡ last_of lo ends
unfolding count_articles file_metas file_meta
count_articles-file_metas lo [] fs s l = omega arith
count_articles-file_metas lo (hi ∷ ends) [] s l = absurd (omega arith)
count_articles-file_metas lo (hi ∷ ends) (f ∷ fs) s l =
    omega (arith, s.0, count_articles-file_metas hi ends fs s.1 (omega arith))

sum_failed-file_metas :
    (lo : ℕ) (ends : List ℕ) (fs : List ManifestFile) → sum_failed (file_metas lo ends fs) ≡ 0
unfolding sum_failed file_metas file_meta
sum_failed-file_metas lo [] fs = refl
sum_failed-file_metas lo (hi ∷ ends) [] = refl
sum_failed-file_metas lo (hi ∷ ends) (f ∷ fs) = omega (arith, sum_failed-file_metas hi ends fs)

sum_files-failed :
    (lo : ℕ) (ends : List ℕ) (fs : List ManifestFile)
    → sum_files (λ f. f.failed_bytes) (map sized_file (file_metas lo ends fs)) ≡ 0
unfolding sum_files sized_file file_metas file_meta
sum_files-failed lo [] fs = refl
sum_files-failed lo (hi ∷ ends) [] = refl
sum_files-failed lo (hi ∷ ends) (f ∷ fs) = omega (arith, sum_files-failed hi ends fs)

sum_files-pending :
    (ms : List FileMeta)
    → sum_files (λ f. f.pending) (map sized_file ms) ≡ count_articles ms % 18446744073709551616
unfolding sum_files sized_file count_articles
sum_files-pending [] = refl
sum_files-pending (f ∷ fs) = omega (arith, sum_files-pending fs)

tally_const : (g : ℕ → ℕ) (c lo k : ℕ) → ((i : ℕ) → g i ≡ c) → tally g lo k ≡ k * c
unfolding tally
tally_const g c lo zero e = omega arith
tally_const g c lo (suc k) e = rw (e lo, tally_const g c (lo + 1) k e) (omega arith)

tally_ranges_zero :
    (g : ℕ → ℕ) (lo : ℕ) (ends : List ℕ) → ((i : ℕ) → g i ≡ 0) → tally_ranges g lo ends ≡ 0
unfolding tally_ranges
tally_ranges_zero g lo [] e = refl
tally_ranges_zero g lo (hi ∷ ends) e =
    omega (arith, tally_const g 0 lo (hi - lo) e, tally_ranges_zero g hi ends e)

-- No article is done, in flight or failed.
module _ (done emitted failed : ℕ → Bool) (bytes : ℕ → ℕ) (none_done : (i : ℕ) → done i ≡ false)
    (none_emitted : (i : ℕ) → emitted i ≡ false) where
  sized_files-FilesCounted :
      (lo : ℕ) (ends : List ℕ) (fs : List ManifestFile)
      → Ascend lo ends
      → length fs ≡ length ends
      → last_of lo ends < 18446744073709551616
      → FilesCounted done emitted failed bytes lo ends (map sized_file (file_metas lo ends fs))
  unfolding sized_file file_metas file_meta is_always
  sized_files-FilesCounted lo [] fs s l b = tt
  sized_files-FilesCounted lo (hi ∷ ends) [] s l b = absurd (omega arith)
  sized_files-FilesCounted lo (hi ∷ ends) (f ∷ fs) s l b = (
    record {
      pending_counted = omega (
        arith,
        last_le hi ends s.1,
        tally_const (λ i. pending_of true (done i) (emitted i)) 1 lo (hi - lo)
            (λ i. rw (none_done i, none_emitted i) refl),
      );
      downloaded_counted = omega (
        arith,
        tally_const (λ i. downloaded_of (done i) (failed i) (bytes i)) 0 lo (hi - lo)
            (λ i. rw (none_done i) refl),
      );
      failed_counted = omega (
        arith,
        tally_const (λ i. failed_of (done i) (failed i) (bytes i)) 0 lo (hi - lo)
            (λ i. rw (none_done i) refl),
      );
    },
    sized_files-FilesCounted hi ends fs s.1 (omega arith) b,
  )

-- The progress of a job that was just added has the figures that its bits give, where the manifest has
-- fewer than 2^64 articles: no article done, in flight or failed, and all pending.
pub new_job_progress-IsCounted :
    (m : Manifest)
    → IsManifest m
    → num_articles m < 18446744073709551616
    → IsCounted m (new_job_progress m) × ((new_job_progress m).pending_articles ≡ num_articles m)
unfolding new_job_progress new_job_progress_sized file_meta_from_manifest new_bitset
new_job_progress-IsCounted m w b =
    let ends = ends_of m.file_article_offsets in
    let metas = file_metas 0 ends m.files in
    let total : count_articles metas ≡ num_articles m =
      omega (arith, count_articles-file_metas 0 ends m.files w.ascends w.files_end, w.ends) in
    rw (w.starts, seed_metas_idle 0 0 0 ends m.files _, total)
      (
        record {
          done_bits = new_bitset-IsBitset (num_articles m);
          failed_bits = new_bitset-IsBitset (num_articles m);
          emitted_bits = new_bitset-IsBitset (num_articles m);
          done_size = refl;
          failed_size = refl;
          emitted_size = refl;
          failed_done = λ i h. absurd (ground (arith, get_bit-new_bitset (num_articles m) i));
          files_counted =
              sized_files-FilesCounted _ _ _ (bytes_at m) (get_bit-new_bitset (num_articles m))
                (get_bit-new_bitset (num_articles m)) 0 ends m.files w.ascends w.files_end
                (omega (arith, w.ends));
          pending_counted = omega (arith, total, sum_files-pending metas);
          bytes_counted =
              omega (arith, sum_failed-file_metas 0 ends m.files, sum_files-failed 0 ends m.files);
          resolved_counted = omega (
            arith,
            tally_ranges_zero (λ i. one_if (get_bit (new_bitset (num_articles m)) i)) 0 ends
                (λ i. rw (get_bit-new_bitset (num_articles m) i) refl),
          );
          failures_counted = omega (
            arith,
            tally_ranges_zero
                (λ i. one_if (
                  get_bit (new_bitset (num_articles m)) i
                  && get_bit (new_bitset (num_articles m)) i))
                0 ends (λ i. rw (get_bit-new_bitset (num_articles m) i) refl),
          );
        },
        refl,
      )

pub none_done : (m : Manifest) (j : ℕ) → get_bit (new_job_progress m).done j ≡ false
unfolding new_job_progress new_job_progress_sized file_meta_from_manifest
none_done m j =
    let ends = ends_of m.file_article_offsets in
    rw (seed_metas_idle 0 0 (start_of m.file_article_offsets) ends m.files _) (
      get_bit-new_bitset
        (count_articles (file_metas (start_of m.file_article_offsets) ends m.files)) j)

pub none_failed : (m : Manifest) (j : ℕ) → get_bit (new_job_progress m).failed j ≡ false
unfolding new_job_progress new_job_progress_sized file_meta_from_manifest
none_failed m j =
    let ends = ends_of m.file_article_offsets in
    rw (seed_metas_idle 0 0 (start_of m.file_article_offsets) ends m.files _) (
      get_bit-new_bitset
        (count_articles (file_metas (start_of m.file_article_offsets) ends m.files)) j)
