-- ===== src/Content/Progress/Marks/InFlight.antt =====
-- Handing an article out, and taking it back, (internal/job/progress.go) keeps the figures right.
use sabnzbd_go.Base.{sym, Bool-cases, arith, inl, inr, refl, ℕ, ◌<◌, ◌||◌}
use sabnzbd_go.Content.Progress.{
  clear_emitted, more_pending, JobProgress, less_pending, mark_emitted,
}
use sabnzbd_go.Content.Bitset.Laws.{clear_bit-IsBitset, n-clear_bit, n-set_bit, set_bit-IsBitset}
use sabnzbd_go.Content.Manifest.{Manifest, file_index_for_article, num_articles}
use sabnzbd_go.Content.Bitset.{get_bit}
use sabnzbd_go.Content.Progress.Marks.{
  IsManifest, IsCounted, InFetched, Mark-IsCounted, small_failed, small_pending, sum_files_small,
  set_elsewhere, clear_elsewhere, set_here, clear_here, change_file-same,
}

module _ (m : Manifest) (p : JobProgress) (i : ℕ) (w : IsManifest m) (c : IsCounted m p)
    (inside : i < num_articles m) (fetched : InFetched m p i) where
  -- Handing out an article of a fetched file keeps every figure what its bits give, in 64 bits: the
  -- pending articles of the file and of the job, the resolved and failed ones, and the bytes.
  pub mark_emitted-IsCounted : IsCounted m (mark_emitted m i p)
  unfolding mark_emitted less_pending
  mark_emitted-IsCounted = elim (Bool-cases (get_bit p.emitted i || get_bit p.done i)) [
    | inl h ↦ rw h c
    | inr h ↦ rw h (
        Mark-IsCounted m p i w c inside fetched _ less_pending (record {
          done_bits = c.done_bits;
          failed_bits = c.failed_bits;
          emitted_bits = set_bit-IsBitset p.emitted i c.emitted_bits;
          done_size = refl;
          failed_size = refl;
          emitted_size = n-set_bit p.emitted i;
          same_done = λ j n. refl;
          same_emitted = λ j n. set_elsewhere p.emitted i j c.emitted_bits n;
          same_failed = λ j n. refl;
          failed_done = c.failed_done i;
          files_changed = refl;
          same_fetch = λ x. refl;
          pending_small = λ x l. omega arith;
          pending_shifts = λ x. ground (arith, set_here p.emitted i c.emitted_bits);
          downloaded_shifts = λ x l. (l, refl);
          failed_small = λ x l. l;
          failed_shifts = λ x. refl;
          total_shifts = ground (arith, set_here p.emitted i c.emitted_bits);
          bytes_shift =
              (omega (arith, c.bytes_counted, sum_files_small (λ f. f.failed_bytes) p.files), refl);
          resolved_shifts = (omega (arith, c.resolved_counted), refl);
          failures_shift = (omega (arith, c.failures_counted), refl);
        }))
  ]

  -- Taking a handed out article of a fetched file back keeps every figure what its bits give.
  pub clear_emitted-IsCounted : IsCounted m (clear_emitted m i p)
  unfolding clear_emitted more_pending
  clear_emitted-IsCounted = elim (Bool-cases (get_bit p.emitted i)) [
    | inr h ↦ rw h c
    | inl h ↦ elim (Bool-cases (get_bit p.done i)) [
      | inl g ↦
          rw (h, g)
            (Mark-IsCounted m p i w c inside fetched _ (λ x. x)
              (record {
                done_bits = c.done_bits;
                failed_bits = c.failed_bits;
                emitted_bits = clear_bit-IsBitset p.emitted i c.emitted_bits;
                done_size = refl;
                failed_size = refl;
                emitted_size = n-clear_bit p.emitted i;
                same_done = λ j n. refl;
                same_emitted = λ j n. clear_elsewhere p.emitted i j c.emitted_bits n;
                same_failed = λ j n. refl;
                failed_done = c.failed_done i;
                files_changed = sym (change_file-same (file_index_for_article m i) p.files);
                same_fetch = λ x. refl;
                pending_small = λ x l. l;
                pending_shifts = λ x. ground arith;
                downloaded_shifts = λ x l. (l, refl);
                failed_small = λ x l. l;
                failed_shifts = λ x. refl;
                total_shifts = ground (arith, (small_pending m p i w c inside fetched));
                bytes_shift = ((small_failed m p i w c inside fetched), refl);
                resolved_shifts = (omega (arith, c.resolved_counted), refl);
                failures_shift = (omega (arith, c.failures_counted), refl);
              }))
      | inr g ↦
          rw (h, g)
            (Mark-IsCounted m p i w c inside fetched _ more_pending (record {
              done_bits = c.done_bits;
              failed_bits = c.failed_bits;
              emitted_bits = clear_bit-IsBitset p.emitted i c.emitted_bits;
              done_size = refl;
              failed_size = refl;
              emitted_size = n-clear_bit p.emitted i;
              same_done = λ j n. refl;
              same_emitted = λ j n. clear_elsewhere p.emitted i j c.emitted_bits n;
              same_failed = λ j n. refl;
              failed_done = c.failed_done i;
              files_changed = refl;
              same_fetch = λ x. refl;
              pending_small = λ x l. omega arith;
              pending_shifts = λ x. ground (arith, clear_here p.emitted i c.emitted_bits);
              downloaded_shifts = λ x l. (l, refl);
              failed_small = λ x l. l;
              failed_shifts = λ x. refl;
              total_shifts = ground (arith, clear_here p.emitted i c.emitted_bits);
              bytes_shift = ((small_failed m p i w c inside fetched), refl);
              resolved_shifts = (omega (arith, c.resolved_counted), refl);
              failures_shift = (omega (arith, c.failures_counted), refl);
            }))
    ]
  ]
