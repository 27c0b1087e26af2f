-- ===== src/Content/Progress/Marks/Done.antt =====
-- Marking an article as done (internal/job/progress.go) keeps the figures right.
use sabnzbd_go.Base.{Bool-cases, arith, inl, inr, refl, ℕ, ◌<◌}
use sabnzbd_go.Content.Progress.{mark_done, resolve_pending, JobProgress}
use sabnzbd_go.Base.Words.{add_word}
use sabnzbd_go.Content.Bitset.Laws.{clear_bit-IsBitset, n-clear_bit, n-set_bit, set_bit-IsBitset}
use sabnzbd_go.Content.Manifest.{Manifest, bytes_at, num_articles}
use sabnzbd_go.Content.Bitset.{get_bit}
use sabnzbd_go.Content.Progress.Marks.{
  IsManifest, IsCounted, InFetched, Mark-IsCounted, not_failed, done_range, small_failed,
  small_pending, set_elsewhere, clear_elsewhere, set_here,
}

module _ (m : Manifest) (p : JobProgress) (i : ℕ) (w : IsManifest m) (c : IsCounted m p)
    (inside : i < num_articles m) (fetched : InFetched m p i) where
  -- Marking an article of a fetched file as done, in flight or not, or done already, keeps every figure
  -- what its bits give, in 64 bits.
  pub mark_done-IsCounted : IsCounted m (mark_done m i p).0
  unfolding mark_done resolve_pending
  mark_done-IsCounted = elim (Bool-cases (get_bit p.done i)) [
    | inl h ↦ rw h c
    | inr h ↦ rw h (
        Mark-IsCounted m p i w c inside fetched _
          (λ x.
            let x' = resolve_pending (get_bit p.emitted i) x in
            record x' { bytes_downloaded = add_word x'.bytes_downloaded (bytes_at m i) })
          (record {
            done_bits = set_bit-IsBitset p.done i c.done_bits;
            failed_bits = c.failed_bits;
            emitted_bits = clear_bit-IsBitset p.emitted i c.emitted_bits;
            done_size = n-set_bit p.done i;
            failed_size = refl;
            emitted_size = n-clear_bit p.emitted i;
            same_done = λ j n. set_elsewhere p.done i j c.done_bits n;
            same_emitted = λ j n. clear_elsewhere p.emitted i j c.emitted_bits n;
            same_failed = λ j n. refl;
            failed_done = λ _. set_here p.done i c.done_bits (done_range m p i w c inside fetched);
            files_changed = refl;
            same_fetch = λ x. ground arith;
            pending_small = λ x l. ground arith;
            pending_shifts = λ x.
                ground (arith, set_here p.done i c.done_bits (done_range m p i w c inside fetched));
            downloaded_shifts = λ x l. ground (
              arith,
              set_here p.done i c.done_bits (done_range m p i w c inside fetched),
              not_failed m p i w c inside fetched h,
            );
            failed_small = λ x l. ground arith;
            failed_shifts = λ x. ground (
              arith,
              set_here p.done i c.done_bits (done_range m p i w c inside fetched),
              not_failed m p i w c inside fetched h,
            );
            total_shifts = ground (
              arith,
              set_here p.done i c.done_bits (done_range m p i w c inside fetched),
              (small_pending m p i w c inside fetched),
            );
            bytes_shift = ground (
              arith,
              (small_failed m p i w c inside fetched),
              not_failed m p i w c inside fetched h,
            );
            resolved_shifts =
                ground (arith, set_here p.done i c.done_bits (done_range m p i w c inside fetched));
            failures_shift = (
              omega (arith, c.failures_counted),
              ground (arith, not_failed m p i w c inside fetched h),
            );
          }))
  ]
