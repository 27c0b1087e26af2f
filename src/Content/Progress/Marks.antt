-- ===== src/Content/Progress/Marks.antt =====
-- Marking one article (internal/job/progress.go) keeps the figures that recompute would give.
use sabnzbd_go.Base.{
  length, suc, zero, ◌+◌, ap, sym, Bool-cases, List, [], arith, false, get_elem?, inl, inr, refl,
  true, ℕ, ◌%◌, ◌&&◌, ◌<◌, ◌||◌, ◌∙◌, ◌∷◌, ◌≡◌, ◌≢◌,
}
use sabnzbd_go.Content.Progress.{
  mark_failed, clear_emitted, mark_done, more_pending, resolve_pending, change_file, FileProgress,
  JobProgress, less_pending, mark_emitted,
}
use sabnzbd_go.Base.Words.{add_word}
use sabnzbd_go.Content.Bitset.Laws.{
  clear_bit-IsBitset, n-clear_bit, IsBitset, get_bit-clear_bit, get_bit-set_bit, n-set_bit,
  set_bit-IsBitset,
}
use sabnzbd_go.Content.Manifest.{
  search_ends, Manifest, bytes_at, ends_of, file_index_for_article, num_articles,
}
use sabnzbd_go.Content.Progress.Counted.{
  sum_files-change, Shifted, files_change, FilesCounted, is_fetched,
}
use native.Mathlib.Decide.{ℕ_discrete}
use sabnzbd_go.Content.Progress.Recompute.{
  downloaded_of, failed_of, pending_of, one_if, start_of, sum_files, tally_ranges,
}
use sabnzbd_go.Content.Progress.Recompute.Tallies.{tally_ranges_swap, Ascend, last_of}
use sabnzbd_go.Content.Bitset.{Bitset, clear_bit, get_bit, set_bit}
pub mod InFlight
pub mod Done
pub mod Failed

-- The files of a manifest follow each other and hold all its articles.
pub record IsManifest (m : Manifest) : Type 0 where
  pub starts : start_of m.file_article_offsets ≡ 0
  pub ascends : Ascend 0 (ends_of m.file_article_offsets)
  pub ends : last_of 0 (ends_of m.file_article_offsets) ≡ num_articles m
  pub files_end : length m.files ≡ length (ends_of m.file_article_offsets)

-- A progress record that is sized for the manifest, whose figures are those of its bits, and whose
-- failed articles are done.
pub record IsCounted (m : Manifest) (p : JobProgress) : Type 0 where
  pub done_bits : IsBitset p.done
  pub failed_bits : IsBitset p.failed
  pub emitted_bits : IsBitset p.emitted
  pub done_size : p.done.n ≡ num_articles m
  pub failed_size : p.failed.n ≡ num_articles m
  pub emitted_size : p.emitted.n ≡ num_articles m
  pub failed_done : (i : ℕ) → get_bit p.failed i ≡ true → get_bit p.done i ≡ true
  pub files_counted :
      FilesCounted
        (get_bit p.done)
        (get_bit p.emitted)
        (get_bit p.failed)
        (bytes_at m)
        0
        (ends_of m.file_article_offsets)
        p.files
  pub pending_counted : p.pending_articles ≡ sum_files (λ f. f.pending) p.files
  pub bytes_counted : p.failed_bytes ≡ sum_files (λ f. f.failed_bytes) p.files
  pub resolved_counted :
      p.articles_resolved
      ≡ tally_ranges (λ i. one_if (get_bit p.done i)) 0 (ends_of m.file_article_offsets)
        % 18446744073709551616
  pub failures_counted :
      p.articles_failed
      ≡ tally_ranges
          (λ i. one_if (get_bit p.done i && get_bit p.failed i))
          0
          (ends_of m.file_article_offsets)
        % 18446744073709551616

-- The article's file is one that is fetched.
abbrev pub InFetched : Manifest → JobProgress → ℕ → Type 0
InFetched m p i = is_fetched (get_elem? p.files (file_index_for_article m i)) ≡ true

sum_files_small :
    (h : FileProgress → ℕ) (xs : List FileProgress) → sum_files h xs < 18446744073709551616
unfolding sum_files
sum_files_small h [] = omega arith
sum_files_small h (x ∷ xs) = omega arith

set_elsewhere : (b : Bitset) (i j : ℕ) → IsBitset b → j ≢ i → get_bit (set_bit b i) j ≡ get_bit b j
set_elsewhere b i j v n = ground (arith, get_bit-set_bit b i j v)

clear_elsewhere :
    (b : Bitset) (i j : ℕ) → IsBitset b → j ≢ i → get_bit (clear_bit b i) j ≡ get_bit b j
clear_elsewhere b i j v n = ground (arith, get_bit-clear_bit b i j v)

set_here : (b : Bitset) (i : ℕ) → IsBitset b → i < b.n → get_bit (set_bit b i) i ≡ true
set_here b i v h = ground (arith, get_bit-set_bit b i i v)

clear_here : (b : Bitset) (i : ℕ) → IsBitset b → get_bit (clear_bit b i) i ≡ false
clear_here b i v = ground (arith, get_bit-clear_bit b i i v)

change_file-same : (k : ℕ) (xs : List FileProgress) → change_file k (λ x. x) xs ≡ xs
unfolding change_file
change_file-same k [] = refl
change_file-same zero (x ∷ xs) = refl
change_file-same (suc k) (x ∷ xs) = ap (λ ys. x ∷ ys) (change_file-same k xs)

-- One article's bits change, and the figures are shifted by what it counted before and counts now.
record Mark (m : Manifest) (p q : JobProgress) (i : ℕ) (change : FileProgress → FileProgress)
    : Type 0 where
  done_bits : IsBitset q.done
  failed_bits : IsBitset q.failed
  emitted_bits : IsBitset q.emitted
  done_size : q.done.n ≡ p.done.n
  failed_size : q.failed.n ≡ p.failed.n
  emitted_size : q.emitted.n ≡ p.emitted.n
  same_done : (j : ℕ) → j ≢ i → get_bit q.done j ≡ get_bit p.done j
  same_emitted : (j : ℕ) → j ≢ i → get_bit q.emitted j ≡ get_bit p.emitted j
  same_failed : (j : ℕ) → j ≢ i → get_bit q.failed j ≡ get_bit p.failed j
  failed_done : get_bit q.failed i ≡ true → get_bit q.done i ≡ true
  files_changed : q.files ≡ change_file (file_index_for_article m i) change p.files
  same_fetch : (x : FileProgress) → (change x).fetch ≡ x.fetch
  pending_small :
      (x : FileProgress)
      → x.pending < 18446744073709551616
      → (change x).pending < 18446744073709551616
  pending_shifts :
      (x : FileProgress)
      → ((change x).pending + pending_of true (get_bit p.done i) (get_bit p.emitted i))
          % 18446744073709551616
        ≡ (x.pending + pending_of true (get_bit q.done i) (get_bit q.emitted i))
          % 18446744073709551616
  downloaded_shifts :
      (x : FileProgress)
      → x.bytes_downloaded < 18446744073709551616
      → Shifted x.bytes_downloaded
          (change x).bytes_downloaded
          (downloaded_of (get_bit p.done i) (get_bit p.failed i) (bytes_at m i))
          (downloaded_of (get_bit q.done i) (get_bit q.failed i) (bytes_at m i))
  failed_small :
      (x : FileProgress)
      → x.failed_bytes < 18446744073709551616
      → (change x).failed_bytes < 18446744073709551616
  failed_shifts :
      (x : FileProgress)
      → ((change x).failed_bytes + failed_of (get_bit p.done i) (get_bit p.failed i) (bytes_at m i))
          % 18446744073709551616
        ≡ (x.failed_bytes + failed_of (get_bit q.done i) (get_bit q.failed i) (bytes_at m i))
          % 18446744073709551616
  total_shifts :
      Shifted p.pending_articles q.pending_articles
        (pending_of true (get_bit p.done i) (get_bit p.emitted i))
        (pending_of true (get_bit q.done i) (get_bit q.emitted i))
  bytes_shift :
      Shifted p.failed_bytes q.failed_bytes
        (failed_of (get_bit p.done i) (get_bit p.failed i) (bytes_at m i))
        (failed_of (get_bit q.done i) (get_bit q.failed i) (bytes_at m i))
  resolved_shifts :
      Shifted p.articles_resolved q.articles_resolved
        (one_if (get_bit p.done i))
        (one_if (get_bit q.done i))
  failures_shift :
      Shifted p.articles_failed q.articles_failed
        (one_if (get_bit p.done i && get_bit p.failed i))
        (one_if (get_bit q.done i && get_bit q.failed i))

module _ (m : Manifest) (p : JobProgress) (i : ℕ) (w : IsManifest m) (c : IsCounted m p)
    (inside : i < num_articles m) (fetched : InFetched m p i) where
  Mark-IsCounted :
      (q : JobProgress) (change : FileProgress → FileProgress) → Mark m p q i change → IsCounted m q
  unfolding file_index_for_article
  Mark-IsCounted q change k = record {
    done_bits = k.done_bits;
    failed_bits = k.failed_bits;
    emitted_bits = k.emitted_bits;
    done_size = k.done_size ∙ c.done_size;
    failed_size = k.failed_size ∙ c.failed_size;
    emitted_size = k.emitted_size ∙ c.emitted_size;
    failed_done = λ j h. elim (ℕ_discrete j i) [
      | yes e ↦ rw e (k.failed_done (rw (← e) h))
      | no n ↦ k.same_done j n ∙ c.failed_done j (sym (k.same_failed j n) ∙ h)
    ];
    files_counted = rw (k.files_changed) (
        files_change (get_bit p.done) (get_bit p.emitted) (get_bit p.failed) (get_bit q.done)
          (get_bit q.emitted) (get_bit q.failed) (bytes_at m) i change k.same_done k.same_emitted
          k.same_failed k.same_fetch (λ x l. (k.pending_small x l, k.pending_shifts x))
          k.downloaded_shifts (λ x l. (k.failed_small x l, k.failed_shifts x)) 0
          (ends_of m.file_article_offsets) p.files w.ascends (omega arith) fetched c.files_counted);
    pending_counted = rw (k.files_changed) (
        omega (
          arith,
          c.pending_counted,
          k.total_shifts.0,
          k.total_shifts.1,
          sum_files_small (λ f. f.pending)
              (change_file (search_ends i (ends_of m.file_article_offsets)) change p.files),
          sum_files-change (λ f. f.pending) change _ _ i (ends_of m.file_article_offsets) p.files
              k.pending_shifts fetched,
        ));
    bytes_counted = rw (k.files_changed) (
        omega (
          arith,
          c.bytes_counted,
          k.bytes_shift.0,
          k.bytes_shift.1,
          sum_files_small (λ f. f.failed_bytes)
              (change_file (search_ends i (ends_of m.file_article_offsets)) change p.files),
          sum_files-change (λ f. f.failed_bytes) change _ _ i (ends_of m.file_article_offsets)
              p.files k.failed_shifts fetched,
        ));
    resolved_counted = omega (
      arith,
      c.resolved_counted,
      k.resolved_shifts.0,
      k.resolved_shifts.1,
      tally_ranges_swap i (λ j. one_if (get_bit p.done j)) (λ j. one_if (get_bit q.done j)) 0
          (ends_of m.file_article_offsets) (λ j n. ap one_if (k.same_done j n)) w.ascends
          (omega arith) (omega (arith, w.ends)),
    );
    failures_counted = omega (
      arith,
      c.failures_counted,
      k.failures_shift.0,
      k.failures_shift.1,
      tally_ranges_swap i (λ j. one_if (get_bit p.done j && get_bit p.failed j))
          (λ j. one_if (get_bit q.done j && get_bit q.failed j)) 0 (ends_of m.file_article_offsets)
          (λ j n. cc (k.same_done j n, k.same_failed j n)) w.ascends (omega arith)
          (omega (arith, w.ends)),
    );
  }

  not_failed : get_bit p.done i ≡ false → get_bit p.failed i ≡ false
  not_failed h = elim (Bool-cases (get_bit p.failed i)) [
    | inl f ↦ cc (c.failed_done i f)
    | inr f ↦ f
  ]

  done_range : i < p.done.n
  done_range = omega (arith, c.done_size)

  failed_range : i < p.failed.n
  failed_range = omega (arith, c.failed_size)

  small_failed : p.failed_bytes < 18446744073709551616
  small_failed = omega (arith, c.bytes_counted, sum_files_small (λ f. f.failed_bytes) p.files)

  small_pending : p.pending_articles < 18446744073709551616
  small_pending = omega (arith, c.pending_counted, sum_files_small (λ f. f.pending) p.files)
