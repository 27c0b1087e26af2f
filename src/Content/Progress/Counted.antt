-- ===== src/Content/Progress/Counted.antt =====
-- The figures of a progress record (internal/job/progress.go) agree with its bits.
use sabnzbd_go.Base.{
  Bool-cases, get_elem?, inl, inr, ltb, Bool, List, Option, [], arith, false, none, some, true, ℕ,
  ◌%◌, ◌+◌, ◌-◌, ◌<◌, ◌∷◌, ◌≡◌, ◌≢◌, ◌≤◌, ◌⊎◌,
}
use sabnzbd_go.Content.Manifest.{search_ends}
use sabnzbd_go.Content.Progress.{change_file, FileProgress, is_always}
use sabnzbd_go.Content.Progress.Recompute.{sum_files, downloaded_of, failed_of, pending_of, tally}
use sabnzbd_go.Content.Progress.Recompute.Tallies.{Ascend, tally_swap, AgreeOff, tally_elsewhere}
use sabnzbd_go.Job.Record.{new}

-- The figures of one file, whose articles are those from `lo` to `hi`.
module _ (done emitted failed : ℕ → Bool) (bytes : ℕ → ℕ) where
  pub record FileCounted (lo hi : ℕ) (x : FileProgress) : Type 0 where
    pub pending_counted :
        x.pending
        ≡ tally (λ i. pending_of (is_always x.fetch) (done i) (emitted i)) lo (hi - lo)
          % 18446744073709551616
    pub downloaded_counted :
        x.bytes_downloaded
        ≡ tally (λ i. downloaded_of (done i) (failed i) (bytes i)) lo (hi - lo)
          % 18446744073709551616
    pub failed_counted :
        x.failed_bytes
        ≡ tally (λ i. failed_of (done i) (failed i) (bytes i)) lo (hi - lo) % 18446744073709551616

  abbrev pub FilesCounted : ℕ → List ℕ → List FileProgress → Type 0
  FilesCounted lo [] [] = Unit {0}
  FilesCounted lo [] (_ ∷ _) = ⊥
  FilesCounted lo (_ ∷ _) [] = ⊥
  FilesCounted lo (hi ∷ ends) (x ∷ xs) = FileCounted lo hi x × FilesCounted hi ends xs

-- `b` was `a`, less `old` and plus `new`, in 64 bits.
abbrev pub Shifted : ℕ → ℕ → ℕ → ℕ → Type 0
Shifted a b old new =
    (b < 18446744073709551616)
    × ((b + old) % 18446744073709551616 ≡ (a + new) % 18446744073709551616)

abbrev pub is_fetched : Option FileProgress → Bool
is_fetched none = false
is_fetched (some x) = is_always x.fetch

-- The bits of one article change, from `d`, `e`, `f` to `d'`, `e'`, `f'`, and so do the figures of its
-- file.
module _ (d e f d' e' f' : ℕ → Bool) (bytes : ℕ → ℕ) (i : ℕ) (change : FileProgress → FileProgress)
    (same_done : (j : ℕ) → j ≢ i → d' j ≡ d j) (same_emitted : (j : ℕ) → j ≢ i → e' j ≡ e j)
    (same_failed : (j : ℕ) → j ≢ i → f' j ≡ f j)
    (same_fetch : (x : FileProgress) → (change x).fetch ≡ x.fetch)
    (pending_shifts : (x : FileProgress)
      → x.pending < 18446744073709551616
      → Shifted x.pending
          (change x).pending
          (pending_of true (d i) (e i))
          (pending_of true (d' i) (e' i)))
    (downloaded_shifts : (x : FileProgress)
      → x.bytes_downloaded < 18446744073709551616
      → Shifted x.bytes_downloaded
          (change x).bytes_downloaded
          (downloaded_of (d i) (f i) (bytes i))
          (downloaded_of (d' i) (f' i) (bytes i)))
    (failed_shifts : (x : FileProgress)
      → x.failed_bytes < 18446744073709551616
      → Shifted x.failed_bytes
          (change x).failed_bytes
          (failed_of (d i) (f i) (bytes i))
          (failed_of (d' i) (f' i) (bytes i))) where
  pending_agrees :
      (x : Bool) → AgreeOff i (λ j. pending_of x (d j) (e j)) (λ j. pending_of x (d' j) (e' j))
  pending_agrees x j n = cc (same_done j n, same_emitted j n)

  downloaded_agrees :
      AgreeOff i
        (λ j. downloaded_of (d j) (f j) (bytes j))
        (λ j. downloaded_of (d' j) (f' j) (bytes j))
  downloaded_agrees j n = cc (same_done j n, same_failed j n)

  failed_agrees :
      AgreeOff i (λ j. failed_of (d j) (f j) (bytes j)) (λ j. failed_of (d' j) (f' j) (bytes j))
  failed_agrees j n = cc (same_done j n, same_failed j n)

  -- A file that the article is not in.
  other_file :
      (lo hi : ℕ) (x : FileProgress)
      → (i < lo) ⊎ (lo + (hi - lo) ≤ i)
      → FileCounted d e f bytes lo hi x
      → FileCounted d' e' f' bytes lo hi x
  other_file lo hi x o c = record {
    pending_counted = omega (
      arith,
      c.pending_counted,
      tally_elsewhere i _ _ lo (hi - lo) (pending_agrees (is_always x.fetch)) o,
    );
    downloaded_counted =
        omega (arith, c.downloaded_counted, tally_elsewhere i _ _ lo (hi - lo) downloaded_agrees o);
    failed_counted =
        omega (arith, c.failed_counted, tally_elsewhere i _ _ lo (hi - lo) failed_agrees o);
  }

  counted_shift :
      (g g' : ℕ → ℕ) (a b lo k : ℕ)
      → AgreeOff i g g'
      → lo ≤ i
      → i < lo + k
      → a ≡ tally g lo k % 18446744073709551616
      → Shifted a b (g i) (g' i)
      → b ≡ tally g' lo k % 18446744073709551616
  counted_shift g g' a b lo k n p q c s = omega (arith, c, s.0, s.1, tally_swap i g g' lo k n p q)

  -- The file that the article is in.
  own_file :
      (lo hi : ℕ) (x : FileProgress)
      → lo ≤ i
      → i < hi
      → is_always x.fetch ≡ true
      → FileCounted d e f bytes lo hi x
      → FileCounted d' e' f' bytes lo hi (change x)
  own_file lo hi x p q always c = record {
    pending_counted =
        rw (same_fetch x, always)
          (counted_shift _ _ x.pending (change x).pending lo (hi - lo) (pending_agrees true) p
            (omega arith) (rw always at (c.pending_counted))
            (pending_shifts x (omega (arith, c.pending_counted))));
    downloaded_counted =
        counted_shift _ _ x.bytes_downloaded (change x).bytes_downloaded lo (hi - lo)
          downloaded_agrees p (omega arith) c.downloaded_counted
          (downloaded_shifts x (omega (arith, c.downloaded_counted)));
    failed_counted =
        counted_shift _ _ x.failed_bytes (change x).failed_bytes lo (hi - lo) failed_agrees p
          (omega arith) c.failed_counted (failed_shifts x (omega (arith, c.failed_counted)));
  }

  other_files :
      (lo : ℕ) (ends : List ℕ) (xs : List FileProgress)
      → Ascend lo ends
      → i < lo
      → FilesCounted d e f bytes lo ends xs
      → FilesCounted d' e' f' bytes lo ends xs
  other_files lo [] [] s h c = tt
  other_files lo [] (x ∷ xs) s h c = c
  other_files lo (hi ∷ ends) [] s h c = c
  other_files lo (hi ∷ ends) (x ∷ xs) s h c =
      (other_file lo hi x (inl h) c.0, other_files hi ends xs s.1 (omega arith) c.1)

  -- Changing the figures of the article's file keeps those of all files right.
  pub files_change :
      (lo : ℕ) (ends : List ℕ) (xs : List FileProgress)
      → Ascend lo ends
      → lo ≤ i
      → is_fetched (get_elem? xs (search_ends i ends)) ≡ true
      → FilesCounted d e f bytes lo ends xs
      → FilesCounted d' e' f' bytes lo ends (change_file (search_ends i ends) change xs)
  unfolding change_file search_ends
  files_change lo [] [] s p a c = tt
  files_change lo [] (x ∷ xs) s p a c = c
  files_change lo (hi ∷ ends) [] s p a c = c
  files_change lo (hi ∷ ends) (x ∷ xs) s p a c = elim (Bool-cases (ltb i hi)) [
    | inl h ↦ rw h (
      own_file lo hi x p (ground arith) (rw h at a) c.0,
      other_files hi ends xs s.1 (ground arith) c.1,
    )
    | inr h ↦ rw h (
      other_file lo hi x (inr (ground arith)) c.0,
      files_change hi ends xs s.1 (ground arith) (rw h at a) c.1,
    )
  ]

-- The sum over the files changes as the one file does.
pub sum_files-change :
    (h : FileProgress → ℕ) (change : FileProgress → FileProgress) (old new i : ℕ) (ends : List ℕ)
    (xs : List FileProgress)
    → ((x : FileProgress)
        → (h (change x) + old) % 18446744073709551616 ≡ (h x + new) % 18446744073709551616)
    → is_fetched (get_elem? xs (search_ends i ends)) ≡ true
    → (sum_files h (change_file (search_ends i ends) change xs) + old) % 18446744073709551616
      ≡ (sum_files h xs + new) % 18446744073709551616
unfolding sum_files change_file search_ends
sum_files-change h change old new i [] [] s a = cc
sum_files-change h change old new i [] (x ∷ xs) s a = omega (arith, s x)
sum_files-change h change old new i (hi ∷ ends) [] s a = cc
sum_files-change h change old new i (hi ∷ ends) (x ∷ xs) s a = elim (Bool-cases (ltb i hi)) [
  | inl e ↦ rw e (omega (arith, s x))
  | inr e ↦ rw e (omega (arith, sum_files-change h change old new i ends xs s (rw e at a)))
]
