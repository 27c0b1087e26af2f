-- ===== src/Content/Progress/Recomputed.antt =====
-- recompute (internal/job/progress.go) makes the figures right whatever they were.
use sabnzbd_go.Base.{Bool, List, [], arith, length, refl, some, sym, true, ℕ, ◌∙◌, ◌∷◌, ◌≡◌}
use sabnzbd_go.Content.Bitset.{get_bit}
use sabnzbd_go.Content.Bitset.Laws.{IsBitset}
use sabnzbd_go.Content.Manifest.{Manifest, ManifestFile, bytes_at, ends_of, num_articles, num_files}
use sabnzbd_go.Content.Progress.{FileProgress, JobProgress}
use sabnzbd_go.Content.Progress.Counted.{FilesCounted}
use sabnzbd_go.Content.Progress.Marks.{IsCounted, IsManifest}
use sabnzbd_go.Content.Progress.Recompute.{recompute, recomputed, recount_files}

-- A progress record that is sized for the manifest, and whose failed articles are done.
pub record IsSound (m : Manifest) (p : JobProgress) : Type 0 where
  pub done_bits : IsBitset p.done
  pub failed_bits : IsBitset p.failed
  pub emitted_bits : IsBitset p.emitted
  pub done_size : p.done.n ≡ num_articles m
  pub failed_size : p.failed.n ≡ num_articles m
  pub emitted_size : p.emitted.n ≡ num_articles m
  pub failed_done : (i : ℕ) → get_bit p.failed i ≡ true → get_bit p.done i ≡ true
  pub files_size : length p.files ≡ num_files m

length-FilesCounted :
    (d e f : ℕ → Bool) (bytes : ℕ → ℕ) (lo : ℕ) (ends : List ℕ) (xs : List FileProgress)
    → FilesCounted d e f bytes lo ends xs
    → length xs ≡ length ends
length-FilesCounted d e f bytes lo [] [] c = refl
length-FilesCounted d e f bytes lo [] (x ∷ xs) c = absurd c
length-FilesCounted d e f bytes lo (hi ∷ ends) [] c = absurd c
length-FilesCounted d e f bytes lo (hi ∷ ends) (x ∷ xs) c =
    omega (arith, length-FilesCounted d e f bytes hi ends xs c.1)

pub IsCounted-IsSound :
    (m : Manifest) (p : JobProgress) → IsManifest m → IsCounted m p → IsSound m p
IsCounted-IsSound m p w c = record {
  done_bits = c.done_bits;
  failed_bits = c.failed_bits;
  emitted_bits = c.emitted_bits;
  done_size = c.done_size;
  failed_size = c.failed_size;
  emitted_size = c.emitted_size;
  failed_done = c.failed_done;
  files_size =
      length-FilesCounted _ _ _ _ 0 (ends_of m.file_article_offsets) p.files c.files_counted
      ∙ sym w.files_end;
}

recount_files-FilesCounted :
    (d e f : ℕ → Bool) (bytes : ℕ → ℕ) (lo : ℕ) (ends : List ℕ) (mfs : List ManifestFile)
    (xs : List FileProgress)
    → length mfs ≡ length ends
    → length xs ≡ length mfs
    → FilesCounted d e f bytes lo ends (recount_files d e f bytes lo ends mfs xs)
unfolding recount_files
recount_files-FilesCounted d e f bytes lo [] [] [] p q = tt
recount_files-FilesCounted d e f bytes lo [] [] (x ∷ xs) p q = absurd (omega arith)
recount_files-FilesCounted d e f bytes lo [] (mf ∷ mfs) xs p q = absurd (omega arith)
recount_files-FilesCounted d e f bytes lo (hi ∷ ends) [] xs p q = absurd (omega arith)
recount_files-FilesCounted d e f bytes lo (hi ∷ ends) (mf ∷ mfs) [] p q = absurd (omega arith)
recount_files-FilesCounted d e f bytes lo (hi ∷ ends) (mf ∷ mfs) (x ∷ xs) p q = (
  record { pending_counted = refl; downloaded_counted = refl; failed_counted = refl },
  recount_files-FilesCounted d e f bytes hi ends mfs xs (omega arith) (omega arith),
)

pub recomputed-IsCounted :
    (m : Manifest) (p : JobProgress) → IsManifest m → IsSound m p → IsCounted m (recomputed m p)
unfolding recomputed
recomputed-IsCounted m p w v =
    let counted =
      recount_files-FilesCounted (get_bit p.done) (get_bit p.emitted) (get_bit p.failed)
        (bytes_at m) 0 (ends_of m.file_article_offsets) m.files p.files w.files_end v.files_size in
    record {
      done_bits = v.done_bits;
      failed_bits = v.failed_bits;
      emitted_bits = v.emitted_bits;
      done_size = v.done_size;
      failed_size = v.failed_size;
      emitted_size = v.emitted_size;
      failed_done = v.failed_done;
      files_counted = rw (w.starts) counted;
      pending_counted = refl;
      bytes_counted = refl;
      resolved_counted = rw (w.starts) refl;
      failures_counted = rw (w.starts) refl;
    }

-- Whatever the figures were, recompute returns a record of the same bits whose figures are right.
pub recompute_total :
    (m : Manifest) (p : JobProgress)
    → IsManifest m
    → IsSound m p
    → (q : JobProgress) × (recompute m p ≡ some q)
      × IsCounted m q
      × (q.done ≡ p.done)
      × (q.failed ≡ p.failed)
      × (q.emitted ≡ p.emitted)
unfolding recompute recomputed
recompute_total m p w v =
    (recomputed m p, ground (arith, v.done_size), recomputed-IsCounted m p w v, refl, refl, refl)
