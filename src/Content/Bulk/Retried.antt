-- ===== src/Content/Bulk/Retried.antt =====
-- What ResetForRetry (internal/job/content.go) does to each article.
use sabnzbd_go.Content.Manifest.{ends_of, Manifest, num_articles}
use sabnzbd_go.Content.Progress.Recomputed.{recompute_total, IsSound}
use sabnzbd_go.Content.Bulk.{retry_article, retry_file, retry_files, any_failed, reset_for_retry}
use sabnzbd_go.Base.{
  Bool-cases, List, [], ap, arith, false, inl, inr, leb, ltb, not, refl, some, suc, true, zero, ℕ,
  ◌&&◌, ◌+◌, ◌-◌, ◌<◌, ◌==◌, ◌∙◌, ◌∷◌, ◌≡◌, ◌≤◌,
}
use sabnzbd_go.Base.Result.{ok}
use sabnzbd_go.Content.Bitset.{get_bit}
use sabnzbd_go.Content.Bitset.Laws.{clear_bit-IsBitset, get_bit-clear_bit, n-clear_bit}
use sabnzbd_go.Content.Bulk.Unfinished.{last_le}
use sabnzbd_go.Content.Doors.{Content, each_from, with_progress}
use sabnzbd_go.Content.Progress.{FileProgress, JobProgress, change_file}
use sabnzbd_go.Content.Progress.Marks.{IsCounted, IsManifest}
use sabnzbd_go.Content.Progress.Recompute.Tallies.{Ascend, last_of}
use sabnzbd_go.Content.Progress.Sound.{length-change_file}

-- `q` is `p` with the failures of the articles from `lo` up to `hi` taken back.
record Retried (m : Manifest) (lo hi : ℕ) (p q : JobProgress) : Type 0 where
  sound : IsSound m q
  retried_failed : (j : ℕ) → get_bit q.failed j ≡ (get_bit p.failed j && not (leb lo j && ltb j hi))
  retried_done :
      (j : ℕ)
      → get_bit q.done j ≡ (get_bit p.done j && not (get_bit p.failed j && (leb lo j && ltb j hi)))
  retried_emitted : q.emitted ≡ p.emitted

module _ (m : Manifest) where
  retry_article-Retried :
      (i : ℕ) (p : JobProgress) → IsSound m p → Retried m i (i + 1) p (retry_article i p)
  unfolding retry_article
  retry_article-Retried i p v = elim (Bool-cases (get_bit p.failed i)) [
    | inr h ↦ rw h (record {
      sound = v;
      retried_failed = λ j. elim (Bool-cases (j == i)) [
        | inl e ↦
            let k : get_bit p.failed j ≡ false = ap (get_bit p.failed) (ground arith) ∙ h in
            ground arith
        | inr n ↦ ground arith
      ];
      retried_done = λ j. elim (Bool-cases (j == i)) [
        | inl e ↦
            let k : get_bit p.failed j ≡ false = ap (get_bit p.failed) (ground arith) ∙ h in
            ground arith
        | inr n ↦ ground arith
      ];
      retried_emitted = refl;
    })
    | inl h ↦ rw h (record {
      sound = record {
        done_bits = clear_bit-IsBitset p.done i v.done_bits;
        failed_bits = clear_bit-IsBitset p.failed i v.failed_bits;
        emitted_bits = v.emitted_bits;
        done_size = n-clear_bit p.done i ∙ v.done_size;
        failed_size = n-clear_bit p.failed i ∙ v.failed_size;
        emitted_size = v.emitted_size;
        failed_done = λ j f. ground (
          arith,
          get_bit-clear_bit p.done i j v.done_bits,
          get_bit-clear_bit p.failed i j v.failed_bits,
          v.failed_done j,
        );
        files_size = v.files_size;
      };
      retried_failed = λ j. ground (arith, get_bit-clear_bit p.failed i j v.failed_bits);
      retried_done = λ j. elim (Bool-cases (j == i)) [
        | inl e ↦
            let k : get_bit p.failed j ≡ true = ap (get_bit p.failed) (ground arith) ∙ h in
            ground (arith, get_bit-clear_bit p.done i j v.done_bits)
        | inr n ↦ ground (arith, get_bit-clear_bit p.done i j v.done_bits)
      ];
      retried_emitted = refl;
    })
  ]

  Retried-then :
      (lo mid hi : ℕ) (p q r : JobProgress)
      → lo ≤ mid
      → mid ≤ hi
      → Retried m lo mid p q
      → Retried m mid hi q r
      → Retried m lo hi p r
  Retried-then lo mid hi p q r a b s t = record {
    sound = t.sound;
    retried_failed = λ j. ground (arith, s.retried_failed j, t.retried_failed j);
    retried_done = λ j. ground (arith, s.retried_failed j, t.retried_done j, s.retried_done j);
    retried_emitted = t.retried_emitted ∙ s.retried_emitted;
  }

  Retried-none : (lo : ℕ) (p : JobProgress) → IsSound m p → Retried m lo lo p p
  Retried-none lo p v = record {
    sound = v;
    retried_failed = λ j. ground arith;
    retried_done = λ j. ground arith;
    retried_emitted = refl;
  }

  each_from-Retried :
      (lo k hi : ℕ) (p : JobProgress)
      → lo + k ≡ hi
      → IsSound m p
      → Retried m lo hi p (each_from retry_article lo k p)
  unfolding each_from
  each_from-Retried lo zero hi p e v =
      let h : lo ≡ hi = omega arith in rw (← h) (Retried-none lo p v)
  each_from-Retried lo (suc k) hi p e v =
      let s = retry_article-Retried lo p v in
      Retried-then lo (lo + 1) hi p _ _ (omega arith) (omega arith) s
        (each_from-Retried (lo + 1) k hi (retry_article lo p) (omega arith) s.sound)

  -- A change of a file's own fields alone.
  files-Retried :
      (lo hi fi : ℕ) (g : FileProgress → FileProgress) (p q : JobProgress)
      → Retried m lo hi p q
      → Retried m lo hi p (record q { files = change_file fi g q.files })
  files-Retried lo hi fi g p q s = record {
    sound = record {
      done_bits = s.sound.done_bits;
      failed_bits = s.sound.failed_bits;
      emitted_bits = s.sound.emitted_bits;
      done_size = s.sound.done_size;
      failed_size = s.sound.failed_size;
      emitted_size = s.sound.emitted_size;
      failed_done = s.sound.failed_done;
      files_size = length-change_file fi g q.files ∙ s.sound.files_size;
    };
    retried_failed = s.retried_failed;
    retried_done = s.retried_done;
    retried_emitted = s.retried_emitted;
  }

  retry_files-Retried :
      (fi lo : ℕ) (ends : List ℕ) (p : JobProgress)
      → Ascend lo ends
      → IsSound m p
      → Retried m lo (last_of lo ends) p (retry_files fi lo ends p)
  unfolding retry_files
  retry_files-Retried fi lo [] p s v = Retried-none lo p v
  retry_files-Retried fi lo (hi ∷ ends) p s v =
      let one =
        files-Retried lo hi fi (retry_file (any_failed p lo (hi - lo))) p _
          (each_from-Retried lo (hi - lo) hi p (omega arith) v) in
      Retried-then lo hi (last_of hi ends) p _ _ s.0 (last_le hi ends s.1) one
        (retry_files-Retried (fi + 1) hi ends _ s.1 one.sound)

-- On a manifest and a sound progress record a retry succeeds, and its figures are right: no article is
-- failed afterwards, one is done exactly when it was done and not failed, and what is in flight stays.
pub reset_for_retry_lem :
    (c : Content) (m : Manifest) (p : JobProgress)
    → c.manifest ≡ some m
    → c.progress ≡ some p
    → IsManifest m
    → IsSound m p
    → (q : JobProgress) × (reset_for_retry c ≡ ok (with_progress c q))
      × IsCounted m q
      × (q.emitted ≡ p.emitted)
      × ((j : ℕ)
          → j < num_articles m
          → (get_bit q.failed j ≡ false)
            × (get_bit q.done j ≡ (get_bit p.done j && not (get_bit p.failed j))))
unfolding reset_for_retry
reset_for_retry_lem c m p hm hp w v =
    let cleared = record p {
      early_aborted = false;
      par2_recovered = false;
      par2_release_reason = "";
      download_started = 0;
      download_finished = 0;
    } in
    let s = retry_files-Retried m 0 0 (ends_of m.file_article_offsets) cleared w.ascends (record {
      done_bits = v.done_bits;
      failed_bits = v.failed_bits;
      emitted_bits = v.emitted_bits;
      done_size = v.done_size;
      failed_size = v.failed_size;
      emitted_size = v.emitted_size;
      failed_done = v.failed_done;
      files_size = v.files_size;
    }) in
    let (q, came, counted, kept_done, kept_failed, kept_emitted) =
      recompute_total m (retry_files 0 0 (ends_of m.file_article_offsets) cleared) w s.sound in
    (
      q,
      rw (hm, hp, w.starts, came) refl,
      counted,
      kept_emitted ∙ s.retried_emitted,
      λ j l. (
        ap (λ b. get_bit b j) kept_failed ∙ ground (arith, s.retried_failed j, w.ends),
        ap (λ b. get_bit b j) kept_done ∙ ground (arith, s.retried_done j, w.ends),
      ),
    )
