-- ===== src/Content/Reload/Sound.antt =====
-- ClearEmittedForReload (internal/job/content.go) on a job with a failed article.
use sabnzbd_go.Base.{
  if◌then◌else◌, Bool, Bool-cases, List, arith, get_elem?, inl, inr, not, refl, some, suc, true,
  zero, ℕ, ◌&&◌, ◌+◌, ◌||◌, ◌∙◌, ◌≡◌, ◌⊎◌,
}
use sabnzbd_go.Base.Result.{ok}
use sabnzbd_go.Content.Bitset.{clear_bit, get_bit}
use sabnzbd_go.Content.Bitset.Laws.{clear_bit-IsBitset, get_bit-clear_bit, n-clear_bit}
use sabnzbd_go.Content.Doors.{Content, with_progress}
use sabnzbd_go.Content.Manifest.{Manifest, file_index_for_article, num_articles}
use sabnzbd_go.Content.Progress.{JobProgress, file_complete, reset_for_reload}
use sabnzbd_go.Content.Progress.Marks.{IsCounted, IsManifest}
use sabnzbd_go.Content.Progress.Recomputed.{IsSound, recompute_total}
use sabnzbd_go.Content.Progress.Sound.{length-change_file}
use sabnzbd_go.Content.Reload.{clear_emitted_for_reload, reload_articles, reload_figures, is_empty}

module _ (m : Manifest) (clear : Bool) where
  reset_for_reload-IsSound :
      (i : ℕ) (p : JobProgress) → IsSound m p → IsSound m (reset_for_reload m i clear p).0
  unfolding reset_for_reload
  reset_for_reload-IsSound i p v =
      let emitted_too : IsSound m
          (if clear then record p { emitted = clear_bit p.emitted i } else p) =
        elim (Bool-cases clear) [ inl h ↦ rw h (emitted-IsSound i p v) | inr h ↦ rw h v ] in
      elim (Bool-cases (
        not (get_bit p.failed i)
        || file_complete (get_elem? p.files (file_index_for_article m i)))) [
          | inl h ↦ rw h emitted_too
          | inr h ↦ rw h (record {
            done_bits = clear_bit-IsBitset p.done i v.done_bits;
            failed_bits = clear_bit-IsBitset p.failed i v.failed_bits;
            emitted_bits = emitted_too.emitted_bits;
            done_size = n-clear_bit p.done i ∙ v.done_size;
            failed_size = n-clear_bit p.failed i ∙ v.failed_size;
            emitted_size = emitted_too.emitted_size;
            failed_done = λ j f. ground (
              arith,
              get_bit-clear_bit p.done i j v.done_bits,
              get_bit-clear_bit p.failed i j v.failed_bits,
              v.failed_done j,
            );
            files_size = length-change_file _ _ p.files ∙ v.files_size;
          })
        ]
    where
      emitted-IsSound :
          (i : ℕ) (p : JobProgress)
          → IsSound m p
          → IsSound m (record p { emitted = clear_bit p.emitted i })
      emitted-IsSound i p v = record {
        done_bits = v.done_bits;
        failed_bits = v.failed_bits;
        emitted_bits = clear_bit-IsBitset p.emitted i v.emitted_bits;
        done_size = v.done_size;
        failed_size = v.failed_size;
        emitted_size = n-clear_bit p.emitted i ∙ v.emitted_size;
        failed_done = v.failed_done;
        files_size = v.files_size;
      }

  reload_articles-IsSound :
      (lo k : ℕ) (p : JobProgress) → IsSound m p → IsSound m (reload_articles m clear lo k p).0
  unfolding reload_articles
  reload_articles-IsSound lo zero p v = v
  reload_articles-IsSound lo (suc k) p v =
      let rest = reload_articles-IsSound (lo + 1) k _ (reset_for_reload-IsSound lo p v) in
      elim (Bool-cases (reset_for_reload m lo clear p).1) [
        | inl h ↦ rw h rest
        | inr h ↦ elim (Bool-cases (get_bit (reset_for_reload m lo clear p).0.failed lo)) [
          | inl g ↦ rw (h, g) rest
          | inr g ↦ rw (h, g) rest
        ]
      ]

-- Clearing for a reload a sound job succeeds, and where an article was taken back or stays failed, the
-- figures are those of the bits afterwards.
pub clear_emitted_for_reload-IsCounted :
    (c : Content) (m : Manifest) (p : JobProgress) (skip_emitted : Bool)
    → c.manifest ≡ some m
    → c.progress ≡ some p
    → IsManifest m
    → IsSound m p
    → (q : JobProgress) × (cleared : List ℕ) × (retained : List ℕ) × (clear_emitted_for_reload
          skip_emitted c
        ≡ ok (with_progress c q, cleared, retained))
      × (((is_empty cleared && is_empty retained) ≡ true) ⊎ IsCounted m q)
unfolding clear_emitted_for_reload reload_figures
clear_emitted_for_reload-IsCounted c m p skip_emitted hm hp w v =
    let r = reload_articles m (not skip_emitted) 0 (num_articles m) p in
    let s = reload_articles-IsSound m (not skip_emitted) 0 (num_articles m) p v in
    elim (Bool-cases (is_empty r.1 && is_empty r.2)) [
      | inl h ↦ (r.0, r.1, r.2, rw (hm, hp, h) refl, inl h)
      | inr h ↦
          let (q, came, counted, _, _, _) = recompute_total m r.0 w s in
          (q, r.1, r.2, rw (hm, hp, h, came) refl, inr counted)
    ]
