-- ===== src/Content/Reload.antt =====
-- Job.ClearEmittedForReload (internal/job/content.go): what is in flight or failed is offered again
-- when the downloader is replaced.
use sabnzbd_go.Base.{if◌then◌else◌, Bool, List, [], false, not, suc, true, zero, ℕ, ◌&&◌, ◌+◌, ◌∷◌}
use sabnzbd_go.Base.Result.{◌>>=◌, Result, err, ok}
use sabnzbd_go.Content.Bitset.{get_bit}
use sabnzbd_go.Content.Doors.{Content, ContentErr, or_panic, resident, with_progress}
use sabnzbd_go.Content.Manifest.{Manifest, num_articles}
use sabnzbd_go.Content.Progress.{JobProgress, reset_for_reload}
use sabnzbd_go.Content.Progress.Recompute.{recompute}
pub mod Stranded
pub mod Sound

-- The progress, and the articles that were taken back and those that stay failed.
unfoldable pub reload_articles :
    Manifest → Bool → ℕ → ℕ → JobProgress → JobProgress × List ℕ × List ℕ
unfolding reset_for_reload
reload_articles m clear lo zero p = (p, [], [])
reload_articles m clear lo (suc k) p =
    let (p', was_cleared) = reset_for_reload m lo clear p in
    let (q, cleared, retained) = reload_articles m clear (lo + 1) k p' in
    if was_cleared
    then (q, lo ∷ cleared, retained)
    else if get_bit p'.failed lo
    then (q, cleared, lo ∷ retained)
    else (q, cleared, retained)

abbrev pub is_empty : List ℕ → Bool
is_empty [] = true
is_empty (_ ∷ _) = false

-- Recompute runs where an article was taken back or stays failed.
unfoldable pub reload_figures :
    Manifest → JobProgress × List ℕ × List ℕ → Result ContentErr (JobProgress × List ℕ × List ℕ)
unfolding or_panic
reload_figures m (p, cleared, retained) =
    if is_empty cleared && is_empty retained
    then ok (p, cleared, retained)
    else (or_panic (recompute m p) >>= λ p'. ok (p', cleared, retained))

unfoldable pub clear_emitted_for_reload :
    Bool → Content → Result ContentErr (Content × List ℕ × List ℕ)
unfolding resident reload_articles reload_figures
clear_emitted_for_reload skip_emitted c = elim (resident c) [
  | err _ ↦ ok (c, [], [])
  | ok (m, p) ↦
      (reload_figures m (reload_articles m (not skip_emitted) 0 (num_articles m) p) >>= λ r.
      let (q, cleared, retained) = r in ok (with_progress c q, cleared, retained))
]
