-- ===== src/Content/Figures.antt =====
-- The figures that are read off the files of a progress record (internal/job/progress.go), and the
-- doors that read them (internal/job/content.go).
use sabnzbd_go.Base.{
  if◌then◌else◌, Bool, List, Option, [], false, ltb, none, not, some, suc, true, zero, ℕ, ◌&&◌, ◌+◌,
  ◌-◌, ◌||◌, ◌∷◌,
}
use sabnzbd_go.Base.Result.{◌>>=◌, Result, err, ok}
use sabnzbd_go.Base.Words.{add_word, is_positive, sub_word}
use sabnzbd_go.Content.Bitset.{Bitset, get_bit}
use sabnzbd_go.Content.Doors.{Content, ContentErr, out_of_range, resident, with_progress}
use sabnzbd_go.Content.Manifest.{file_range, num_files}
use sabnzbd_go.Content.Progress.{FileProgress, JobProgress, is_always, is_early_abort}
pub mod Sizes

-- What is expected of the files that are fetched, and how much of that is left.
unfoldable pub size_figures : List FileProgress → ℕ × ℕ
unfolding is_always
size_figures [] = (0, 0)
size_figures (f ∷ fs) =
    let (expected, remaining) = size_figures fs in
    let left = sub_word (sub_word f.bytes f.bytes_downloaded) f.failed_bytes in
    if not (is_always f.fetch)
    then (expected, remaining)
    else if f.complete || not (is_positive left)
    then (add_word expected f.bytes, remaining)
    else (add_word expected f.bytes, add_word remaining left)

-- Expected, remaining and failed.
unfoldable pub progress_figures : Option JobProgress → ℕ × ℕ × ℕ
unfolding size_figures
progress_figures none = (0, 0, 0)
progress_figures (some p) = ((size_figures p.files).0, (size_figures p.files).1, p.failed_bytes)

unfoldable pub content_failed_bytes : List FileProgress → ℕ
content_failed_bytes [] = 0
content_failed_bytes (f ∷ fs) =
    let rest = content_failed_bytes fs in if f.is_par2 then rest else add_word f.failed_bytes rest

unfoldable pub has_par2_files : List FileProgress → Bool
has_par2_files [] = false
has_par2_files (f ∷ fs) = f.is_par2 || has_par2_files fs

unfoldable pub all_fetched_complete : List FileProgress → Bool
unfolding is_always
all_fetched_complete [] = true
all_fetched_complete (f ∷ fs) =
    let rest = all_fetched_complete fs in
    if not (is_always f.fetch) then rest else f.complete && rest

unfoldable pub is_complete : Content → Bool
unfolding all_fetched_complete
is_complete c = elim c.progress [ none ↦ false | some p ↦ all_fetched_complete p.files ]

count_undone : Bitset → ℕ → ℕ → ℕ
count_undone done lo zero = 0
count_undone done lo (suc k) =
    let rest = count_undone done (lo + 1) k in if get_bit done lo then rest else rest + 1

unfoldable pub count_unfinished_articles : ℕ → Content → Result ContentErr ℕ
unfolding count_undone resident
count_unfinished_articles fi c = resident c >>= λ mp.
    let (m, p) = mp in
    if not (ltb fi (num_files m))
    then err out_of_range
    else (let (lo, hi) = file_range m fi in ok (count_undone p.done lo (hi - lo)))

unfoldable pub check_early_abort : Content → Content × Bool
unfolding is_early_abort
check_early_abort c = elim c.progress [
  | none ↦ (c, false)
  | some p ↦ let (p', fired) = is_early_abort p in (with_progress c p', fired)
]
