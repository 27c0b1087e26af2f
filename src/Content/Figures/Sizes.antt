-- ===== src/Content/Figures/Sizes.antt =====
-- What remains and what is expected (JobProgress.sizeFigures of internal/job/progress.go) fit together.
use sabnzbd_go.Base.{if◌then◌else◌, List, [], arith, true, ℕ, ◌+◌, ◌<◌, ◌∷◌, ◌≡◌, ◌≤◌}
use sabnzbd_go.Content.Figures.{size_figures}
use sabnzbd_go.Content.Progress.{FileProgress, is_always}

unfoldable pub total_of : List FileProgress → ℕ
total_of [] = 0
total_of (f ∷ fs) = f.bytes + total_of fs

-- The sizes of the files add up to less than 2^63, and no file counts more than 2^63 bytes.
abbrev pub Sized : List FileProgress → Type 0
Sized [] = Unit {0}
Sized (f ∷ fs) =
    (total_of (f ∷ fs) < 9223372036854775808)
    × ((f.bytes_downloaded + f.failed_bytes ≤ 9223372036854775808) × Sized fs)

-- What remains is never more than what is expected, nor is that more than the sizes of all files: no
-- sum wraps around, where the files are less than 2^63 bytes and each counts at most 2^63.
pub size_figures_bounds :
    (fs : List FileProgress)
    → Sized fs
    → ((size_figures fs).1 ≤ (size_figures fs).0) × ((size_figures fs).0 ≤ total_of fs)
unfolding size_figures total_of
size_figures_bounds [] s = (omega arith, omega arith)
size_figures_bounds (f ∷ fs) s =
    let rest = size_figures_bounds fs s.1.1 in ground (arith, rest.0, rest.1, s.0, s.1.0)

-- Each fetched file has downloaded or failed no more than it is large, and all of it once complete.
abbrev pub Accounted : List FileProgress → Type 0
Accounted [] = Unit {0}
Accounted (f ∷ fs) =
    (is_always f.fetch ≡ true → f.bytes_downloaded + f.failed_bytes ≤ f.bytes)
    × ((is_always f.fetch ≡ true
          → f.complete ≡ true
          → f.bytes_downloaded + f.failed_bytes ≡ f.bytes)
        × Accounted fs)

-- The bytes that the fetched files have downloaded or failed.
unfoldable pub fetched_of : List FileProgress → ℕ
unfolding is_always
fetched_of [] = 0
fetched_of (f ∷ fs) =
    if is_always f.fetch then f.bytes_downloaded + f.failed_bytes + fetched_of fs else fetched_of fs

-- What was downloaded or failed is the expected less the remaining bytes, where no file counts more
-- than its size, a complete file counts all of it, and all sizes are less than 2^63.
pub size_figures_close :
    (fs : List FileProgress)
    → total_of fs < 9223372036854775808
    → Accounted fs
    → ((size_figures fs).1 + fetched_of fs ≡ (size_figures fs).0)
      × ((size_figures fs).0 ≤ total_of fs)
unfolding size_figures fetched_of total_of
size_figures_close [] s a = (omega arith, omega arith)
size_figures_close (f ∷ fs) s a =
    let rest = size_figures_close fs (omega arith) a.1.1 in
    ground (arith, rest.0, rest.1, a.0, a.1.0)
