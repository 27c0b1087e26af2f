-- ===== src/Content/Stamps.antt =====
-- When a job's download started and finished (internal/job/progress.go), and the doors that set what
-- is kept about a file (internal/job/content.go). A time is its seconds since the year 1: Go's zero
-- time is 0, and the Unix epoch 62135596800.
use sabnzbd_go.Base.{
  if◌then◌else◌, Bool, List, String, [], false, length, ltb, none, not, some, true, ℕ, ◌&&◌, ◌+◌,
  ◌==◌, ◌||◌, ◌∷◌,
}
use sabnzbd_go.Base.Keys.{string_eq}
use sabnzbd_go.Base.Result.{◌>>=◌, Result, err, ok}
use sabnzbd_go.Content.Doors.{
  Content, ContentErr, not_resident, out_of_range, resident, with_progress,
}
use sabnzbd_go.Content.Manifest.{Manifest, file_range, num_files}
use sabnzbd_go.Content.Progress.{FetchPolicy, FileProgress, JobProgress, change_file}
use sabnzbd_go.Durable.Runs.{Run}
pub mod Ordered

abbrev pub is_job_stamp : ℕ → Bool
is_job_stamp t = ltb 62135596800 t

unfoldable pub set_download_started_once : ℕ → JobProgress → JobProgress × Bool
set_download_started_once t p =
    if not (is_job_stamp t) || (not (p.download_started == 0) || not (p.download_finished == 0))
    then (p, false)
    else (record p { download_started = t }, true)

unfoldable pub set_download_finished_once : ℕ → JobProgress → JobProgress × Bool
set_download_finished_once t p =
    if not (is_job_stamp t) || not (p.download_finished == 0)
    then (p, false)
    else (record p { download_finished = t }, true)

unfoldable pub clear_download_stamps : JobProgress → JobProgress
clear_download_stamps p = record p { download_started = 0; download_finished = 0 }

unfoldable pub restore_download_stamps : ℕ → ℕ → JobProgress → JobProgress
restore_download_stamps started finished p = record p {
  download_started = if is_job_stamp started then started else 0;
  download_finished = if is_job_stamp finished then finished else 0;
}

-- A door that needs the progress alone.
unfoldable pub on_progress :
    (JobProgress → Result ContentErr JobProgress) → Content → Result ContentErr Content
on_progress f c = elim c.progress [
  | none ↦ err not_resident
  | some p ↦ (f p >>= λ p'. ok (with_progress c p'))
]

unfoldable pub mark_job_started : ℕ → Content → Result ContentErr Content
unfolding on_progress set_download_started_once
mark_job_started t c = on_progress (λ p. ok (set_download_started_once t p).0) c

unfoldable pub mark_download_finished : ℕ → Content → Result ContentErr Content
unfolding on_progress set_download_finished_once
mark_download_finished t c = on_progress (λ p. ok (set_download_finished_once t p).0) c

-- One file changed, where there is one.
unfoldable pub on_file :
    ℕ → (FileProgress → FileProgress) → JobProgress → Result ContentErr JobProgress
unfolding change_file
on_file fi g p =
    if not (ltb fi (length p.files))
    then err out_of_range
    else ok (record p { files = change_file fi g p.files })

unfoldable pub set_file_fetch_policy : ℕ → FetchPolicy → Content → Result ContentErr Content
unfolding on_progress on_file
set_file_fetch_policy fi policy c = on_progress (on_file fi (λ f. record f { fetch = policy })) c

unfoldable pub restored_file : String → Bool → ℕ → FetchPolicy → FileProgress → FileProgress
restored_file filename complete crc fetch f = record f {
  filename = if string_eq.beq filename "" then f.filename else filename;
  complete = complete || f.complete;
  assembled_crc32 = if crc == 0 then f.assembled_crc32 else crc;
  fetch = fetch;
}

unfoldable pub restore_file_meta :
    ℕ → String → Bool → ℕ → FetchPolicy → Content → Result ContentErr Content
unfolding on_progress on_file restored_file
restore_file_meta fi filename complete crc fetch c =
    on_progress (on_file fi (restored_file filename complete crc fetch)) c

-- The guards of the doors on one file of a resident job.
unfoldable pub on_manifest_file :
    ℕ → (Manifest → FileProgress → FileProgress) → Content → Result ContentErr Content
unfolding resident change_file
on_manifest_file fi g c = resident c >>= λ mp.
    let (m, p) = mp in
    if not (ltb fi (num_files m))
    then err out_of_range
    else ok (with_progress c (record p { files = change_file fi (g m) p.files }))

unfoldable pub mark_file_complete : ℕ → Content → Result ContentErr Content
unfolding on_manifest_file
mark_file_complete fi c = on_manifest_file fi (λ m f. record f { complete = true }) c

unfoldable pub set_file_filename : ℕ → String → Content → Result ContentErr Content
unfolding on_manifest_file
set_file_filename fi filename c = on_manifest_file fi (λ m f. record f { filename = filename }) c

-- The runs are one run, from byte 0, over all articles of the file.
unfoldable pub proves_whole : Manifest → ℕ → List Run → Bool
unfolding file_range
proves_whole m fi (r ∷ []) =
    let (lo, hi) = file_range m fi in
    (r.offset == 0) && ((r.first_art_idx == lo) && (r.last_art_idx + 1 == hi))
proves_whole m fi _ = false

abbrev pub crc_of : List Run → ℕ
crc_of [] = 0
crc_of (r ∷ _) = r.crc32

unfoldable pub set_file_crc32_from_runs :
    ℕ → List Run → Content → Result ContentErr (Content × Bool)
unfolding resident proves_whole change_file
set_file_crc32_from_runs fi rs c = resident c >>= λ mp.
    let (m, p) = mp in
    if not (ltb fi (num_files m))
    then err out_of_range
    else if not (proves_whole m fi rs)
    then ok (c, false)
    else ok (
      with_progress c (record p {
        files = change_file fi (λ f. record f { assembled_crc32 = crc_of rs }) p.files;
      }),
      true,
    )
