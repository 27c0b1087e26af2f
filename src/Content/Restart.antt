-- ===== src/Content/Restart.antt =====
-- A job becomes resident: what Hydrate of internal/app/residency.go does once the manifest is read. The
-- manifest, the rows of job_files and the durable record are what the store answered.
use sabnzbd_go.Base.{Bool, List, Option, String, [], none, some, ℕ, ◌∷◌}
use sabnzbd_go.Base.Result.{◌>>=◌, Result, err, ok}
use sabnzbd_go.Content.Bulk.{apply_resolution}
use sabnzbd_go.Content.Doors.{
  Content, ContentErr, bad_run, not_resident, other_manifest, out_of_range, panicked,
  restore_content,
}
use sabnzbd_go.Content.Fresh.{attach_content}
use sabnzbd_go.Content.Manifest.{Manifest}
use sabnzbd_go.Content.Progress.{FetchPolicy}
use sabnzbd_go.Content.Stamps.{restore_file_meta}
pub mod Rows
pub mod Replayed
pub mod Offers

-- A row of job_files.
pub record FileRow : Type 0 where
  pub file_index : ℕ
  pub filename : String
  pub complete : Bool
  pub crc : ℕ
  pub fetch : FetchPolicy

-- A job that has run before keeps its progress.
unfoldable pub install : Manifest → Content → Result ContentErr Content
unfolding attach_content restore_content
install m c = elim c.progress [ none ↦ ok (attach_content m c) | some p ↦ restore_content m p c ]

unfoldable pub or_before : Content → Result ContentErr Content → Content
or_before c (ok c') = c'
or_before c (err _) = c

-- restoreJobFiles; the error of a row is dropped.
unfoldable pub restore_job_files : List FileRow → Content → Content
unfolding restore_file_meta or_before
restore_job_files [] c = c
restore_job_files (r ∷ rows) c =
    restore_job_files rows
      (or_before c (restore_file_meta r.file_index r.filename r.complete r.crc r.fetch c))

-- An error is logged, and the content stays; a panic is neither.
unfoldable pub logged : Content → Result ContentErr Content → Result ContentErr Content
logged c (ok c') = ok c'
logged c (err panicked) = err panicked
logged c (err not_resident) = ok c
logged c (err out_of_range) = ok c
logged c (err bad_run) = ok c
logged c (err other_manifest) = ok c

-- restoreResolution, with the runs and the failed articles; `none` if they could not be read.
unfoldable pub restore_resolution :
    Option (List (ℕ × ℕ) × List ℕ) → Content → Result ContentErr Content
unfolding apply_resolution logged
restore_resolution none c = ok c
restore_resolution (some (runs, failures)) c = logged c (apply_resolution runs failures c)

unfoldable pub hydrate_job :
    Manifest → List FileRow → Option (List (ℕ × ℕ) × List ℕ) → Content → Result ContentErr Content
unfolding install restore_job_files restore_resolution
hydrate_job m rows resolution c = elim c.manifest [
  | some _ ↦ ok c
  | none ↦ install m c >>= λ c'. restore_resolution resolution (restore_job_files rows c')
]
