-- ===== src/Content/Restart/Rows.antt =====
-- What the rows of job_files do to a job's files (restoreJobFiles of internal/app/residency.go).
use sabnzbd_go.Base.{
  Bool, Bool-cases, List, Option, [], ap, arith, false, get_elem?, if◌then◌else◌, inl, inr, length,
  ltb, none, refl, some, suc, zero, ℕ, ◌==◌, ◌||◌, ◌∙◌, ◌∷◌, ◌≡◌,
}
use sabnzbd_go.Content.Doors.{Content, with_progress}
use sabnzbd_go.Content.Manifest.{Manifest}
use sabnzbd_go.Content.Progress.{FetchPolicy, FileProgress, JobProgress, change_file}
use sabnzbd_go.Content.Progress.Recomputed.{IsSound}
use sabnzbd_go.Content.Progress.Sound.{length-change_file}
use sabnzbd_go.Content.Restart.{FileRow, or_before, restore_job_files}
use sabnzbd_go.Content.Stamps.{on_file, on_progress, restore_file_meta, restored_file}
use mathlib.Core.Option

-- What the walk asks of a file: whether it is complete, and whether it is fetched.
abbrev pub marks : FileProgress → Bool × FetchPolicy
marks f = (f.complete, f.fetch)

abbrev pub marks_at : List FileProgress → ℕ → Option (Bool × FetchPolicy)
marks_at fs fi = Option.map marks (get_elem? fs fi)

-- A file is complete if it was or a row of it says so, and is fetched as its last row says.
unfoldable pub row_marks : ℕ → List FileRow → Bool × FetchPolicy → Bool × FetchPolicy
row_marks fi [] x = x
row_marks fi (r ∷ rows) x =
    row_marks fi rows (if r.file_index == fi then (r.complete || x.0, r.fetch) else x)

marks_at-restored :
    (r : FileRow) (i fi : ℕ) (fs : List FileProgress)
    → marks_at (change_file i (restored_file r.filename r.complete r.crc r.fetch) fs) fi
      ≡ Option.map (λ x. if i == fi then (r.complete || x.0, r.fetch) else x) (marks_at fs fi)
unfolding change_file restored_file
marks_at-restored r i fi [] = refl
marks_at-restored r zero zero (f ∷ fs) = refl
marks_at-restored r zero (suc fi) (f ∷ fs) = ground arith
marks_at-restored r (suc i) zero (f ∷ fs) = ground arith
marks_at-restored r (suc i) (suc fi) (f ∷ fs) = ground (arith, marks_at-restored r i fi fs)

marks_at-row :
    (r : FileRow) (rows : List FileRow) (fi : ℕ) (x : Option (Bool × FetchPolicy))
    → Option.map
        (row_marks fi rows)
        (Option.map (λ y. if r.file_index == fi then (r.complete || y.0, r.fetch) else y) x)
      ≡ Option.map (row_marks fi (r ∷ rows)) x
unfolding row_marks
marks_at-row r rows fi none = refl
marks_at-row r rows fi (some x) = refl

marks_at-no_rows : (fi : ℕ) (x : Option (Bool × FetchPolicy)) → x ≡ Option.map (row_marks fi []) x
unfolding row_marks
marks_at-no_rows fi none = refl
marks_at-no_rows fi (some x) = refl

-- A row past the last file is refused, and there is no file that it could be of.
marks_at-refused :
    (i fi : ℕ) (fs : List FileProgress) (y : Bool × FetchPolicy → Bool × FetchPolicy)
    → ltb i (length fs) ≡ false
    → marks_at fs fi ≡ Option.map (λ x. if i == fi then y x else x) (marks_at fs fi)
marks_at-refused i fi [] y h = refl
marks_at-refused zero fi (f ∷ fs) y h = absurd (ground arith)
marks_at-refused (suc i) zero (f ∷ fs) y h = ground arith
marks_at-refused (suc i) (suc fi) (f ∷ fs) y h =
    ground (arith, marks_at-refused i fi fs y (ground arith))

-- The record that the rows leave has the bits of the one before, and the files that the rows say.
pub record Rowed (m : Manifest) (rows : List FileRow) (p q : JobProgress) : Type 0 where
  pub sound : IsSound m q
  pub done_kept : q.done ≡ p.done
  pub failed_kept : q.failed ≡ p.failed
  pub emitted_kept : q.emitted ≡ p.emitted
  pub files_marked :
      (fi : ℕ) → marks_at q.files fi ≡ Option.map (row_marks fi rows) (marks_at p.files fi)

with_files-IsSound :
    (m : Manifest) (p : JobProgress) (fs : List FileProgress)
    → length fs ≡ length p.files
    → IsSound m p
    → IsSound m (record p { files = fs })
with_files-IsSound m p fs h v = record {
  done_bits = v.done_bits;
  failed_bits = v.failed_bits;
  emitted_bits = v.emitted_bits;
  done_size = v.done_size;
  failed_size = v.failed_size;
  emitted_size = v.emitted_size;
  failed_done = v.failed_done;
  files_size = h ∙ v.files_size;
}

pub restore_job_files-Rowed :
    (m : Manifest) (c : Content) (rows : List FileRow) (p : JobProgress)
    → IsSound m p
    → (q : JobProgress) × (restore_job_files rows (with_progress c p) ≡ with_progress c q)
      × Rowed m rows p q
unfolding restore_job_files restore_file_meta on_progress on_file or_before
restore_job_files-Rowed m c [] p v = (
  p,
  refl,
  record {
    sound = v;
    done_kept = refl;
    failed_kept = refl;
    emitted_kept = refl;
    files_marked = λ fi. marks_at-no_rows fi (marks_at p.files fi);
  },
)
restore_job_files-Rowed m c (r ∷ rows) p v = elim (Bool-cases (ltb r.file_index (length p.files))) [
  | inl h ↦
      let g = restored_file r.filename r.complete r.crc r.fetch in
      let fs = change_file r.file_index g p.files in
      let (q, came, rowed) =
        restore_job_files-Rowed m c rows (record p { files = fs })
          (with_files-IsSound m p fs (length-change_file r.file_index g p.files) v) in
      rw h (
        q,
        came,
        record {
          sound = rowed.sound;
          done_kept = rowed.done_kept;
          failed_kept = rowed.failed_kept;
          emitted_kept = rowed.emitted_kept;
          files_marked = λ fi.
              rowed.files_marked fi
              ∙ ap (Option.map (row_marks fi rows)) (marks_at-restored r r.file_index fi p.files)
              ∙ marks_at-row r rows fi (marks_at p.files fi);
        },
      )
  | inr h ↦
      let (q, came, rowed) = restore_job_files-Rowed m c rows p v in
      rw h (
        q,
        came,
        record {
          sound = rowed.sound;
          done_kept = rowed.done_kept;
          failed_kept = rowed.failed_kept;
          emitted_kept = rowed.emitted_kept;
          files_marked = λ fi.
              rowed.files_marked fi
              ∙ ap (Option.map (row_marks fi rows))
                  (marks_at-refused r.file_index fi p.files (λ x. (r.complete || x.0, r.fetch)) h)
              ∙ marks_at-row r rows fi (marks_at p.files fi);
        },
      )
]
