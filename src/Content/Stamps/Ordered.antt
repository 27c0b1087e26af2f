-- ===== src/Content/Stamps/Ordered.antt =====
-- A recorded download starts before it finishes (internal/job/progress.go).
use sabnzbd_go.Base.{List, [], arith, inl, refl, ℕ, ◌∷◌, ◌≡◌, ◌≤◌, ◌⊎◌}
use sabnzbd_go.Content.Progress.{JobProgress}
use sabnzbd_go.Content.Stamps.{
  clear_download_stamps, set_download_finished_once, set_download_started_once,
}

-- What the downloader and the queue report, with the time at which they do.
pub data Report : Type 0 where
  started finished : ℕ → Report

abbrev pub time_of : Report → ℕ
time_of (started t) = t
time_of (finished t) = t

unfoldable pub report : Report → JobProgress → JobProgress
unfolding set_download_started_once set_download_finished_once
report (started t) p = (set_download_started_once t p).0
report (finished t) p = (set_download_finished_once t p).0

unfoldable pub reports : List Report → JobProgress → JobProgress
unfolding report
reports [] p = p
reports (r ∷ rs) p = reports rs (report r p)

-- No report is older than the one before it.
abbrev pub InOrder : ℕ → List Report → Type 0
InOrder now [] = Unit {0}
InOrder now (r ∷ rs) = (now ≤ time_of r) × InOrder (time_of r) rs

-- The start is in the past, and before the finish where there is one.
abbrev pub Ordered : ℕ → JobProgress → Type 0
Ordered now p =
    (p.download_started ≤ now)
    × ((p.download_finished ≡ 0) ⊎ (p.download_started ≤ p.download_finished))

report-Ordered :
    (now : ℕ) (r : Report) (p : JobProgress)
    → now ≤ time_of r
    → Ordered now p
    → Ordered (time_of r) (report r p)
unfolding report set_download_started_once set_download_finished_once
report-Ordered now (started t) p l o = ground (arith, o.0, o.1)
report-Ordered now (finished t) p l o = ground (arith, o.0, o.1)

reports-Ordered :
    (now : ℕ) (rs : List Report) (p : JobProgress)
    → InOrder now rs
    → Ordered now p
    → (p' : ℕ) × Ordered p' (reports rs p)
unfolding reports
reports-Ordered now [] p l o = (now, o)
reports-Ordered now (r ∷ rs) p l o =
    reports-Ordered (time_of r) rs (report r p) l.1 (report-Ordered now r p l.0 o)

-- After the stamps were cleared, reports of starts and finishes, in the order of time and as many as
-- there are, never leave a start that is later than a recorded finish.
pub reports_ordered :
    (p : JobProgress) (rs : List Report)
    → InOrder 0 rs
    → let q = reports rs (clear_download_stamps p) in
      (q.download_finished ≡ 0) ⊎ (q.download_started ≤ q.download_finished)
unfolding clear_download_stamps
reports_ordered p rs l =
    (reports-Ordered 0 rs (clear_download_stamps p) l (omega arith, inl refl)).1.1
