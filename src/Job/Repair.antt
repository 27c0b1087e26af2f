-- ===== src/Job/Repair.antt =====
-- internal/job/repair.go: when a damaged job is given up.
use sabnzbd_go.Base.{ℕ, ◌<◌, ◌≡◌, ◌↔◌, ◌⊎◌, true, false, Bool, arith}
use sabnzbd_go.Job.Status.{repair_state_from, hopeless}

-- A job is given up exactly when content is damaged, the damage exceeds the recognized capacity, and
-- the capacity is known: it is not zero while par2 files are present.
pub hopeless_iff :
    (failed recovery : ℕ) (par2 : Bool)
    → (hopeless (repair_state_from failed recovery par2) ≡ true)
      ↔ ((recovery < failed) × ((0 < recovery) ⊎ (par2 ≡ false)))
unfolding hopeless repair_state_from
hopeless_iff failed recovery par2 = (λ h. ground arith, λ h. ground arith)
