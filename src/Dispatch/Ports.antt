-- ===== src/Dispatch/Ports.antt =====
-- internal/dispatch/{registry,ports}.go: the rows that the dispatcher shows and stores.
use sabnzbd_go.Base.Keys.{String-discrete}
use native.Mathlib.Decide.{ℕ_discrete}
use sabnzbd_go.Base.{ℕ, Bool, true, false, String, if◌then◌else◌, leb, ◌==◌}
use sabnzbd_go.Job.Axes.{StateView, Intent}
use sabnzbd_go.Job.Record.{Policy}

-- A priority is the one signed number of a header.
pub data ℤ : Type 0 where
  pos : ℕ → ℤ
  negsuc : ℕ → ℤ

-- Times and sizes are not negative.
pub record Header : Type 0 where
  pub name : String
  pub filename : String
  pub category : String
  pub priority : ℤ
  pub bytes : ℕ
  pub warning : String
  pub script : String
  pub password : String
  pub pp : ℕ
  pub nzb_backup : String
  pub url : String
  pub md5 : String
  pub added : ℕ

pub record Persisted : Type 0 where
  pub id : String
  pub sort_key : ℕ
  pub header : Header
  pub policy : Policy
  pub state : StateView
  pub intent : Intent
  pub download_started : ℕ
  pub download_finished : ℕ
  pub par2_release_reason : String
  pub recovery_bytes : ℕ

-- constants.Priority.IsValid: Repair, Force, High, Normal; Low, Paused, Stop, Default.
unfoldable pub is_valid_priority : ℤ → Bool
is_valid_priority (pos n) = leb n 3
is_valid_priority (negsuc n) =
    if n == 0 then true else if n == 1 then true else if n == 3 then true else n == 99

unfoldable ℤ-discrete : Discrete ℤ
ℤ-discrete = hlevel ℕ_discrete

unfoldable Header-discrete : Discrete Header
unfolding ℤ-discrete
Header-discrete = hlevel (ℕ_discrete, String-discrete, ℤ-discrete)

unfoldable pub Persisted-discrete : Discrete Persisted
unfolding Header-discrete
Persisted-discrete = hlevel (ℕ_discrete, String-discrete, Header-discrete)

unfoldable pub is_yes {ℓ} : {A : Type ℓ} → Dec A → Bool
is_yes (yes _) = true
is_yes (no _) = false
