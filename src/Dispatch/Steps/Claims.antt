-- ===== src/Dispatch/Steps/Claims.antt =====
-- A worker's claim (d.launched of internal/dispatch/dispatch.go) and the registration of its job.
use sabnzbd_go.Base.{if◌then◌else◌, Bool, List, String, [], arith, false, none, true, ◌∷◌, ◌≡◌, ◌⊎◌}
use sabnzbd_go.Dispatch.Occupy.{drain, leave, renew_step}
use sabnzbd_go.Dispatch.Registry.{Dispatcher, erase, register, registered}
use sabnzbd_go.Dispatch.Steps.{
  Step, aborts, begins, begins_if_idle, calls, claims, clears, erases, leaves, marks_not_resident,
  marks_resident, marks_written, occupies, registers, sets_header, take, take_all, waits,
  waits_except,
}
use text.Mathlib.Text.{◌==◌ as str_eq}
use text.Mathlib.TextEquality.{eq_iff}

-- Deregister is two spans: one takes the job out of the maps, and the next one clears the claim. Whether
-- the second one is still to come.
unfoldable pub clear_due_after : String → Step → Bool → Bool
clear_due_after id (erases x) due = if str_eq x id then true else due
clear_due_after id (clears x) due = if str_eq x id then false else due
clear_due_after id _ due = due

unfoldable pub clear_due : String → List Step → Bool → Bool
unfolding clear_due_after
clear_due id [] due = due
clear_due id (x ∷ xs) due = clear_due id xs (clear_due_after id x due)

-- A claim is on a registered job, or its clearing is still to come.
abbrev pub ClaimIsKept : String → Bool → Dispatcher → Type 0
ClaimIsKept id due d = (registered d id ≡ true) ⊎ ((due ≡ true) ⊎ (d.launched id ≡ none))

take-ClaimIsKept :
    (id : String) (x : Step) (due : Bool) (d : Dispatcher)
    → ClaimIsKept id due d
    → ClaimIsKept id (clear_due_after id x due) (take x d)
unfolding take clear_due_after registered register erase leave drain renew_step
take-ClaimIsKept id (registers j h seq) due d v = ground arith
take-ClaimIsKept id (erases y) due d v = ground (arith, eq_iff y id)
take-ClaimIsKept id (begins y) due d v = ground arith
take-ClaimIsKept id (begins_if_idle y) due d v = ground arith
take-ClaimIsKept id (aborts y) due d v = ground arith
take-ClaimIsKept id (clears y) due d v = ground (arith, eq_iff y id)
take-ClaimIsKept id (claims y) due d v = ground (arith, eq_iff y id)
take-ClaimIsKept id (occupies y) due d v = ground arith
take-ClaimIsKept id (waits y) due d v = ground arith
take-ClaimIsKept id (leaves y tok) due d v = ground arith
take-ClaimIsKept id (waits_except y tok) due d v = ground arith
take-ClaimIsKept id (marks_resident y) due d v = ground arith
take-ClaimIsKept id (marks_not_resident y) due d v = ground arith
take-ClaimIsKept id (marks_written q) due d v = ground arith
take-ClaimIsKept id (sets_header f y) due d v = ground (arith, eq_iff y id)
take-ClaimIsKept id (calls j door) due d v = ground arith

pub take_all-ClaimIsKept :
    (id : String) (xs : List Step) (due : Bool) (d : Dispatcher)
    → ClaimIsKept id due d
    → ClaimIsKept id (clear_due id xs due) (take_all xs d)
unfolding take_all clear_due
take_all-ClaimIsKept id [] due d v = v
take_all-ClaimIsKept id (x ∷ xs) due d v =
    take_all-ClaimIsKept id xs (clear_due_after id x due) (take x d) (take-ClaimIsKept id x due d v)
