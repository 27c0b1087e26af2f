-- ===== src/Dispatch/Registry/Doors.antt =====
-- internal/dispatch/registry.go: what the API sets on a registered job.
use sabnzbd_go.Base.{if◌then◌else◌, String, none, not, some, ℕ}
use sabnzbd_go.Base.Result.{Result, err, ok}
use sabnzbd_go.Dispatch.Ports.{Header, is_valid_priority, ℤ}
use sabnzbd_go.Dispatch.Registry.{
  Dispatcher, Entry, Refusal, put, on_job, not_found, invalid_priority,
}
use sabnzbd_go.Job.Record.{policy_from_pp, set_name, set_policy}

abbrev on_found :
    Dispatcher → String → (Entry → Result Refusal Dispatcher) → Result Refusal Dispatcher
on_found d id f = elim (d.by_id id) [ none ↦ err not_found | some e ↦ f e ]

-- Changes the header that the registry has for a job.
unfoldable pub set_header : (Header → Header) → String → Dispatcher → Result Refusal Dispatcher
set_header f id d =
    on_found d id
      (λ e. ok (record d { by_id = put d.by_id id (some (record e { header = f e.header })) }))

unfoldable pub set_warning : String → String → Dispatcher → Result Refusal Dispatcher
unfolding set_header
set_warning id w d = set_header (λ h. record h { warning = w }) id d

unfoldable pub set_priority : String → ℤ → Dispatcher → Result Refusal Dispatcher
unfolding set_header is_valid_priority
set_priority id p d =
    if not (is_valid_priority p)
    then err invalid_priority
    else set_header (λ h. record h { priority = p }) id d

unfoldable pub set_category : String → String → Dispatcher → Result Refusal Dispatcher
unfolding set_header
set_category id c d = set_header (λ h. record h { category = c }) id d

unfoldable pub set_script : String → String → Dispatcher → Result Refusal Dispatcher
unfolding set_header
set_script id s d = set_header (λ h. record h { script = s }) id d

-- SetName: the header and the job, in one span.
unfoldable pub rename : String → String → Dispatcher → Result Refusal Dispatcher
unfolding set_header on_job set_name
rename id name d =
    on_found d id
      (λ e. set_header (λ h. record h { name = name }) id (on_job e.job (set_name name) d))

unfoldable pub set_pp : String → ℕ → Dispatcher → Result Refusal Dispatcher
unfolding set_header on_job set_policy policy_from_pp
set_pp id pp d = on_found d id (λ e.
    set_header (λ h. record h { pp = pp }) id (on_job e.job (set_policy (policy_from_pp pp)) d))
