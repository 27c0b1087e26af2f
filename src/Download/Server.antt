-- ===== src/Download/Server.antt =====
-- internal/downloader/{server,penalty}.go: a server's health. Times and durations are natural numbers, and
-- no penalty is Go's zero time. The resolved addresses are left out.
use sabnzbd_go.Base.{
  if◌then◌else◌, Bool, Option, String, false, is_some, ltb, none, not, some, true, ◌&&◌, ◌*◌, ◌+◌,
  ◌==◌, ◌||◌, ℕ,
}

-- config.ServerConfig, as far as the dispatch reads it; a valid configuration has no negative number.
pub record ServerConfig : Type 0 where
  pub name : String
  pub enable : Bool
  pub optional : Bool
  pub required : Bool
  pub connections : ℕ
  pub priority : ℕ

pub record Server : Type 0 where
  pub cfg : ServerConfig
  pub bad_conns : ℕ
  pub good_conns : ℕ
  pub penalty_expiry : Option ℕ
  pub deactivated : Bool

unfoldable pub new_server : ServerConfig → Server
new_server cfg = record {
  cfg = cfg;
  bad_conns = 0;
  good_conns = 0;
  penalty_expiry = none;
  deactivated = false;
}

unfoldable pub record_bad_connection : Server → Server
record_bad_connection s = record s { bad_conns = s.bad_conns + 1 }

unfoldable pub record_good_connection : Server → Server
record_good_connection s = record s { good_conns = s.good_conns + 1; bad_conns = 0 }

-- The ratio of bad connections is above 0.3; the source's division of floats decides it alike for any
-- number of connections that a configuration has.
unfoldable pub should_deactivate_optional : Server → Bool
should_deactivate_optional s =
    if not s.cfg.optional || s.cfg.required
    then false
    else if s.cfg.connections == 0
    then false
    else ltb (3 * s.cfg.connections) (10 * s.bad_conns)

unfoldable pub apply_penalty : ℕ → ℕ → Server → Server
unfolding should_deactivate_optional
apply_penalty now duration s = record s {
  penalty_expiry = some (now + duration);
  deactivated = if not s.cfg.required && should_deactivate_optional s then true else s.deactivated;
}

-- `!expiry.IsZero() && now.After(expiry)`
unfoldable pub expired : ℕ → Option ℕ → Bool
expired now none = false
expired now (some at) = ltb at now

unfoldable pub active : ℕ → Server → Bool
unfolding expired
active now s =
    if not s.cfg.enable
    then false
    else if s.deactivated
    then expired now s.penalty_expiry
    else not (is_some s.penalty_expiry) || expired now s.penalty_expiry

unfoldable pub clear_deactivation : Server → Server
clear_deactivation s = record s { deactivated = false; penalty_expiry = none }

-- The sentinel of internal/nntp that an error wraps.
pub data ConnError : Type 0 where
  auth_rejected server_unavailable transient no_article auth_required : ConnError
  conn_closed desynced invalid_state other_error : ConnError

-- internal/constants/penalty.go, in seconds.
abbrev pub penalty_unknown : ℕ
penalty_unknown = 180

abbrev pub penalty_very_short : ℕ
penalty_very_short = 6

abbrev pub penalty_short : ℕ
penalty_short = 60

abbrev pub penalty_502 : ℕ
penalty_502 = 300

abbrev pub penalty_perm : ℕ
penalty_perm = 600

unfoldable pub penalty_for : ConnError → ℕ
penalty_for auth_rejected = penalty_perm
penalty_for server_unavailable = penalty_502
penalty_for transient = penalty_very_short
penalty_for no_article = 0
penalty_for auth_required = penalty_short
penalty_for invalid_state = penalty_short
penalty_for _ = penalty_unknown

unfoldable pub clamp_penalty : Bool → ℕ → ℕ
clamp_penalty no_penalties pen =
    if no_penalties && ltb penalty_short pen then penalty_short else pen
