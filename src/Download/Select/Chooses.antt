-- ===== src/Download/Select/Chooses.antt =====
-- What the selection of a server answers (selectServerForArticle of internal/downloader/dispatch.go).
use sabnzbd_go.Base.{
  if◌then◌else◌, Bool, List, Option, String, [], arith, false, none, not, some, true, ℕ, ◌&&◌, ◌+◌,
  ◌||◌, ◌∷◌, ◌≡◌,
}
use sabnzbd_go.Download.Mask.{ServerMask}
use sabnzbd_go.Download.Select.{
  Choice, DispatchOpts, WorkChannel, candidate, chosen, exhausted, has_room, select_from,
  select_server, try_later,
}
use sabnzbd_go.Download.Server.{Server, active}

-- A server that the selection would take.
unfoldable pub is_ready :
    (ℕ → Server → Bool) → ℕ → (String → Option WorkChannel) → ℕ → Server → Bool
is_ready is_candidate now work idx s =
    is_candidate idx s && (active now s && has_room (work s.cfg.name))

-- The first server that is ready.
unfoldable pub first_ready :
    (ℕ → Server → Bool) → ℕ → (String → Option WorkChannel) → ℕ → List Server → Option ℕ
unfolding is_ready
first_ready is_candidate now work idx [] = none
first_ready is_candidate now work idx (s ∷ rest) =
    let later = first_ready is_candidate now work (idx + 1) rest in
    if is_ready is_candidate now work idx s then some idx else later

unfoldable pub any_candidate : (ℕ → Server → Bool) → ℕ → List Server → Bool
any_candidate is_candidate idx [] = false
any_candidate is_candidate idx (s ∷ rest) =
    is_candidate idx s || any_candidate is_candidate (idx + 1) rest

-- The answer by its two questions.
unfoldable pub choice_of : Option ℕ → Bool → Choice
choice_of (some idx) any = chosen idx
choice_of none any = if any then try_later else exhausted

select_from_lem :
    (is_candidate : ℕ → Server → Bool) (now : ℕ) (work : String → Option WorkChannel) (e t : Bool)
    (idx : ℕ) (servers : List Server)
    → select_from is_candidate now work e t idx servers
      ≡ choice_of
          (first_ready is_candidate now work idx servers)
          ((e || not t) || any_candidate is_candidate idx servers)
unfolding select_from choice_of first_ready any_candidate is_ready
select_from_lem is_candidate now work e t idx [] = ground arith
select_from_lem is_candidate now work e t idx (s ∷ rest) = ground (
  arith,
  select_from_lem is_candidate now work e t (idx + 1) rest,
  select_from_lem is_candidate now work e false (idx + 1) rest,
  select_from_lem is_candidate now work true t (idx + 1) rest,
)

-- The selection takes the first server, in the order of the configuration, that is a candidate for the
-- article, is active and has room in its channel. Without one, it gives the article up exactly if no
-- server is a candidate at all: a candidate that is inactive or full keeps the article for a later pass.
pub select_server_lem :
    (opts : DispatchOpts) (servers : List Server) (work : String → Option WorkChannel)
    (mask : ServerMask) (has_tried : Bool)
    → select_server opts servers work mask has_tried
      ≡ choice_of
          (first_ready (candidate opts servers mask has_tried) opts.now work 0 servers)
          (any_candidate (candidate opts servers mask has_tried) 0 servers)
unfolding select_server
select_server_lem opts servers work mask has_tried =
    select_from_lem (candidate opts servers mask has_tried) opts.now work false true 0 servers
