-- ===== src/Download/Select.antt =====
-- internal/downloader/dispatch.go: which server an article's next request goes to. The tracker's lock is
-- held over the whole of tryDispatch, so it is one step.
use sabnzbd_go.Base.{
  if◌then◌else◌, Bool, List, Option, String, [], false, is_some, leb, ltb, none, not, some, true, ℕ,
  ◌&&◌, ◌+◌, ◌==◌, ◌∷◌,
}
use sabnzbd_go.Download.Mask.{set, ServerMask, count_servers, empty_mask, has}
use sabnzbd_go.Download.Server.{Server, ServerConfig, active}
use sabnzbd_go.Download.Tracker.{
  ArticleKey, DispatchTracker, in_flight_locked, increment_in_flight_locked, lookup,
  set_tried_locked,
}
pub mod Chooses
pub mod Once

-- A server's channel of requests: how many wait in it, and its capacity.
pub record WorkChannel : Type 0 where
  pub waiting : ℕ
  pub capacity : ℕ

pub record DispatchOpts : Type 0 where
  pub now : ℕ
  pub max_art_tries : ℕ
  pub max_art_opt : ℕ
  pub top_only : Bool

-- `minPriority < 0 || cfg.Priority < minPriority`; none is -1
unfoldable pub lower_priority : Option ℕ → ℕ → Option ℕ
lower_priority none p = some p
lower_priority (some m) p = if ltb p m then some p else some m

unfoldable pub min_priority_from : Option ℕ → List Server → Option ℕ
unfolding lower_priority
min_priority_from m [] = m
min_priority_from m (s ∷ rest) =
    min_priority_from (if s.cfg.enable then lower_priority m s.cfg.priority else m) rest

unfoldable pub get_min_server_priority : List Server → Option ℕ
unfolding min_priority_from
get_min_server_priority servers = min_priority_from none servers

-- `cfg.Priority > minPriority`
unfoldable pub is_above : Option ℕ → ℕ → Bool
is_above none p = true
is_above (some m) p = ltb m p

unfoldable pub is_server_candidate :
    ServerConfig → ServerMask → Bool → ℕ → Bool → Option ℕ → ℕ → ℕ → Bool
unfolding has is_above
is_server_candidate cfg mask has_tried idx top_only min_priority optional_tried max_art_opt =
    if has_tried && has mask idx
    then false
    else if not cfg.enable
    then false
    else if top_only && is_above min_priority cfg.priority
    then false
    else if cfg.optional && (ltb 0 max_art_opt && leb max_art_opt optional_tried)
    then false
    else true

-- The optional servers among those at `idx` and after it that the mask has.
unfoldable pub optional_tried_from : ServerMask → ℕ → List Server → ℕ
unfolding has
optional_tried_from mask idx [] = 0
optional_tried_from mask idx (s ∷ rest) =
    (if s.cfg.optional && has mask idx then 1 else 0) + optional_tried_from mask (idx + 1) rest

-- selectServerForArticle's answer: a server's index, -1 and -2.
pub data Choice : Type 0 where
  chosen : ℕ → Choice
  exhausted try_later : Choice

-- `ch, ok := d.workCh[name]` and `len(ch) < cap(ch)`
unfoldable pub has_room : Option WorkChannel → Bool
has_room none = false
has_room (some ch) = ltb ch.waiting ch.capacity

-- What the article's tries so far say of a server: isServerCandidate with its arguments.
unfoldable pub candidate : DispatchOpts → List Server → ServerMask → Bool → ℕ → Server → Bool
unfolding is_server_candidate get_min_server_priority optional_tried_from
candidate opts servers mask has_tried idx s =
    is_server_candidate s.cfg mask has_tried idx opts.top_only
      (if opts.top_only then get_min_server_priority servers else some 0)
      (if has_tried then optional_tried_from mask 0 servers else 0) opts.max_art_opt

-- The loop over d.servers; the Booleans are anyEligible and allTried.
unfoldable pub select_from :
    (ℕ → Server → Bool) → ℕ → (String → Option WorkChannel) → Bool → Bool → ℕ → List Server → Choice
unfolding active has_room
select_from is_candidate now work any_eligible all_tried idx [] =
    if not any_eligible && all_tried then exhausted else try_later
select_from is_candidate now work any_eligible all_tried idx (s ∷ rest) =
    if not (is_candidate idx s)
    then select_from is_candidate now work any_eligible all_tried (idx + 1) rest
    else if not (active now s)
    then select_from is_candidate now work any_eligible false (idx + 1) rest
    else if has_room (work s.cfg.name)
    then chosen idx
    else select_from is_candidate now work true all_tried (idx + 1) rest

unfoldable pub select_server :
    DispatchOpts → List Server → (String → Option WorkChannel) → ServerMask → Bool → Choice
unfolding select_from candidate
select_server opts servers work mask has_tried =
    select_from (candidate opts servers mask has_tried) opts.now work false true 0 servers

-- What tryDispatch reports: (false, nil), (true, nil) with the server that has the request, and (true, req).
pub data Dispatched : Type 0 where
  not_handled : Dispatched
  sent_to : ℕ → Dispatched
  failed_for_good : Dispatched

-- The mask as Go's zero value where the try-list has none.
unfoldable pub mask_or_empty : Option ServerMask → ServerMask
mask_or_empty none = empty_mask
mask_or_empty (some m) = m

-- After the selection; `accepted` is whether the channel took the request.
unfoldable pub send :
    Bool → ArticleKey → ServerMask → DispatchTracker → Choice → DispatchTracker × Dispatched
unfolding set_tried_locked increment_in_flight_locked set
send accepted key mask t exhausted = (t, failed_for_good)
send accepted key mask t try_later = (t, not_handled)
send accepted key mask t (chosen idx) =
    if accepted
    then (increment_in_flight_locked key (set_tried_locked key (set mask idx) t), sent_to idx)
    else (t, not_handled)

-- `opts.maxArtTries > 0 && hasTried && mask.count() >= opts.maxArtTries`
unfoldable pub is_over : DispatchOpts → Option ServerMask → Bool
unfolding count_servers
is_over opts none = false
is_over opts (some m) = ltb 0 opts.max_art_tries && leb opts.max_art_tries (count_servers m)

-- `live` is that the context is not over.
unfoldable pub try_dispatch :
    Bool
    → Bool
    → DispatchOpts
    → List Server
    → (String → Option WorkChannel)
    → ArticleKey
    → DispatchTracker
    → DispatchTracker × Dispatched
unfolding in_flight_locked lookup is_over mask_or_empty select_server send
try_dispatch live accepted opts servers work key t =
    let seen = lookup key t.try_list in
    if ltb 0 (in_flight_locked key t)
    then (t, not_handled)
    else if not live
    then (t, not_handled)
    else if is_over opts seen
    then (t, failed_for_good)
    else send accepted key (mask_or_empty seen) t
        (select_server opts servers work (mask_or_empty seen) (is_some seen))
