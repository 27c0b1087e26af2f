-- ===== src/Tests/Downloads.antt =====
-- The tracker of attempts (internal/downloader) on concrete inputs.
use sabnzbd_go.Base.{
  arith, List, Option, String, some, true, ℕ, if◌then◌else◌, [], false, length, refl, ◌&&◌, ◌==◌,
  ◌∷◌, ◌≡◌,
}
use sabnzbd_go.Download.Mask.{count_servers, has, set, ServerMask, empty_mask}
use sabnzbd_go.Download.Mask.Counts.{count_from, count_servers_lem}
use sabnzbd_go.Base.Keys.{string_eq}
use sabnzbd_go.Download.Select.{
  DispatchOpts, Dispatched, WorkChannel, candidate, select_server, try_dispatch,
}
use sabnzbd_go.Download.Select.Chooses.{any_candidate, choice_of, first_ready, select_server_lem}
use sabnzbd_go.Download.Select.Once.{Sent, SentTo, try_dispatch-Sent}
use sabnzbd_go.Download.Server.{Server, apply_penalty, new_server}
use sabnzbd_go.Base.Bits.{bit_and_not}
use sabnzbd_go.Download.Tracker.{
  ArticleKey, DispatchTracker, decrement_in_flight, increment_in_flight_locked,
  new_dispatch_tracker, same_key, set_tried_locked, unmark_tried,
}
use sabnzbd_go.Download.Tracker.Tried.{tried, tried-unmark_tried}

abbrev first_key : ArticleKey
first_key = record { job_id = "a"; art_idx = 0 }

abbrev other_job : ArticleKey
other_job = record { job_id = "b"; art_idx = 0 }

-- Servers 3 and 70 were tried.
abbrev two_tried : ServerMask
two_tried = set (set empty_mask 3) 70

abbrev tracker0 : DispatchTracker
tracker0 =
    set_tried_locked other_job (set empty_mask 3)
      (set_tried_locked first_key two_tried new_dispatch_tracker)

both_words : two_tried.slow ≡ 64 ∷ []
unfolding set
both_words = refl

last_mark_goes : length (unmark_tried other_job 3 tracker0).try_list ≡ 1
unfolding unmark_tried set_tried_locked set bit_and_not
last_mark_goes = refl

down_to_nothing :
    (decrement_in_flight first_key (increment_in_flight_locked first_key tracker0)).in_flight ≡ []
unfolding decrement_in_flight increment_in_flight_locked set_tried_locked
down_to_nothing = refl

tried-unmark_tried_example :
    tried (unmark_tried first_key 70 tracker0) first_key 3
    ≡ (if same_key first_key first_key && (3 == 70) then false else tried tracker0 first_key 3)
tried-unmark_tried_example = tried-unmark_tried tracker0 first_key first_key 70 3

abbrev provider : String → ℕ → Server
provider name priority = new_server (record {
  name = name;
  enable = true;
  optional = false;
  required = false;
  connections = 4;
  priority = priority;
})

-- Server 0 is penalised, server 1 is full, and server 2 can take a request.
abbrev providers : List Server
providers = apply_penalty 5 60 (provider "a" 0) ∷ provider "b" 1 ∷ provider "c" 2 ∷ []

abbrev channels : String → Option WorkChannel
channels name =
    if string_eq.beq name "b"
    then some (record { waiting = 8; capacity = 8 })
    else some (record { waiting = 0; capacity = 8 })

abbrev opts : DispatchOpts
opts = record { now = 9; max_art_tries = 3; max_art_opt = 0; top_only = false }

abbrev sent : DispatchTracker × Dispatched
sent = try_dispatch true true opts providers channels first_key tracker0

try_dispatch-Sent_example : Sent first_key 2 tracker0 sent.0 × SentTo opts providers channels 2
unfolding try_dispatch apply_penalty new_server
try_dispatch-Sent_example =
    try_dispatch-Sent true true opts providers channels first_key tracker0 sent.0 2 refl

select_server_lem_example :
    select_server opts providers channels two_tried true
    ≡ choice_of
        (first_ready (candidate opts providers two_tried true) 9 channels 0 providers)
        (any_candidate (candidate opts providers two_tried true) 0 providers)
select_server_lem_example = select_server_lem opts providers channels two_tried true

count_servers_lem_example : count_servers two_tried ≡ count_from (has two_tried) 0 128
unfolding set
count_servers_lem_example = count_servers_lem two_tried (omega arith) (omega arith, tt)
