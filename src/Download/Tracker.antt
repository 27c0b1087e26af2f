-- ===== src/Download/Tracker.antt =====
-- internal/downloader/tracker.go: dispatchTracker. A Go map is a list of its entries, no two with one
-- key, and a method that takes the lock is one atomic step.
use sabnzbd_go.Base.{
  if◌then◌else◌, Bool, List, Option, String, [], leb, none, some, ℕ, ◌&&◌, ◌+◌, ◌-◌, ◌==◌, ◌∷◌,
}
use sabnzbd_go.Base.Keys.{string_eq}
use sabnzbd_go.Download.Mask.{ServerMask, is_none_tried, unset}
pub mod Tried

pub record ArticleKey : Type 0 where
  pub job_id : String
  pub art_idx : ℕ

abbrev pub same_key : ArticleKey → ArticleKey → Bool
same_key a b = string_eq.beq a.job_id b.job_id && (a.art_idx == b.art_idx)

unfoldable pub lookup {ℓ} : {V : Type ℓ} → ArticleKey → List (ArticleKey × V) → Option V
lookup k [] = none
lookup k ((x, v) ∷ rest) = let later = lookup k rest in if same_key x k then some v else later

unfoldable pub store {ℓ} :
    {V : Type ℓ} → ArticleKey → V → List (ArticleKey × V) → List (ArticleKey × V)
store k v [] = (k, v) ∷ []
store k v ((x, w) ∷ rest) =
    let later = store k v rest in if same_key x k then (x, v) ∷ rest else (x, w) ∷ later

unfoldable pub delete {ℓ} :
    {V : Type ℓ} → ArticleKey → List (ArticleKey × V) → List (ArticleKey × V)
delete k [] = []
delete k ((x, w) ∷ rest) =
    let later = delete k rest in if same_key x k then later else (x, w) ∷ later

unfoldable pub delete_job {ℓ} :
    {V : Type ℓ} → String → List (ArticleKey × V) → List (ArticleKey × V)
delete_job id [] = []
delete_job id ((x, w) ∷ rest) =
    let later = delete_job id rest in if string_eq.beq x.job_id id then later else (x, w) ∷ later

pub record DispatchTracker : Type 0 where
  pub try_list : List (ArticleKey × ServerMask)
  pub in_flight : List (ArticleKey × ℕ)

abbrev pub new_dispatch_tracker : DispatchTracker
new_dispatch_tracker = record { try_list = []; in_flight = [] }

-- `m.inFlight[key]`, 0 where there is none.
unfoldable pub in_flight_locked : ArticleKey → DispatchTracker → ℕ
unfolding lookup
in_flight_locked k t = elim (lookup k t.in_flight) [ none ↦ 0 | some n ↦ n ]

unfoldable pub increment_in_flight_locked : ArticleKey → DispatchTracker → DispatchTracker
unfolding in_flight_locked store
increment_in_flight_locked k t = record t {
  in_flight = store k (in_flight_locked k t + 1) t.in_flight;
}

unfoldable pub decrement_in_flight : ArticleKey → DispatchTracker → DispatchTracker
unfolding in_flight_locked store delete
decrement_in_flight k t =
    if leb (in_flight_locked k t) 1
    then record t { in_flight = delete k t.in_flight }
    else record t { in_flight = store k (in_flight_locked k t - 1) t.in_flight }

unfoldable pub set_tried_locked : ArticleKey → ServerMask → DispatchTracker → DispatchTracker
unfolding store
set_tried_locked k mask t = record t { try_list = store k mask t.try_list }

-- With the mask of the entry, where there is one.
unfoldable pub unmark_in : ArticleKey → ℕ → DispatchTracker → Option ServerMask → DispatchTracker
unfolding store delete unset is_none_tried
unmark_in k server t none = t
unmark_in k server t (some mask) =
    if is_none_tried (unset mask server)
    then record t { try_list = delete k t.try_list }
    else record t { try_list = store k (unset mask server) t.try_list }

unfoldable pub unmark_tried : ArticleKey → ℕ → DispatchTracker → DispatchTracker
unfolding lookup unmark_in
unmark_tried k server t = unmark_in k server t (lookup k t.try_list)

unfoldable pub clear_tried : ArticleKey → DispatchTracker → DispatchTracker
unfolding delete
clear_tried k t = record t { try_list = delete k t.try_list }

unfoldable pub clear_job : String → DispatchTracker → DispatchTracker
unfolding delete_job
clear_job id t = record {
  try_list = delete_job id t.try_list;
  in_flight = delete_job id t.in_flight;
}
