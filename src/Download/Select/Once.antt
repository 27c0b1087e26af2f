-- ===== src/Download/Select/Once.antt =====
-- A request that is sent (tryDispatch of internal/downloader/dispatch.go).
use sabnzbd_go.Download.Select.{
  select_server, Dispatched, Choice, chosen, exhausted, has_room, is_over, send, sent_to,
  try_dispatch, try_later, DispatchOpts, WorkChannel, candidate, is_server_candidate, mask_or_empty,
}
use sabnzbd_go.Download.Select.Chooses.{
  any_candidate, select_server_lem, choice_of, first_ready, is_ready,
}
use sabnzbd_go.Base.{
  ltb, ap, ◌∙◌, if◌then◌else◌, Bool, Bool-cases, List, Option, String, [], arith, false, get_elem?,
  inl, inr, is_some, none, refl, some, suc, sym, true, ℕ, ◌&&◌, ◌+◌, ◌==◌, ◌∷◌, ◌≡◌,
}
use sabnzbd_go.Download.Server.{active, Server}
use sabnzbd_go.Sched.World.{start}
use sabnzbd_go.Download.Mask.{set, empty_mask, has, is_none_tried, ServerMask}
use sabnzbd_go.Download.Mask.Laws.{has-is_none_tried, has-set}
use sabnzbd_go.Download.Tracker.Tried.{same_key_iff, has_in, lookup-store, tried}
use sabnzbd_go.Download.Tracker.{
  ArticleKey, DispatchTracker, in_flight_locked, increment_in_flight_locked, lookup, same_key,
  set_tried_locked,
}

-- The chosen server is ready, and stands at its index.
first_ready-is_ready :
    (c : ℕ → Server → Bool) (now : ℕ) (work : String → Option WorkChannel) (start idx : ℕ)
    (servers : List Server)
    → first_ready c now work start servers ≡ some idx
    → (s : Server) × (n : ℕ) × (idx ≡ start + n)
      × (get_elem? servers n ≡ some s)
      × (is_ready c now work idx s ≡ true)
unfolding first_ready
first_ready-is_ready c now work start idx [] h = cc
first_ready-is_ready c now work start idx (s ∷ rest) h =
    elim (Bool-cases (is_ready c now work start s)) [
      | inl r ↦
          let e : start ≡ idx = cc (rw (first_ready, r) at h) in
          (s, 0, omega arith, refl, rw (sym e) r)
      | inr r ↦
          let (x, n, e, g, y) =
            first_ready-is_ready c now work (start + 1) idx rest (rw (first_ready, r) at h) in
          (x, suc n, omega arith, g, y)
    ]

-- What the tries so far say: a candidate was not tried.
candidate-untried :
    (opts : DispatchOpts) (servers : List Server) (seen : Option ServerMask) (idx : ℕ) (s : Server)
    → candidate opts servers (mask_or_empty seen) (is_some seen) idx s ≡ true
    → has_in seen idx ≡ false
unfolding candidate is_server_candidate mask_or_empty has_in
candidate-untried opts servers none idx s h = refl
candidate-untried opts servers (some m) idx s h = ground arith

candidate-tried :
    (opts : DispatchOpts) (servers : List Server) (key : ArticleKey) (t : DispatchTracker) (idx : ℕ)
    (s : Server)
    → let seen = lookup key t.try_list in
      candidate opts servers (mask_or_empty seen) (is_some seen) idx s ≡ true
      → tried t key idx ≡ false
unfolding tried
candidate-tried opts servers key t idx s h =
    candidate-untried opts servers (lookup key t.try_list) idx s h

-- What a send leaves in the tracker.
pub record Sent (key : ArticleKey) (idx : ℕ) (t t' : DispatchTracker) : Type 0 where
  pub was_idle : in_flight_locked key t ≡ 0
  pub was_untried : tried t key idx ≡ false
  pub in_flight :
      (j : ArticleKey)
      → in_flight_locked j t' ≡ (if same_key key j then 1 else in_flight_locked j t)
  pub marked :
      (j : ArticleKey) (s : ℕ)
      → tried t' j s ≡ (if same_key key j && (s == idx) then true else tried t j s)

in_flight-increment :
    (k j : ArticleKey) (t : DispatchTracker)
    → in_flight_locked j (increment_in_flight_locked k t)
      ≡ (if same_key k j then in_flight_locked k t + 1 else in_flight_locked j t)
unfolding increment_in_flight_locked
in_flight-increment k j t =
    let e = lookup-store k j (in_flight_locked k t + 1) t.in_flight in
    elim (Bool-cases (same_key k j)) [
      | inl g ↦ rw (in_flight_locked, e, g) refl
      | inr g ↦ rw (in_flight_locked, e, g) refl
    ]

-- The zero mask has no server, and so says the same as no entry.
has-mask_or_empty : (seen : Option ServerMask) (s : ℕ) → has (mask_or_empty seen) s ≡ has_in seen s
unfolding mask_or_empty has_in is_none_tried
has-mask_or_empty none s = has-is_none_tried empty_mask s refl
has-mask_or_empty (some m) s = refl

tried-set_tried_locked :
    (k j : ArticleKey) (m : ServerMask) (s : ℕ) (t : DispatchTracker)
    → tried (set_tried_locked k m t) j s ≡ (if same_key k j then has m s else tried t j s)
unfolding tried set_tried_locked has_in
tried-set_tried_locked k j m s t =
    let e = lookup-store k j m t.try_list in
    elim (Bool-cases (same_key k j)) [ inl g ↦ rw (e, g) refl | inr g ↦ rw (e, g) refl ]

tried-marked :
    (k j : ArticleKey) (idx s : ℕ) (t : DispatchTracker)
    → tried (set_tried_locked k (set (mask_or_empty (lookup k t.try_list)) idx) t) j s
      ≡ (if same_key k j && (s == idx) then true else tried t j s)
unfolding tried
tried-marked k j idx s t =
    let seen = lookup k t.try_list in
    elim (Bool-cases (same_key k j)) [
      | inl g ↦
          let same : tried t j s ≡ tried t k s = ap (λ x. tried t x s) (sym (same_key_iff k j g)) in
          tried-set_tried_locked k j (set (mask_or_empty seen) idx) s t
          ∙ rw (g, has-set (mask_or_empty seen) idx s, has-mask_or_empty seen s, same) refl
      | inr g ↦ tried-set_tried_locked k j (set (mask_or_empty seen) idx) s t ∙ rw g refl
    ]

marked-Sent :
    (key : ArticleKey) (idx : ℕ) (t : DispatchTracker)
    → in_flight_locked key t ≡ 0
    → tried t key idx ≡ false
    → Sent key idx t (
        increment_in_flight_locked key
          (set_tried_locked key (set (mask_or_empty (lookup key t.try_list)) idx) t))
unfolding tried set_tried_locked increment_in_flight_locked in_flight_locked
marked-Sent key idx t a b = record {
  was_idle = a;
  was_untried = b;
  in_flight = λ j.
      in_flight-increment key j
        (set_tried_locked key (set (mask_or_empty (lookup key t.try_list)) idx) t)
      ∙ rw a refl;
  marked = λ j s. tried-marked key j idx s t;
}

is_ready_lem :
    (c : ℕ → Server → Bool) (now : ℕ) (work : String → Option WorkChannel) (idx : ℕ) (s : Server)
    → is_ready c now work idx s ≡ true
    → (c idx s ≡ true) × (active now s ≡ true) × (has_room (work s.cfg.name) ≡ true)
unfolding is_ready
is_ready_lem c now work idx s h = ground arith

-- The server that a send reports.
pub record SentTo (opts : DispatchOpts) (servers : List Server) (work : String → Option WorkChannel)
    (idx : ℕ) : Type 0 where
  pub server : Server
  pub stands : get_elem? servers idx ≡ some server
  pub is_active : active opts.now server ≡ true
  pub fits : has_room (work server.cfg.name) ≡ true

sent-cases :
    (accepted : Bool) (key : ArticleKey) (m : ServerMask) (t t' : DispatchTracker) (c : Choice)
    (idx : ℕ)
    → send accepted key m t c ≡ (t', sent_to idx)
    → (c ≡ chosen idx) × (t' ≡ increment_in_flight_locked key (set_tried_locked key (set m idx) t))
unfolding send
sent-cases accepted key m t t' exhausted idx h = cc
sent-cases accepted key m t t' try_later idx h = cc
sent-cases true key m t t' (chosen i) idx h =
    let e : i ≡ idx = cc (ap (λ (r : DispatchTracker × Dispatched). r.1) h) in
    (ap chosen e, rw (sym e) (sym (ap (λ r. r.0) h)))
sent-cases false key m t t' (chosen i) idx h = cc

choice_of-chosen :
    (o : Option ℕ) (any : Bool) (idx : ℕ) → choice_of o any ≡ chosen idx → o ≡ some idx
unfolding choice_of
choice_of-chosen o any idx h = ground arith

-- A request is only sent for an article that has none outstanding, to a configured server that the article
-- was not tried on, that is active and whose channel has room. Afterwards the article has exactly one request
-- outstanding and counts as tried on that server too, and no other article's count or tries change.
pub try_dispatch-Sent :
    (live accepted : Bool) (opts : DispatchOpts) (servers : List Server)
    (work : String → Option WorkChannel) (key : ArticleKey) (t t' : DispatchTracker) (idx : ℕ)
    → try_dispatch live accepted opts servers work key t ≡ (t', sent_to idx)
    → Sent key idx t t' × SentTo opts servers work idx
unfolding try_dispatch
try_dispatch-Sent live accepted opts servers work key t t' idx h =
    elim (Bool-cases (ltb 0 (in_flight_locked key t))) [
      | inl b ↦ cc (rw (try_dispatch, b) at h)
      | inr b ↦ elim (Bool-cases live) [
        | inr l ↦ cc (rw (try_dispatch, b, l) at h)
        | inl l ↦ elim (Bool-cases (is_over opts (lookup key t.try_list))) [
          | inl o ↦ cc (rw (try_dispatch, b, l, o) at h)
          | inr o ↦
              let seen = lookup key t.try_list in
              let m = mask_or_empty seen in
              let c = candidate opts servers m (is_some seen) in
              let (picked, e) =
                sent-cases accepted key m t t' (select_server opts servers work m (is_some seen))
                  idx (rw (try_dispatch, b, l, o) at h) in
              let (s, n, p, g, r) = first_ready-is_ready c opts.now work 0 idx servers (
                choice_of-chosen (first_ready c opts.now work 0 servers) (any_candidate c 0 servers)
                  idx (sym (select_server_lem opts servers work m (is_some seen)) ∙ picked)) in
              let (y, a, f) = is_ready_lem c opts.now work idx s r in
              let q : idx ≡ n = omega (arith, p) in
              (
                rw e (
                    marked-Sent key idx t (ground arith)
                      (candidate-tried opts servers key t idx s y)),
                record { server = s; stands = rw q g; is_active = a; fits = f },
              )
        ]
      ]
    ]
