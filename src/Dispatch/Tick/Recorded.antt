-- ===== src/Dispatch/Tick/Recorded.antt =====
-- A pass over the jobs keeps the record of written rows true (tick of internal/dispatch).
use sabnzbd_go.Base.{
  Bool, List, Option-cases, [], false, true, ◌∷◌, Bool-cases, Option, String, arith, inl, inr, none,
  not, refl, some, ℕ, ◌||◌, ◌≡◌,
}
use sabnzbd_go.Dispatch.Registry.{
  snapshot_order, Dispatcher, Idle, abort, begin_removal_if_idle, begin_removal_locked,
  clear_launched, deregister, entry_for, erase, id_of, mark_not_resident, mark_resident,
  not_registered, removal_begun, still_live,
}
use sabnzbd_go.Dispatch.Tick.{
  advanced_turn, kept_turn, run_of, settle_turn, tick, turn, turns, with_dispatcher, DispatchState,
  Hydrated, Outside, broken, evict_begun, evict_cancelled_never_run, hydrate, hydrate_broken,
  interrupted, is_written, loaded, persist_found, persist_if_changed, reconcile_residency, row_of,
}
use sabnzbd_go.Sched.Doors.{advance}
use sabnzbd_go.Dispatch.Ports.{Header}
use sabnzbd_go.Dispatch.Tick.Rows.{IsRecorded, save-IsRecorded}
use sabnzbd_go.Dispatch.Worker.{claim_launched, launch, launch_claimed, through}
use sabnzbd_go.Job.Axes.{is_latched, is_unset}
use sabnzbd_go.Job.Record.{snapshot}
use text.Mathlib.TextEquality.{eq_iff}

persist_found-IsRecorded :
    (o : Outside) (e : Option (Header × ℕ)) (j : ℕ) (w : DispatchState)
    → IsRecorded w
    → IsRecorded (persist_found o e j w).0
unfolding persist_found
persist_found-IsRecorded o none j w v = v
persist_found-IsRecorded o (some (h, seq)) j w v =
    let p = row_of o.stamps h seq (w.dispatcher.jobs j) in
    elim (Bool-cases (is_written (w.dispatcher.written p.id) p)) [
      | inl e ↦ rw e v
      | inr e ↦ rw e (save-IsRecorded o p w v)
    ]

persist-IsRecorded :
    (o : Outside) (j : ℕ) (w : DispatchState)
    → IsRecorded w
    → IsRecorded (persist_if_changed o j w).0
unfolding persist_if_changed
persist-IsRecorded o j w v =
    persist_found-IsRecorded o (entry_for w.dispatcher (id_of w.dispatcher j)) j w v

evict_begun-IsRecorded :
    (o : Outside) (id : String) (w : DispatchState) (d : Dispatcher) (i : Idle)
    → d.written ≡ w.dispatcher.written
    → IsRecorded w
    → IsRecorded (evict_begun o id w (d, i)).0
unfolding evict_begun
evict_begun-IsRecorded o id w d still_live e v = rw e v
evict_begun-IsRecorded o id w d not_registered e v = rw e v
evict_begun-IsRecorded o id w d removal_begun e v = elim (Bool-cases o.deleted) [
  | inr h ↦ rw (h, abort, e) v
  | inl h ↦
      rw (h, deregister, erase, clear_launched, e) (λ x p q. ground (arith, v x p, eq_iff id x))
]

begin_removal_if_idle-written :
    (id : String) (d : Dispatcher) → (begin_removal_if_idle id d).0.written ≡ d.written
unfolding begin_removal_if_idle begin_removal_locked
begin_removal_if_idle-written id d = ground arith

evict-IsRecorded :
    (o : Outside) (j : ℕ) (w : DispatchState)
    → IsRecorded w
    → IsRecorded (evict_cancelled_never_run o j w).0
unfolding evict_cancelled_never_run
evict-IsRecorded o j w v =
    let s = snapshot (w.dispatcher.jobs j) in
    let id = id_of w.dispatcher j in
    let r = begin_removal_if_idle id w.dispatcher in
    elim (Bool-cases (not (is_unset s.state.state) || not (is_latched s.intent))) [
      | inl h ↦ rw h v
      | inr h ↦
          rw h (
            evict_begun-IsRecorded o id w r.0 r.1 (begin_removal_if_idle-written id w.dispatcher) v)
    ]

hydrate-written :
    (o : Outside) (j : ℕ) (x : Hydrated) (d : Dispatcher) → (hydrate o j x d).0.written ≡ d.written
unfolding hydrate mark_resident hydrate_broken through mark_not_resident
hydrate-written o j loaded d = ground arith
hydrate-written o j interrupted d = refl
hydrate-written o j broken d = ground arith

reconcile-written :
    (o : Outside) (j : ℕ) (d : Dispatcher) → (reconcile_residency o j d).0.written ≡ d.written
unfolding reconcile_residency mark_not_resident
reconcile-written o j d = ground (arith, hydrate-written o j o.hydrated d)

launch-written : (j : ℕ) (d : Dispatcher) → (launch j d).0.written ≡ d.written
unfolding launch launch_claimed claim_launched
launch-written j d = ground arith

settle_turn-IsRecorded :
    (o : Outside) (j : ℕ) (w : DispatchState) (d : Dispatcher) (b : Bool)
    → d.written ≡ w.dispatcher.written
    → IsRecorded w
    → IsRecorded (settle_turn o j w (d, b))
unfolding settle_turn
settle_turn-IsRecorded o j w d false e v =
    persist-IsRecorded o j (record w { dispatcher = d }) (rw e v)
settle_turn-IsRecorded o j w d true e v =
    let (d', r) = launch j d in
    persist-IsRecorded o j (record w { dispatcher = d'; runs = run_of r w.runs })
      (rw (launch-written j d, e) v)

kept_turn-IsRecorded :
    (o : Outside) (j : ℕ) (w : DispatchState) (b : Bool)
    → IsRecorded w
    → IsRecorded (kept_turn o j (w, b))
unfolding kept_turn
kept_turn-IsRecorded o j w true v = v
kept_turn-IsRecorded o j w false v =
    let r = reconcile_residency o j w.dispatcher in
    settle_turn-IsRecorded o j w r.0 r.1 (reconcile-written o j w.dispatcher) v

turn-IsRecorded : (o : Outside) (j : ℕ) (w : DispatchState) → IsRecorded w → IsRecorded (turn o j w)
unfolding turn advanced_turn through
turn-IsRecorded o j w v =
    let u = with_dispatcher w (through j (advance o.now) w.dispatcher).0 in
    let r = evict_cancelled_never_run o j u in
    elim (Option-cases (advance o.now w.dispatcher.queue (w.dispatcher.jobs j)).error) [
      | inr (e, h) ↦ rw (advanced_turn, h) v
      | inl h ↦ rw (advanced_turn, h) (kept_turn-IsRecorded o j r.0 r.1 (evict-IsRecorded o j u v))
    ]

turns-IsRecorded :
    (js : List ℕ) (o : ℕ → Outside) (w : DispatchState) → IsRecorded w → IsRecorded (turns js o w)
unfolding turns
turns-IsRecorded [] o w v = v
turns-IsRecorded (j ∷ js) o w v =
    turns-IsRecorded js o (turn (o j) j w) (turn-IsRecorded (o j) j w v)

-- However the store, the residency and the runner answer during a tick, the rows that the dispatcher has
-- recorded as written are, after the tick as before it, the store's rows: no failed write is recorded
-- and no evicted row is kept on record.
pub tick-IsRecorded : (o : ℕ → Outside) (w : DispatchState) → IsRecorded w → IsRecorded (tick o w)
unfolding tick
tick-IsRecorded o w v = turns-IsRecorded (snapshot_order w.dispatcher) o w v
