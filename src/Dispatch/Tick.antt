-- ===== src/Dispatch/Tick.antt =====
-- internal/dispatch/tick.go: one pass of the dispatcher over its jobs.
use sabnzbd_go.Content.Stamps.Ordered.{finished, started}
use sabnzbd_go.Dispatch.Ports.{is_yes, Header, Persisted, Persisted-discrete}
use sabnzbd_go.Base.{
  if◌then◌else◌, Bool, List, Option, String, [], false, none, not, some, true, ℕ, ◌&&◌, ◌==◌, ◌||◌,
  ◌∷◌,
}
use sabnzbd_go.Dispatch.Registry.{
  Dispatcher, Idle, abort, admits, begin_removal_if_idle, deregister, entry_for, id_of,
  mark_not_resident, mark_resident, mark_written, not_registered, put, removal_begun,
  snapshot_order, still_live,
}
use sabnzbd_go.Dispatch.Worker.{launch, through}
use sabnzbd_go.Job.Axes.{State, failed, is_latched, is_unset}
use sabnzbd_go.Job.Error.{Err}
use sabnzbd_go.Job.Record.{Job, snapshot}
use sabnzbd_go.Sched.Doors.{advance, settle}
use sabnzbd_go.Sched.Render.{render}
pub mod Recorded
pub mod Rows
pub mod Starts
pub mod Residency

-- The times and figures of a job that only its row shows (internal/job): what the job's getters answer.
pub record Stamps : Type 0 where
  pub started : ℕ
  pub finished : ℕ
  pub release_reason : String
  pub recovery_bytes : ℕ

-- What Residency.Hydrate answers: the content is there, the context is over, or it cannot be loaded.
pub data Hydrated : Type 0 where
  loaded interrupted broken : Hydrated

-- How the world outside answers the calls that one pass makes for a job.
pub record Outside : Type 0 where
  pub now : ℕ
  pub stamps : Stamps
  pub hydrated : Hydrated
  pub saved : Bool
  pub deleted : Bool

-- The dispatcher, and the rows that the store has.
pub record DispatchState : Type 0 where
  pub dispatcher : Dispatcher
  pub rows : String → Option Persisted
  -- Runner.Run's calls, newest first
  pub runs : List (String × State)

abbrev pub with_dispatcher : DispatchState → Dispatcher → DispatchState
with_dispatcher w d = record w { dispatcher = d }

unfoldable pub row_of : Stamps → Header → ℕ → Job → Persisted
unfolding snapshot
row_of t h seq j = record {
  id = j.id;
  sort_key = seq;
  header = h;
  policy = j.policy;
  state = (snapshot j).state;
  intent = (snapshot j).intent;
  download_started = t.started;
  download_finished = t.finished;
  par2_release_reason = t.release_reason;
  recovery_bytes = t.recovery_bytes;
}

-- `last, ok := d.lastWritten(id); ok && last == p`
unfoldable pub is_written : Option Persisted → Persisted → Bool
unfolding Persisted-discrete is_yes
is_written none p = false
is_written (some last) p = is_yes (Persisted-discrete last p)

-- The store's write of a row, and the record of it; an error of Save changes nothing.
unfoldable pub save : Outside → Persisted → DispatchState → DispatchState × Bool
unfolding admits mark_written
save o p w =
    if not (admits w.dispatcher p.id) then (w, true) else if not o.saved then (w, false) else (
      record w { rows = put w.rows p.id (some p); dispatcher = mark_written p w.dispatcher },
      true,
    )

-- The Bool is false where the source returns an error.
unfoldable pub persist_found :
    Outside → Option (Header × ℕ) → ℕ → DispatchState → DispatchState × Bool
unfolding is_written row_of save
persist_found o none j w = (w, true)
persist_found o (some (h, seq)) j w =
    let p = row_of o.stamps h seq (w.dispatcher.jobs j) in
    if is_written (w.dispatcher.written p.id) p then (w, true) else save o p w

unfoldable pub persist_if_changed : Outside → ℕ → DispatchState → DispatchState × Bool
unfolding persist_found entry_for id_of
persist_if_changed o j w = persist_found o (entry_for w.dispatcher (id_of w.dispatcher j)) j w

-- Behind the removal's begin: the row goes first, and then the job.
unfoldable pub evict_begun :
    Outside → String → DispatchState → Dispatcher × Idle → DispatchState × Bool
unfolding abort deregister
evict_begun o id w (d, still_live) = (with_dispatcher w d, false)
evict_begun o id w (d, not_registered) = (with_dispatcher w d, true)
evict_begun o id w (d, removal_begun) =
    if not o.deleted
    then (with_dispatcher w (abort id d), true)
    else (record w { rows = put w.rows id none; dispatcher = deregister id d }, true)

unfoldable pub evict_cancelled_never_run : Outside → ℕ → DispatchState → DispatchState × Bool
unfolding evict_begun begin_removal_if_idle id_of snapshot is_unset is_latched
evict_cancelled_never_run o j w =
    let s = snapshot (w.dispatcher.jobs j) in
    if not (is_unset s.state.state) || not (is_latched s.intent)
    then (w, false)
    else evict_begun o (id_of w.dispatcher j) w
        (begin_removal_if_idle (id_of w.dispatcher j) w.dispatcher)

-- The content could not be loaded: the job fails, unless the settlement fails.
unfoldable pub hydrate_broken : String → Dispatcher × Option Err → Dispatcher × Bool
unfolding mark_not_resident
hydrate_broken id (d, some e) = (d, false)
hydrate_broken id (d, none) = (mark_not_resident id d, false)

unfoldable pub hydrate : Outside → ℕ → Hydrated → Dispatcher → Dispatcher × Bool
unfolding mark_resident id_of hydrate_broken through
hydrate o j loaded d = (mark_resident (id_of d j) d, true)
hydrate o j interrupted d = (d, false)
hydrate o j broken d = hydrate_broken (id_of d j) (through j (settle o.now failed) d)

unfoldable pub reconcile_residency : Outside → ℕ → Dispatcher → Dispatcher × Bool
unfolding hydrate render id_of mark_not_resident
reconcile_residency o j d =
    let h = (render d.queue (d.jobs j)).holds in
    let r = d.resident (id_of d j) in
    if h && not r
    then hydrate o j o.hydrated d
    else if not h && r
    then (mark_not_resident (id_of d j) d, true)
    else (d, true)

abbrev pub run_of : Option (String × State) → List (String × State) → List (String × State)
run_of none runs = runs
run_of (some r) runs = r ∷ runs

-- The end of a job's turn: its worker if its content is there, and its row in any case.
unfoldable pub settle_turn : Outside → ℕ → DispatchState → Dispatcher × Bool → DispatchState
unfolding persist_if_changed launch
settle_turn o j w (d, false) = (persist_if_changed o j (with_dispatcher w d)).0
settle_turn o j w (d, true) =
    let (d', r) = launch j d in
    (persist_if_changed o j (record w { dispatcher = d'; runs = run_of r w.runs })).0

unfoldable pub kept_turn : Outside → ℕ → DispatchState × Bool → DispatchState
unfolding settle_turn reconcile_residency
kept_turn o j (w, true) = w
kept_turn o j (w, false) = settle_turn o j w (reconcile_residency o j w.dispatcher)

unfoldable pub advanced_turn : Outside → ℕ → DispatchState → Dispatcher × Option Err → DispatchState
unfolding kept_turn evict_cancelled_never_run
advanced_turn o j w (d, some e) = with_dispatcher w d
advanced_turn o j w (d, none) = kept_turn o j (evict_cancelled_never_run o j (with_dispatcher w d))

-- The body of tick's loop.
unfoldable pub turn : Outside → ℕ → DispatchState → DispatchState
unfolding advanced_turn through advance
turn o j w = advanced_turn o j w (through j (advance o.now) w.dispatcher)

unfoldable pub turns : List ℕ → (ℕ → Outside) → DispatchState → DispatchState
unfolding turn
turns [] o w = w
turns (j ∷ js) o w = turns js o (turn (o j) j w)

unfoldable pub tick : (ℕ → Outside) → DispatchState → DispatchState
unfolding turns snapshot_order
tick o w = turns (snapshot_order w.dispatcher) o w
