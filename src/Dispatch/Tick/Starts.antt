-- ===== src/Dispatch/Tick/Starts.antt =====
-- When a pass over the jobs starts a worker (tick and launch of internal/dispatch).
use sabnzbd_go.Dispatch.Tick.Rows.{persist-Unmoved}
use sabnzbd_go.Base.{
  not, ◌||◌, ◌∙◌, Bool, String, sym, false, ◌∷◌, Bool-cases, Option-cases, arith, inl, inr, none,
  refl, some, true, ℕ, ◌+◌, ◌≡◌, ◌⊎◌,
}
use sabnzbd_go.Dispatch.Tick.{
  advanced_turn, kept_turn, turn, with_dispatcher, evict_begun, evict_cancelled_never_run,
  reconcile_residency, settle_turn, DispatchState, Outside, persist_if_changed,
}
use sabnzbd_go.Dispatch.Tick.Residency.{reconcile-Reconciled, Reconciled}
use sabnzbd_go.Dispatch.Worker.{through, claim_launched, is_run_intent, launch, launch_claimed}
use sabnzbd_go.Job.Axes.{is_latched, is_unset}
use sabnzbd_go.Job.Record.{snapshot, Job, state}
use sabnzbd_go.Sched.Doors.{advance}
use sabnzbd_go.Dispatch.Registry.{
  Idle, not_registered, removal_begun, still_live, begin_removal_if_idle, registered, Dispatcher,
  admits, id_of, put,
}
use sabnzbd_go.Sched.Queue.{Queue, running}
use sabnzbd_go.Sched.Render.{render}

abbrev claimed : ℕ → Dispatcher → Dispatcher
claimed j d = record d { launched = put d.launched (id_of d j) (some d.fresh); fresh = d.fresh + 1 }

record Launches (j : ℕ) (d : Dispatcher) : Type 0 where
  running : (render d.queue (d.jobs j)).running ≡ true
  admitted : admits d (id_of d j) ≡ true
  unclaimed : d.launched (id_of d j) ≡ none
  answer : launch j d ≡ (claimed j d, some (id_of d j, (state (d.jobs j)).state))

launch-cases : (j : ℕ) (d : Dispatcher) → (launch j d ≡ (d, none)) ⊎ Launches j d
unfolding launch launch_claimed claim_launched render
launch-cases j d = elim (Bool-cases (render d.queue (d.jobs j)).running) [
  | inr r ↦ inl (rw r refl)
  | inl r ↦ elim (Bool-cases (is_run_intent (d.jobs j).intent)) [
    | inr i ↦ inl (rw (r, i) refl)
    | inl i ↦ elim (Bool-cases (admits d (id_of d j))) [
      | inr a ↦ inl (rw (r, i, a) refl)
      | inl a ↦ elim (Option-cases (d.launched (id_of d j))) [
        | inl l ↦
            inr (record { running = r; admitted = a; unclaimed = l; answer = rw (r, i, a, l) refl })
        | inr (ch, l) ↦ inl (rw (r, i, a, l) refl)
      ]
    ]
  ]
]

-- A worker started in this turn: of an admitted job that had none, runs and is resident.
pub record Starts (j : ℕ) (w w' : DispatchState) : Type 0 where
  pub run : w'.runs ≡ (id_of w'.dispatcher j, (state (w'.dispatcher.jobs j)).state) ∷ w.runs
  pub running : (render w'.dispatcher.queue (w'.dispatcher.jobs j)).running ≡ true
  pub admitted : admits w'.dispatcher (id_of w'.dispatcher j) ≡ true
  pub resident : w'.dispatcher.resident (id_of w'.dispatcher j) ≡ true
  pub unclaimed : w.dispatcher.launched (id_of w'.dispatcher j) ≡ none

persisted-Starts :
    (o : Outside) (j : ℕ) (w u : DispatchState)
    → Starts j w u
    → Starts j w (persist_if_changed o j u).0
unfolding admits registered id_of
persisted-Starts o j w u s =
    let p = persist-Unmoved o j u in
    record {
      run = rw (p.runs, id_of, p.jobs) s.run;
      running = rw (p.queue, p.jobs) s.running;
      admitted = rw (p.by_id, p.removing, id_of, p.jobs) s.admitted;
      resident = rw (p.resident, id_of, p.jobs) s.resident;
      unclaimed = rw (id_of, p.jobs) s.unclaimed;
    }

-- What runs holds its resources.
running-holds : (q : Queue) (j : Job) → (render q j).running ≡ true → (render q j).holds ≡ true
unfolding render running
running-holds q j h = ground arith

abbrev pub Answered : ℕ → DispatchState → DispatchState → Type 0
Answered j w w' = (w'.runs ≡ w.runs) ⊎ Starts j w w'

abbrev pub key_at : ℕ → DispatchState → String
key_at j w = id_of w.dispatcher j

-- The claim and the call behind it.
launched-Starts :
    (j : ℕ) (w : DispatchState) (d : Dispatcher)
    → Reconciled (key_at j w) (render w.dispatcher.queue (w.dispatcher.jobs j)).holds w.dispatcher d
    → Launches j d
    → Starts j w (record w {
      dispatcher = claimed j d;
      runs = (id_of d j, (state (d.jobs j)).state) ∷ w.runs;
    })
unfolding admits registered id_of
launched-Starts j w d r l =
    let a : admits w.dispatcher (key_at j w) ≡ true =
      rw (← r.by_id, ← r.removing, ← r.jobs) l.admitted in
    let h : (render w.dispatcher.queue (w.dispatcher.jobs j)).holds ≡ true =
      rw (← r.queue, ← r.jobs) (running-holds d.queue (d.jobs j) l.running) in
    record {
      run = refl;
      running = l.running;
      admitted = l.admitted;
      resident = rw r.jobs (r.resident a ∙ h);
      unclaimed = rw (sym r.launched) l.unclaimed;
    }

settle_turn-Starts :
    (o : Outside) (j : ℕ) (w : DispatchState) (d : Dispatcher) (b : Bool)
    → (b ≡ true
        → Reconciled
            (key_at j w)
            (render w.dispatcher.queue (w.dispatcher.jobs j)).holds
            w.dispatcher
            d)
    → Answered j w (settle_turn o j w (d, b))
unfolding settle_turn
settle_turn-Starts o j w d false r = inl (persist-Unmoved o j (with_dispatcher w d)).runs
settle_turn-Starts o j w d true r = elim (launch-cases j d) [
  | inl e ↦ inl (rw (settle_turn, e) (persist-Unmoved o j (with_dispatcher w d)).runs)
  | inr l ↦ inr (
      rw (settle_turn, l.answer)
        (persisted-Starts o j w
          (record w {
            dispatcher = claimed j d;
            runs = (id_of d j, (state (d.jobs j)).state) ∷ w.runs;
          })
          (launched-Starts j w d (r refl) l)))
]

evict_begun-Kept :
    (o : Outside) (id : String) (w : DispatchState) (d : Dispatcher) (i : Idle)
    → (i ≡ still_live → d ≡ w.dispatcher)
    → ((evict_begun o id w (d, i)).0.runs ≡ w.runs)
      × ((evict_begun o id w (d, i)).1 ≡ false → (evict_begun o id w (d, i)).0 ≡ w)
unfolding evict_begun
evict_begun-Kept o id w d still_live h = (refl, λ e. rw (h refl) refl)
evict_begun-Kept o id w d not_registered h = (refl, λ e. cc)
evict_begun-Kept o id w d removal_begun h = ground arith

begin_removal_if_idle-same :
    (id : String) (d : Dispatcher)
    → (begin_removal_if_idle id d).1 ≡ still_live
    → (begin_removal_if_idle id d).0 ≡ d
unfolding begin_removal_if_idle
begin_removal_if_idle-same id d h = ground arith

evict-Kept :
    (o : Outside) (j : ℕ) (w : DispatchState)
    → ((evict_cancelled_never_run o j w).0.runs ≡ w.runs)
      × ((evict_cancelled_never_run o j w).1 ≡ false → (evict_cancelled_never_run o j w).0 ≡ w)
unfolding evict_cancelled_never_run
evict-Kept o j w =
    let s = snapshot (w.dispatcher.jobs j) in
    let r = begin_removal_if_idle (key_at j w) w.dispatcher in
    elim (Bool-cases (not (is_unset s.state.state) || not (is_latched s.intent))) [
      | inl h ↦ rw h (refl, λ e. refl)
      | inr h ↦ rw h (
          evict_begun-Kept o (key_at j w) w r.0 r.1
            (begin_removal_if_idle-same (key_at j w) w.dispatcher))
    ]

kept_turn-Starts :
    (o : Outside) (j : ℕ) (w u : DispatchState) (b : Bool)
    → (u.runs ≡ w.runs)
    → (b ≡ false → u ≡ w)
    → Answered j w (kept_turn o j (u, b))
unfolding kept_turn
kept_turn-Starts o j w u true e h = inl e
kept_turn-Starts o j w u false e h = rw (h refl) (
    settle_turn-Starts o j w (reconcile_residency o j w.dispatcher).0
      (reconcile_residency o j w.dispatcher).1 (reconcile-Reconciled o j w.dispatcher))

-- The job's advance does not touch the claims.
advanced-Starts :
    (j : ℕ) (w v : DispatchState) (d : Dispatcher)
    → d.launched ≡ w.dispatcher.launched
    → Answered j (with_dispatcher w d) v
    → Answered j w v
advanced-Starts j w v d e (inl h) = inl h
advanced-Starts j w v d e (inr s) = inr (record {
  run = s.run;
  running = s.running;
  admitted = s.admitted;
  resident = s.resident;
  unclaimed = rw (sym e) s.unclaimed;
})

-- A job's turn in the tick calls the runner at most once, and only for a job that is registered and not
-- being removed, had no worker, and, as the turn leaves it, runs and is resident; the call names the job's
-- state.
pub turn-Starts : (o : Outside) (j : ℕ) (w : DispatchState) → Answered j w (turn o j w)
unfolding turn advanced_turn through
turn-Starts o j w =
    let d = (through j (advance o.now) w.dispatcher).0 in
    let u = with_dispatcher w d in
    let r = evict_cancelled_never_run o j u in
    let (k, same) = evict-Kept o j u in
    elim (Option-cases (advance o.now w.dispatcher.queue (w.dispatcher.jobs j)).error) [
      | inr (e, h) ↦ inl (rw (advanced_turn, h) refl)
      | inl h ↦
          rw (advanced_turn, h)
            (advanced-Starts j w (kept_turn o j r) d refl (kept_turn-Starts o j u r.0 r.1 k same))
    ]
