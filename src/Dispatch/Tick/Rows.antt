-- ===== src/Dispatch/Tick/Rows.antt =====
-- The rows that the store has, and what the dispatcher believes of them (persistIfChanged of
-- internal/dispatch/tick.go).
use sabnzbd_go.Base.Result.{ok}
use sabnzbd_go.Dispatch.Ports.{is_yes, Persisted-discrete, Header, Persisted}
use sabnzbd_go.Dispatch.Registry.{Entry, admits, entry_for, id_of, mark_written}
use sabnzbd_go.Dispatch.Restore.{reconstruct}
use sabnzbd_go.Dispatch.Restore.RoundTrip.{state-reconstruct}
use sabnzbd_go.Job.Record.{Job, snapshot, state}
use sabnzbd_go.Job.Record.Invariant.{IsJob}
use sabnzbd_go.Base.{Bool-cases, ap, inl, inr, Option, String, arith, none, some, true, ℕ, ◌≡◌}
use sabnzbd_go.Dispatch.Tick.{
  DispatchState, Outside, is_written, persist_found, persist_if_changed, row_of, save,
}
use text.Mathlib.TextEquality.{eq_iff}

-- What a write of a job's row leaves as it is.
pub record Unmoved (w w' : DispatchState) : Type 0 where
  pub queue : w'.dispatcher.queue ≡ w.dispatcher.queue
  pub jobs : w'.dispatcher.jobs ≡ w.dispatcher.jobs
  pub by_id : w'.dispatcher.by_id ≡ w.dispatcher.by_id
  pub removing : w'.dispatcher.removing ≡ w.dispatcher.removing
  pub resident : w'.dispatcher.resident ≡ w.dispatcher.resident
  pub runs : w'.runs ≡ w.runs

save-Unmoved : (o : Outside) (p : Persisted) (w : DispatchState) → Unmoved w (save o p w).0
unfolding save mark_written
save-Unmoved o p w = ground arith

persist_found-Unmoved :
    (o : Outside) (e : Option (Header × ℕ)) (j : ℕ) (w : DispatchState)
    → Unmoved w (persist_found o e j w).0
unfolding persist_found
persist_found-Unmoved o none j w = ground arith
persist_found-Unmoved o (some (h, seq)) j w =
    let p = row_of o.stamps h seq (w.dispatcher.jobs j) in ground (arith, save-Unmoved o p w)

pub persist-Unmoved :
    (o : Outside) (j : ℕ) (w : DispatchState) → Unmoved w (persist_if_changed o j w).0
unfolding persist_if_changed
persist-Unmoved o j w = persist_found-Unmoved o (entry_for w.dispatcher (id_of w.dispatcher j)) j w

-- Whatever the dispatcher recorded as written, the store has.
abbrev pub IsRecorded : DispatchState → Type 0
IsRecorded w = (id : String) (p : Persisted) → w.dispatcher.written id ≡ some p → w.rows id ≡ some p

pub save-IsRecorded :
    (o : Outside) (p : Persisted) (w : DispatchState) → IsRecorded w → IsRecorded (save o p w).0
unfolding save mark_written
save-IsRecorded o p w v id q h = ground (arith, v id q, eq_iff p.id id)

is_yes_lem : {A : Type 0} (d : Dec A) → is_yes d ≡ true → A
unfolding is_yes
is_yes_lem (yes a) h = a
is_yes_lem (no _) h = let x : ⊥ = cc in elim x [ ]

is_written_lem :
    (last : Option Persisted) (p : Persisted) → is_written last p ≡ true → last ≡ some p
unfolding is_written
is_written_lem none p h = cc
is_written_lem (some last) p h = ap some (is_yes_lem (Persisted-discrete last p) h)

-- A row that is saved, or was.
persist_found-rows :
    (o : Outside) (h : Header) (seq j : ℕ) (w : DispatchState)
    → IsRecorded w
    → admits w.dispatcher (id_of w.dispatcher j) ≡ true
    → (persist_found o (some (h, seq)) j w).1 ≡ true
    → (persist_found o (some (h, seq)) j w).0.rows (id_of w.dispatcher j)
      ≡ some (row_of o.stamps h seq (w.dispatcher.jobs j))
unfolding persist_found save row_of id_of
persist_found-rows o h seq j w v a s =
    let p = row_of o.stamps h seq (w.dispatcher.jobs j) in
    elim (Bool-cases (is_written (w.dispatcher.written p.id) p)) [
      | inl e ↦ rw e (v p.id p (is_written_lem (w.dispatcher.written p.id) p e))
      | inr e ↦ elim (Bool-cases o.saved) [
        | inl h' ↦ rw (e, a, h') (ground (arith, eq_iff p.id p.id))
        | inr h' ↦ cc (rw (e, save, a, h') at s)
      ]
    ]

persist-rows :
    (o : Outside) (j : ℕ) (w : DispatchState) (e : Entry)
    → IsRecorded w
    → admits w.dispatcher (id_of w.dispatcher j) ≡ true
    → w.dispatcher.by_id (id_of w.dispatcher j) ≡ some e
    → (persist_if_changed o j w).1 ≡ true
    → (persist_if_changed o j w).0.rows (id_of w.dispatcher j)
      ≡ some (row_of o.stamps e.header e.seq (w.dispatcher.jobs j))
unfolding persist_if_changed entry_for
persist-rows o j w e v a b s =
    rw (persist_found, b) (persist_found-rows o e.header e.seq j w v a (rw b at s))

-- Once a sound job's row is persisted without an error, whether it was written now or was known to be
-- unchanged, the store has a row from which a restart rebuilds the job: with what it showed, its intent
-- and its id, and without a lease.
pub persist-reconstruct :
    (o : Outside) (j now : ℕ) (w : DispatchState) (e : Entry)
    → IsRecorded w
    → IsJob (w.dispatcher.jobs j)
    → admits w.dispatcher (id_of w.dispatcher j) ≡ true
    → w.dispatcher.by_id (id_of w.dispatcher j) ≡ some e
    → (persist_if_changed o j w).1 ≡ true
    → (p : Persisted) × ((persist_if_changed o j w).0.rows (id_of w.dispatcher j) ≡ some p)
      × (j' : Job) × (reconstruct p.id p.header.name p.policy p.state p.intent now ≡ ok j')
      × (state j' ≡ state (w.dispatcher.jobs j))
      × (j'.intent ≡ (w.dispatcher.jobs j).intent)
      × (j'.id ≡ id_of w.dispatcher j)
      × (j'.lease ≡ none)
unfolding row_of snapshot id_of
persist-reconstruct o j now w e v k a b s =
    let u = w.dispatcher.jobs j in
    let (u', built, shown, meant, named, free) = state-reconstruct u e.header.name u.policy now k in
    (
      row_of o.stamps e.header e.seq u,
      persist-rows o j w e v a b s,
      u',
      built,
      shown,
      meant,
      named,
      free,
    )
