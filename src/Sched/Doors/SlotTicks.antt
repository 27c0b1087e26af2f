-- ===== src/Sched/Doors/SlotTicks.antt =====
-- Advance, Retry and Settle (internal/sched/{advance,cancel,settle}.go) against pool B.
use sabnzbd_go.Base.{
  ℕ, ◌≡◌, refl, true, false, Bool, Bool-cases, inl, inr, Option, none, some, arith, is_some, not,
  ◌&&◌, if◌then◌else◌, String, ◌∷◌,
}
use sabnzbd_go.Sched.Doors.Quiet.{open_of_tests}
use sabnzbd_go.Job.Error.{not_settled, cancel_reserved, Err}
use sabnzbd_go.Base.Result.{Result, ok, err}
use sabnzbd_go.Base.Keys.{string_eq}
use sabnzbd_go.Job.Axes.{State, is_latched, is_unset, is_settled, cancelled, Outcome, is_cancelled}
use sabnzbd_go.Job.Spine.{is_correctness, is_production}
use sabnzbd_go.Job.Record.{
  Job, Snapshot, snapshot, snapshot_open, state, door_transition, door_cross,
}
use sabnzbd_go.Sched.Queue.{Queue, holds, running, gated_by}
use sabnzbd_go.Sched.Doors.{
  after, advance, reclaim_lease, make_runnable, move_on, finish_cancel, settle, retry, moved_to,
  move_to, crossed_to, grant_for, cancel_interrupts,
}
use sabnzbd_go.Sched.Doors.Slots.{
  SlotStep, stray, released, for_granted, freed-SlotStep, kept-SlotStep, from_job-SlotStep,
  begun-SlotStep, settle_locked-SlotStep, transition_there, cross_there, same_place, park-SlotStep,
}

module _ (k : String) (q : Queue) (j : Job) (other : string_eq.beq j.id k ≡ false) where
  moved_to-SlotStep :
      (to : State) (r : Result Err Job)
      → snapshot_open (snapshot j) ≡ true
      → let (q', j', got) = grant_for q j to in
        got ≡ true
        → door_transition to j' ≡ r
        → SlotStep k q j (moved_to q' j' (state j).state to r)
  unfolding moved_to
  moved_to-SlotStep to (ok j'') w g h =
      let a = for_granted k q j other to in
      let (there, live, same, _, _) = transition_there to (grant_for q j to).1 j'' h in
      let f = released k (grant_for q j to).0 j'' (rw (same, a.3) other) to in ground arith
  moved_to-SlotStep to (err e) w g h =
      let a = for_granted k q j other to in
      let f =
        released k (grant_for q j to).0 (grant_for q j to).1 (rw (a.3) other) (state j).state in
      let (place, live) = same_place j (grant_for q j to).1 a.4 in ground arith

  move_to-SlotStep :
      (to : State)
      → snapshot_open (snapshot j) ≡ true
      → stray q j ≡ false
      → SlotStep k q j (move_to q j (state j).state to)
  unfolding move_to
  move_to-SlotStep to w n = elim (Bool-cases (grant_for q j to).2) [
    | inl h ↦ rw h (moved_to-SlotStep to _ w h refl)
    | inr h ↦
        let a = for_granted k q j other to in
        let (place, live) = same_place j (grant_for q j to).1 a.4 in rw h (ground arith)
  ]

  make_runnable-SlotStep :
      snapshot_open (snapshot j) ≡ true
      → stray q j ≡ false
      → SlotStep k q j (make_runnable (snapshot j) q j)
  unfolding make_runnable snapshot
  make_runnable-SlotStep w n = elim (Bool-cases (holds q j.id (snapshot j))) [
    | inl h ↦ rw h (kept-SlotStep k q j other q j none n refl refl refl)
    | inr h ↦ rw h (elim (Bool-cases (is_some (gated_by q (snapshot j)))) [
      | inl g ↦ rw g (park-SlotStep k q j other)
      | inr g ↦ rw g (in_place (snapshot j).state.state refl)
    ])
  ]
    where
      in_place :
          (s : State)
          → s ≡ (state j).state
          → SlotStep k q j (after (grant_for q j s).0 (grant_for q j s).1 none)
      in_place s e =
          let a = for_granted k q j other s in
          let (place, live) = same_place j (grant_for q j s).1 a.4 in ground arith

  crossed_to-SlotStep :
      (to : State) (r : Result Err (Job × Option ℕ))
      → stray q j ≡ false
      → door_cross to j ≡ r
      → SlotStep k q j (crossed_to q j to r)
  unfolding crossed_to
  crossed_to-SlotStep to (err e) n h = kept-SlotStep k q j other q j (some e) n refl refl refl
  crossed_to-SlotStep to (ok (j', l)) n h =
      let q₁ = (reclaim_lease l q).0 in
      let (there, live, same, needs, _, _) = cross_there to j j' l h in
      let other' : string_eq.beq j'.id k ≡ false = rw same other in
      let a = for_granted k q₁ j' other' to in
      let (place, live') = same_place j' (grant_for q₁ j' to).1 a.4 in
      let held = reclaim_keeps_slots l in
      elim (Bool-cases (is_some (reclaim_lease l q).1)) [
        | inl e ↦ rw e (ground arith)
        | inr e ↦ rw e (ground arith)
      ]
    where
      reclaim_keeps_slots : (l : Option ℕ) → (reclaim_lease l q).0.slots ≡ q.slots
      reclaim_keeps_slots l = unfold reclaim_lease in refl

  move_on-SlotStep :
      snapshot_open (snapshot j) ≡ true
      → stray q j ≡ false
      → SlotStep k q j (move_on (snapshot j) q j)
  unfolding move_on snapshot
  move_on-SlotStep w n = elim (Bool-cases (is_some (gated_by q (snapshot j)))) [
    | inl g ↦ rw g (park-SlotStep k q j other)
    | inr g ↦
        rw g (elim (Bool-cases (is_correctness (state j).state && is_production (state j).next)) [
          | inl c ↦ rw c (crossed_to-SlotStep (state j).next _ n refl)
          | inr c ↦ rw c (move_to-SlotStep (state j).next w n)
        ])
  ]

  finish_cancel-SlotStep :
      (now : ℕ) (s : Snapshot) → stray q j ≡ false → SlotStep k q j (finish_cancel now s q j)
  unfolding finish_cancel
  finish_cancel-SlotStep now s n = elim (Bool-cases (is_unset s.state.state)) [
    | inl h ↦ rw h (kept-SlotStep k q j other q j none n refl refl refl)
    | inr h ↦ rw h (elim (Bool-cases (is_settled s.state.outcome)) [
      | inl u ↦ rw u (freed-SlotStep k q j other _ j none refl refl)
      | inr u ↦ rw u (elim (Bool-cases (running q j.id s)) [
        | inl m ↦ rw m (interrupt (cancel_interrupts s.state.state))
        | inr m ↦ rw m (settle_locked-SlotStep k q j other now cancelled s n)
      ])
    ])
  ]
    where
      interrupt :
          (i : Bool)
          → SlotStep k q j (
              if not i
              then after q j none
              else after (record q { aborted = j.id ∷ q.aborted }) j none)
      interrupt true =
          kept-SlotStep k q j other (record q { aborted = j.id ∷ q.aborted }) j none n refl refl
            refl
      interrupt false = kept-SlotStep k q j other q j none n refl refl refl

  -- A tick on a job without a stray slot leaves it without one (no slot stays with a job that is closed
  -- or at a position that needs none), leaves the slot of a job with another id alone, and takes a
  -- slot only while fewer than the capacity are held.
  pub advance-SlotStep : (now : ℕ) → stray q j ≡ false → SlotStep k q j (advance now q j)
  unfolding advance
  advance-SlotStep now n = elim (Bool-cases (is_latched j.intent)) [
    | inl h ↦ rw h (finish_cancel-SlotStep now (snapshot j) n)
    | inr h ↦ rw h (elim (Bool-cases (is_unset (state j).state)) [
      | inl u ↦ rw u (begun-SlotStep k q j other now _ _ n u refl)
      | inr u ↦ rw u (elim (Bool-cases (is_settled (state j).outcome)) [
        | inl m ↦ rw m (freed-SlotStep k q j other _ j none refl refl)
        | inr m ↦ rw m (elim (Bool-cases (is_unset (state j).next)) [
          | inl e ↦ rw e (make_runnable-SlotStep (open_of_tests j u m) n)
          | inr e ↦ rw e (move_on-SlotStep (open_of_tests j u m) n)
        ])
      ])
    ])
  ]

  pub retry-SlotStep : (now : ℕ) → stray q j ≡ false → SlotStep k q j (retry now q j)
  unfolding retry
  retry-SlotStep now n = elim (Bool-cases (is_settled (snapshot j).state.outcome)) [
    | inl h ↦ rw h (from_job-SlotStep k q j other now _ refl)
    | inr h ↦ rw h (kept-SlotStep k q j other q j (some not_settled) n refl refl refl)
  ]

  -- Settling a job without a stray slot leaves it without one, leaves the slot of a job with another
  -- id alone, and lets the number of held slots grow no further than the capacity.
  pub settle-SlotStep :
      (now : ℕ) (o : Outcome) → stray q j ≡ false → SlotStep k q j (settle now o q j)
  unfolding settle
  settle-SlotStep now o n = elim (Bool-cases (is_cancelled o)) [
    | inl h ↦ rw h (kept-SlotStep k q j other q j (some cancel_reserved) n refl refl refl)
    | inr h ↦ rw h (settle_locked-SlotStep k q j other now o (snapshot j) n)
  ]
