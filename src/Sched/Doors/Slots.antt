-- ===== src/Sched/Doors/Slots.antt =====
-- The doors of internal/sched/{advance,settle,cancel}.go against pool B: a compute slot is only ever
-- held by an open job at a position that needs one.
use sabnzbd_go.Base.{
  ℕ, ◌≡◌, ◌≤◌, max, refl, true, false, Bool, Option, none, some, arith, not, ◌&&◌, if◌then◌else◌,
  length, String,
}
use sabnzbd_go.Sched.Doors.Serves.{door_finish_lease, begin_attempt_lease}
use sabnzbd_go.Base.Result.{Result, ok, err}
use sabnzbd_go.Base.Keys.{
  contains-remove, contains-insert, length-remove_le, length-insert_new, beq_refl, string_eq,
}
use sabnzbd_go.Job.Axes.{State, is_unset, state_unset, Outcome}
use sabnzbd_go.Job.Record.{
  has_run, Job, Snapshot, snapshot, snapshot_open, state, begin_attempt, door_transition,
  door_cross, door_finish, grant, surrender,
}
use sabnzbd_go.Job.Error.{Err}
use sabnzbd_go.Sched.Pool.{needs_lease, needs_slot, slot_holds, release, acquire}
use sabnzbd_go.Sched.Queue.{Queue, release_for}
use sabnzbd_go.Sched.Doors.{
  After, after, reclaim_lease, from_job, settle_locked, settle_finished, park, grant_for,
  grant_issued, granted_slot, grant_slot,
}

-- A compute slot held for nothing: by a job that is not open, or at a position that needs none.
abbrev pub stray : Queue → Job → Bool
stray q j =
    slot_holds j.id q.slots && not (snapshot_open (snapshot j) && needs_slot (state j).state)

-- What a door may do to pool B: it leaves no stray slot, keeps every other job's slot as it was, and
-- takes a slot only below the capacity.
pub record SlotStep (k : String) (q : Queue) (j : Job) (a : After) : Type 0 where
  pub no_stray : stray a.queue a.job ≡ false
  pub frame : slot_holds k a.queue.slots ≡ slot_holds k q.slots
  pub bound : length a.queue.slots.held ≤ max (length q.slots.held) q.slots.capacity

module _ (k : String) (q : Queue) (j : Job) (other : string_eq.beq j.id k ≡ false) where
  pub released :
      (s : State)
      → let q' = release_for j.id s q in
        (slot_holds j.id q'.slots ≡ (if needs_slot s then slot_holds j.id q.slots else false))
        × (slot_holds k q'.slots ≡ slot_holds k q.slots)
        × (length q'.slots.held ≤ length q.slots.held)
  unfolding release_for release slot_holds
  released s = ground (
    arith,
    contains-remove j.id j.id q.slots.held,
    contains-remove j.id k q.slots.held,
    length-remove_le j.id q.slots.held,
    beq_refl j.id,
  )

  slot_granted :
      (s : State)
      → let (q', j', got) = grant_slot q j s in
        (slot_holds j.id q'.slots ≡ (if needs_slot s && got then true else slot_holds j.id q.slots))
        × (slot_holds k q'.slots ≡ slot_holds k q.slots)
        × (length q'.slots.held ≤ max (length q.slots.held) q.slots.capacity)
  unfolding grant_slot acquire slot_holds
  slot_granted s = ground (
    arith,
    contains-insert j.id j.id q.slots.held,
    contains-insert j.id k q.slots.held,
    length-insert_new j.id q.slots.held,
    beq_refl j.id,
  )

  pub for_granted :
      (s : State)
      → let (q', j', got) = grant_for q j s in
        (slot_holds j.id q'.slots ≡ (if needs_slot s && got then true else slot_holds j.id q.slots))
        × (slot_holds k q'.slots ≡ slot_holds k q.slots)
        × (length q'.slots.held ≤ max (length q.slots.held) q.slots.capacity)
        × (j'.id ≡ j.id)
        × (j'.attempts ≡ j.attempts)
  unfolding grant_for grant_issued granted_slot grant grant_slot acquire slot_holds reclaim_lease
  for_granted s = ground (
    arith,
    contains-insert j.id j.id q.slots.held,
    contains-insert j.id k q.slots.held,
    length-insert_new j.id q.slots.held,
    beq_refl j.id,
  )

  -- The slot was given back.
  pub freed-SlotStep :
      (q' : Queue) (j' : Job) (e : Option Err)
      → q'.slots ≡ (release_for j.id state_unset q).slots
      → j'.id ≡ j.id
      → SlotStep k q j (after q' j' e)
  unfolding needs_slot
  freed-SlotStep q' j' e p i = ground (arith, released state_unset)

  -- Neither the slots nor the attempts were touched.
  pub kept-SlotStep :
      (q' : Queue) (j' : Job) (e : Option Err)
      → stray q j ≡ false
      → q'.slots ≡ q.slots
      → j'.id ≡ j.id
      → j'.attempts ≡ j.attempts
      → SlotStep k q j (after q' j' e)
  unfolding snapshot snapshot_open state has_run
  kept-SlotStep q' j' e n p i a = ground arith

  pub park-SlotStep : SlotStep k q j (park q j)
  unfolding park surrender reclaim_lease
  park-SlotStep = freed-SlotStep _ _ _ refl refl

  settle_finished-SlotStep :
      (o : Outcome) (now : ℕ) (r : Result Err (Job × Option ℕ))
      → stray q j ≡ false
      → door_finish o now j ≡ r
      → SlotStep k q j (settle_finished q j r)
  unfolding settle_finished reclaim_lease
  settle_finished-SlotStep o now (err e) n h = kept-SlotStep q j (some e) n refl refl refl
  settle_finished-SlotStep o now (ok (j', l)) n h =
      freed-SlotStep _ j' _ refl ((door_finish_lease j j' o now l h).2)

  pub from_job-SlotStep :
      (now : ℕ) (r : Result Err Job)
      → begin_attempt now j ≡ r
      → SlotStep k q j (from_job (release_for j.id state_unset q) j r)
  unfolding from_job
  from_job-SlotStep now (ok j') h =
      freed-SlotStep _ j' none refl ((begin_attempt_lease j j' now h).1)
  from_job-SlotStep now (err e) h = freed-SlotStep _ j (some e) refl refl

  -- A job that has never run is begun: it holds no slot, and none is taken.
  pub begun-SlotStep :
      (now : ℕ) (g : Bool) (r : Result Err Job)
      → stray q j ≡ false
      → is_unset (state j).state ≡ true
      → begin_attempt now j ≡ r
      → SlotStep k q j (if g then after q j none else from_job q j r)
  unfolding from_job needs_slot is_unset
  begun-SlotStep now true r n u h = kept-SlotStep q j none n refl refl refl
  begun-SlotStep now false (err e) n u h = kept-SlotStep q j (some e) n refl refl refl
  begun-SlotStep now false (ok j') n u h =
      empty_handed j' (unset_holds n u) ((begin_attempt_lease j j' now h).1)
    where
      unset_holds :
          stray q j ≡ false → is_unset (state j).state ≡ true → slot_holds j.id q.slots ≡ false
      unset_holds n u = ground arith

      empty_handed :
          (j' : Job)
          → slot_holds j.id q.slots ≡ false
          → j'.id ≡ j.id
          → SlotStep k q j (after q j' none)
      empty_handed j' f i = ground arith

  pub settle_locked-SlotStep :
      (now : ℕ) (o : Outcome) (s : Snapshot)
      → stray q j ≡ false
      → SlotStep k q j (settle_locked now o s q j)
  unfolding settle_locked
  settle_locked-SlotStep now o s n = settle_finished-SlotStep _ now _ n refl

pub transition_there :
    (to : State) (j j' : Job)
    → door_transition to j ≡ ok j'
    → ((state j').state ≡ to)
      × (snapshot_open (snapshot j') ≡ true)
      × (j'.id ≡ j.id)
      × (is_unset (state j').next ≡ true)
      × (j'.lease ≡ j.lease)
unfolding is_unset door_transition state snapshot snapshot_open has_run
transition_there to j j' h = ground arith

pub cross_there :
    (to : State) (j j' : Job) (l : Option ℕ)
    → door_cross to j ≡ ok (j', l)
    → ((state j').state ≡ to)
      × (snapshot_open (snapshot j') ≡ true)
      × (j'.id ≡ j.id)
      × (needs_slot to ≡ true)
      × (is_unset (state j').next ≡ true)
      × (needs_lease to ≡ false)
unfolding is_unset needs_lease door_cross state snapshot snapshot_open has_run needs_slot
cross_there to j j' l h = ground arith

-- Whether a job is open, and where, is read off its attempts.
pub same_place :
    (j j' : Job)
    → j'.attempts ≡ j.attempts
    → (state j' ≡ state j) × (snapshot_open (snapshot j') ≡ snapshot_open (snapshot j))
unfolding state snapshot snapshot_open has_run
same_place j j' e = ground arith
