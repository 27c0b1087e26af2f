-- ===== src/Sched/Doors/Tick.antt =====
-- What one scheduling tick does to one job (internal/sched/{advance,cancel}.go).
use sabnzbd_go.Base.{
  Option, Bool, some, not, ◌&&◌, ◌==◌, if◌then◌else◌, ℕ, ◌≡◌, true, false, none, arith, ◌∷◌,
}
use sabnzbd_go.Base.Keys.{contains, contains-remove, beq_refl, nat_eq, string_eq}
use sabnzbd_go.Job.Axes.{is_latched, is_unset, intent_cancel, cancelled}
use sabnzbd_go.Job.Spine.{is_production}
use sabnzbd_go.Job.Record.{
  set_intent, door_finish, Job, snapshot, state, snapshot_open, holds_lease,
}
use sabnzbd_go.Job.Record.Invariant.{IsJob}
use sabnzbd_go.Sched.Pool.{LeasePool, reclaim, release, slot_holds}
use sabnzbd_go.Sched.Queue.{release_for, Queue, holds, running}
use sabnzbd_go.Sched.Doors.{
  reclaim_lease, cancel_interrupts, cancel_latched, settle_finished, cancel, after, advance,
  make_runnable, finish_cancel, settle_locked,
}

abbrev pub is_lease : Option ℕ → ℕ → Bool
is_lease none id = false
is_lease (some x) id = x == id

-- A lease that is given back leaves the issued ones, and no other does.
reclaim-issued :
    (l : Option ℕ) (id : ℕ) (p : LeasePool)
    → contains id (reclaim l p).0.issued ≡ (contains id p.issued && not (is_lease l id))
unfolding reclaim
reclaim-issued none id p = ground arith
reclaim-issued (some x) id p = ground (arith, contains-remove x id p.issued)

module _ (now : ℕ) (q : Queue) (j : Job) where
  -- A tick never takes anything from a job that is running, nor moves it: unless the job is
  -- cancelled, the queue and the job stay exactly as they are, whatever gates are shut.
  pub advance-running :
      running q j.id (snapshot j) ≡ true
      → is_latched j.intent ≡ false
      → advance now q j ≡ after q j none
  unfolding advance make_runnable running snapshot_open holds snapshot
  advance-running r i = ground arith

  -- Cancelling a running job takes nothing from its worker: before the boundary the worker is told to
  -- stop and nothing else happens, past it not even that; in both the cancel is latched.
  pub cancel-running :
      running q j.id (snapshot j) ≡ true
      → cancel now q j
        ≡ after
            (if is_production (snapshot j).state.state
              then q
              else record q { aborted = j.id ∷ q.aborted })
            (record j { intent = intent_cancel })
            none
  unfolding cancel cancel_latched finish_cancel running snapshot_open holds snapshot
      cancel_interrupts set_intent is_production
  cancel-running r = ground arith

  -- A tick on a cancelled job that is open and not running settles it as Cancelled where it stands, past
  -- the boundary too. The job has no lease and no slot after it; its lease, and no other, has left the
  -- issued ones of the pool.
  pub advance-cancelled :
      IsJob j
      → is_latched j.intent ≡ true
      → snapshot_open (snapshot j) ≡ true
      → running q j.id (snapshot j) ≡ false
      → let a = advance now q j in
        ((state a.job).outcome ≡ cancelled)
        × (holds_lease a.job ≡ false)
        × (slot_holds j.id a.queue.slots ≡ false)
        × ((id : ℕ)
            → contains id a.queue.leases.issued
              ≡ (contains id q.leases.issued && not (is_lease j.lease id)))
        × ((state a.job).state ≡ (state j).state)
  unfolding advance finish_cancel settle_locked settle_finished door_finish snapshot snapshot_open
      cancel_interrupts state holds_lease slot_holds release_for reclaim_lease release is_unset
  advance-cancelled v i o r = (
    ground arith,
    ground arith,
    ground (arith, contains-remove j.id j.id q.slots.held, beq_refl j.id),
    λ id. ground (arith, reclaim-issued j.lease id q.leases),
    ground arith,
  )
