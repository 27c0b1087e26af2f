-- ===== src/Sched/Pool.antt =====
-- internal/sched/{pool,requirements}.go: the two capacity pools and what each position needs of them.
-- A capacity is a Go int; a negative one, which New alone could be given, acts as 0 does.
use sabnzbd_go.Base.{
  ℕ, ◌+◌, ◌%◌, Bool, true, false, ◌||◌, Option, none, some, List, [], String, ltb, leb, length,
  if◌then◌else◌,
}
use sabnzbd_go.Base.Keys.{contains, insert, remove, nat_eq, string_eq}
use sabnzbd_go.Job.Axes.{State, fetching, assessing, repairing, extracting, finalizing, state_eq}
use sabnzbd_go.Job.Error.{Err, not_outstanding}

unfoldable pub needs_lease : State → Bool
unfolding state_eq
needs_lease s = state_eq s fetching || state_eq s assessing || state_eq s repairing

unfoldable pub needs_slot : State → Bool
unfolding state_eq
needs_slot s =
    state_eq s assessing || state_eq s repairing || state_eq s extracting || state_eq s finalizing

-- LeaseID is a uint64.
abbrev pub lease_id_mod : ℕ
lease_id_mod = 18446744073709551616

pub record LeasePool : Type 0 where
  pub capacity : ℕ
  pub next : ℕ
  pub issued : List ℕ

unfoldable pub new_lease_pool : ℕ → LeasePool
new_lease_pool capacity = record { capacity = capacity; next = 0; issued = [] }

-- `none` means that there is no capacity.
unfoldable pub issue : LeasePool → LeasePool × Option ℕ
issue p =
    let id = (p.next + 1) % lease_id_mod in
    if leb p.capacity (length p.issued)
    then (p, none)
    else (record p { next = id; issued = insert id p.issued }, some id)

unfoldable pub reclaim : Option ℕ → LeasePool → LeasePool × Option Err
reclaim none p = (p, none)
reclaim (some id) p =
    if contains id p.issued
    then (record p { issued = remove id p.issued }, none)
    else (p, some not_outstanding)

-- A capacity below 1 is raised to 1.
unfoldable pub clamp_capacity : ℕ → ℕ
clamp_capacity c = if ltb c 1 then 1 else c

unfoldable pub set_lease_capacity : ℕ → LeasePool → LeasePool
unfolding clamp_capacity
set_lease_capacity c p = record p { capacity = clamp_capacity c }

-- Compute slots are held by job id.
pub record SlotPool : Type 0 where
  pub capacity : ℕ
  pub held : List String

unfoldable pub new_slot_pool : ℕ → SlotPool
new_slot_pool capacity = record { capacity = capacity; held = [] }

unfoldable pub acquire : String → SlotPool → SlotPool × Bool
acquire id p =
    if contains id p.held
    then (p, true)
    else if leb p.capacity (length p.held)
    then (p, false)
    else (record p { held = insert id p.held }, true)

unfoldable pub release : String → SlotPool → SlotPool
release id p = record p { held = remove id p.held }

unfoldable pub slot_holds : String → SlotPool → Bool
slot_holds id p = contains id p.held

unfoldable pub set_slot_capacity : ℕ → SlotPool → SlotPool
unfolding clamp_capacity
set_slot_capacity c p = record p { capacity = clamp_capacity c }
