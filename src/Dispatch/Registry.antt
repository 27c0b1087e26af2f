-- ===== src/Dispatch/Registry.antt =====
-- internal/dispatch/{dispatch,registry}.go: the dispatcher's state, and how a job enters and leaves the
-- registry. A map is a function from its keys, a job a pointer into `jobs`, a channel a number that is
-- closed or not. Every operation here is one span of d.mu, unless it says otherwise.
use sabnzbd_go.Base.{
  if◌then◌else◌, Bool, List, Option, String, [], false, is_some, length, ltb, max, none, not, some,
  true, ℕ, ◌&&◌, ◌++◌, ◌+◌, ◌-◌, ◌==◌, ◌||◌, ◌∷◌,
}
use sabnzbd_go.Base.Result.{Result, err, ok}
use sabnzbd_go.Dispatch.Ports.{Header, Persisted}
use sabnzbd_go.Job.Record.{Job, set_added}
use sabnzbd_go.Sched.Queue.{Queue, new_queue}
use text.Mathlib.Text.{◌==◌ as str_eq}
use mathlib.Core.Option
pub mod Doors

pub record Entry : Type 0 where
  pub job : ℕ
  pub header : Header
  pub seq : ℕ

pub record Dispatcher : Type 0 where
  pub by_id : String → Option Entry
  pub order : List String
  pub resident : String → Bool
  pub launched : String → Option ℕ
  pub written : String → Option Persisted
  pub removing : String → ℕ
  pub occupiers : String → ℕ
  -- the set of occupancyTokens; no key is the empty set
  pub tokens : String → List ℕ
  pub drained : String → Option ℕ
  pub steps : String → Option ℕ
  pub next_seq : ℕ
  pub restoring : Bool
  pub started : Bool
  pub stopped : Bool
  pub queue : Queue
  -- the heap: jobs by pointer, the next new address, and the channels that are closed
  pub jobs : ℕ → Job
  pub fresh : ℕ
  pub closed : ℕ → Bool

-- New; it panics on a nil port, and none of the ports can be nil here.
unfoldable pub new_dispatcher : ℕ → ℕ → (ℕ → Job) → Dispatcher
unfolding new_queue
new_dispatcher lease_cap slot_cap jobs = record {
  by_id = λ _. none;
  order = [];
  resident = λ _. false;
  launched = λ _. none;
  written = λ _. none;
  removing = λ _. 0;
  occupiers = λ _. 0;
  tokens = λ _. [];
  drained = λ _. none;
  steps = λ _. none;
  next_seq = 0;
  restoring = false;
  started = false;
  stopped = false;
  queue = new_queue lease_cap slot_cap;
  jobs = jobs;
  fresh = 0;
  closed = λ _. false;
}

-- `m[k] = v`
abbrev pub put {ℓ} : {V : Type ℓ} → (String → V) → String → V → String → V
put m k v x = if str_eq k x then v else m x

-- `close(ch)` of the channel that a map had for a key.
unfoldable pub close : Option ℕ → (ℕ → Bool) → ℕ → Bool
close none m x = m x
close (some ch) m x = if ch == x then true else m x

unfoldable pub id_of : Dispatcher → ℕ → String
id_of d j = (d.jobs j).id

unfoldable pub registered : Dispatcher → String → Bool
registered d id = is_some (d.by_id id)

-- admitsLocked
unfoldable pub admits : Dispatcher → String → Bool
unfolding registered
admits d id = registered d id && (d.removing id == 0)

pub data Refusal : Type 0 where
  stopped_dispatcher restoring_dispatcher duplicate_id not_found invalid_priority : Refusal

abbrev pub at_seq : Option ℕ → ℕ → ℕ
at_seq none next_seq = next_seq
at_seq (some seq) _ = seq

-- A sequence of `none` is seqNext.
unfoldable pub register : ℕ → Header → Option ℕ → Dispatcher → Result Refusal Dispatcher
unfolding registered id_of
register j h seq d =
    if registered d (id_of d j)
    then err duplicate_id
    else ok (record d {
      by_id =
          put d.by_id (id_of d j)
            (some (record { job = j; header = h; seq = at_seq seq d.next_seq }));
      order = d.order ++ id_of d j ∷ [];
      next_seq = max d.next_seq (at_seq seq d.next_seq + 1);
    })

unfoldable pub on_job : ℕ → (Job → Job) → Dispatcher → Dispatcher
on_job j f d = record d { jobs = λ x. if j == x then f (d.jobs j) else d.jobs x }

-- `if h.Added <= 0`
unfoldable pub dated : ℕ → Header → Header
dated now h = if h.added == 0 then record h { added = now } else h

-- Add. Its refusals, the job's date and the registration are three spans; a refusal drops the date that was
-- set on the refused job.
unfoldable pub add : ℕ → ℕ → Header → Dispatcher → Result Refusal Dispatcher
unfolding register on_job dated set_added
add now j h d =
    if d.stopped
    then err stopped_dispatcher
    else if d.restoring
    then err restoring_dispatcher
    else register j (dated now h) none (on_job j (set_added (dated now h).added) d)

unfoldable pub begin_removal_locked : String → Dispatcher → Dispatcher
begin_removal_locked id d = record d { removing = put d.removing id (d.removing id + 1) }

-- Reports false, and marks nothing, if the job is not registered.
unfoldable pub begin_removal : String → Dispatcher → Dispatcher × Bool
unfolding registered begin_removal_locked
begin_removal id d = if registered d id then (begin_removal_locked id d, true) else (d, false)

-- What beginRemovalIfIdle answers: a removal, a live job, or no such job.
pub data Idle : Type 0 where
  removal_begun still_live not_registered : Idle

unfoldable pub begin_removal_if_idle : String → Dispatcher → Dispatcher × Idle
unfolding registered begin_removal_locked
begin_removal_if_idle id d =
    if not (registered d id)
    then (d, not_registered)
    else if ltb 0 (length (d.tokens id)) || is_some (d.launched id)
    then (d, still_live)
    else (begin_removal_locked id d, removal_begun)

-- removal.abort, the first call of it on its removal. A count that falls to 0 leaves the map.
unfoldable pub abort : String → Dispatcher → Dispatcher
abort id d = record d { removing = put d.removing id (d.removing id - 1) }

-- `slices.Delete(d.order, i, i+1)` at the key's first place
unfoldable pub delete_first : String → List String → List String
delete_first id [] = []
delete_first id (x ∷ xs) = if str_eq x id then xs else x ∷ delete_first id xs

-- deregister's span of d.mu.
unfoldable pub erase : String → Dispatcher → Dispatcher
unfolding close delete_first
erase id d = record d {
  by_id = put d.by_id id none;
  written = put d.written id none;
  resident = put d.resident id false;
  removing = put d.removing id 0;
  occupiers = put d.occupiers id 0;
  tokens = put d.tokens id [];
  closed = close (d.steps id) (close (d.drained id) d.closed);
  drained = put d.drained id none;
  steps = put d.steps id none;
  order = delete_first id d.order;
}

unfoldable pub clear_launched : String → Dispatcher → Dispatcher
unfolding close
clear_launched id d = record d {
  closed = close (d.launched id) d.closed;
  launched = put d.launched id none;
}

-- removal.end, the first call of it on its removal.
unfoldable pub deregister : String → Dispatcher → Dispatcher
unfolding erase clear_launched
deregister id d = clear_launched id (erase id d)

unfoldable pub entry_for : Dispatcher → String → Option (Header × ℕ)
entry_for d id = Option.map (λ e. (e.header, e.seq)) (d.by_id id)

-- snapshotOrder; every key of the order is registered.
unfoldable pub snapshot_order : Dispatcher → List ℕ
snapshot_order d = pointers d d.order
  where
    pointers : Dispatcher → List String → List ℕ
    pointers d [] = []
    pointers d (id ∷ ids) =
        let rest = pointers d ids in elim (d.by_id id) [ none ↦ rest | some e ↦ e.job ∷ rest ]

unfoldable pub mark_resident : String → Dispatcher → Dispatcher
unfolding admits
mark_resident id d = if admits d id then record d { resident = put d.resident id true } else d

unfoldable pub mark_not_resident : String → Dispatcher → Dispatcher
mark_not_resident id d = record d { resident = put d.resident id false }

unfoldable pub mark_written : Persisted → Dispatcher → Dispatcher
unfolding admits
mark_written p d = if admits d p.id then record d { written = put d.written p.id (some p) } else d
