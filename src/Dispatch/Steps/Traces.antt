-- ===== src/Dispatch/Steps/Traces.antt =====
-- What holds of the registry (internal/dispatch/registry.go) between two spans of d.mu.
use sabnzbd_go.Dispatch.Steps.Claims.{ClaimIsKept, clear_due, take_all-ClaimIsKept}
use sabnzbd_go.Dispatch.Registry.{
  new_dispatcher, erase, id_of, register, Dispatcher, Entry, delete_first, registered,
}
use sabnzbd_go.Dispatch.Steps.{
  take_all, Step, aborts, begins, begins_if_idle, calls, claims, clears, erases, leaves,
  marks_not_resident, marks_resident, marks_written, occupies, registers, sets_header, take, waits,
  waits_except,
}
use sabnzbd_go.Job.Record.{Job}
use sabnzbd_go.Base.{
  Option, inr, ℕ, if◌then◌else◌, List, String, [], arith, false, none, refl, some, ◌++◌, ◌+◌, ◌-◌,
  ◌<◌, ◌∷◌, ◌≡◌,
}
use sabnzbd_go.Dispatch.Occupy.{drain, leave, renew_step}
use text.Mathlib.TextEquality.{eq_iff}
use text.Mathlib.Text.{◌==◌ as str_eq}
use sabnzbd_go.Base.Keys.{string_eq, count}

-- What the maps hold for a key, the worker's claim apart, which deregister clears in a span of its own.
pub record IsTraceless (d : Dispatcher) (id : String) : Type 0 where
  pub resident : d.resident id ≡ false
  pub written : d.written id ≡ none
  pub removing : d.removing id ≡ 0
  pub occupiers : d.occupiers id ≡ 0
  pub tokens : d.tokens id ≡ []
  pub drained : d.drained id ≡ none
  pub steps : d.steps id ≡ none

abbrev pub IsBelow : Option Entry → ℕ → Type 0
IsBelow none n = Unit {0}
IsBelow (some e) n = e.seq < n

-- The order has each registered job once and no other, a key that is not registered has no trace, and
-- every sequence was given out.
pub record IsRegistry (d : Dispatcher) : Type 0 where
  pub listed : (id : String) → count id d.order ≡ (if registered d id then 1 else 0)
  pub traceless : (id : String) → registered d id ≡ false → IsTraceless d id
  pub numbered : (id : String) → IsBelow (d.by_id id) d.next_seq

pub count-append : (k : String) (xs ys : List String) → count k (xs ++ ys) ≡ count k xs + count k ys
unfolding count
count-append k [] ys = omega arith
count-append k (x ∷ xs) ys = ground (arith, count-append k xs ys)

pub count-delete_first :
    (k x : String) (ys : List String)
    → count k (delete_first x ys) ≡ (if str_eq x k then count k ys - 1 else count k ys)
unfolding count delete_first
count-delete_first k x [] = ground arith
count-delete_first k x (y ∷ ys) =
    ground (arith, count-delete_first k x ys, eq_iff x k, eq_iff y x, eq_iff y k)

-- One step.
take-listed :
    (x : Step) (d : Dispatcher)
    → IsRegistry d
    → (id : String) → count id (take x d).order ≡ (if registered (take x d) id then 1 else 0)
unfolding take registered count register erase leave drain renew_step
take-listed (registers j h seq) d v id =
    ground (arith, v.listed id, count-append id d.order (id_of d j ∷ []), eq_iff (id_of d j) id)
take-listed (erases y) d v id =
    ground (arith, v.listed id, count-delete_first id y d.order, eq_iff y id)
take-listed (begins y) d v id = ground (arith, v.listed id)
take-listed (begins_if_idle y) d v id = ground (arith, v.listed id)
take-listed (aborts y) d v id = v.listed id
take-listed (clears y) d v id = v.listed id
take-listed (claims y) d v id = ground (arith, v.listed id)
take-listed (occupies y) d v id = ground (arith, v.listed id)
take-listed (waits y) d v id = ground (arith, v.listed id)
take-listed (leaves y tok) d v id = ground (arith, v.listed id)
take-listed (waits_except y tok) d v id = ground (arith, v.listed id)
take-listed (marks_resident y) d v id = ground (arith, v.listed id)
take-listed (marks_not_resident y) d v id = v.listed id
take-listed (marks_written p) d v id = ground (arith, v.listed id)
take-listed (sets_header f y) d v id = ground (arith, v.listed id, eq_iff y id)
take-listed (calls j door) d v id = v.listed id

take-numbered :
    (x : Step) (d : Dispatcher)
    → IsRegistry d
    → (id : String) → IsBelow ((take x d).by_id id) (take x d).next_seq
unfolding take registered register erase leave drain renew_step
take-numbered (registers j h none) d v id = ground (arith, v.numbered id)
take-numbered (registers j h (some s)) d v id = ground (arith, v.numbered id)
take-numbered (erases y) d v id = ground (arith, v.numbered id)
take-numbered (begins y) d v id = ground (arith, v.numbered id)
take-numbered (begins_if_idle y) d v id = ground (arith, v.numbered id)
take-numbered (aborts y) d v id = v.numbered id
take-numbered (clears y) d v id = v.numbered id
take-numbered (claims y) d v id = ground (arith, v.numbered id)
take-numbered (occupies y) d v id = ground (arith, v.numbered id)
take-numbered (waits y) d v id = ground (arith, v.numbered id)
take-numbered (leaves y tok) d v id = ground (arith, v.numbered id)
take-numbered (waits_except y tok) d v id = ground (arith, v.numbered id)
take-numbered (marks_resident y) d v id = ground (arith, v.numbered id)
take-numbered (marks_not_resident y) d v id = v.numbered id
take-numbered (marks_written q) d v id = ground (arith, v.numbered id)
take-numbered (sets_header f y) d v id = ground (arith, v.numbered id, v.numbered y, eq_iff y id)
take-numbered (calls j door) d v id = v.numbered id

-- What a key that is registered neither before nor after the step has.
take-IsTraceless :
    (x : Step) (d : Dispatcher)
    → IsRegistry d
    → (id : String) → registered (take x d) id ≡ false
    → IsTraceless (take x d) id
unfolding take registered register erase leave drain renew_step
take-IsTraceless (registers j h seq) d v id p = ground (arith, v.traceless id)
take-IsTraceless (erases y) d v id p = ground (arith, v.traceless id, eq_iff y id)
take-IsTraceless (begins y) d v id p = ground (arith, v.traceless id, eq_iff y id)
take-IsTraceless (begins_if_idle y) d v id p = ground (arith, v.traceless id, eq_iff y id)
take-IsTraceless (aborts y) d v id p = ground (arith, v.traceless id, eq_iff y id)
take-IsTraceless (clears y) d v id p = ground (arith, v.traceless id, eq_iff y id)
take-IsTraceless (claims y) d v id p = ground (arith, v.traceless id, eq_iff y id)
take-IsTraceless (occupies y) d v id p = ground (arith, v.traceless id, eq_iff y id)
take-IsTraceless (waits y) d v id p = ground (arith, v.traceless id, eq_iff y id)
take-IsTraceless (leaves y tok) d v id p = ground (arith, v.traceless id, eq_iff y id)
take-IsTraceless (waits_except y tok) d v id p = ground (arith, v.traceless id, eq_iff y id)
take-IsTraceless (marks_resident y) d v id p = ground (arith, v.traceless id, eq_iff y id)
take-IsTraceless (marks_not_resident y) d v id p = ground (arith, v.traceless id, eq_iff y id)
take-IsTraceless (marks_written q) d v id p = ground (arith, v.traceless id, eq_iff q.id id)
take-IsTraceless (sets_header f y) d v id p = ground (arith, v.traceless id, eq_iff y id)
take-IsTraceless (calls j door) d v id p = ground (arith, v.traceless id)

pub take-IsRegistry : (x : Step) (d : Dispatcher) → IsRegistry d → IsRegistry (take x d)
take-IsRegistry x d v = record {
  listed = take-listed x d v;
  traceless = take-IsTraceless x d v;
  numbered = take-numbered x d v;
}

pub new_dispatcher-IsRegistry :
    (lease_cap slot_cap : ℕ) (jobs : ℕ → Job) → IsRegistry (new_dispatcher lease_cap slot_cap jobs)
unfolding registered new_dispatcher count
new_dispatcher-IsRegistry a b jobs = record {
  listed = λ id. refl;
  traceless = λ id h. record {
    resident = refl;
    written = refl;
    removing = refl;
    occupiers = refl;
    tokens = refl;
    drained = refl;
    steps = refl;
  };
  numbered = λ id. tt;
}

take_all-IsRegistry : (xs : List Step) (d : Dispatcher) → IsRegistry d → IsRegistry (take_all xs d)
unfolding take_all
take_all-IsRegistry [] d v = v
take_all-IsRegistry (x ∷ xs) d v = take_all-IsRegistry xs (take x d) (take-IsRegistry x d v)

-- After any spans of any callers in any order, the queue's order lists each registered job once and no
-- other key, every sequence in the registry is below the next one, and a key that is not registered has
-- no residency, written row, removal, occupier, token, drain channel or step channel left, and no
-- worker's claim either unless the second span of a deregister of it is still to come.
pub run-IsRegistry :
    (lease_cap slot_cap : ℕ) (jobs : ℕ → Job) (xs : List Step)
    → let d = take_all xs (new_dispatcher lease_cap slot_cap jobs) in
      IsRegistry d × ((id : String) → ClaimIsKept id (clear_due id xs false) d)
unfolding new_dispatcher
run-IsRegistry a b jobs xs = (
  take_all-IsRegistry xs _ (new_dispatcher-IsRegistry a b jobs),
  λ id. take_all-ClaimIsKept id xs false _ (inr (inr refl)),
)
