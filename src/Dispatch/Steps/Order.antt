-- ===== src/Dispatch/Steps/Order.antt =====
-- The stored sequences reproduce the queue's order (seq and register of internal/dispatch/registry.go).
use sabnzbd_go.Base.Result.{err, ok}
use sabnzbd_go.Dispatch.Registry.{
  not_found, new_dispatcher, at_seq, erase, id_of, register, registered, Dispatcher, Entry,
  delete_first, put,
}
use sabnzbd_go.Dispatch.Occupy.{drain, leave, renew_step}
use sabnzbd_go.Dispatch.Steps.{
  aborts, begins, begins_if_idle, calls, claims, clears, erases, leaves, marks_not_resident,
  marks_resident, marks_written, occupies, sets_header, take_all, waits, waits_except, Step,
  registers, take,
}
use sabnzbd_go.Dispatch.Steps.Traces.{
  new_dispatcher-IsRegistry, take-IsRegistry, IsRegistry, count-delete_first, IsBelow,
}
use sabnzbd_go.Job.Record.{Job}
use sabnzbd_go.Dispatch.Ports.{Header}
use sabnzbd_go.Dispatch.Registry.Doors.{set_header}
use sabnzbd_go.Base.{
  Bool, List, Option, Option-cases, String, [], arith, false, inl, inr, leb, none, refl, some, true,
  ℕ, ◌&&◌, ◌++◌, ◌+◌, ◌∷◌, ◌≡◌, ◌≤◌,
}
use sabnzbd_go.Base.Keys.{count, string_eq}
use text.Mathlib.TextEquality.{eq_iff}
use text.Mathlib.Text.{◌==◌ as str_eq}

-- The keys are registered, with sequences that strictly ascend from `low`.
unfoldable pub ascends : (String → Option Entry) → ℕ → List String → Bool
ascends m low [] = true
ascends m low (id ∷ ids) = elim (m id) [
  | none ↦ false
  | some e ↦ leb low e.seq && ascends m (e.seq + 1) ids
]

-- A row is registered with a sequence that was not given out yet.
unfoldable pub is_in_order : Step → Dispatcher → Bool
is_in_order (registers _ _ (some seq)) d = leb d.next_seq seq
is_in_order _ _ = true

unfoldable pub are_in_order : List Step → Dispatcher → Bool
unfolding is_in_order take
are_in_order [] d = true
are_in_order (x ∷ xs) d = is_in_order x d && are_in_order xs (take x d)

ascends-put :
    (m : String → Option Entry) (k : String) (e : Option Entry) (low : ℕ) (ids : List String)
    → count k ids ≡ 0
    → ascends m low ids ≡ true
    → ascends (put m k e) low ids ≡ true
unfolding ascends count
ascends-put m k e low [] h a = refl
ascends-put m k e low (id ∷ ids) h a = elim (Option-cases (m id)) [
  | inl n ↦ cc (rw (ascends, n) at a)
  | inr (x, n) ↦ ground (arith, n, eq_iff id k, eq_iff k id, ascends-put m k e (x.seq + 1) ids)
]

ascends-lower :
    (m : String → Option Entry) (low low' : ℕ) (ids : List String)
    → low' ≤ low
    → ascends m low ids ≡ true
    → ascends m low' ids ≡ true
unfolding ascends
ascends-lower m low low' [] h a = refl
ascends-lower m low low' (id ∷ ids) h a = ground arith

ascends-append :
    (m : String → Option Entry) (low : ℕ) (ids : List String) (k : String) (e : Entry)
    → ((id : String) → str_eq k id ≡ false → IsBelow (m id) e.seq)
    → m k ≡ some e
    → count k ids ≡ 0
    → low ≤ e.seq
    → ascends m low ids ≡ true
    → ascends m low (ids ++ k ∷ []) ≡ true
unfolding ascends count
ascends-append m low [] k e v h c l a = rw h (ground arith)
ascends-append m low (id ∷ ids) k e v h c l a = elim (Option-cases (m id)) [
  | inl n ↦ cc (rw (ascends, n) at a)
  | inr (x, n) ↦
      ground (arith, n, v id, eq_iff id k, eq_iff k id, ascends-append m (x.seq + 1) ids k e v h)
]

ascends-delete_first :
    (m : String → Option Entry) (low : ℕ) (k : String) (ids : List String)
    → ascends m low ids ≡ true
    → ascends m low (delete_first k ids) ≡ true
unfolding ascends delete_first
ascends-delete_first m low k [] a = refl
ascends-delete_first m low k (id ∷ ids) a = elim (Option-cases (m id)) [
  | inl n ↦ cc (rw (ascends, n) at a)
  | inr (x, n) ↦
      ground
        (arith, n, ascends-delete_first m (x.seq + 1) k ids, ascends-lower m (x.seq + 1) low ids)
]

ascends-reput :
    (m : String → Option Entry) (k : String) (e e' : Entry) (low : ℕ) (ids : List String)
    → m k ≡ some e
    → e'.seq ≡ e.seq
    → ascends m low ids ≡ true
    → ascends (put m k (some e')) low ids ≡ true
unfolding ascends
ascends-reput m k e e' low [] h s a = refl
ascends-reput m k e e' low (id ∷ ids) h s a = elim (Option-cases (m id)) [
  | inl n ↦ cc (rw (ascends, n) at a)
  | inr (x, n) ↦ ground (arith, n, h, eq_iff k id, ascends-reput m k e e' (x.seq + 1) ids h s)
]

abbrev pub Orders : Dispatcher → Type 0
Orders d = ascends d.by_id 0 d.order ≡ true

-- A new key, with a sequence that was not given out.
registers-Orders :
    (j : ℕ) (h : Header) (seq : Option ℕ) (d : Dispatcher)
    → IsRegistry d
    → d.next_seq ≤ at_seq seq d.next_seq
    → Orders d
    → Orders (take (registers j h seq) d)
unfolding take register registered
registers-Orders j h seq d v g a =
    let id = id_of d j in
    let new : Entry = record { job = j; header = h; seq = at_seq seq d.next_seq } in
    elim (Option-cases (d.by_id id)) [
      | inr (x, n) ↦ rw (register, registered, n) a
      | inl n ↦
          let c : count id d.order ≡ 0 = ground (arith, n, v.listed id) in
          rw (register, registered, n)
            (ascends-append (put d.by_id id (some new)) 0 d.order id new
              (λ x o. rw (put, o) (lower x g (v.numbered x))) (ground (arith, eq_iff id id)) c
              (omega arith) (ascends-put d.by_id id (some new) 0 d.order c a))
    ]
  where
    lower :
        (x : String) {b : ℕ}
        → d.next_seq ≤ b
        → IsBelow (d.by_id x) d.next_seq
        → IsBelow (d.by_id x) b
    lower x g v = ground arith

erase-Orders : (id : String) (d : Dispatcher) → IsRegistry d → Orders d → Orders (erase id d)
unfolding erase registered
erase-Orders id d v a =
    ascends-put d.by_id id none 0 (delete_first id d.order)
      (ground (arith, count-delete_first id id d.order, v.listed id, eq_iff id id))
      (ascends-delete_first d.by_id 0 id d.order a)

set_header_lem :
    (f : Header → Header) (id : String) (d : Dispatcher)
    → set_header f id d ≡ elim (d.by_id id) [
      | none ↦ err not_found
      | some e ↦ ok (record d { by_id = put d.by_id id (some (record e { header = f e.header })) })
    ]
unfolding set_header
set_header_lem f id d = ground arith

sets_header-Orders :
    (f : Header → Header) (id : String) (d : Dispatcher)
    → Orders d
    → Orders (take (sets_header f id) d)
unfolding take
sets_header-Orders f id d a = elim (Option-cases (d.by_id id)) [
  | inl n ↦ rw (take, set_header_lem f id d, n) a
  | inr (x, n) ↦
      rw (take, set_header_lem f id d, n)
        (ascends-reput d.by_id id x (record x { header = f x.header }) 0 d.order n refl a)
]

take-Orders :
    (x : Step) (d : Dispatcher)
    → IsRegistry d
    → is_in_order x d ≡ true
    → Orders d
    → Orders (take x d)
unfolding take is_in_order leave drain renew_step
take-Orders (registers j h none) d v o a = registers-Orders j h none d v (omega arith) a
take-Orders (registers j h (some seq)) d v o a =
    registers-Orders j h (some seq) d v (ground arith) a
take-Orders (erases y) d v o a = erase-Orders y d v a
take-Orders (sets_header f y) d v o a = sets_header-Orders f y d a
take-Orders (begins y) d v o a = ground (arith, a)
take-Orders (begins_if_idle y) d v o a = ground (arith, a)
take-Orders (aborts y) d v o a = a
take-Orders (clears y) d v o a = a
take-Orders (claims y) d v o a = ground (arith, a)
take-Orders (occupies y) d v o a = ground (arith, a)
take-Orders (waits y) d v o a = ground (arith, a)
take-Orders (leaves y tok) d v o a = ground (arith, a)
take-Orders (waits_except y tok) d v o a = ground (arith, a)
take-Orders (marks_resident y) d v o a = ground (arith, a)
take-Orders (marks_not_resident y) d v o a = a
take-Orders (marks_written p) d v o a = ground (arith, a)
take-Orders (calls j door) d v o a = a

take_all-Orders :
    (xs : List Step) (d : Dispatcher)
    → IsRegistry d
    → are_in_order xs d ≡ true
    → Orders d
    → Orders (take_all xs d)
unfolding take_all are_in_order
take_all-Orders [] d v o a = a
take_all-Orders (x ∷ xs) d v o a =
    take_all-Orders xs (take x d) (take-IsRegistry x d v) (ground arith)
      (take-Orders x d v (ground arith) a)

-- After any spans of any callers, the sequences ascend strictly along the queue's order, so a restart
-- that sorts the rows by them finds the queue as it was; every row that is restored has to come with a
-- sequence that was not given out yet.
pub run-Orders :
    (lease_cap slot_cap : ℕ) (jobs : ℕ → Job) (xs : List Step)
    → are_in_order xs (new_dispatcher lease_cap slot_cap jobs) ≡ true
    → Orders (take_all xs (new_dispatcher lease_cap slot_cap jobs))
unfolding new_dispatcher ascends
run-Orders a b jobs xs o =
    take_all-Orders xs (new_dispatcher a b jobs) (new_dispatcher-IsRegistry a b jobs) o refl
