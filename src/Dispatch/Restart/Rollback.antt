-- ===== src/Dispatch/Restart/Rollback.antt =====
-- A restore that fails leaves no trace (restore of internal/dispatch/dispatch.go).
use sabnzbd_go.Dispatch.Restart.Rows.{restore_row-Entered}
use sabnzbd_go.Dispatch.Restart.{
  after_row, restore, RowErr, restore_row, restore_rows, rollback, take_back,
}
use sabnzbd_go.Base.Result.{Result, err, ok}
use sabnzbd_go.Dispatch.Registry.{
  delete_first, Dispatcher, begin_removal, begin_removal_locked, clear_launched, deregister, erase,
  registered,
}
use sabnzbd_go.Base.{
  sym, ap, Option, ◌∙◌, [], refl, some, ℕ, List, String, arith, is_some, none, true, ◌++◌, ◌<◌, ◌∷◌,
  ◌≡◌, ◌≤◌,
}
use sabnzbd_go.Dispatch.Ports.{Persisted}
use sabnzbd_go.Dispatch.Steps.Traces.{IsRegistry, count-append}
use text.Mathlib.TextEquality.{eq_iff}
use mathlib.Core.List.{append_assoc, append-nil}
use sabnzbd_go.Base.Keys.{string_eq, count}

-- The registry, and what it says of each key, are as before.
pub record Unchanged (d d' : Dispatcher) : Type 0 where
  pub order : d'.order ≡ d.order
  pub by_id : (id : String) → d'.by_id id ≡ d.by_id id
  pub written : (id : String) → d'.written id ≡ d.written id
  pub removing : (id : String) → d'.removing id ≡ d.removing id

-- `ids` were registered, in this order, since `d`.
record Registers (ids : List String) (d d' : Dispatcher) : Type 0 where
  order : d'.order ≡ d.order ++ ids
  apart : (id : String) → count id (d.order ++ ids) ≤ 1
  by_id : (id : String) → count id ids ≡ 0 → d'.by_id id ≡ d.by_id id
  written : (id : String) → count id ids ≡ 0 → d'.written id ≡ d.written id
  fresh_keys :
      (id : String)
      → 0 < count id ids
      → (d.by_id id ≡ none) × (d.written id ≡ none) × (d.removing id ≡ 0)
  kept_keys : (id : String) → 0 < count id ids → is_some (d'.by_id id) ≡ true
  removing : (id : String) → d'.removing id ≡ d.removing id

delete_first-append :
    (x : String) (xs ys : List String) → count x xs ≡ 0 → delete_first x (xs ++ x ∷ ys) ≡ xs ++ ys
unfolding delete_first count
delete_first-append x [] ys h = ground (arith, eq_iff x x)
delete_first-append x (y ∷ xs) ys h = ground (arith, delete_first-append x xs ys)

-- The first of them is taken back.
take_back-Registers :
    (x : String) (ids : List String) (d d' : Dispatcher)
    → Registers (x ∷ ids) d d'
    → Registers ids d (take_back x d')
unfolding take_back begin_removal registered deregister erase clear_launched begin_removal_locked
    count
take_back-Registers x ids d d' v =
    let n = λ (id : String). count-append id d.order (x ∷ ids) in
    rw (v.kept_keys x (ground (arith, eq_iff x x))) (record {
      order =
          rw v.order
            (delete_first-append x d.order ids (ground (arith, v.apart x, n x, eq_iff x x)));
      apart = λ id. ground (arith, v.apart id, n id, count-append id d.order ids);
      by_id = λ id c. ground (arith, v.by_id id, v.fresh_keys id, eq_iff x id);
      written = λ id c. ground (arith, v.written id, v.fresh_keys id, eq_iff x id);
      fresh_keys = λ id c. v.fresh_keys id (ground arith);
      kept_keys = λ id c. ground (arith, v.kept_keys id, eq_iff x id, v.apart id, n id);
      removing = λ id. ground (arith, v.removing id, v.fresh_keys id, eq_iff x id);
    })

rollback-Unchanged :
    (ids : List String) (d d' : Dispatcher) → Registers ids d d' → Unchanged d (rollback ids d')
unfolding rollback count
rollback-Unchanged [] d d' v = record {
  order = v.order ∙ append-nil d.order;
  by_id = λ id. v.by_id id refl;
  written = λ id. v.written id refl;
  removing = v.removing;
}
rollback-Unchanged (x ∷ ids) d d' v =
    rollback-Unchanged ids d (take_back x d') (take_back-Registers x ids d d' v)

-- One more row.
restore_row-Registers :
    (now : ℕ) (p : Persisted) (ids : List String) (d d' d'' : Dispatcher)
    → IsRegistry d
    → Registers ids d d'
    → restore_row now p d' ≡ ok d''
    → Registers (ids ++ p.id ∷ []) d d''
unfolding count registered
restore_row-Registers now p ids d d' d'' i v e =
    let w = restore_row-Entered now p d' d'' e in
    let n = λ (id : String). count-append id ids (p.id ∷ []) in
    let m = λ (id : String).
      ap (count id) (sym (append_assoc d.order ids (p.id ∷ [])))
      ∙ count-append id (d.order ++ ids) (p.id ∷ []) in
    let new_here : count p.id (d.order ++ ids) ≡ 0 = ground (
      arith,
      w.new_key,
      v.kept_keys p.id,
      v.by_id p.id,
      i.listed p.id,
      count-append p.id d.order ids,
    ) in
    let none_there : d.by_id p.id ≡ none =
      ground (arith, new_here, w.new_key, v.by_id p.id, count-append p.id d.order ids) in
    let t = i.traceless p.id (rw none_there refl) in
    record {
      order = w.order ∙ ap (λ x. x ++ p.id ∷ []) v.order ∙ append_assoc d.order ids (p.id ∷ []);
      apart = λ id. ground (arith, v.apart id, new_here, n id, m id, eq_iff p.id id);
      by_id = λ id c. ground (arith, w.by_id id, v.by_id id, n id, eq_iff p.id id);
      written = λ id c. ground (arith, w.written id, v.written id, n id, eq_iff p.id id);
      fresh_keys = λ id c.
          ground (arith, none_there, t.written, t.removing, v.fresh_keys id, n id, eq_iff p.id id);
      kept_keys =
          λ id c. ground (arith, w.by_id id, w.entered, v.kept_keys id, n id, eq_iff p.id id);
      removing = λ id. w.removing id ∙ v.removing id;
    }

after_row-Unchanged :
    (d back : Dispatcher) (go_on : Dispatcher → Dispatcher × Option RowErr)
    (r : Result RowErr Dispatcher) (e : RowErr)
    → (after_row back go_on r).1 ≡ some e
    → Unchanged d back
    → ((x : Dispatcher) → r ≡ ok x → (go_on x).1 ≡ some e → Unchanged d (go_on x).0)
    → Unchanged d (after_row back go_on r).0
unfolding after_row
after_row-Unchanged d back go_on (err x) e h b f = b
after_row-Unchanged d back go_on (ok x) e h b f = f x refl h

restore_rows-Unchanged :
    (now : ℕ) (rows : List Persisted) (ids : List String) (d d' : Dispatcher) (e : RowErr)
    → IsRegistry d
    → Registers ids d d'
    → (restore_rows now rows ids d').1 ≡ some e
    → Unchanged d (restore_rows now rows ids d').0
unfolding restore_rows
restore_rows-Unchanged now [] ids d d' e i v h = let z : ⊥ = cc in elim z [ ]
restore_rows-Unchanged now (p ∷ ps) ids d d' e i v h =
    after_row-Unchanged d (rollback ids d') (λ x. restore_rows now ps (ids ++ p.id ∷ []) x)
      (restore_row now p d') e h (rollback-Unchanged ids d d' v)
      (λ x q y.
        restore_rows-Unchanged now ps (ids ++ p.id ∷ []) d x e i
          (restore_row-Registers now p ids d d' x i v q) y)

-- The mark of a restore in progress does not count.
marked-IsRegistry : (d : Dispatcher) → IsRegistry d → IsRegistry (record d { restoring = true })
unfolding registered
marked-IsRegistry d i = record {
  listed = i.listed;
  traceless = λ id h.
      let t = i.traceless id h in
      record {
        resident = t.resident;
        written = t.written;
        removing = t.removing;
        occupiers = t.occupiers;
        tokens = t.tokens;
        drained = t.drained;
        steps = t.steps;
      };
  numbered = i.numbered;
}

none-Registers : (d : Dispatcher) → IsRegistry d → Registers [] d d
unfolding count registered
none-Registers d i = record {
  order = sym (append-nil d.order);
  apart = λ id. ground (arith, i.listed id, ap (count id) (append-nil d.order));
  by_id = λ id c. refl;
  written = λ id c. refl;
  fresh_keys = λ id c. absurd (omega arith);
  kept_keys = λ id c. absurd (omega arith);
  removing = λ id. refl;
}

-- However the rows are sorted and whichever of them fails, a restore that reports an error leaves the
-- registry as it was: its order, and for each key its entry, its written row and its removals.
pub restore-Unchanged :
    (now : ℕ) (sort : List Persisted → List Persisted) (rows : Option (List Persisted))
    (d : Dispatcher) (e : RowErr)
    → IsRegistry d
    → (restore now sort rows d).1 ≡ some e
    → Unchanged d (restore now sort rows d).0
unfolding restore
restore-Unchanged now sort none d e i h = record {
  order = refl;
  by_id = λ id. refl;
  written = λ id. refl;
  removing = λ id. refl;
}
restore-Unchanged now sort (some rows) d e i h =
    let begun = record d { restoring = true } in
    let u =
      restore_rows-Unchanged now (sort rows) [] begun begun e (marked-IsRegistry d i)
        (none-Registers begun (marked-IsRegistry d i)) h in
    record { order = u.order; by_id = u.by_id; written = u.written; removing = u.removing }
