-- ===== src/Dispatch/Restart/Rows.antt =====
-- What one row's registration leaves (restore and register of internal/dispatch).
use sabnzbd_go.Base.{
  Bool-cases, Option, Option-cases, String, [], arith, false, inl, inr, is_some, none, refl, some,
  true, ℕ, ◌++◌, ◌∷◌, ◌≡◌,
}
use sabnzbd_go.Base.Result.{Result, err, ok}
use sabnzbd_go.Dispatch.Ports.{Header, Persisted}
use sabnzbd_go.Dispatch.Registry.{
  Dispatcher, Refusal, admits, id_of, mark_written, put, register, registered,
}
use sabnzbd_go.Dispatch.Restart.{allocate, restore_row, row_rebuilt, row_registered}
use sabnzbd_go.Dispatch.Restore.{RestoreErr, reconstruct}
use sabnzbd_go.Dispatch.Restore.Names.{reconstruct-id}
use sabnzbd_go.Job.Record.{Job, set_added}
use mathlib.Core.Path.{subst}
use text.Mathlib.TextEquality.{eq_iff}
use text.Mathlib.Text.{◌==◌ as str_eq}
use sabnzbd_go.Base.Keys.{string_eq}

-- A key that was registered.
pub record Entered (key : String) (d d' : Dispatcher) : Type 0 where
  pub new_key : d.by_id key ≡ none
  pub order : d'.order ≡ d.order ++ key ∷ []
  pub entered : is_some (d'.by_id key) ≡ true
  pub by_id : (id : String) → str_eq key id ≡ false → d'.by_id id ≡ d.by_id id
  pub written : (id : String) → str_eq key id ≡ false → d'.written id ≡ d.written id
  pub removing : (id : String) → d'.removing id ≡ d.removing id

ok_injective {ℓ κ} :
    {E : Type ℓ} {V : Type κ} (a b : V) → ◌≡◌ {A = Result E V} (ok a) (ok b) → a ≡ b
ok_injective a b h = cc

register-Entered :
    (j : ℕ) (h : Header) (seq : Option ℕ) (d d' : Dispatcher)
    → register j h seq d ≡ ok d'
    → Entered (id_of d j) d d'
unfolding register registered
register-Entered j h seq d d' e = elim (Option-cases (d.by_id (id_of d j))) [
  | inr (x, n) ↦ cc (rw (register, registered, n) at e)
  | inl n ↦
      let same = ok_injective _ d' (rw (register, registered, n) at e) in
      rw (← same) (record {
        new_key = n;
        order = refl;
        entered = ground (arith, eq_iff (id_of d j) (id_of d j));
        by_id = λ id o. rw (put, o) refl;
        written = λ id o. refl;
        removing = λ id. refl;
      })
]

mark_written-Entered :
    (p : Persisted) (d d' : Dispatcher) → Entered p.id d d' → Entered p.id d (mark_written p d')
unfolding mark_written
mark_written-Entered p d d' v = elim (Bool-cases (admits d' p.id)) [
  | inr h ↦ rw h v
  | inl h ↦ rw h (record {
    new_key = v.new_key;
    order = v.order;
    entered = v.entered;
    by_id = v.by_id;
    written = λ id o. rw (put, o) (v.written id o);
    removing = v.removing;
  })
]

row_registered-Entered :
    (p : Persisted) (d d' : Dispatcher) (r : Result Refusal Dispatcher)
    → row_registered p r ≡ ok d'
    → ((x : Dispatcher) → r ≡ ok x → Entered p.id d x)
    → Entered p.id d d'
unfolding row_registered
row_registered-Entered p d d' (err x) e f = let z : ⊥ = cc in elim z [ ]
row_registered-Entered p d d' (ok x) e f =
    rw (← ok_injective (mark_written p x) d' e) (mark_written-Entered p d x (f x refl))

-- The heap does not count.
allocate-Entered :
    (j : Job) (date : ℕ) (key : String) (d d' : Dispatcher)
    → j.id ≡ key
    → Entered (id_of (allocate j date d) d.fresh) (allocate j date d) d'
    → Entered key d d'
unfolding allocate id_of set_added
allocate-Entered j date key d d' h v =
    let k : id_of (allocate j date d) d.fresh ≡ key = ground (arith, h) in
    let w = subst (λ x. Entered x (allocate j date d) d') k v in
    record {
      new_key = w.new_key;
      order = w.order;
      entered = w.entered;
      by_id = w.by_id;
      written = w.written;
      removing = w.removing;
    }

row_rebuilt-Entered :
    (p : Persisted) (d d' : Dispatcher) (r : Result RestoreErr Job)
    → row_rebuilt p d r ≡ ok d'
    → ((j : Job) → r ≡ ok j → j.id ≡ p.id)
    → Entered p.id d d'
unfolding row_rebuilt
row_rebuilt-Entered p d d' (err x) e f = let z : ⊥ = cc in elim z [ ]
row_rebuilt-Entered p d d' (ok j) e f =
    let a = allocate j p.header.added d in
    row_registered-Entered p d d' (register d.fresh p.header (some p.sort_key) a) e (λ x q.
      allocate-Entered j p.header.added p.id d x (f j refl)
        (register-Entered d.fresh p.header (some p.sort_key) a x q))

pub restore_row-Entered :
    (now : ℕ) (p : Persisted) (d d' : Dispatcher) → restore_row now p d ≡ ok d' → Entered p.id d d'
unfolding restore_row
restore_row-Entered now p d d' e =
    row_rebuilt-Entered p d d' (reconstruct p.id p.header.name p.policy p.state p.intent now) e
      (λ j q. reconstruct-id p.id p.header.name p.policy p.state p.intent now j q)
