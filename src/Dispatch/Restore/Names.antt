-- ===== src/Dispatch/Restore/Names.antt =====
-- A job that is rebuilt has the id that it is rebuilt for (reconstruct of internal/dispatch/dispatch.go).
use sabnzbd_go.Job.Axes.{Activity, Outcome, State, is_unset, Intent, StateView}
use sabnzbd_go.Base.{
  if◌then◌else◌, Bool, false, not, true, Bool-cases, inl, inr, List, String, [], arith, refl, ℕ,
  ◌∙◌, ◌∷◌, ◌≡◌,
}
use sabnzbd_go.Dispatch.Restore.{
  unset_row, lift, path_of, Hop, reconstruct, replay_activity, replay_next, replay_outcome,
  replay_rest, take_hop, take_hops,
}
use sabnzbd_go.Job.Record.{begin_attempt, new, Job, Policy, set_intent}
use sabnzbd_go.Base.Result.{◌>>=◌, Result, err, ok}
use sabnzbd_go.Job.Error.{Err}

take_hop-id : (h : Hop) (j j' : Job) → take_hop h j ≡ ok j' → j'.id ≡ j.id
unfolding take_hop
take_hop-id h j j' e = ground arith

>>=-ok {ℓ κ} :
    {E : Type ℓ} {V W : Type κ} (r : Result E V) (f : V → Result E W) (w : W)
    → (r >>= f) ≡ ok w
    → (v : V) × (r ≡ ok v) × (f v ≡ ok w)
>>=-ok (err x) f w h = cc
>>=-ok (ok v) f w h = (v, refl, h)

take_hops-id : (hs : List Hop) (j j' : Job) → take_hops hs j ≡ ok j' → j'.id ≡ j.id
unfolding take_hops
take_hops-id [] j j' e = ground arith
take_hops-id (h ∷ hs) j j' e =
    let (k, a, b) = >>=-ok (take_hop h j) (λ x. take_hops hs x) j' e in
    take_hops-id hs k j' b ∙ take_hop-id h j k a

replay_next-id : (n : State) (j j' : Job) → replay_next n j ≡ ok j' → j'.id ≡ j.id
unfolding replay_next
replay_next-id n j j' e = ground arith

replay_activity-id : (x : Activity) (j j' : Job) → replay_activity x j ≡ ok j' → j'.id ≡ j.id
unfolding replay_activity
replay_activity-id x j j' e = ground arith

replay_outcome-id :
    (o : Outcome) (now : ℕ) (j j' : Job) → replay_outcome o now j ≡ ok j' → j'.id ≡ j.id
unfolding replay_outcome
replay_outcome-id o now j j' e = ground arith

set_intent-id : (i : Intent) (j j' : Job) → set_intent i j ≡ ok j' → j'.id ≡ j.id
unfolding set_intent
set_intent-id i j j' e = ground arith

replay_rest-id :
    (v : StateView) (i : Intent) (now : ℕ) (j j' : Job)
    → replay_rest v i now j ≡ ok j'
    → j'.id ≡ j.id
unfolding replay_rest
replay_rest-id v i now j j' e =
    let (a, p, r) =
      >>=-ok (replay_next v.next j)
        (λ a. replay_activity v.activity a >>= λ b.
          replay_outcome v.outcome now b >>= λ c. set_intent i c)
        j' e in
    let (b, q, s) =
      >>=-ok (replay_activity v.activity a)
        (λ b. replay_outcome v.outcome now b >>= λ c. set_intent i c) j' r in
    let (c, t, u) = >>=-ok (replay_outcome v.outcome now b) (λ c. set_intent i c) j' s in
    set_intent-id i c j' u
    ∙ replay_outcome-id v.outcome now b c t
    ∙ replay_activity-id v.activity a b q
    ∙ replay_next-id v.next j a p

lift-ok {ℓ} : {A : Type ℓ} (r : Result Err A) (a : A) → lift r ≡ ok a → r ≡ ok a
lift-ok (ok x) a h = ground arith
lift-ok (err x) a h = cc

-- Where the row has a state.
rebuilt-id :
    (id name : String) (p : Policy) (v : StateView) (i : Intent) (now : ℕ) (j : Job)
    → (begin_attempt now (new id name p now) >>= λ x.
        take_hops (path_of v) x >>= λ y. replay_rest v i now y)
      ≡ ok j
    → j.id ≡ id
unfolding begin_attempt new
rebuilt-id id name p v i now j e =
    let (x, a, b) =
      >>=-ok (begin_attempt now (new id name p now))
        (λ x. take_hops (path_of v) x >>= λ y. replay_rest v i now y) j e in
    let (y, c, d) = >>=-ok (take_hops (path_of v) x) (λ y. replay_rest v i now y) j b in
    let first : x.id ≡ id = ground arith in
    replay_rest-id v i now y j d ∙ take_hops-id (path_of v) x y c ∙ first

unset-id :
    (id name : String) (p : Policy) (i : Intent) (now : ℕ) (j : Job)
    → set_intent i (new id name p now) ≡ ok j
    → j.id ≡ id
unfolding set_intent new
unset-id id name p i now j e = ground arith

kept_row :
    (b : Bool) (r : Result Err Job) (j : Job)
    → (if not b then err unset_row else lift r) ≡ ok j
    → r ≡ ok j
kept_row true r j h = lift-ok r j h
kept_row false r j h = cc

pub reconstruct-id :
    (id name : String) (p : Policy) (v : StateView) (i : Intent) (now : ℕ) (j : Job)
    → reconstruct id name p v i now ≡ ok j
    → j.id ≡ id
unfolding reconstruct
reconstruct-id id name p v i now j e = elim (Bool-cases (is_unset v.state)) [
  | inr u ↦ rebuilt-id id name p v i now j (lift-ok _ j (rw (reconstruct, u) at e))
  | inl u ↦ unset-id id name p i now j (kept_row _ _ j (rw (reconstruct, u) at e))
]
