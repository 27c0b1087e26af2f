-- ===== src/Dispatch/Restore/RoundTrip.antt =====
-- A stored position is restored as it was (reconstruct of internal/dispatch/dispatch.go).
use sabnzbd_go.Base.{List, ap, arith, Bool, String, [], false, none, refl, true, ℕ, ◌∷◌, ◌≡◌}
use sabnzbd_go.Dispatch.Restore.{
  is_zero_view, lift, reconstruct, path_of, replay_activity, replay_next, replay_outcome,
  replay_path, replay_rest, take_hops,
}
use sabnzbd_go.Job.Axes.{
  cancelled, failed, ok_outcome, outcome_undeclared, unrecoverable, Activity, Intent, Outcome,
  State, StateView, act_none, assessing, extracting, fetching, finalizing, intent_declared,
  intent_run, is_settled, is_unset, pending, repairing, state_eq, state_unset,
}
use sabnzbd_go.Job.Record.Invariant.{IsHistory, IsJob}
use sabnzbd_go.Job.Admissible.{admits}
use sabnzbd_go.Job.Attempt.Invariant.{is_idle, IsAttempt}
use sabnzbd_go.Job.Spine.{can_transition}
use sabnzbd_go.Base.Result.{◌>>=◌, ok}
use sabnzbd_go.Job.Attempt.{Attempt, view}
use sabnzbd_go.Job.Record.{Job, Policy, begin_attempt, new, set_intent, state}

-- A job that has been replayed to a position, and nothing else yet.
abbrev at_position : String → String → Policy → ℕ → State → Bool → Job
at_position id name p now s assessed = record {
  id = id;
  name = name;
  policy = p;
  attempts =
      record {
        state = s;
        next = state_unset;
        activity = act_none;
        outcome = pending;
        assessed = assessed;
        started = now;
        ended = 0;
      }
      ∷ [];
  intent = intent_run;
  lease = none;
  created = now;
}

abbrev view_at : State → State → Activity → Outcome → Bool → StateView
view_at s n x o b = record { state = s; next = n; activity = x; outcome = o; assessed = b }

-- The hops lead to the stored place, assessed as stored: a place beyond the first download is only
-- reached assessed.
take_hops_lem :
    (id name : String) (p : Policy) (now : ℕ) (s n : State) (x : Activity) (o : Outcome) (b : Bool)
    → is_unset s ≡ false
    → (state_eq s fetching ≡ false → b ≡ true)
    → (begin_attempt now (new id name p now) >>= λ j. take_hops (path_of (view_at s n x o b)) j)
      ≡ ok (at_position id name p now s b)
unfolding begin_attempt new take_hops path_of replay_path is_unset state_eq
take_hops_lem id name p now state_unset n x o b u h = cc
take_hops_lem id name p now fetching n x o true u h = refl
take_hops_lem id name p now fetching n x o false u h = refl
take_hops_lem id name p now assessing n x o b u h = rw (h refl) refl
take_hops_lem id name p now repairing n x o b u h = rw (h refl) refl
take_hops_lem id name p now extracting n x o b u h = rw (h refl) refl
take_hops_lem id name p now finalizing n x o b u h = rw (h refl) refl

unset_unique : (n : State) → is_unset n ≡ true → n ≡ state_unset
unfolding is_unset
unset_unique state_unset h = refl
unset_unique fetching h = cc
unset_unique assessing h = cc
unset_unique repairing h = cc
unset_unique extracting h = cc
unset_unique finalizing h = cc

idle_unique : (x : Activity) → is_idle x ≡ true → x ≡ act_none
idle_unique x h = ground arith

-- The job after each of the steps that follow the hops.
module _ (id name : String) (p : Policy) (now : ℕ) (s : State) (b : Bool) where
  abbrev stage : State → Activity → Outcome → ℕ → Job
  stage n x o ended = record {
    id = id;
    name = name;
    policy = p;
    attempts =
        record {
          state = s;
          next = n;
          activity = x;
          outcome = o;
          assessed = b;
          started = now;
          ended = ended;
        }
        ∷ [];
    intent = intent_run;
    lease = none;
    created = now;
  }

  replay_next_lem :
      (n : State)
      → (is_unset n ≡ false → can_transition s n ≡ true)
      → replay_next n (stage state_unset act_none pending 0) ≡ ok (stage n act_none pending 0)
  unfolding replay_next is_unset can_transition
  replay_next_lem state_unset h = refl
  replay_next_lem fetching h = ground (arith, h refl)
  replay_next_lem assessing h = ground (arith, h refl)
  replay_next_lem repairing h = ground (arith, h refl)
  replay_next_lem extracting h = ground (arith, h refl)
  replay_next_lem finalizing h = ground (arith, h refl)

  replay_activity_lem :
      (n : State) (x : Activity)
      → replay_activity x (stage n act_none pending 0) ≡ ok (stage n x pending 0)
  unfolding replay_activity
  replay_activity_lem n x = ground arith

  replay_outcome_lem :
      (n : State) (x : Activity) (o : Outcome)
      → (is_settled o ≡ true → is_unset n ≡ true)
      → (is_settled o ≡ true → is_idle x ≡ true)
      → (is_settled o ≡ true → admits o s ≡ true)
      → (e : ℕ) × (replay_outcome o now (stage n x pending 0) ≡ ok (stage n x o e))
  unfolding replay_outcome is_settled is_unset admits
  replay_outcome_lem n x pending u t h = (0, refl)
  replay_outcome_lem n x (outcome_undeclared k) u t h = cc (h refl)
  replay_outcome_lem n x ok_outcome u t h =
      rw (unset_unique n (u refl), idle_unique x (t refl)) (now, ground (arith, h refl))
  replay_outcome_lem n x failed u t h =
      rw (unset_unique n (u refl), idle_unique x (t refl)) (now, ground (arith, h refl))
  replay_outcome_lem n x unrecoverable u t h =
      rw (unset_unique n (u refl), idle_unique x (t refl)) (now, ground (arith, h refl))
  replay_outcome_lem n x cancelled u t h =
      rw (unset_unique n (u refl), idle_unique x (t refl)) (now, ground (arith, h refl))

intent_kept :
    (i : Intent) (j : Job)
    → intent_declared i ≡ true
    → j.intent ≡ intent_run
    → set_intent i j ≡ ok (record j { intent = i })
unfolding set_intent
intent_kept i j h e = rw (h, e) refl

attempt_restored :
    (id name : String) (p : Policy) (now : ℕ) (i : Intent) (a : Attempt)
    → IsAttempt a
    → intent_declared i ≡ true
    → (j : Job) × (reconstruct id name p (view a) i now ≡ ok j)
      × (state j ≡ view a)
      × (j.intent ≡ i)
      × (j.id ≡ id)
      × (j.lease ≡ none)
unfolding reconstruct replay_rest state
attempt_restored id name p now i a v k =
    let settled =
      replay_outcome_lem id name p now a.state a.assessed a.next a.activity a.outcome v.settled_next
        v.settled_activity v.settled_admits in
    let last = stage id name p now a.state a.assessed a.next a.activity a.outcome settled.0 in
    (
      record last { intent = i },
      rw
          (
            v.placed,
            take_hops_lem id name p now a.state a.next a.activity a.outcome a.assessed v.placed
                v.assessed_after,
            replay_next_lem id name p now a.state a.assessed a.next v.next_edge,
            replay_activity_lem id name p now a.state a.assessed a.next a.activity,
            settled.1,
            intent_kept i last k refl,
          )
          refl,
      refl,
      refl,
      refl,
      refl,
    )

-- A stored job is restored as it was: reconstruct of what a sound job shows, at any place and with any
-- recorded destination, activity and verdict, succeeds, and the new job shows the same, has the same
-- intent, and holds no lease.
pub state-reconstruct :
    (j : Job) (name : String) (p : Policy) (now : ℕ)
    → IsJob j
    → (j' : Job) × (reconstruct j.id name p (state j) j.intent now ≡ ok j')
      × (state j' ≡ state j)
      × (j'.intent ≡ j.intent)
      × (j'.id ≡ j.id)
      × (j'.lease ≡ none)
unfolding state is_zero_view reconstruct new
state-reconstruct j name p now v = from_attempts j.attempts refl v.history
  where
    from_attempts :
        (past : List Attempt)
        → j.attempts ≡ past
        → IsHistory past
        → (j' : Job) × (reconstruct j.id name p (state j) j.intent now ≡ ok j')
          × (state j' ≡ state j)
          × (j'.intent ≡ j.intent)
          × (j'.id ≡ j.id)
          × (j'.lease ≡ none)
    from_attempts [] e h = (
      record (new j.id name p now) { intent = j.intent },
      rw e (ap lift (intent_kept j.intent (new j.id name p now) v.intent_known refl)),
      rw e refl,
      refl,
      refl,
      refl,
    )
    from_attempts (a ∷ past) e h =
        rw e (attempt_restored j.id name p now j.intent a h.0 v.intent_known)
