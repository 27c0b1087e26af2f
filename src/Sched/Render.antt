-- ===== src/Sched/Render.antt =====
-- internal/sched/render.go: the view that the queue composes of a job, and what the API's status then
-- says (internal/job/sabnzbd.go).
use sabnzbd_go.Base.{◌≡◌, ◌↔◌, true, false, Option, none, some, List, arith, map, is_some}
use sabnzbd_go.Job.Axes.{WaitReason, no_lease, is_settled, fetching, finalizing, ok_outcome}
use sabnzbd_go.Job.Record.{Job, snapshot, state}
use sabnzbd_go.Job.Record.Invariant.{IsJob}
use sabnzbd_go.Job.Admissible.{admits}
use sabnzbd_go.Job.Status.{
  RenderView, to_sabnzbd, status_completed, status_paused, status_fetching, status_downloading,
}
use sabnzbd_go.Sched.Queue.{Queue, holds, running, gated_by, wait_reason}

-- Go's (0, false) leaves the zero WaitReason, NoLease.
reason_or_zero : Option WaitReason → WaitReason
reason_or_zero none = no_lease
reason_or_zero (some r) = r

-- renderLocked
unfoldable pub render : Queue → Job → RenderView
unfolding reason_or_zero snapshot wait_reason running holds
render q j = record {
  view = state j;
  running = running q j.id (snapshot j);
  reason = reason_or_zero (wait_reason q j.id (snapshot j));
  intent = j.intent;
  holds = holds q j.id (snapshot j);
}

unfoldable pub render_all : Queue → List Job → List RenderView
unfolding render
render_all q = map (render q)

-- A recorded OK was recorded at Finalizing.
ok_at_finalizing :
    (j : Job) → IsJob j → (state j).outcome ≡ ok_outcome → (state j).state ≡ finalizing
unfolding state admits is_settled
ok_at_finalizing j v h = ground arith

completed_outcome :
    (q : Queue) (j : Job)
    → (to_sabnzbd (render q j) ≡ status_completed) ↔ ((state j).outcome ≡ ok_outcome)
unfolding to_sabnzbd render
completed_outcome q j = (λ h. ground arith, λ h. ground arith)

-- The queue shows a sound job as Completed exactly when its newest attempt settled OK, and that was
-- at Finalizing.
pub completed_iff :
    (q : Queue) (j : Job)
    → IsJob j
    → (to_sabnzbd (render q j) ≡ status_completed)
      ↔ (((state j).outcome ≡ ok_outcome) × ((state j).state ≡ finalizing))
completed_iff q j v =
    let (out, back) = completed_outcome q j in
    (λ h. (out h, ok_at_finalizing j v (out h)), λ h. back h.0)

-- A job shows as Paused exactly when it is not settled, not running, and a gate is shut: its own
-- pause or the queue's. So a job that is asked to pause shows what it does until it stops.
pub paused_iff :
    (q : Queue) (j : Job)
    → (to_sabnzbd (render q j) ≡ status_paused) ↔ (
        (is_settled (state j).outcome ≡ false)
        × (running q j.id (snapshot j) ≡ false)
        × (is_some (gated_by q (snapshot j)) ≡ true))
unfolding to_sabnzbd render
paused_iff q j = (λ h. ground arith, λ h. ground arith)

fetching_view :
    (v : RenderView)
    → (to_sabnzbd v ≡ status_fetching) ↔ (
        (is_settled v.view.outcome ≡ false)
        × (v.running ≡ true)
        × (v.view.state ≡ fetching)
        × (v.view.assessed ≡ true))
unfolding to_sabnzbd
fetching_view v = (λ h. ground arith, λ h. ground arith)

downloading_view :
    (v : RenderView)
    → (to_sabnzbd v ≡ status_downloading) ↔ (
        (is_settled v.view.outcome ≡ false)
        × (v.running ≡ true)
        × (v.view.state ≡ fetching)
        × (v.view.assessed ≡ false))
unfolding to_sabnzbd
downloading_view v = (λ h. ground arith, λ h. ground arith)

-- A job shows as Fetching, the status for recovery volumes, exactly while it runs at Fetching after an
-- assessment, and as Downloading exactly while it runs there before one.
pub download_status :
    (q : Queue) (j : Job)
    → ((to_sabnzbd (render q j) ≡ status_fetching) ↔ (
        (is_settled (state j).outcome ≡ false)
        × (running q j.id (snapshot j) ≡ true)
        × ((state j).state ≡ fetching)
        × ((state j).assessed ≡ true)))
      × ((to_sabnzbd (render q j) ≡ status_downloading) ↔ (
          (is_settled (state j).outcome ≡ false)
          × (running q j.id (snapshot j) ≡ true)
          × ((state j).state ≡ fetching)
          × ((state j).assessed ≡ false)))
unfolding render
download_status q j = (fetching_view (render q j), downloading_view (render q j))
