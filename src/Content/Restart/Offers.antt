-- ===== src/Content/Restart/Offers.antt =====
-- What the dispatcher is offered of a job that was made resident (Hydrate of internal/app/residency.go).
use sabnzbd_go.Base.{
  Bool, length, List, Option, ap, arith, none, not, refl, some, sym, ℕ, ◌&&◌, ◌<◌, ◌||◌, ◌∙◌, ◌≡◌,
}
use sabnzbd_go.Base.Result.{ok}
use sabnzbd_go.Content.Bitset.{get_bit}
use sabnzbd_go.Content.Bulk.{apply_resolution, for_each_unfinished_article, in_any}
use sabnzbd_go.Content.Bulk.Resolved.{apply_resolution_lem, listed}
use sabnzbd_go.Content.Bulk.Unfinished.{all_unfinished, for_each_unfinished_article-all}
use sabnzbd_go.Content.Doors.{Content, or_panic, restore_content, with_progress}
use sabnzbd_go.Content.Fresh.{attach_content, new_job_progress}
use sabnzbd_go.Content.Fresh.Counts.{new_job_progress-IsCounted}
use sabnzbd_go.Content.Manifest.{Manifest, num_articles, num_files}
use sabnzbd_go.Content.Progress.{JobProgress}
use sabnzbd_go.Content.Progress.Marks.{IsManifest}
use sabnzbd_go.Content.Progress.Recompute.{recompute}
use sabnzbd_go.Content.Progress.Recomputed.{IsCounted-IsSound, IsSound, recompute_total}
use sabnzbd_go.Content.Restart.{
  FileRow, hydrate_job, install, logged, restore_job_files, restore_resolution,
}
use sabnzbd_go.Content.Restart.Replayed.{apply_resolution-Replayed, recompute-Replayed}
use sabnzbd_go.Content.Restart.Rows.{marks_at, restore_job_files-Rowed, row_marks}
use mathlib.Core.Option

-- The progress that a job which becomes resident starts from: its own, or that of its manifest.
abbrev pub prior : Manifest → Option JobProgress → JobProgress
prior m none = new_job_progress m
prior m (some p) = p

abbrev pub IsPrior : Manifest → Option JobProgress → Type 0
IsPrior m none = Unit {0}
IsPrior m (some p) = IsSound m p

-- A record with the bits and the marks of another.
record Alike (m : Manifest) (p q : JobProgress) : Type 0 where
  sound : IsSound m q
  done_kept : q.done ≡ p.done
  failed_kept : q.failed ≡ p.failed
  emitted_kept : q.emitted ≡ p.emitted
  marks_kept : (fi : ℕ) → marks_at q.files fi ≡ marks_at p.files fi

restored :
    (m : Manifest) (c : Content) (p q : JobProgress)
    → c.progress ≡ some p
    → recompute m p ≡ some q
    → p.done.n ≡ num_articles m
    → length p.files ≡ num_files m
    → install m c ≡ ok (with_progress (attach_content m c) q)
unfolding install attach_content restore_content or_panic
restored m c p q h r d f = ground arith

installed :
    (m : Manifest) (c : Content) (op : Option JobProgress)
    → c.progress ≡ op
    → IsManifest m
    → num_articles m < 18446744073709551616
    → IsPrior m op
    → (q : JobProgress) × (install m c ≡ ok (with_progress (attach_content m c) q))
      × Alike m (prior m op) q
unfolding install
installed m c none h w b v = (
  new_job_progress m,
  rw h refl,
  record {
    sound = IsCounted-IsSound m (new_job_progress m) w (new_job_progress-IsCounted m w b).0;
    done_kept = refl;
    failed_kept = refl;
    emitted_kept = refl;
    marks_kept = λ fi. refl;
  },
)
installed m c (some p) h w b v =
    let (q, came, counted, done, failed, emitted) = recompute_total m p w v in
    (
      q,
      restored m c p q h came v.done_size v.files_size,
      record {
        sound = IsCounted-IsSound m q w counted;
        done_kept = done;
        failed_kept = failed;
        emitted_kept = emitted;
        marks_kept = (recompute-Replayed m p q came).marks_kept;
      },
    )

flight-resolved :
    (e e' d d' x : Bool) → e' ≡ (e && (d || not d')) → d' ≡ (d || x) → e' ≡ (e && (d || not x))
flight-resolved e e' d d' x h k = ground arith

hydrated :
    (c c' : Content) (m : Manifest) (rows : List FileRow) (ss : List (ℕ × ℕ)) (failures : List ℕ)
    (p1 p2 q : JobProgress)
    → c.manifest ≡ none
    → install m c ≡ ok (with_progress c' p1)
    → restore_job_files rows (with_progress c' p1) ≡ with_progress c' p2
    → apply_resolution ss failures (with_progress c' p2) ≡ ok (with_progress c' q)
    → hydrate_job m rows (some (ss, failures)) c ≡ ok (with_progress c' q)
unfolding hydrate_job restore_resolution logged
hydrated c c' m rows ss failures p1 p2 q hm in1 in2 came = rw (hm, in1, in2, came) refl

-- A job becomes resident whose own progress, if it has one, is sized for the manifest that was read.
-- Whatever rows, runs and failures the store has: an article is done exactly when it was or is in a run
-- or listed as failed; it is failed exactly when it was, or is listed and was not done; it is in flight
-- exactly when it was and is not resolved by the replay; a file is complete if it was or a row says so,
-- and is fetched as its last row says; and the dispatcher's walk then hands over every article that is
-- neither done nor in flight of every file that is fetched and not complete, in order, and no other.
pub restart_offers :
    (c : Content) (m : Manifest) (rows : List FileRow) (ss : List (ℕ × ℕ)) (failures : List ℕ)
    → c.manifest ≡ none
    → IsManifest m
    → num_articles m < 18446744073709551616
    → IsPrior m c.progress
    → let p = prior m c.progress in
      let c' = attach_content m c in
      (q : JobProgress) × (hydrate_job m rows (some (ss, failures)) c ≡ ok (with_progress c' q))
      × ((j : ℕ)
          → j < num_articles m
          → (get_bit q.done j ≡ (get_bit p.done j || (listed j failures || in_any j ss)))
            × (get_bit q.failed j
                ≡ (get_bit p.failed j || (listed j failures && not (get_bit p.done j))))
            × (get_bit q.emitted j ≡ (
                get_bit p.emitted j
                && (get_bit p.done j || not (listed j failures || in_any j ss)))))
      × ((fi : ℕ) → marks_at q.files fi ≡ Option.map (row_marks fi rows) (marks_at p.files fi))
      × (for_each_unfinished_article (with_progress c' q) ≡ ok (all_unfinished m q))
unfolding attach_content
restart_offers c m rows ss failures hm w b v =
    let (p1, in1, alike) = installed m c c.progress refl w b v in
    let c' = attach_content m c in
    let (p2, in2, rowed) = restore_job_files-Rowed m c' rows p1 alike.sound in
    let c2 = with_progress c' p2 in
    let (q, came, counted, bits) =
      apply_resolution_lem c2 m p2 ss failures refl refl w rowed.sound in
    let played = apply_resolution-Replayed c2 m p2 ss failures q refl refl w rowed.sound came in
    let done = rowed.done_kept ∙ alike.done_kept in
    let failed = rowed.failed_kept ∙ alike.failed_kept in
    let emitted = rowed.emitted_kept ∙ alike.emitted_kept in
    (
      q,
      hydrated c c' m rows ss failures p1 p2 q hm in1 in2 came,
      λ j l. (
        rw (sym done) (bits j l).0,
        rw (sym done, sym failed) (bits j l).1,
        rw (sym done, sym emitted) (flight-resolved _ _ _ _ _ (played.flight j l) (bits j l).0),
      ),
      λ fi.
          played.marks_kept fi
          ∙ rowed.files_marked fi
          ∙ ap (Option.map (row_marks fi rows)) (alike.marks_kept fi),
      for_each_unfinished_article-all (with_progress c' q) m q refl refl w counted b,
    )
