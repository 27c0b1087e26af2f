-- ===== src/Content/Doors.antt =====
-- internal/job/content.go: the doors by which a job's content changes. An index is a number: where the
-- code refuses a negative one it refuses one past the end likewise.
use sabnzbd_go.Base.{
  if◌then◌else◌, Bool, List, Option, String, [], false, get_elem?, leb, length, ltb, map, none, not,
  some, suc, true, zero, ℕ, ◌&&◌, ◌+◌, ◌-◌, ◌==◌, ◌||◌, ◌∷◌,
}
use sabnzbd_go.Base.Result.{◌>>=◌, Result, err, ok}
use sabnzbd_go.Content.Manifest.{Manifest, file_range, num_articles, num_files}
use sabnzbd_go.Content.Progress.{
  FileProgress, JobProgress, change_file, clear_emitted, fetch_always, fetch_never, is_if_needed,
  mark_done, mark_emitted, mark_failed,
}
use sabnzbd_go.Content.Progress.Recompute.{recompute}
use sabnzbd_go.Durable.Runs.{Run}

pub data ContentErr : Type 0 where
  not_resident out_of_range bad_run other_manifest panicked : ContentErr

pub record Content : Type 0 where
  pub manifest : Option Manifest
  pub progress : Option JobProgress
  pub total_bytes : ℕ
  pub recovery_bytes : ℕ
  pub recovery_files : ℕ

-- Job.contentMu is held, and both halves are there.
unfoldable pub resident : Content → Result ContentErr (Manifest × JobProgress)
resident c = on_both c.manifest c.progress
  where
    on_both : Option Manifest → Option JobProgress → Result ContentErr (Manifest × JobProgress)
    on_both (some m) (some p) = ok (m, p)
    on_both _ _ = err not_resident

unfoldable pub or_panic : Option JobProgress → Result ContentErr JobProgress
or_panic none = err panicked
or_panic (some p) = ok p

abbrev pub with_progress : Content → JobProgress → Content
with_progress c p = record c { progress = some p }

-- The loop `for i := lo; i < lo + k; i++`.
unfoldable pub each_from : (ℕ → JobProgress → JobProgress) → ℕ → ℕ → JobProgress → JobProgress
each_from f lo zero p = p
each_from f lo (suc k) p = each_from f (lo + 1) k (f lo p)

unfoldable pub restore_content : Manifest → JobProgress → Content → Result ContentErr Content
restore_content m p c =
    if not ((p.done.n == num_articles m) && (length p.files == num_files m))
    then err other_manifest
    else or_panic (recompute m p) >>= λ p'. ok (record {
      manifest = some m;
      progress = some p';
      total_bytes = m.total_bytes;
      recovery_bytes = m.par2_recovery_bytes;
      recovery_files = m.par2_recovery_files;
    })

unfoldable pub evict : Content → Content
evict c = record c { manifest = none }

-- The two guards of every door on one article.
unfoldable pub on_article :
    ℕ
    → (Manifest → JobProgress → Result ContentErr JobProgress)
    → Content
    → Result ContentErr Content
unfolding resident
on_article i f c = resident c >>= λ mp.
    let (m, p) = mp in
    if not (ltb i (num_articles m))
    then err out_of_range
    else (f m p >>= λ p'. ok (with_progress c p'))

unfoldable pub mark_article_done : ℕ → Content → Result ContentErr Content
unfolding on_article
mark_article_done i c = on_article i (λ m p. ok (mark_done m i p).0) c

unfoldable pub mark_article_emitted : ℕ → Content → Result ContentErr Content
unfolding on_article
mark_article_emitted i c = on_article i (λ m p. ok (mark_emitted m i p)) c

unfoldable pub clear_article_emitted : ℕ → Content → Result ContentErr Content
unfolding on_article
clear_article_emitted i c = on_article i (λ m p. ok (clear_emitted m i p)) c

-- `Fetch` of the deferred file `fi` becomes FetchAlways.
undefer_one : ℕ → List FileProgress → List FileProgress
unfolding is_if_needed change_file
undefer_one fi fs =
    change_file fi (λ f. if is_if_needed f.fetch then record f { fetch = fetch_always } else f) fs

abbrev pub deferred_at : Option FileProgress → Bool
deferred_at none = false
deferred_at (some f) = is_if_needed f.fetch

undefer_all : List ℕ → List FileProgress → List FileProgress × Bool
unfolding undefer_one is_if_needed
undefer_all [] fs = (fs, false)
undefer_all (fi ∷ fis) fs =
    let (fs', changed) = undefer_all fis (undefer_one fi fs) in
    (fs', deferred_at (get_elem? fs fi) || changed)

unfoldable pub undefer_recovery :
    List ℕ → Manifest → JobProgress → Result ContentErr (JobProgress × Bool)
unfolding undefer_all or_panic
undefer_recovery fis m p =
    let (files, changed) = undefer_all fis p.files in
    if changed
    then (or_panic (recompute m (record p { files = files; par2_recovered = true })) >>= λ p'.
        ok (p', true))
    else ok (p, false)

deferred_from : ℕ → List FileProgress → List ℕ
unfolding is_if_needed
deferred_from fi [] = []
deferred_from fi (f ∷ fs) =
    let rest = deferred_from (fi + 1) fs in if is_if_needed f.fetch then fi ∷ rest else rest

unfoldable pub deferred_recovery_indices : JobProgress → List ℕ
unfolding deferred_from
deferred_recovery_indices p = deferred_from 0 p.files

abbrev pub failure_reason : String
failure_reason = "permanent article download failure detected on active queue"

unfoldable pub mark_article_failed : ℕ → Content → Result ContentErr Content
unfolding on_article undefer_recovery deferred_recovery_indices
mark_article_failed i c =
    on_article i
      (λ m p.
        let (p', marked) = mark_failed m i p in
        if marked && (not p'.par2_recovered && ltb 0 m.par2_recovery_files)
        then (undefer_recovery (deferred_recovery_indices p') m p' >>= λ r.
            let (q, changed) = r in
            ok (if changed then record q { par2_release_reason = failure_reason } else q))
        else ok p')
      c

discard_one : FileProgress → FileProgress
unfolding is_if_needed
discard_one f = if is_if_needed f.fetch then record f { fetch = fetch_never } else f

any_deferred : List FileProgress → Bool
unfolding is_if_needed
any_deferred [] = false
any_deferred (f ∷ fs) = is_if_needed f.fetch || any_deferred fs

-- The answer, and the content; without a manifest the figures wait for the next recompute.
unfoldable pub discard_deferred_par2 : Content → Result ContentErr (Content × Bool)
unfolding discard_one any_deferred or_panic
discard_deferred_par2 c = elim c.progress [
  | none ↦ ok (c, false)
  | some p ↦
      let p' = record p { files = map discard_one p.files } in
      if not (any_deferred p.files) then ok (c, false) else (elim c.manifest [
        | none ↦ ok (with_progress c p', true)
        | some m ↦ (or_panic (recompute m p') >>= λ q. ok (with_progress c q, true))
      ])
]

-- Each index of the proof, and how many were out of range.
ack_all : List ℕ → Manifest → JobProgress → JobProgress × ℕ
ack_all [] m p = (p, 0)
ack_all (i ∷ rest) m p =
    let inside = ltb i (num_articles m) in
    let (q, invalid) = ack_all rest m (if inside then (mark_done m i p).0 else p) in
    (q, if inside then invalid else invalid + 1)

unfoldable pub ack_durable : List ℕ → Content → Result ContentErr (Content × ℕ × ℕ)
unfolding ack_all resident
ack_durable [] c = ok (c, 0, 0)
ack_durable (i ∷ rest) c = resident c >>= λ mp.
    let (m, p) = mp in
    let (q, invalid) = ack_all (i ∷ rest) m p in ok (with_progress c q, invalid, num_articles m)

unfoldable pub runs_coverage : Manifest → Run → Result ContentErr (ℕ × ℕ)
runs_coverage m r =
    let (lo, hi) = file_range m r.file_idx in
    if not (ltb r.file_idx (num_files m))
    then err out_of_range
    else if ltb r.last_art_idx r.first_art_idx || (ltb r.first_art_idx lo || leb hi r.last_art_idx)
    then err bad_run
    else ok (r.first_art_idx, r.last_art_idx)

-- Every run is checked before the first article is marked.
unfoldable pub run_spans : Manifest → List Run → Result ContentErr (List (ℕ × ℕ))
unfolding runs_coverage
run_spans m [] = ok []
run_spans m (r ∷ rs) = runs_coverage m r >>= λ s. run_spans m rs >>= λ ss. ok (s ∷ ss)

seed_spans : Manifest → List (ℕ × ℕ) → JobProgress → JobProgress
unfolding each_from
seed_spans m [] p = p
seed_spans m ((lo, hi) ∷ ss) p =
    seed_spans m ss (each_from (λ i q. (mark_done m i q).0) lo (hi + 1 - lo) p)

unfoldable pub seed_from_runs : List Run → Content → Result ContentErr Content
unfolding run_spans seed_spans resident
seed_from_runs rs c = resident c >>= λ mp.
    let (m, p) = mp in run_spans m rs >>= λ ss. ok (with_progress c (seed_spans m ss p))
