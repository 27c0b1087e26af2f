-- ===== src/Content/Bulk.antt =====
-- internal/job/content.go: the doors that walk over all articles of a job: what a restart, a resume and
-- a retry do, and the walk that finds what is left to fetch.
use sabnzbd_go.Content.Doors.{
  run_spans, Content, ContentErr, each_from, or_panic, out_of_range, panicked, resident,
  with_progress,
}
use sabnzbd_go.Job.Axes.{failed}
use sabnzbd_go.Base.{
  if◌then◌else◌, Bool, List, Option, [], false, leb, ltb, min, none, not, some, suc, true, zero, ℕ,
  ◌&&◌, ◌++◌, ◌+◌, ◌-◌, ◌==◌, ◌||◌, ◌∷◌,
}
use sabnzbd_go.Base.Result.{◌>>=◌, Result, err, ok}
use sabnzbd_go.Content.Bitset.{clear_bit, get_bit}
use sabnzbd_go.Content.Manifest.{Manifest, ends_of, file_range, num_articles, num_files}
use sabnzbd_go.Content.Progress.{
  FileProgress, JobProgress, change_file, fetch_if_needed, is_always, is_never, mark_done,
  mark_failed, mark_not_done,
}
use sabnzbd_go.Content.Progress.Recompute.{recompute, start_of}
use sabnzbd_go.Durable.Runs.{Run}
pub mod Resolved
pub mod Unfinished
pub mod Retried

-- An article that the dispatcher may fetch: its file, and its index.
abbrev pub is_unfinished : JobProgress → ℕ → Bool
is_unfinished p i = not (get_bit p.done i || get_bit p.emitted i)

unfinished_from : JobProgress → ℕ → ℕ → ℕ → List (ℕ × ℕ)
unfinished_from p fi lo zero = []
unfinished_from p fi lo (suc k) =
    let rest = unfinished_from p fi (lo + 1) k in
    if is_unfinished p lo then (fi, lo) ∷ rest else rest

skips_file : FileProgress → Bool
unfolding is_always
skips_file f = f.complete || (f.pending == 0 || not (is_always f.fetch))

unfinished_files : JobProgress → ℕ → ℕ → List ℕ → List FileProgress → List (ℕ × ℕ)
unfolding unfinished_from skips_file
unfinished_files p fi lo (hi ∷ ends) (f ∷ fs) =
    (if skips_file f then [] else unfinished_from p fi lo (hi - lo))
    ++ unfinished_files p (fi + 1) hi ends fs
unfinished_files p fi lo _ _ = []

-- The articles that ForEachUnfinishedArticle hands to a callback that never stops it.
unfoldable pub for_each_unfinished_article : Content → Result ContentErr (List (ℕ × ℕ))
unfolding resident unfinished_files
for_each_unfinished_article c = resident c >>= λ mp.
    let (m, p) = mp in
    if p.pending_articles == 0
    then ok []
    else ok (
        unfinished_files p 0 (start_of m.file_article_offsets) (ends_of m.file_article_offsets)
          p.files)

unfoldable pub in_any : ℕ → List (ℕ × ℕ) → Bool
in_any i [] = false
in_any i ((lo, hi) ∷ ss) = (leb lo i && leb i hi) || in_any i ss

-- The articles of one file: marked where a run covers them, else taken back. How many were taken back.
replace_articles : Manifest → List (ℕ × ℕ) → ℕ → ℕ → JobProgress → JobProgress × ℕ
unfolding in_any
replace_articles m ss lo zero p = (p, 0)
replace_articles m ss lo (suc k) p =
    let (p', cleared) =
      if in_any lo ss then ((mark_done m lo p).0, false) else mark_not_done lo p in
    let (q, n) = replace_articles m ss (lo + 1) k p' in (q, if cleared then n + 1 else n)

replace_file : Manifest → List (ℕ × ℕ) → ℕ → JobProgress → JobProgress
unfolding replace_articles change_file
replace_file m ss fi p =
    let (lo, hi) = file_range m fi in
    let (q, n) = replace_articles m ss lo (hi - lo) p in
    if ltb 0 n
    then record q {
      files = change_file fi (λ f. record f { complete = false; assembled_crc32 = 0 }) q.files;
    }
    else q

-- The content as the loop over the files leaves it, with the error that it stops at.
replace_files : Manifest → List (ℕ × ℕ) → List ℕ → JobProgress → JobProgress × Bool
unfolding replace_file
replace_files m ss [] p = (p, true)
replace_files m ss (fi ∷ fis) p = elim (ltb fi (num_files m)) [
  | false ↦ (p, false)
  | true ↦ replace_files m ss fis (replace_file m ss fi p)
]

-- The content afterwards, which an error leaves changed too, and the error.
unfoldable pub replace_from_runs : List ℕ → List Run → Content → Content × Option ContentErr
unfolding resident run_spans replace_files or_panic
replace_from_runs fis rs c = elim (resident c) [
  | err e ↦ (c, some e)
  | ok (m, p) ↦ elim (run_spans m rs) [
    | err e ↦ (c, some e)
    | ok ss ↦
        let (q, whole) = replace_files m ss fis p in
        if not whole then (with_progress c q, some out_of_range) else elim (recompute m q) [
          | none ↦ (with_progress c q, some panicked)
          | some q' ↦ (with_progress c q', none)
        ]
  ]
]

unfoldable pub fail_all : Manifest → List ℕ → JobProgress → JobProgress
fail_all m [] p = p
fail_all m (i ∷ rest) p =
    fail_all m rest (if ltb i (num_articles m) then (mark_failed m i p).0 else p)

unfoldable pub resolve_one : Manifest → ℕ → JobProgress → JobProgress
resolve_one m i p = if get_bit p.failed i then p else (mark_done m i p).0

-- The articles of one run, up to the last one of the job.
unfoldable pub resolve_spans : Manifest → List (ℕ × ℕ) → JobProgress → JobProgress
unfolding each_from resolve_one
resolve_spans m [] p = p
resolve_spans m ((lo, hi) ∷ ss) p =
    resolve_spans m ss (each_from (resolve_one m) lo (min (hi + 1) (num_articles m) - lo) p)

unfoldable pub apply_resolution : List (ℕ × ℕ) → List ℕ → Content → Result ContentErr Content
unfolding resident fail_all resolve_spans or_panic
apply_resolution ss failures c = resident c >>= λ mp.
    let (m, p) = mp in
    or_panic (recompute m (resolve_spans m ss (fail_all m failures p))) >>= λ q.
    ok (with_progress c q)

retry_article : ℕ → JobProgress → JobProgress
retry_article i p =
    if not (get_bit p.failed i)
    then p
    else record p { done = clear_bit p.done i; failed = clear_bit p.failed i }

any_failed : JobProgress → ℕ → ℕ → Bool
any_failed p lo zero = false
any_failed p lo (suc k) = get_bit p.failed lo || any_failed p (lo + 1) k

retry_file : Bool → FileProgress → FileProgress
unfolding is_never
retry_file any_reset f =
    let f' = if any_reset then record f { complete = false } else f in
    if is_never f'.fetch then record f' { fetch = fetch_if_needed } else f'

retry_files : ℕ → ℕ → List ℕ → JobProgress → JobProgress
unfolding retry_article any_failed retry_file each_from change_file
retry_files fi lo [] p = p
retry_files fi lo (hi ∷ ends) p =
    let q = each_from retry_article lo (hi - lo) p in
    retry_files (fi + 1) hi ends
      (record q { files = change_file fi (retry_file (any_failed p lo (hi - lo))) q.files })

unfoldable pub reset_for_retry : Content → Result ContentErr Content
unfolding resident retry_files or_panic
reset_for_retry c = elim (resident c) [
  | err e ↦ ok c
  | ok (m, p) ↦
      let cleared = record p {
        early_aborted = false;
        par2_recovered = false;
        par2_release_reason = "";
        download_started = 0;
        download_finished = 0;
      } in
      or_panic (
        recompute m (
          retry_files 0 (start_of m.file_article_offsets) (ends_of m.file_article_offsets) cleared))
      >>= λ q. ok (with_progress c q)
]
