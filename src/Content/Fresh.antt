-- ===== src/Content/Fresh.antt =====
-- A job's progress as it is built (internal/job/progress.go), and the doors that install it
-- (internal/job/content.go). A subject is its bytes.
use sabnzbd_go.Base.{
  if◌then◌else◌, Bool, List, Option, [], false, get_elem?, leb, map, none, not, some, ℕ, ◌&&◌, ◌+◌,
  ◌-◌, ◌==◌, ◌||◌, ◌∷◌,
}
use sabnzbd_go.Base.Keys.{count}
use sabnzbd_go.Base.Words.{add_word, sub_word}
use sabnzbd_go.Content.Bitset.{new_bitset, set_bit}
use sabnzbd_go.Content.Doors.{Content, each_from}
use sabnzbd_go.Content.Manifest.{Manifest, ManifestFile, ends_of}
use sabnzbd_go.Content.Progress.{
  FetchPolicy, FileProgress, JobProgress, change_file, fetch_always, less_pending,
}
use sabnzbd_go.Content.Progress.Recompute.{start_of}
use sabnzbd_go.Sched.World.Books.{total}
pub mod Counts

pub record FileMeta : Type 0 where
  pub article_count : ℕ
  pub bytes : ℕ
  pub complete : Bool
  pub fetch : FetchPolicy
  pub is_par2 : Bool
  pub bytes_downloaded : ℕ
  pub failed_bytes : ℕ
  pub done : List Bool
  pub failed : List Bool

-- `i < len(xs) && xs[i]`
abbrev pub bool_at : Option Bool → Bool
bool_at none = false
bool_at (some b) = b

unfoldable pub sized_file : FileMeta → FileProgress
sized_file f = record {
  complete = f.complete;
  fetch = f.fetch;
  pending = f.article_count;
  bytes = f.bytes;
  bytes_downloaded = f.bytes_downloaded;
  failed_bytes = f.failed_bytes;
  is_par2 = f.is_par2;
  filename = "";
  assembled_crc32 = 0;
}

-- Article `i` of file `fi`, whose articles begin at `base`.
unfoldable pub seed_article : FileMeta → ℕ → ℕ → ℕ → JobProgress → JobProgress
unfolding change_file less_pending
seed_article f fi base i p =
    let p' = record p {
      done = set_bit p.done (base + i);
      files = change_file fi less_pending p.files;
      pending_articles = sub_word p.pending_articles 1;
      articles_resolved = add_word p.articles_resolved 1;
    } in
    if not (bool_at (get_elem? f.done i))
    then p
    else if bool_at (get_elem? f.failed i)
    then record p' {
      failed = set_bit p.failed (base + i);
      articles_failed = add_word p.articles_failed 1;
    }
    else p'

unfoldable pub seed_metas : ℕ → ℕ → List FileMeta → JobProgress → JobProgress
unfolding each_from seed_article
seed_metas fi base [] p = p
seed_metas fi base (f ∷ fs) p =
    seed_metas (fi + 1) (base + f.article_count) fs
      (each_from (seed_article f fi base) 0 f.article_count p)

unfoldable pub count_articles : List FileMeta → ℕ
count_articles [] = 0
count_articles (f ∷ fs) = f.article_count + count_articles fs

unfoldable pub sum_failed : List FileMeta → ℕ
sum_failed [] = 0
sum_failed (f ∷ fs) = add_word f.failed_bytes (sum_failed fs)

unfoldable pub new_job_progress_sized : List FileMeta → JobProgress
unfolding new_bitset sized_file seed_metas count_articles sum_failed
new_job_progress_sized fs =
    let total = count_articles fs in
    let p = seed_metas 0 0 fs (record {
      done = new_bitset total;
      failed = new_bitset total;
      emitted = new_bitset total;
      files = map sized_file fs;
      pending_articles = total;
      articles_resolved = 0;
      articles_failed = 0;
      early_aborted = false;
      failed_bytes = 0;
      server_stats = [];
      download_started = 0;
      download_finished = 0;
      par2_recovered = false;
      par2_release_reason = "";
    }) in
    record p { failed_bytes = sum_failed fs }

-- A capital letter as its small one; no letter beyond ASCII becomes one of `.par2`.
abbrev lower : ℕ → ℕ
lower c = if leb 65 c && leb c 90 then c + 32 else c

starts_par2 : List ℕ → Bool
starts_par2 (a ∷ b ∷ c ∷ d ∷ e ∷ _) =
    (a == 46) && ((lower b == 112) && ((lower c == 97) && ((lower d == 114) && (e == 50))))
starts_par2 _ = false

unfoldable pub is_par2_file : List ℕ → Bool
unfolding starts_par2
is_par2_file [] = false
is_par2_file (c ∷ subject) = starts_par2 (c ∷ subject) || is_par2_file subject

unfoldable pub file_meta : ℕ → ManifestFile → FileMeta
unfolding is_par2_file
file_meta count f = record {
  article_count = count;
  bytes = f.bytes;
  complete = false;
  fetch = fetch_always;
  is_par2 = is_par2_file f.subject;
  bytes_downloaded = 0;
  failed_bytes = 0;
  done = [];
  failed = [];
}

-- The loop over the files, each from `lo` to its end.
unfoldable pub file_metas : ℕ → List ℕ → List ManifestFile → List FileMeta
unfolding file_meta
file_metas lo (hi ∷ ends) (f ∷ fs) = file_meta (hi - lo) f ∷ file_metas hi ends fs
file_metas lo _ _ = []

unfoldable pub file_meta_from_manifest : Manifest → List FileMeta
unfolding file_metas
file_meta_from_manifest m =
    file_metas (start_of m.file_article_offsets) (ends_of m.file_article_offsets) m.files

unfoldable pub new_job_progress : Manifest → JobProgress
unfolding new_job_progress_sized file_meta_from_manifest
new_job_progress m = new_job_progress_sized (file_meta_from_manifest m)

unfoldable pub attach_content : Manifest → Content → Content
unfolding new_job_progress
attach_content m c = record {
  manifest = some m;
  progress = some (new_job_progress m);
  total_bytes = m.total_bytes;
  recovery_bytes = m.par2_recovery_bytes;
  recovery_files = m.par2_recovery_files;
}
