-- ===== src/Tests/Contents.antt =====
-- The content of a job (internal/job: manifest, progress and content) on concrete inputs.
use sabnzbd_go.Content.Restart.{FileRow, hydrate_job}
use sabnzbd_go.Content.Restart.Offers.{restart_offers}
use sabnzbd_go.Content.Restart.Rows.{marks_at, row_marks}
use sabnzbd_go.Content.Bitset.{set_bit, new_bitset, get_bit}
use sabnzbd_go.Content.Bitset.Bools.{get_bit-new_bitset}
use sabnzbd_go.Content.Progress.{
  fetch_always, is_always, JobProgress, mark_done, mark_emitted, mark_failed,
}
use sabnzbd_go.Content.Reload.{clear_emitted_for_reload}
use sabnzbd_go.Content.Reload.Stranded.{clear_emitted_for_reload-stranded}
use sabnzbd_go.Base.{
  List, [], arith, false, if◌then◌else◌, ltb, map, none, not, refl, some, true, ℕ, ◌&&◌, ◌+◌, ◌<◌,
  ◌||◌, ◌∷◌, ◌≡◌, ◌≤◌, ◌⊎◌,
}
use sabnzbd_go.Base.Result.{ok}
use sabnzbd_go.Content.Bulk.{apply_resolution, for_each_unfinished_article, in_any, reset_for_retry}
use sabnzbd_go.Content.Bulk.Resolved.{apply_resolution_lem, listed}
use sabnzbd_go.Content.Bulk.Retried.{reset_for_retry_lem}
use sabnzbd_go.Content.Bulk.Unfinished.{all_unfinished, for_each_unfinished_article-all}
use sabnzbd_go.Content.Doors.{Content, with_progress}
use sabnzbd_go.Content.Figures.{size_figures}
use sabnzbd_go.Content.Figures.Sizes.{Accounted, Sized, size_figures_bounds, total_of}
use sabnzbd_go.Content.Fresh.{attach_content, is_par2_file, new_job_progress}
use sabnzbd_go.Content.Fresh.Counts.{new_job_progress-IsCounted}
use sabnzbd_go.Content.Manifest.{
  JobArticle, JobFile, Manifest, file_index_for_article, new_manifest, num_articles,
}
use sabnzbd_go.Content.Manifest.Json.{is_writable_date, marshal_manifest}
use sabnzbd_go.Content.Manifest.Offsets.{new_manifest-IsManifest}
use sabnzbd_go.Content.Progress.Marks.{InFetched, IsCounted, IsManifest}
use sabnzbd_go.Content.Progress.Marks.InFlight.{mark_emitted-IsCounted}
use sabnzbd_go.Content.Progress.Marks.Done.{mark_done-IsCounted}
use sabnzbd_go.Content.Progress.Marks.Failed.{mark_failed-IsCounted}
use sabnzbd_go.Content.Progress.Recomputed.{IsCounted-IsSound, IsSound}
use sabnzbd_go.Content.Stamps.{clear_download_stamps}
use sabnzbd_go.Content.Stamps.Ordered.{Report, finished, reports, reports_ordered, started}
use mathlib.Core.Option

abbrev id_of : ℕ → List ℕ
id_of k = 97 ∷ k ∷ 64 ∷ 98 ∷ []

abbrev article : ℕ → ℕ → JobArticle
article k size = record { id = id_of (100 + k); bytes = size; number = k }

-- A file "x" of two articles, and a par2 volume of one.
abbrev two_files : List JobFile
two_files =
    record {
      subject = 120 ∷ [];
      date = 5;
      articles = article 1 100 ∷ article 2 50 ∷ [];
      bytes = 150;
      is_par2_recovery = false;
      deferred = false;
    }
    ∷ record {
      subject = 120 ∷ 46 ∷ 80 ∷ 65 ∷ 82 ∷ 50 ∷ [];
      date = 5;
      articles = article 3 30 ∷ [];
      bytes = 30;
      is_par2_recovery = true;
      deferred = true;
    }
    ∷ []

abbrev m0 : Manifest
m0 = new_manifest two_files

abbrev p0 : JobProgress
p0 = new_job_progress m0

abbrev content0 : Content
content0 = record {
  manifest = some m0;
  progress = some p0;
  total_bytes = 180;
  recovery_bytes = 30;
  recovery_files = 1;
}

m0_offsets : m0.file_article_offsets ≡ 0 ∷ 2 ∷ 3 ∷ []
unfolding new_manifest
m0_offsets = refl

m0_total : m0.total_bytes ≡ 180
unfolding new_manifest
m0_total = refl

second_is_par2 : is_par2_file (120 ∷ 46 ∷ 80 ∷ 65 ∷ 82 ∷ 50 ∷ []) ≡ true
unfolding is_par2_file
second_is_par2 = refl

m0_small : num_articles m0 < 18446744073709551616
unfolding new_manifest
m0_small = omega arith

new_manifest-IsManifest_example : IsManifest (new_manifest two_files)
new_manifest-IsManifest_example = new_manifest-IsManifest two_files

p0-IsCounted : IsCounted m0 p0
p0-IsCounted = (new_job_progress-IsCounted m0 (new_manifest-IsManifest two_files) m0_small).0

p0-IsSound : IsSound m0 p0
p0-IsSound = IsCounted-IsSound m0 p0 (new_manifest-IsManifest two_files) p0-IsCounted

second_inside : 1 < num_articles m0
unfolding new_manifest
second_inside = omega arith

second-InFetched : InFetched m0 p0 1
unfolding new_manifest new_job_progress file_index_for_article is_always
second-InFetched = refl

mark_done-IsCounted_example : IsCounted m0 (mark_done m0 1 p0).0
mark_done-IsCounted_example =
    mark_done-IsCounted m0 p0 1 (new_manifest-IsManifest two_files) p0-IsCounted second_inside
      second-InFetched

mark_failed-IsCounted_example : IsCounted m0 (mark_failed m0 1 p0).0
mark_failed-IsCounted_example =
    mark_failed-IsCounted m0 p0 1 (new_manifest-IsManifest two_files) p0-IsCounted second_inside
      second-InFetched

for_each_unfinished_article-all_example :
    for_each_unfinished_article content0 ≡ ok (all_unfinished m0 p0)
for_each_unfinished_article-all_example =
    for_each_unfinished_article-all content0 m0 p0 refl refl (new_manifest-IsManifest two_files)
      p0-IsCounted m0_small

all_are_unfinished : all_unfinished m0 p0 ≡ (0, 0) ∷ (0, 1) ∷ (1, 2) ∷ []
unfolding all_unfinished new_manifest new_job_progress get_bit
all_are_unfinished = refl

apply_resolution_lem_example :
    (q : JobProgress) × (apply_resolution ((0, 0) ∷ []) (2 ∷ []) content0
      ≡ ok (with_progress content0 q))
    × IsCounted m0 q
    × ((j : ℕ)
        → j < num_articles m0
        → (get_bit q.done j ≡ (get_bit p0.done j || (listed j (2 ∷ []) || in_any j ((0, 0) ∷ []))))
          × (get_bit q.failed j
              ≡ (get_bit p0.failed j || (listed j (2 ∷ []) && not (get_bit p0.done j)))))
apply_resolution_lem_example =
    apply_resolution_lem content0 m0 p0 ((0, 0) ∷ []) (2 ∷ []) refl refl
      (new_manifest-IsManifest two_files) p0-IsSound

-- The second article failed.
abbrev failed_one : JobProgress
failed_one = (mark_failed m0 1 p0).0

failed_one-IsSound : IsSound m0 failed_one
failed_one-IsSound = IsCounted-IsSound m0 failed_one (new_manifest-IsManifest two_files) (
    mark_failed-IsCounted m0 p0 1 (new_manifest-IsManifest two_files) p0-IsCounted second_inside
      second-InFetched)

abbrev failed_content : Content
failed_content = with_progress content0 failed_one

reset_for_retry_lem_example :
    (q : JobProgress) × (reset_for_retry failed_content ≡ ok (with_progress failed_content q))
    × IsCounted m0 q
    × (q.emitted ≡ failed_one.emitted)
    × ((j : ℕ)
        → j < num_articles m0
        → (get_bit q.failed j ≡ false)
          × (get_bit q.done j ≡ (get_bit failed_one.done j && not (get_bit failed_one.failed j))))
reset_for_retry_lem_example =
    reset_for_retry_lem failed_content m0 failed_one refl refl (new_manifest-IsManifest two_files)
      failed_one-IsSound

-- A text with a question mark for each byte that is not ASCII.
abbrev ascii_text : List ℕ → List ℕ
ascii_text = map (λ b. if ltb b 128 then b else 63)

-- The same files, the first one dated in the year 11476.
abbrev late_files : List JobFile
late_files = map (λ (f : JobFile). record f { date = 300000000000 }) two_files

late_is_refused : marshal_manifest ascii_text (new_manifest late_files) ≡ none
unfolding marshal_manifest new_manifest is_writable_date
late_is_refused = refl

p0-Sized : Sized p0.files
unfolding total_of new_manifest new_job_progress
p0-Sized = (omega arith, (omega arith, (omega arith, (omega arith, tt))))

size_figures_bounds_example :
    ((size_figures p0.files).1 ≤ (size_figures p0.files).0)
    × ((size_figures p0.files).0 ≤ total_of p0.files)
size_figures_bounds_example = size_figures_bounds p0.files p0-Sized

p0_total : total_of p0.files < 9223372036854775808
unfolding total_of new_manifest new_job_progress
p0_total = omega arith

p0-Accounted : Accounted p0.files
unfolding new_manifest new_job_progress
p0-Accounted = (
  λ _. omega arith,
  (λ _ h. absurd (ground arith), (λ _. omega arith, (λ _ h. absurd (ground arith), tt))),
)

abbrev three_reports : List Report
three_reports = started 63000000000 ∷ finished 63000000100 ∷ started 63000000200 ∷ []

reports_ordered_example :
    let q = reports three_reports (clear_download_stamps p0) in
    (q.download_finished ≡ 0) ⊎ (q.download_started ≤ q.download_finished)
reports_ordered_example =
    reports_ordered p0 three_reports (omega arith, (omega arith, (omega arith, tt)))

-- All three articles in flight.
abbrev all_emitted : JobProgress
all_emitted = mark_emitted m0 2 (mark_emitted m0 1 (mark_emitted m0 0 p0))

abbrev emitted_content : Content
emitted_content = with_progress content0 all_emitted

first_emitted-IsCounted : IsCounted m0 (mark_emitted m0 0 p0)
unfolding new_manifest new_job_progress file_index_for_article is_always
first_emitted-IsCounted =
    mark_emitted-IsCounted m0 p0 0 (new_manifest-IsManifest two_files) p0-IsCounted first_inside
      first-InFetched
  where
    first_inside : 0 < num_articles m0
    first_inside = omega (arith, second_inside)

    first-InFetched : InFetched m0 p0 0
    first-InFetched = refl

second_emitted-IsCounted : IsCounted m0 (mark_emitted m0 1 (mark_emitted m0 0 p0))
unfolding new_manifest new_job_progress file_index_for_article is_always mark_emitted get_bit
    set_bit
second_emitted-IsCounted =
    mark_emitted-IsCounted m0 (mark_emitted m0 0 p0) 1 (new_manifest-IsManifest two_files)
      first_emitted-IsCounted second_inside refl

all_emitted-IsCounted : IsCounted m0 all_emitted
unfolding new_manifest new_job_progress file_index_for_article is_always mark_emitted get_bit
    set_bit
all_emitted-IsCounted =
    mark_emitted-IsCounted m0 (mark_emitted m0 1 (mark_emitted m0 0 p0)) 2
      (new_manifest-IsManifest two_files) second_emitted-IsCounted (omega arith) refl

none_failed : (j : ℕ) → get_bit all_emitted.failed j ≡ false
unfolding new_manifest new_job_progress mark_emitted get_bit new_bitset set_bit
none_failed j = get_bit-new_bitset 3 j

none_pending : all_emitted.pending_articles ≡ 0
unfolding new_manifest new_job_progress mark_emitted get_bit set_bit
none_pending = refl

clear_emitted_for_reload-stranded_example :
    (q : JobProgress) × (clear_emitted_for_reload false emitted_content
      ≡ ok (with_progress emitted_content q, [], []))
    × (q.done ≡ all_emitted.done)
    × (q.failed ≡ all_emitted.failed)
    × ((j : ℕ) → j < num_articles m0 → get_bit q.emitted j ≡ false)
    × (for_each_unfinished_article (with_progress emitted_content q) ≡ ok [])
clear_emitted_for_reload-stranded_example =
    clear_emitted_for_reload-stranded emitted_content m0 all_emitted refl refl all_emitted-IsCounted
      none_failed none_pending

-- A job whose first article is in flight, without its manifest; and the row that says that the second
-- file is complete.
abbrev evicted : Content
evicted = record content0 { manifest = none; progress = some (mark_emitted m0 0 p0) }

abbrev second_row : FileRow
second_row = record {
  file_index = 1;
  filename = "";
  complete = true;
  crc = 7;
  fetch = fetch_always;
}

restart_offers_example :
    let p = mark_emitted m0 0 p0 in
    let c' = attach_content m0 evicted in
    (q : JobProgress) × (hydrate_job m0 (second_row ∷ []) (some ((0, 0) ∷ [], 2 ∷ [])) evicted
      ≡ ok (with_progress c' q))
    × ((j : ℕ)
        → j < num_articles m0
        → (get_bit q.done j ≡ (get_bit p.done j || (listed j (2 ∷ []) || in_any j ((0, 0) ∷ []))))
          × (get_bit q.failed j
              ≡ (get_bit p.failed j || (listed j (2 ∷ []) && not (get_bit p.done j))))
          × (get_bit q.emitted j ≡ (
              get_bit p.emitted j
              && (get_bit p.done j || not (listed j (2 ∷ []) || in_any j ((0, 0) ∷ []))))))
    × ((fi : ℕ)
        → marks_at q.files fi ≡ Option.map (row_marks fi (second_row ∷ [])) (marks_at p.files fi))
    × (for_each_unfinished_article (with_progress c' q) ≡ ok (all_unfinished m0 q))
restart_offers_example =
    restart_offers evicted m0 (second_row ∷ []) ((0, 0) ∷ []) (2 ∷ []) refl
      (new_manifest-IsManifest two_files) m0_small
      (IsCounted-IsSound m0 (mark_emitted m0 0 p0) (new_manifest-IsManifest two_files)
        first_emitted-IsCounted)
