-- ===== src/Content/Manifest.antt =====
-- internal/job/manifest.go: the files and articles of a job, in flat arrays. A text is its bytes, an
-- int its 64-bit pattern, and a time a number.
use sabnzbd_go.Base.{
  if◌then◌else◌, Bool, List, Option, [], get_elem?, length, ltb, map, none, some, suc, ℕ, ◌++◌, ◌+◌,
  ◌∷◌,
}
use sabnzbd_go.Base.Words.{add_word}
pub mod Offsets
pub mod Json

pub record JobArticle : Type 0 where
  pub id : List ℕ
  pub bytes : ℕ
  pub number : ℕ

pub record JobFile : Type 0 where
  pub subject : List ℕ
  pub date : ℕ
  pub articles : List JobArticle
  pub bytes : ℕ
  pub is_par2_recovery : Bool
  pub deferred : Bool

pub record ManifestFile : Type 0 where
  pub subject : List ℕ
  pub date : ℕ
  pub bytes : ℕ
  pub is_par2_recovery : Bool

pub record Manifest : Type 0 where
  pub files : List ManifestFile
  pub article_ids : List (List ℕ)
  pub article_bytes : List ℕ
  pub article_number : List ℕ
  pub file_article_offsets : List ℕ
  pub total_bytes : ℕ
  pub par2_recovery_bytes : ℕ
  pub par2_recovery_files : ℕ

unfoldable pub manifest_file : JobFile → ManifestFile
manifest_file f = record {
  subject = f.subject;
  date = f.date;
  bytes = f.bytes;
  is_par2_recovery = f.is_par2_recovery;
}

-- The articles of the files, one after another.
unfoldable pub all_articles : List JobFile → List JobArticle
all_articles [] = []
all_articles (f ∷ fs) = f.articles ++ all_articles fs

-- Where each file's articles begin, and after the last file where they end.
unfoldable pub offsets_from : ℕ → List JobFile → List ℕ
offsets_from base [] = base ∷ []
offsets_from base (f ∷ fs) = base ∷ offsets_from (base + length f.articles) fs

unfoldable pub sum_bytes : List ManifestFile → ℕ
sum_bytes [] = 0
sum_bytes (f ∷ fs) = add_word f.bytes (sum_bytes fs)

unfoldable pub recovery_figures : List ManifestFile → ℕ × ℕ
recovery_figures [] = (0, 0)
recovery_figures (f ∷ fs) =
    let (bytes, count) = recovery_figures fs in
    if f.is_par2_recovery then (add_word f.bytes bytes, count + 1) else (bytes, count)

unfoldable pub new_manifest : List JobFile → Manifest
unfolding manifest_file all_articles offsets_from sum_bytes recovery_figures
new_manifest fs =
    let files = map manifest_file fs in
    record {
      files = files;
      article_ids = map (λ (a : JobArticle). a.id) (all_articles fs);
      article_bytes = map (λ (a : JobArticle). a.bytes) (all_articles fs);
      article_number = map (λ (a : JobArticle). a.number) (all_articles fs);
      file_article_offsets = offsets_from 0 fs;
      total_bytes = sum_bytes files;
      par2_recovery_bytes = (recovery_figures files).0;
      par2_recovery_files = (recovery_figures files).1;
    }

abbrev pub num_files : Manifest → ℕ
num_files m = length m.files

abbrev pub num_articles : Manifest → ℕ
num_articles m = length m.article_ids

-- `xs[i]`; reading past the end, which panics, is given as 0.
abbrev pub number_at : Option ℕ → ℕ
number_at none = 0
number_at (some x) = x

abbrev pub bytes_at : Manifest → ℕ → ℕ
bytes_at m i = number_at (get_elem? m.article_bytes i)

unfoldable pub file_range : Manifest → ℕ → ℕ × ℕ
file_range m fi = (
  number_at (get_elem? m.file_article_offsets fi),
  number_at (get_elem? m.file_article_offsets (fi + 1)),
)

-- sort.Search: the first index whose file ends after article `i`, or the number of files.
unfoldable pub search_ends : ℕ → List ℕ → ℕ
search_ends i [] = 0
search_ends i (hi ∷ ends) = let rest = search_ends i ends in if ltb i hi then 0 else suc rest

abbrev pub ends_of : List ℕ → List ℕ
ends_of [] = []
ends_of (_ ∷ ends) = ends

unfoldable pub file_index_for_article : Manifest → ℕ → ℕ
unfolding search_ends
file_index_for_article m i = search_ends i (ends_of m.file_article_offsets)
