-- ===== src/Content/Manifest/Json.antt =====
-- Manifest.MarshalJSON and UnmarshalJSON (internal/job/manifest.go), up to the text of the JSON: the
-- shapes that are written and read. `text` is what encoding/json makes of a string, in which it replaces
-- what is not UTF-8. A date is its Unix seconds, an int64, as a number below 2^64; its year is UTC's.
use sabnzbd_go.Content.Manifest.{
  all_articles, manifest_file, offsets_from, JobArticle, JobFile, Manifest, ManifestFile, ends_of,
  new_manifest, number_at,
}
use sabnzbd_go.Content.Manifest.Offsets.{
  ends_from, ends_from-nil, offsets_from_lem, start_of-offsets_from,
}
use sabnzbd_go.Base.{
  if◌then◌else◌, ap, arith, length-append, sym, ◌∙◌, map, refl, ◌++◌, ◌≡◌, Bool, List, Option, [],
  false, get_elem?, ltb, leb, length, none, not, some, suc, true, zero, ℕ, ◌&&◌, ◌+◌, ◌-◌, ◌==◌,
  ◌||◌, ◌∷◌,
}
use sabnzbd_go.Content.Progress.Recompute.{start_of}
pub mod RoundTrip

pub record ManifestJsonArticle : Type 0 where
  pub id : List ℕ
  pub bytes : ℕ
  pub number : ℕ

pub record ManifestJsonFile : Type 0 where
  pub subject : List ℕ
  pub date : ℕ
  pub bytes : ℕ
  pub is_par2_recovery : Bool
  pub articles : List ManifestJsonArticle

pub record ManifestJson : Type 0 where
  pub files : List ManifestJsonFile
  pub total_bytes : ℕ

-- internal/nzb: a byte with which the request could not be written.
abbrev pub is_unfetchable_byte : ℕ → Bool
is_unfetchable_byte b =
    (b == 32) || ((b == 9) || ((b == 13) || ((b == 10) || ((b == 0) || ((b == 60) || (b == 62))))))

any_unfetchable : List ℕ → Bool
any_unfetchable [] = false
any_unfetchable (b ∷ id) = is_unfetchable_byte b || any_unfetchable id

unfoldable pub message_id_is_fetchable : List ℕ → Bool
unfolding any_unfetchable
message_id_is_fetchable id =
    not (length id == 0) && (leb (length id) 495 && not (any_unfetchable id))

abbrev pub id_at : Option (List ℕ) → List ℕ
id_at none = []
id_at (some id) = id

-- time.Time.MarshalJSON writes the years 0 to 9999 only.
unfoldable pub is_writable_date : ℕ → Bool
is_writable_date t = ltb t 253402300800 || leb 18446744011542332416 t

all_writable : List ManifestFile → Bool
unfolding is_writable_date
all_writable [] = true
all_writable (f ∷ fs) = is_writable_date f.date && all_writable fs

-- The articles from `lo` on, `k` of them, out of the flat arrays.
json_articles :
    (List ℕ → List ℕ) → List (List ℕ) → List ℕ → List ℕ → ℕ → ℕ → List ManifestJsonArticle
json_articles text ids bytes numbers lo zero = []
json_articles text ids bytes numbers lo (suc k) =
    record {
      id = text (id_at (get_elem? ids lo));
      bytes = number_at (get_elem? bytes lo);
      number = number_at (get_elem? numbers lo);
    }
    ∷ json_articles text ids bytes numbers (lo + 1) k

json_files : (List ℕ → List ℕ) → Manifest → ℕ → List ℕ → List ManifestFile → List ManifestJsonFile
unfolding json_articles
json_files text m lo (hi ∷ ends) (f ∷ fs) =
    record {
      subject = text f.subject;
      date = f.date;
      bytes = f.bytes;
      is_par2_recovery = f.is_par2_recovery;
      articles = json_articles text m.article_ids m.article_bytes m.article_number lo (hi - lo);
    }
    ∷ json_files text m hi ends fs
json_files text m lo _ _ = []

-- `none` is the error of a date that cannot be written.
unfoldable pub marshal_manifest : (List ℕ → List ℕ) → Manifest → Option ManifestJson
unfolding json_files all_writable
marshal_manifest text m =
    if not (all_writable m.files)
    then none
    else some (record {
      files =
          json_files text m (start_of m.file_article_offsets) (ends_of m.file_article_offsets)
            m.files;
      total_bytes = m.total_bytes;
    })

-- Another one in front, where the rest was read.
in_front {ℓ} : {A : Type ℓ} → A → Option (List A) → Option (List A)
in_front x none = none
in_front x (some xs) = some (x ∷ xs)

job_article : ManifestJsonArticle → JobArticle
job_article a = record { id = a.id; bytes = a.bytes; number = a.number }

job_articles : List ManifestJsonArticle → Option (List JobArticle)
unfolding in_front job_article
job_articles [] = some []
job_articles (a ∷ rest) =
    let read = in_front (job_article a) (job_articles rest) in
    if not (message_id_is_fetchable a.id) then none else read

file_with : ManifestJsonFile → List JobArticle → JobFile
file_with f arts = record {
  subject = f.subject;
  date = f.date;
  articles = arts;
  bytes = f.bytes;
  is_par2_recovery = f.is_par2_recovery;
  deferred = false;
}

job_files : List ManifestJsonFile → Option (List JobFile)
unfolding job_articles file_with in_front
job_files [] = some []
job_files (f ∷ rest) = elim (job_articles f.articles) [
  | none ↦ none
  | some arts ↦ in_front (file_with f arts) (job_files rest)
]

-- `none` refuses the whole manifest for one message id.
unfoldable pub unmarshal_manifest : ManifestJson → Option Manifest
unfolding job_files
unmarshal_manifest mj = elim (job_files mj.files) [ none ↦ none | some fs ↦ some (new_manifest fs) ]
