-- ===== src/Content/Manifest/Json/RoundTrip.antt =====
-- A manifest (internal/job/manifest.go) is read back from its JSON as it was written.
use sabnzbd_go.Content.Manifest.{JobArticle, JobFile, Manifest}
use sabnzbd_go.Base.{Bool, true, ◌&&◌, map, ◌≡◌, List, [], false, ℕ, ◌∷◌}
use sabnzbd_go.Content.Manifest.Json.{
  is_writable_date, message_id_is_fetchable, ManifestJsonFile, ManifestJsonArticle,
}
use mathlib.Core.Option

-- Every message id can be fetched: the parser lets no other through.
abbrev pub AllFetchable : List JobArticle → Type 0
AllFetchable [] = Unit {0}
AllFetchable (a ∷ rest) = (message_id_is_fetchable a.id ≡ true) × AllFetchable rest

abbrev pub AllFilesFetchable : List JobFile → Type 0
AllFilesFetchable [] = Unit {0}
AllFilesFetchable (f ∷ rest) = AllFetchable f.articles × AllFilesFetchable rest

-- encoding/json leaves the strings as they are.
abbrev pub AllText : (List ℕ → List ℕ) → List JobArticle → Type 0
AllText text [] = Unit {0}
AllText text (a ∷ rest) = (text a.id ≡ a.id) × AllText text rest

abbrev pub AllFilesText : (List ℕ → List ℕ) → List JobFile → Type 0
AllFilesText text [] = Unit {0}
AllFilesText text (f ∷ rest) =
    (text f.subject ≡ f.subject) × AllText text f.articles × AllFilesText text rest

-- Every date is in the years 0 to 9999.
abbrev pub all_dated : List JobFile → Bool
unfolding is_writable_date
all_dated [] = true
all_dated (f ∷ rest) = is_writable_date f.date && all_dated rest

json_article : (List ℕ → List ℕ) → JobArticle → ManifestJsonArticle
json_article text a = record { id = text a.id; bytes = a.bytes; number = a.number }

abbrev ids_of : List JobArticle → List (List ℕ)
ids_of = map (λ (a : JobArticle). a.id)

abbrev bytes_of : List JobArticle → List ℕ
bytes_of = map (λ (a : JobArticle). a.bytes)

abbrev numbers_of : List JobArticle → List ℕ
numbers_of = map (λ (a : JobArticle). a.number)

-- A file as it is read back: which files were deferred is not written.
abbrev pub undeferred : JobFile → JobFile
undeferred f = record f { deferred = false }

json_file : (List ℕ → List ℕ) → JobFile → ManifestJsonFile
unfolding json_article
json_file text f = record {
  subject = text f.subject;
  date = f.date;
  bytes = f.bytes;
  is_par2_recovery = f.is_par2_recovery;
  articles = map (json_article text) f.articles;
}
