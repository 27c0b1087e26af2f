-- ===== src/Content/Manifest/Offsets.antt =====
-- The files of a new manifest (internal/job/manifest.go) follow each other and hold all its articles.
use sabnzbd_go.Base.{List, [], arith, length, length-append, map, refl, sym, ℕ, ◌+◌, ◌∙◌, ◌∷◌, ◌≡◌}
use sabnzbd_go.Content.Manifest.{
  JobArticle, JobFile, all_articles, ends_of, manifest_file, new_manifest, offsets_from,
}
use sabnzbd_go.Content.Progress.Marks.{IsManifest}
use sabnzbd_go.Content.Progress.Recompute.{start_of}
use sabnzbd_go.Content.Progress.Recompute.Tallies.{Ascend, last_of}

unfoldable pub ends_from : ℕ → List JobFile → List ℕ
unfolding offsets_from
ends_from base fs = ends_of (offsets_from base fs)

pub offsets_from_lem :
    (base : ℕ) (f : JobFile) (fs : List JobFile)
    → ends_from base (f ∷ fs) ≡ (base + length f.articles) ∷ ends_from (base + length f.articles) fs
unfolding ends_from offsets_from
offsets_from_lem base f [] = refl
offsets_from_lem base f (g ∷ fs) = refl

pub ends_from-nil : (base : ℕ) → ends_from base [] ≡ []
unfolding ends_from offsets_from
ends_from-nil base = refl

pub start_of-offsets_from : (base : ℕ) (fs : List JobFile) → start_of (offsets_from base fs) ≡ base
unfolding offsets_from
start_of-offsets_from base [] = refl
start_of-offsets_from base (f ∷ fs) = refl

Ascend-ends_from : (base : ℕ) (fs : List JobFile) → Ascend base (ends_from base fs)
unfolding ends_from offsets_from
Ascend-ends_from base [] = tt
Ascend-ends_from base (f ∷ fs) =
    rw (offsets_from_lem base f fs) (omega arith, Ascend-ends_from (base + length f.articles) fs)

last_of-ends_from :
    (base : ℕ) (fs : List JobFile)
    → last_of base (ends_from base fs) ≡ base + length (all_articles fs)
unfolding ends_from offsets_from all_articles
last_of-ends_from base [] = omega arith
last_of-ends_from base (f ∷ fs) = rw (offsets_from_lem base f fs) (
    omega (
      arith,
      last_of-ends_from (base + length f.articles) fs,
      length-append f.articles (all_articles fs),
    ))

length-ends_from : (base : ℕ) (fs : List JobFile) → length (ends_from base fs) ≡ length fs
unfolding ends_from offsets_from
length-ends_from base [] = refl
length-ends_from base (f ∷ fs) =
    rw (offsets_from_lem base f fs) (omega (arith, length-ends_from (base + length f.articles) fs))

length-map {ℓ κ} :
    {A : Type ℓ} {B : Type κ} (g : A → B) (xs : List A) → length (map g xs) ≡ length xs
length-map g [] = refl
length-map g (x ∷ xs) = omega (arith, length-map g xs)

-- Every manifest that the code builds: its files follow each other from article 0 on, none ends before
-- it begins, and the last one ends where the articles do.
pub new_manifest-IsManifest : (fs : List JobFile) → IsManifest (new_manifest fs)
unfolding new_manifest ends_from
new_manifest-IsManifest fs = record {
  starts = start_of-offsets_from 0 fs;
  ascends = Ascend-ends_from 0 fs;
  ends =
      omega
        (arith, last_of-ends_from 0 fs, length-map (λ (a : JobArticle). a.id) (all_articles fs));
  files_end = length-map manifest_file fs ∙ sym (length-ends_from 0 fs);
}
