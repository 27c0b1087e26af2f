-- ===== src/Content/Bulk/Unfinished.antt =====
-- ForEachUnfinishedArticle (internal/job/content.go) skips by the figures, and misses nothing by it.
use mathlib.Core.Bool.{Bool-discrete}
use mathlib.Core.List.{filter}
use sabnzbd_go.Base.{
  Option, none, false, get_elem?, ◌&&◌, ◌∙◌, Bool-cases, ap, inl, inr, some, sym, ◌==◌,
  if◌then◌else◌, Bool, List, [], arith, not, refl, suc, true, zero, ℕ, ◌++◌, ◌+◌, ◌-◌, ◌<◌, ◌∷◌,
  ◌≡◌, ◌≤◌,
}
use sabnzbd_go.Base.Result.{ok}
use sabnzbd_go.Content.Bulk.{
  for_each_unfinished_article, skips_file, unfinished_from, unfinished_files,
}
use sabnzbd_go.Content.Doors.{Content}
use sabnzbd_go.Content.Manifest.{Manifest, bytes_at, ends_of, num_articles}
use sabnzbd_go.Content.Progress.Marks.{IsCounted, IsManifest}
use sabnzbd_go.Content.Bitset.{get_bit}
use sabnzbd_go.Content.Progress.{FileProgress, JobProgress, is_always}
use sabnzbd_go.Content.Progress.Counted.{FileCounted, FilesCounted}
use sabnzbd_go.Content.Progress.Recompute.{pending_of, sum_files, tally}
use sabnzbd_go.Content.Progress.Recompute.Tallies.{Ascend, last_of}

-- Every article of the files that end at `ends`: its file, and its index.
unfoldable pub articles_from : ℕ → ℕ → ℕ → List (ℕ × ℕ)
articles_from fi lo zero = []
articles_from fi lo (suc k) = (fi, lo) ∷ articles_from fi (lo + 1) k

unfoldable pub all_articles : ℕ → ℕ → List ℕ → List (ℕ × ℕ)
unfolding articles_from
all_articles fi lo [] = []
all_articles fi lo (hi ∷ ends) = articles_from fi lo (hi - lo) ++ all_articles (fi + 1) hi ends

unfoldable pub is_wanted : Option FileProgress → Bool
unfolding is_always
is_wanted none = false
is_wanted (some f) = not f.complete && is_always f.fetch

-- What an article must be to be fetched: its file is fetched and not complete, and the article is
-- neither done nor in flight.
unfoldable pub is_due : JobProgress → ℕ × ℕ → Bool
unfolding is_wanted
is_due p (fi, i) =
    is_wanted (get_elem? p.files fi) && (not (get_bit p.done i) && not (get_bit p.emitted i))

-- What the walk is for: of all articles of the job, those that are to be fetched.
unfoldable pub all_unfinished : Manifest → JobProgress → List (ℕ × ℕ)
unfolding all_articles is_due
all_unfinished m p =
    filter (λ a. Bool-discrete (is_due p a) true)
      (all_articles 0 0 (ends_of m.file_article_offsets))

pending_le : (d e : ℕ → Bool) (x : Bool) (lo k : ℕ) → tally (λ i. pending_of x (d i) (e i)) lo k ≤ k
unfolding tally
pending_le d e x lo zero = omega arith
pending_le d e x lo (suc k) = ground (arith, pending_le d e x (lo + 1) k)

none_pending :
    (p : JobProgress) (fi lo k : ℕ)
    → tally (λ i. pending_of true (get_bit p.done i) (get_bit p.emitted i)) lo k ≡ 0
    → unfinished_from p fi lo k ≡ []
unfolding tally unfinished_from
none_pending p fi lo zero h = refl
none_pending p fi lo (suc k) h = ground (arith, none_pending p fi (lo + 1) k)

module _ (p : JobProgress) where
  abbrev due : List (ℕ × ℕ) → List (ℕ × ℕ)
  due = filter (λ a. Bool-discrete (is_due p a) true)

  due-append : (xs ys : List (ℕ × ℕ)) → due (xs ++ ys) ≡ due xs ++ due ys
  due-append [] ys = refl
  due-append (x ∷ xs) ys = ground (arith, due-append xs ys)

  due-wanted :
      (fi lo k : ℕ)
      → is_wanted (get_elem? p.files fi) ≡ true
      → due (articles_from fi lo k) ≡ unfinished_from p fi lo k
  unfolding articles_from unfinished_from is_due
  due-wanted fi lo zero h = refl
  due-wanted fi lo (suc k) h = ground (arith, due-wanted fi (lo + 1) k h)

  due-unwanted :
      (fi lo k : ℕ) → is_wanted (get_elem? p.files fi) ≡ false → due (articles_from fi lo k) ≡ []
  unfolding articles_from is_due
  due-unwanted fi lo zero h = refl
  due-unwanted fi lo (suc k) h = ground (arith, due-unwanted fi (lo + 1) k h)

pub last_le : (lo : ℕ) (ends : List ℕ) → Ascend lo ends → lo ≤ last_of lo ends
last_le lo [] s = omega arith
last_le lo (hi ∷ ends) s = omega (arith, s.0, last_le hi ends s.1)

-- The figures of all files together are no more than the articles.
module _ (d e f : ℕ → Bool) (bytes : ℕ → ℕ) where
  file_pending_le :
      (lo hi : ℕ) (x : FileProgress) → FileCounted d e f bytes lo hi x → x.pending ≤ hi - lo
  file_pending_le lo hi x c =
      omega (arith, c.pending_counted, pending_le d e (is_always x.fetch) lo (hi - lo))

  sum_pending_le :
      (lo : ℕ) (ends : List ℕ) (xs : List FileProgress)
      → Ascend lo ends
      → FilesCounted d e f bytes lo ends xs
      → lo + sum_files (λ x. x.pending) xs ≤ last_of lo ends
  unfolding sum_files
  sum_pending_le lo [] [] s c = omega arith
  sum_pending_le lo [] (x ∷ xs) s c = absurd c
  sum_pending_le lo (hi ∷ ends) [] s c = absurd c
  sum_pending_le lo (hi ∷ ends) (x ∷ xs) s c =
      omega (arith, s.0, file_pending_le lo hi x c.0, sum_pending_le hi ends xs s.1 c.1)

module _ (p : JobProgress) (bytes : ℕ → ℕ) where
  idle_file :
      (fi lo hi : ℕ) (x : FileProgress)
      → hi - lo < 18446744073709551616
      → FileCounted (get_bit p.done) (get_bit p.emitted) (get_bit p.failed) bytes lo hi x
      → x.pending ≡ 0
      → is_always x.fetch ≡ true
      → unfinished_from p fi lo (hi - lo) ≡ []
  idle_file fi lo hi x small c z a = none_pending p fi lo (hi - lo) (
      omega (
        arith,
        rw a at (c.pending_counted),
        z,
        pending_le (get_bit p.done) (get_bit p.emitted) true lo (hi - lo),
      ))

  file_due :
      (fi lo hi : ℕ) (x : FileProgress)
      → hi - lo < 18446744073709551616
      → FileCounted (get_bit p.done) (get_bit p.emitted) (get_bit p.failed) bytes lo hi x
      → get_elem? p.files fi ≡ some x
      → (if skips_file x then [] else unfinished_from p fi lo (hi - lo))
        ≡ due p (articles_from fi lo (hi - lo))
  unfolding skips_file is_wanted
  file_due fi lo hi x small c at = ground (
    arith,
    idle_file fi lo hi x small c,
    due-wanted p fi lo (hi - lo),
    due-unwanted p fi lo (hi - lo),
  )

  unfinished_lem :
      (fi lo : ℕ) (ends : List ℕ) (xs : List FileProgress)
      → Ascend lo ends
      → last_of lo ends < 18446744073709551616
      → FilesCounted (get_bit p.done) (get_bit p.emitted) (get_bit p.failed) bytes lo ends xs
      → ((k : ℕ) → get_elem? p.files (fi + k) ≡ get_elem? xs k)
      → unfinished_files p fi lo ends xs ≡ due p (all_articles fi lo ends)
  unfolding unfinished_files all_articles
  unfinished_lem fi lo [] xs s l c at = refl
  unfinished_lem fi lo (hi ∷ ends) [] s l c at = absurd c
  unfinished_lem fi lo (hi ∷ ends) (x ∷ xs) s l c at =
      let here : get_elem? p.files fi ≡ some x = grind (arith, at 0) in
      let rest = unfinished_lem (fi + 1) hi ends xs s.1 l c.1 (λ k. grind (arith, at (suc k))) in
      let first = file_due fi lo hi x (omega (arith, last_le hi ends s.1)) c.0 here in
      rw (due-append p (articles_from fi lo (hi - lo)) (all_articles (fi + 1) hi ends), first, rest)
        refl

  unfinished_none :
      (fi lo : ℕ) (ends : List ℕ) (xs : List FileProgress)
      → Ascend lo ends
      → last_of lo ends < 18446744073709551616
      → FilesCounted (get_bit p.done) (get_bit p.emitted) (get_bit p.failed) bytes lo ends xs
      → sum_files (λ x. x.pending) xs ≡ 0
      → unfinished_files p fi lo ends xs ≡ []
  unfolding unfinished_files skips_file sum_files
  unfinished_none fi lo [] xs s l c z = refl
  unfinished_none fi lo (hi ∷ ends) [] s l c z = refl
  unfinished_none fi lo (hi ∷ ends) (x ∷ xs) s l c z =
      let one : x.pending ≤ hi - lo =
        file_pending_le (get_bit p.done) (get_bit p.emitted) (get_bit p.failed) bytes lo hi x c.0 in
      let rest : hi + sum_files (λ y. y.pending) xs ≤ last_of hi ends =
        sum_pending_le (get_bit p.done) (get_bit p.emitted) (get_bit p.failed) bytes hi ends xs s.1
          c.1 in
      let first : x.pending ≡ 0 = omega (arith, s.0) in
      let others : sum_files (λ y. y.pending) xs ≡ 0 = omega (arith, s.0) in
      ground (arith, unfinished_none (fi + 1) hi ends xs s.1 l c.1 others)

-- On a progress record whose figures are right, the walk hands over every article that is neither done
-- nor in flight of every file that is fetched and not complete, in order, and no other: the figures
-- that it skips whole files by, and the whole job by, never hide one.
pub for_each_unfinished_article-all :
    (c : Content) (m : Manifest) (p : JobProgress)
    → c.manifest ≡ some m
    → c.progress ≡ some p
    → IsManifest m
    → IsCounted m p
    → num_articles m < 18446744073709551616
    → for_each_unfinished_article c ≡ ok (all_unfinished m p)
unfolding for_each_unfinished_article all_unfinished
for_each_unfinished_article-all c m p hm hp w v l =
    let small : last_of 0 (ends_of m.file_article_offsets) < 18446744073709551616 =
      omega (arith, w.ends) in
    let found =
      unfinished_lem p (bytes_at m) 0 0 (ends_of m.file_article_offsets) p.files w.ascends small
        v.files_counted (λ k. grind arith) in
    let idle =
      unfinished_none p (bytes_at m) 0 0 (ends_of m.file_article_offsets) p.files w.ascends small
        v.files_counted in
    rw (hm, hp, w.starts)
      (elim (Bool-cases (p.pending_articles == 0)) [
        | inl z ↦ rw z (ap (λ xs. ok xs) (sym (idle (ground (arith, v.pending_counted))) ∙ found))
        | inr z ↦ rw z (ap (λ xs. ok xs) found)
      ])
