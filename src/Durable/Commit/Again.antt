-- ===== src/Durable/Commit/Again.antt =====
-- Committing again what is recorded (commitFile of internal/durability/runstore_sqlite.go).
use sabnzbd_go.Base.{Bool-cases, List, [], ap, arith, inl, inr, leb, refl, true, ℕ, ◌++◌, ◌∷◌, ◌≡◌}
use sabnzbd_go.Durable.Runs.{DurableArticle, Run, covered_by_any, subtract}
use sabnzbd_go.Durable.Runs.Folding.{AscendFrom}
use sabnzbd_go.Durable.Runs.Merged.{AllSpans}
use sabnzbd_go.Durable.Commit.{max_end, up_to, beyond, commit_kept, commit_file}
use sabnzbd_go.Durable.Commit.Table.{AllUpTo, AllUpTo-final, IsSort}
use sabnzbd_go.Durable.Commit.Covers.{
  AllSpans-up_to, commit_cases, covered_by_any-final, names, read_rows, written_rows,
}

up_to-append : (m : ℕ) (rs ts : List Run) → up_to m (rs ++ ts) ≡ up_to m rs ++ up_to m ts
unfolding up_to
up_to-append m [] ts = refl
up_to-append m (r ∷ rs) ts = ground (arith, up_to-append m rs ts)

up_to-all : (m : ℕ) (rs : List Run) → AllUpTo m rs → up_to m rs ≡ rs
unfolding up_to
up_to-all m [] a = refl
up_to-all m (r ∷ rs) a = ground (arith, a.0, up_to-all m rs a.1)

up_to-beyond : (m : ℕ) (rs : List Run) → up_to m (beyond m rs) ≡ []
unfolding up_to beyond
up_to-beyond m [] = refl
up_to-beyond m (r ∷ rs) = elim (Bool-cases (leb r.offset m)) [
  | inl h ↦ rw h (up_to-beyond m rs)
  | inr h ↦ rw (h, h) (up_to-beyond m rs)
]

append_nil {ℓ} : {A : Type ℓ} (xs : List A) → xs ++ [] ≡ xs
append_nil [] = refl
append_nil (x ∷ xs) = ap (λ l. x ∷ l) (append_nil xs)

subtract-none :
    (stored : List Run) (arts : List DurableArticle)
    → ((k : ℕ) → names k arts ≡ true → covered_by_any stored k ≡ true)
    → subtract stored arts ≡ []
unfolding subtract names
subtract-none stored [] c = refl
subtract-none stored (a ∷ arts) c =
    rw (c a.art_idx (ground arith), subtract-none stored arts (λ k h. c k (ground (arith, h)))) refl

-- After a commit that reported no collision, committing the same articles again, as a crash before the
-- confirmation makes happen, changes no row and reports nothing.
pub commit_file_again :
    (sort_runs : List Run → List Run) (sort_articles : List DurableArticle → List DurableArticle)
    (arts : List DurableArticle) (table : List Run)
    → IsSort sort_runs
    → AscendFrom 0 table
    → AllSpans table
    → (commit_file sort_runs sort_articles arts table).1 ≡ []
    → commit_file sort_runs sort_articles arts (commit_file sort_runs sort_articles arts table).0
      ≡ ((commit_file sort_runs sort_articles arts table).0, [])
unfolding commit_file commit_kept
commit_file_again sort_runs sort_articles arts table s a v e =
    let sorted = sort_articles arts in
    let stored = read_rows sort_runs sorted table in
    let written = written_rows sort_runs sorted table in
    elim (commit_cases sort_runs sorted table s a) [
      | inl h ↦ rw (h.1) (h.1)
      | inr h ↦
          let reads : up_to (max_end sorted) (written ++ beyond (max_end sorted) table) ≡ written =
            rw
              (
                up_to-append (max_end sorted) written (beyond (max_end sorted) table),
                up_to-all (max_end sorted) written (AllUpTo-final sort_runs s stored sorted table),
                up_to-beyond (max_end sorted) table,
              )
              (append_nil written) in
          let final = λ (k : ℕ).
            covered_by_any-final sort_runs s stored sorted k
              (AllSpans-up_to (max_end sorted) table v) (rw h at e) in
          let all = subtract-none written sorted (λ k n. ground (arith, final k, n)) in
          rw (h, reads, all) refl
    ]
