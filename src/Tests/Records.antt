-- ===== src/Tests/Records.antt =====
-- The durability record (internal/durability) and Combine (internal/crc32util) on concrete inputs.
use sabnzbd_go.Base.{
  if◌then◌else◌, Bool, Bool-cases, inl, inr, leb, ltb, ◌&&◌, ◌==◌, ◌||◌, List, [], arith, length,
  map, refl, ℕ, ◌∷◌, ◌≡◌,
}
use sabnzbd_go.Durable.Commit.{commit_file}
use sabnzbd_go.Durable.Commit.Again.{commit_file_again}
use sabnzbd_go.Durable.Commit.Covers.{commit_file_covers, names}
use sabnzbd_go.Durable.Commit.Table.{IsSort, commit_file-AscendFrom}
use sabnzbd_go.Durable.Runs.Merged.{AllSpans}
use sabnzbd_go.Durable.Crc.{combine}
use sabnzbd_go.Durable.Crc.Repeated.{combine-times, times, zero_bit}
use Prim.Native.Nat.{bit_xor}
use sabnzbd_go.Durable.Runs.{
  DurableArticle, Run, article_run, bound_over, covered_by_any, merge_adjacent_runs, runs_bound,
  subtract,
}
use sabnzbd_go.Durable.Runs.Bound.{bound_over-merge, Shuffle, same, keep, exchange, further}
use sabnzbd_go.Durable.Runs.Folding.{Before, BeforeAll, AscendFrom, InOrder}

abbrev article_at : ℕ → ℕ → ℕ → DurableArticle
article_at art offset length = record {
  file_idx = 3;
  art_idx = art;
  offset = offset;
  length = length;
  crc32 = 7;
}

abbrev stored_row : Run
stored_row = record {
  file_idx = 3;
  first_art_idx = 0;
  last_art_idx = 4;
  offset = 0;
  length = 500;
  crc32 = 9;
}

abbrev later_row : Run
later_row = record stored_row { first_art_idx = 8; last_art_idx = 9; offset = 800; length = 200 }

abbrev rival : Run
rival = record later_row { first_art_idx = 12; last_art_idx = 12; length = 100 }

abbrev arrived : DurableArticle
arrived = article_at 7 700 100

abbrev arrived_row : Run
arrived_row = record {
  file_idx = 3;
  first_art_idx = 7;
  last_art_idx = 7;
  offset = 700;
  length = 100;
  crc32 = 7;
}

abbrev sorted_rows : List Run
sorted_rows = stored_row ∷ later_row ∷ rival ∷ []

-- The checksums of "a", "b" and "ab".
combine_ab : combine 3904355907 1908338681 1 ≡ 2659403885
unfolding combine
combine_ab = refl

rival_is_dropped : merge_adjacent_runs sorted_rows ≡ (
  stored_row ∷ later_row ∷ [],
  record { file_idx = 3; offset = 800; kept = 8; dropped = 12 } ∷ [],
)
unfolding merge_adjacent_runs
rival_is_dropped = refl

neighbour_is_folded :
    map (λ r. r.length) (merge_adjacent_runs (stored_row ∷ arrived_row ∷ later_row ∷ [])).0
    ≡ 500 ∷ 300 ∷ []
unfolding merge_adjacent_runs
neighbour_is_folded = refl

redelivered_is_subtracted :
    subtract (stored_row ∷ []) (article_at 4 400 100 ∷ arrived ∷ []) ≡ arrived ∷ []
unfolding subtract
redelivered_is_subtracted = refl

sorted_rows-InOrder : InOrder sorted_rows
sorted_rows-InOrder = ground arith

combine-times_example : combine 5 7 3 ≡ bit_xor (times 24 zero_bit 5) 7
combine-times_example = combine-times 5 7 3 (omega arith) (omega arith)

bound_over-merge_example :
    runs_bound (merge_adjacent_runs (stored_row ∷ arrived_row ∷ [])).0
    ≡ bound_over (stored_row ∷ []) (arrived ∷ [])
unfolding article_run
bound_over-merge_example =
    bound_over-merge (stored_row ∷ []) (stored_row ∷ arrived_row ∷ []) (arrived ∷ [])
      (exchange stored_row arrived_row []) (ground arith)

-- The code's comparison: by offset, the longer one first, then the lower article.
precedes : Run → Run → Bool
precedes a b =
    ltb a.offset b.offset
    || ((a.offset == b.offset)
        && (ltb b.length a.length
            || ((a.length == b.length) && leb a.first_art_idx b.first_art_idx)))

place : Run → List Run → List Run
unfolding precedes
place r [] = r ∷ []
place r (x ∷ xs) = let later = place r xs in if precedes r x then r ∷ x ∷ xs else x ∷ later

sort_by_offset : List Run → List Run
unfolding place
sort_by_offset [] = []
sort_by_offset (r ∷ rs) = place r (sort_by_offset rs)

place-Shuffle : (r : Run) (xs : List Run) → Shuffle (place r xs) (r ∷ xs)
unfolding place precedes
place-Shuffle r [] = same (r ∷ [])
place-Shuffle r (x ∷ xs) = elim (Bool-cases (precedes r x)) [
  | inl h ↦ rw h (same (r ∷ x ∷ xs))
  | inr h ↦ rw h (further (keep x (place-Shuffle r xs)) (exchange x r xs))
]

BeforeAll-place :
    (a r : Run) (xs : List Run) → Before a r → BeforeAll a xs → BeforeAll a (place r xs)
unfolding place precedes
BeforeAll-place a r [] b c = (b, tt)
BeforeAll-place a r (x ∷ xs) b c = elim (Bool-cases (precedes r x)) [
  | inl h ↦ rw h (b, c)
  | inr h ↦ rw h (c.0, BeforeAll-place a r xs b c.1)
]

BeforeAll-later : (a b : Run) (xs : List Run) → Before a b → BeforeAll b xs → BeforeAll a xs
BeforeAll-later a b [] c d = tt
BeforeAll-later a b (x ∷ xs) c d =
    (ground (arith, c.0, c.1, d.0.0, d.0.1), BeforeAll-later a b xs c d.1)

place-InOrder : (r : Run) (xs : List Run) → InOrder xs → InOrder (place r xs)
unfolding place precedes
place-InOrder r [] o = (tt, tt)
place-InOrder r (x ∷ xs) o = elim (Bool-cases (precedes r x)) [
  | inl h ↦ let b : Before r x = ground arith in rw h ((b, BeforeAll-later r x xs b o.0), o)
  | inr h ↦
      let b : Before x r = ground arith in
      rw h (BeforeAll-place x r xs b o.0, place-InOrder r xs o.1)
]

sort_by_offset-IsSort : IsSort sort_by_offset
unfolding sort_by_offset
sort_by_offset-IsSort = record { in_order = in_order; shuffled = shuffled }
  where
    in_order : (rs : List Run) → InOrder (sort_by_offset rs)
    in_order [] = tt
    in_order (r ∷ rs) = place-InOrder r (sort_by_offset rs) (in_order rs)

    shuffled : (rs : List Run) → Shuffle (sort_by_offset rs) rs
    shuffled [] = same []
    shuffled (r ∷ rs) = further (place-Shuffle r (sort_by_offset rs)) (keep r (shuffled rs))

-- Articles 5, 6 and 7, in order: 5 joins the row before it, 6 and 7 the one after.
abbrev new_articles : List DurableArticle
new_articles = article_at 5 500 100 ∷ article_at 6 600 100 ∷ arrived ∷ []

abbrev as_given : List DurableArticle → List DurableArticle
as_given arts = arts

abbrev table : List Run
table = stored_row ∷ later_row ∷ []

table-AscendFrom : AscendFrom 0 table
table-AscendFrom = (omega arith, (omega arith, tt))

table-AllSpans : AllSpans table
table-AllSpans = (omega arith, (omega arith, tt))

no_collision : (commit_file sort_by_offset as_given new_articles table).1 ≡ []
unfolding commit_file sort_by_offset
no_collision = refl

one_row : length (commit_file sort_by_offset as_given new_articles table).0 ≡ 1
unfolding commit_file sort_by_offset
one_row = refl

commit_file-AscendFrom_example :
    AscendFrom 0 (commit_file sort_by_offset as_given new_articles table).0
commit_file-AscendFrom_example =
    commit_file-AscendFrom sort_by_offset as_given new_articles table sort_by_offset-IsSort
      table-AscendFrom

commit_file_covers_example :
    covered_by_any (commit_file sort_by_offset as_given new_articles table).0 6
    ≡ (covered_by_any table 6 || names 6 new_articles)
commit_file_covers_example =
    commit_file_covers sort_by_offset as_given new_articles table 6 sort_by_offset-IsSort refl
      table-AscendFrom table-AllSpans no_collision

commit_file_again_example :
    commit_file sort_by_offset as_given new_articles
      (commit_file sort_by_offset as_given new_articles table).0
    ≡ ((commit_file sort_by_offset as_given new_articles table).0, [])
commit_file_again_example =
    commit_file_again sort_by_offset as_given new_articles table sort_by_offset-IsSort
      table-AscendFrom table-AllSpans no_collision
