-- ===== src/Durable/Runs/Bound.antt =====
-- The bound that FinalizeFile (internal/durability/barrier.go) truncates to, and the rows of the commit
-- that follows it.
use sabnzbd_go.Base.{ap, max, ◌+◌, List, [], arith, map, refl, sym, ◌++◌, ◌∙◌, ◌∷◌, ◌≡◌}
use sabnzbd_go.Durable.Runs.{
  DurableArticle, Run, article_run, bound_over, merge_adjacent_runs, runs_bound,
}
use sabnzbd_go.Durable.Runs.Folding.{InOrder, merge_adjacent_runs_bound}

-- The same rows in another order.
pub data Shuffle : List Run → List Run → Type 0 where
  same : (rs : List Run) → Shuffle rs rs
  keep : (r : Run) {rs ts : List Run} → Shuffle rs ts → Shuffle (r ∷ rs) (r ∷ ts)
  exchange : (a b : Run) (rs : List Run) → Shuffle (a ∷ b ∷ rs) (b ∷ a ∷ rs)
  further : {rs ts us : List Run} → Shuffle rs ts → Shuffle ts us → Shuffle rs us

runs_bound-Shuffle : {rs ts : List Run} → Shuffle rs ts → runs_bound rs ≡ runs_bound ts
unfolding runs_bound
runs_bound-Shuffle (same rs) = refl
runs_bound-Shuffle (keep r p) = ap (max (r.offset + r.length)) (runs_bound-Shuffle p)
runs_bound-Shuffle (exchange a b rs) = omega arith
runs_bound-Shuffle (further p t) = runs_bound-Shuffle p ∙ runs_bound-Shuffle t

bound_over_runs :
    (stored : List Run) (arts : List DurableArticle)
    → bound_over stored arts ≡ runs_bound (map article_run arts ++ stored)
unfolding bound_over runs_bound article_run
bound_over_runs stored [] = refl
bound_over_runs stored (a ∷ arts) = ground (arith, bound_over_runs stored arts)

-- The bound that is taken before a commit, from the stored rows and the articles to come, is the bound
-- of the rows that the commit writes, when it sorts them all and covers none of the articles already.
pub bound_over-merge :
    (stored rs : List Run) (arts : List DurableArticle)
    → Shuffle rs (map article_run arts ++ stored)
    → InOrder rs
    → runs_bound (merge_adjacent_runs rs).0 ≡ bound_over stored arts
bound_over-merge stored rs arts p o =
    merge_adjacent_runs_bound rs o ∙ runs_bound-Shuffle p ∙ sym (bound_over_runs stored arts)
