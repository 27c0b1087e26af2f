-- ===== src/Content/Progress/Recompute/Tallies.antt =====
-- How the sums of recompute (internal/job/progress.go) change with the bits of one article.
use native.Mathlib.Decide.{ℕ_discrete, dec_lt}
use sabnzbd_go.Base.{
  List, [], ap, arith, inl, inr, refl, suc, zero, ℕ, ◌+◌, ◌-◌, ◌<◌, ◌∷◌, ◌≡◌, ◌≢◌, ◌≤◌, ◌⊎◌,
}
use sabnzbd_go.Content.Progress.Recompute.{tally, tally_ranges}

-- Two ways of counting that differ at one article at most.
abbrev pub AgreeOff : ℕ → (ℕ → ℕ) → (ℕ → ℕ) → Type 0
AgreeOff i g g' = (j : ℕ) → j ≢ i → g' j ≡ g j

pub tally_elsewhere :
    (i : ℕ) (g g' : ℕ → ℕ) (lo k : ℕ)
    → AgreeOff i g g'
    → (i < lo) ⊎ (lo + k ≤ i)
    → tally g' lo k ≡ tally g lo k
unfolding tally
tally_elsewhere i g g' lo zero a h = refl
tally_elsewhere i g g' lo (suc k) a h =
    omega (arith, a lo (apart h), tally_elsewhere i g g' (lo + 1) k a (later h))
  where
    apart : (i < lo) ⊎ (lo + suc k ≤ i) → lo ≢ i
    apart (inl h) e = absurd (omega arith)
    apart (inr h) e = absurd (omega arith)

    later : (i < lo) ⊎ (lo + suc k ≤ i) → (i < lo + 1) ⊎ (lo + 1 + k ≤ i)
    later (inl h) = inl (omega arith)
    later (inr h) = inr (omega arith)

pub tally_swap :
    (i : ℕ) (g g' : ℕ → ℕ) (lo k : ℕ)
    → AgreeOff i g g'
    → lo ≤ i
    → i < lo + k
    → tally g' lo k + g i ≡ tally g lo k + g' i
unfolding tally
tally_swap i g g' lo zero a p q = absurd (omega arith)
tally_swap i g g' lo (suc k) a p q = elim (ℕ_discrete lo i) [
  | yes e ↦ omega (arith, ap g e, ap g' e, tally_elsewhere i g g' (lo + 1) k a (inl (omega arith)))
  | no n ↦ omega (arith, a lo n, tally_swap i g g' (lo + 1) k a (omega arith) (omega arith))
]

-- Where the files end, none before it begins.
abbrev pub Ascend : ℕ → List ℕ → Type 0
Ascend lo [] = Unit {0}
Ascend lo (hi ∷ ends) = (lo ≤ hi) × Ascend hi ends

abbrev pub last_of : ℕ → List ℕ → ℕ
last_of lo [] = lo
last_of lo (hi ∷ ends) = last_of hi ends

pub tally_ranges_elsewhere :
    (i : ℕ) (g g' : ℕ → ℕ) (lo : ℕ) (ends : List ℕ)
    → AgreeOff i g g'
    → Ascend lo ends
    → i < lo
    → tally_ranges g' lo ends ≡ tally_ranges g lo ends
unfolding tally_ranges
tally_ranges_elsewhere i g g' lo [] a s h = refl
tally_ranges_elsewhere i g g' lo (hi ∷ ends) a s h = omega (
  arith,
  tally_elsewhere i g g' lo (hi - lo) a (inl h),
  tally_ranges_elsewhere i g g' hi ends a s.1 (omega arith),
)

pub tally_ranges_swap :
    (i : ℕ) (g g' : ℕ → ℕ) (lo : ℕ) (ends : List ℕ)
    → AgreeOff i g g'
    → Ascend lo ends
    → lo ≤ i
    → i < last_of lo ends
    → tally_ranges g' lo ends + g i ≡ tally_ranges g lo ends + g' i
unfolding tally_ranges
tally_ranges_swap i g g' lo [] a s p q = absurd (omega arith)
tally_ranges_swap i g g' lo (hi ∷ ends) a s p q = elim (dec_lt i hi) [
  | yes h ↦ omega (
    arith,
    tally_swap i g g' lo (hi - lo) a p (omega arith),
    tally_ranges_elsewhere i g g' hi ends a s.1 h,
  )
  | no h ↦ omega (
    arith,
    tally_elsewhere i g g' lo (hi - lo) a (inr (omega arith)),
    tally_ranges_swap i g g' hi ends a s.1 (omega arith) q,
  )
]
