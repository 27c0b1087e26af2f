-- ===== src/Content/Bulk/Resolved.antt =====
-- What ApplyResolution (internal/job/content.go), which a restart replays, does to each article.
use sabnzbd_go.Content.Progress.Recomputed.{recompute_total, IsSound}
use sabnzbd_go.Content.Bulk.{fail_all, resolve_one, resolve_spans, in_any, apply_resolution}
use sabnzbd_go.Base.{
  Bool, Bool-cases, List, [], ap, arith, false, inl, inr, leb, ltb, min, not, refl, some, suc, true,
  zero, ℕ, ◌&&◌, ◌+◌, ◌-◌, ◌<◌, ◌==◌, ◌||◌, ◌∙◌, ◌∷◌, ◌≡◌,
}
use sabnzbd_go.Base.Result.{ok}
use sabnzbd_go.Content.Bitset.{get_bit}
use sabnzbd_go.Content.Doors.{Content, each_from, with_progress}
use sabnzbd_go.Content.Manifest.{Manifest, num_articles}
use sabnzbd_go.Content.Progress.{JobProgress, mark_failed}
use sabnzbd_go.Content.Progress.Marks.{IsCounted, IsManifest}
use sabnzbd_go.Content.Progress.Sound.{
  done-mark_done, done-mark_failed, failed-mark_done, failed-mark_failed, mark_done-IsSound,
  mark_failed-IsSound,
}

abbrev pub listed : ℕ → List ℕ → Bool
listed j [] = false
listed j (i ∷ rest) = (j == i) || listed j rest

module _ (m : Manifest) where
  pub fail_all-IsSound : (is : List ℕ) (p : JobProgress) → IsSound m p → IsSound m (fail_all m is p)
  unfolding fail_all
  fail_all-IsSound [] p v = v
  fail_all-IsSound (i ∷ rest) p v = elim (Bool-cases (ltb i (num_articles m))) [
    | inl h ↦ rw h (fail_all-IsSound rest (mark_failed m i p).0 (mark_failed-IsSound m p i v))
    | inr h ↦ rw h (fail_all-IsSound rest p v)
  ]

  done-fail_all :
      (is : List ℕ) (p : JobProgress) (j : ℕ)
      → IsSound m p
      → j < num_articles m
      → get_bit (fail_all m is p).done j ≡ (get_bit p.done j || listed j is)
  unfolding fail_all
  done-fail_all [] p j v l = ground arith
  done-fail_all (i ∷ rest) p j v l = elim (Bool-cases (ltb i (num_articles m))) [
    | inl h ↦
        rw (h, fail_all)
          (ground (
            arith,
            done-fail_all rest (mark_failed m i p).0 j (mark_failed-IsSound m p i v) l,
            done-mark_failed m p i v j,
          ))
    | inr h ↦ rw (h, fail_all) (ground (arith, done-fail_all rest p j v l))
  ]

  failed-fail_all :
      (is : List ℕ) (p : JobProgress) (j : ℕ)
      → IsSound m p
      → j < num_articles m
      → get_bit (fail_all m is p).failed j
        ≡ (get_bit p.failed j || (listed j is && not (get_bit p.done j)))
  unfolding fail_all
  failed-fail_all [] p j v l = ground arith
  failed-fail_all (i ∷ rest) p j v l = elim (Bool-cases (ltb i (num_articles m))) [
    | inl h ↦
        rw (h, fail_all)
          (ground (
            arith,
            failed-fail_all rest (mark_failed m i p).0 j (mark_failed-IsSound m p i v) l,
            done-mark_failed m p i v j,
            failed-mark_failed m p i v j,
          ))
    | inr h ↦ rw (h, fail_all) (ground (arith, failed-fail_all rest p j v l))
  ]

  pub resolve_one-IsSound : (i : ℕ) (p : JobProgress) → IsSound m p → IsSound m (resolve_one m i p)
  unfolding resolve_one
  resolve_one-IsSound i p v = elim (Bool-cases (get_bit p.failed i)) [
    | inl h ↦ rw h v
    | inr h ↦ rw h (mark_done-IsSound m p i v)
  ]

  done-resolve_one :
      (i : ℕ) (p : JobProgress) (j : ℕ)
      → IsSound m p
      → j < num_articles m
      → get_bit (resolve_one m i p).done j ≡ (get_bit p.done j || (j == i))
  unfolding resolve_one
  done-resolve_one i p j v l = elim (Bool-cases (get_bit p.failed i)) [
    | inl h ↦ rw h (elim (Bool-cases (j == i)) [
      | inl e ↦
          let k : get_bit p.done j ≡ true =
            ap (get_bit p.done) (ground arith) ∙ v.failed_done i h in
          ground arith
      | inr n ↦ ground arith
    ])
    | inr h ↦ rw h (ground (arith, done-mark_done m p i v j))
  ]

  failed-resolve_one :
      (i : ℕ) (p : JobProgress) → IsSound m p → (resolve_one m i p).failed ≡ p.failed
  unfolding resolve_one
  failed-resolve_one i p v = elim (Bool-cases (get_bit p.failed i)) [
    | inl h ↦ rw h refl
    | inr h ↦ rw h (failed-mark_done m p i v)
  ]

  -- The articles from `lo` on, `k` of them.
  pub resolve_range :
      (lo k : ℕ) (p : JobProgress)
      → IsSound m p
      → let q = each_from (resolve_one m) lo k p in
        IsSound m q
        × ((j : ℕ)
            → j < num_articles m
            → get_bit q.done j ≡ (get_bit p.done j || (leb lo j && ltb j (lo + k))))
        × (q.failed ≡ p.failed)
  unfolding each_from
  resolve_range lo zero p v = (v, λ j l. ground arith, refl)
  resolve_range lo (suc k) p v =
      let (sound, done, failed) =
        resolve_range (lo + 1) k (resolve_one m lo p) (resolve_one-IsSound lo p v) in
      (
        sound,
        λ j l. ground (arith, done j l, done-resolve_one lo p j v l),
        failed ∙ failed-resolve_one lo p v,
      )

  pub resolve_spans_lem :
      (ss : List (ℕ × ℕ)) (p : JobProgress)
      → IsSound m p
      → let q = resolve_spans m ss p in
        IsSound m q
        × ((j : ℕ) → j < num_articles m → get_bit q.done j ≡ (get_bit p.done j || in_any j ss))
        × (q.failed ≡ p.failed)
  unfolding resolve_spans in_any
  resolve_spans_lem [] p v = (v, λ j l. ground arith, refl)
  resolve_spans_lem ((lo, hi) ∷ ss) p v =
      let k = min (hi + 1) (num_articles m) - lo in
      let (sound, done, failed) = resolve_range lo k p v in
      let (sound', done', failed') =
        resolve_spans_lem ss (each_from (resolve_one m) lo k p) sound in
      (sound', λ j l. ground (arith, done j l, done' j l), failed' ∙ failed)

or_assoc : (x y z : Bool) → ((x || y) || z) ≡ (x || (y || z))
or_assoc x y z = ground arith

-- On a manifest and a sound progress record, whatever runs and failures are replayed: the door
-- succeeds, the figures are right afterwards, an article is done exactly when it was or is in a run or
-- listed as failed, and is failed exactly when it was or is listed and was not done before.
pub apply_resolution_lem :
    (c : Content) (m : Manifest) (p : JobProgress) (ss : List (ℕ × ℕ)) (failures : List ℕ)
    → c.manifest ≡ some m
    → c.progress ≡ some p
    → IsManifest m
    → IsSound m p
    → (q : JobProgress) × (apply_resolution ss failures c ≡ ok (with_progress c q))
      × IsCounted m q
      × ((j : ℕ)
          → j < num_articles m
          → (get_bit q.done j ≡ (get_bit p.done j || (listed j failures || in_any j ss)))
            × (get_bit q.failed j
                ≡ (get_bit p.failed j || (listed j failures && not (get_bit p.done j)))))
unfolding apply_resolution
apply_resolution_lem c m p ss failures hm hp w v =
    let (sound, done, failed) =
      resolve_spans_lem m ss (fail_all m failures p) (fail_all-IsSound m failures p v) in
    let (q, came, counted, kept_done, kept_failed, _) =
      recompute_total m (resolve_spans m ss (fail_all m failures p)) w sound in
    (
      q,
      rw (hm, hp, came) refl,
      counted,
      λ j l. (
        ap (λ b. get_bit b j) kept_done
            ∙ done j l
            ∙ ap (λ x. x || in_any j ss) (done-fail_all m failures p j v l)
            ∙ or_assoc (get_bit p.done j) _ _,
        ap (λ b. get_bit b j) (kept_failed ∙ failed) ∙ failed-fail_all m failures p j v l,
      ),
    )
