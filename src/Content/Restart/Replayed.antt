-- ===== src/Content/Restart/Replayed.antt =====
-- What ApplyResolution (internal/job/content.go) leaves as it was: the marks of the files, and which
-- articles are in flight.
use sabnzbd_go.Base.{
  Bool, Bool-cases, List, [], ap, arith, false, inl, inr, ltb, min, not, refl, some, suc, true,
  zero, ℕ, ◌&&◌, ◌+◌, ◌-◌, ◌<◌, ◌==◌, ◌||◌, ◌∙◌, ◌∷◌, ◌≡◌, sym,
}
use sabnzbd_go.Base.Result.{Result, ok}
use sabnzbd_go.Content.Bitset.{clear_bit, get_bit, set_bit}
use sabnzbd_go.Content.Bitset.Laws.{get_bit-clear_bit, get_bit-set_bit}
use sabnzbd_go.Content.Bulk.{apply_resolution, fail_all, resolve_one, resolve_spans}
use sabnzbd_go.Content.Bulk.Resolved.{
  fail_all-IsSound, resolve_one-IsSound, resolve_range, resolve_spans_lem,
}
use sabnzbd_go.Content.Progress.Sound.{mark_failed-IsSound}
use sabnzbd_go.Content.Doors.{Content, ContentErr, each_from, with_progress}
use sabnzbd_go.Content.Manifest.{Manifest, ManifestFile, num_articles}
use sabnzbd_go.Content.Progress.{
  FileProgress, JobProgress, change_file, less_pending, mark_done, mark_failed, resolve_pending,
}
use sabnzbd_go.Content.Progress.Marks.{IsManifest}
use sabnzbd_go.Content.Progress.Recompute.{recompute, recomputed, recount_files}
use sabnzbd_go.Content.Progress.Recomputed.{IsSound, recompute_total}
use sabnzbd_go.Content.Restart.Rows.{marks, marks_at}

-- Articles are resolved, never taken back; one that is resolved is no longer in flight, any other is as
-- it was; and no file is marked.
pub record Replayed (m : Manifest) (p q : JobProgress) : Type 0 where
  pub marks_kept : (fi : ℕ) → marks_at q.files fi ≡ marks_at p.files fi
  pub grows : (j : ℕ) → j < num_articles m → get_bit p.done j ≡ true → get_bit q.done j ≡ true
  pub flight :
      (j : ℕ)
      → j < num_articles m
      → get_bit q.emitted j ≡ (get_bit p.emitted j && (get_bit p.done j || not (get_bit q.done j)))

absorbed : (e d : Bool) → e ≡ (e && (d || not d))
absorbed e d = ground arith

Replayed-refl : (m : Manifest) (p : JobProgress) → Replayed m p p
Replayed-refl m p = record {
  marks_kept = λ fi. refl;
  grows = λ j l h. h;
  flight = λ j l. absorbed (get_bit p.emitted j) (get_bit p.done j);
}

Replayed-trans :
    (m : Manifest) (p q r : JobProgress) → Replayed m p q → Replayed m q r → Replayed m p r
Replayed-trans m p q r a b = record {
  marks_kept = λ fi. b.marks_kept fi ∙ a.marks_kept fi;
  grows = λ j l h. b.grows j l (a.grows j l h);
  flight = λ j l. ground (arith, a.flight j l, b.flight j l, a.grows j l, b.grows j l);
}

marks_at-change_file :
    (i fi : ℕ) (g : FileProgress → FileProgress) (fs : List FileProgress)
    → ((f : FileProgress) → marks (g f) ≡ marks f)
    → marks_at (change_file i g fs) fi ≡ marks_at fs fi
unfolding change_file
marks_at-change_file i fi g [] h = refl
marks_at-change_file zero zero g (f ∷ fs) h = ap some (h f)
marks_at-change_file zero (suc fi) g (f ∷ fs) h = refl
marks_at-change_file (suc i) zero g (f ∷ fs) h = refl
marks_at-change_file (suc i) (suc fi) g (f ∷ fs) h = marks_at-change_file i fi g fs h

marks-resolve_pending : (e : Bool) (f : FileProgress) → marks (resolve_pending e f) ≡ marks f
unfolding resolve_pending less_pending
marks-resolve_pending true f = refl
marks-resolve_pending false f = refl

module _ (m : Manifest) (i : ℕ) (p : JobProgress) (v : IsSound m p) where
  -- The article `i`, which was not done, is resolved.
  flight_one :
      get_bit p.done i ≡ false
      → (j : ℕ) → j < num_articles m
      → get_bit (clear_bit p.emitted i) j
        ≡ (get_bit p.emitted j && (get_bit p.done j || not (get_bit (set_bit p.done i) j)))
  flight_one h j l = elim (Bool-cases (j == i)) [
    | inl e ↦
        let k : get_bit p.done j ≡ false = ap (get_bit p.done) (ground arith) ∙ h in
        ground (
          arith,
          get_bit-clear_bit p.emitted i j v.emitted_bits,
          get_bit-set_bit p.done i j v.done_bits,
          v.done_size,
        )
    | inr n ↦ ground (
      arith,
      get_bit-clear_bit p.emitted i j v.emitted_bits,
      get_bit-set_bit p.done i j v.done_bits,
    )
  ]

  pub mark_done-Replayed : Replayed m p (mark_done m i p).0
  unfolding mark_done
  mark_done-Replayed = elim (Bool-cases (get_bit p.done i)) [
    | inl h ↦ rw h (Replayed-refl m p)
    | inr h ↦ rw h (record {
      marks_kept =
          λ fi. marks_at-change_file _ fi _ p.files (marks-resolve_pending (get_bit p.emitted i));
      grows = λ j l d. ground (arith, get_bit-set_bit p.done i j v.done_bits);
      flight = flight_one h;
    })
  ]

  pub mark_failed-Replayed : Replayed m p (mark_failed m i p).0
  unfolding mark_failed
  mark_failed-Replayed = elim (Bool-cases (get_bit p.done i)) [
    | inl h ↦ rw h (Replayed-refl m p)
    | inr h ↦ rw h (record {
      marks_kept =
          λ fi. marks_at-change_file _ fi _ p.files (marks-resolve_pending (get_bit p.emitted i));
      grows = λ j l d. ground (arith, get_bit-set_bit p.done i j v.done_bits);
      flight = flight_one h;
    })
  ]

  resolve_one-Replayed : Replayed m p (resolve_one m i p)
  unfolding resolve_one
  resolve_one-Replayed = elim (Bool-cases (get_bit p.failed i)) [
    | inl h ↦ rw h (Replayed-refl m p)
    | inr h ↦ rw h mark_done-Replayed
  ]

module _ (m : Manifest) where
  fail_all-Replayed : (is : List ℕ) (p : JobProgress) → IsSound m p → Replayed m p (fail_all m is p)
  unfolding fail_all
  fail_all-Replayed [] p v = Replayed-refl m p
  fail_all-Replayed (i ∷ rest) p v = elim (Bool-cases (ltb i (num_articles m))) [
    | inl h ↦ rw h (
        Replayed-trans m p (mark_failed m i p).0 _ (mark_failed-Replayed m i p v)
          (fail_all-Replayed rest (mark_failed m i p).0 (mark_failed-IsSound m p i v)))
    | inr h ↦ rw h (fail_all-Replayed rest p v)
  ]

  each_from-Replayed :
      (lo k : ℕ) (p : JobProgress) → IsSound m p → Replayed m p (each_from (resolve_one m) lo k p)
  unfolding each_from
  each_from-Replayed lo zero p v = Replayed-refl m p
  each_from-Replayed lo (suc k) p v =
      Replayed-trans m p (resolve_one m lo p) _ (resolve_one-Replayed m lo p v)
        (each_from-Replayed (lo + 1) k (resolve_one m lo p) (resolve_one-IsSound m lo p v))

  resolve_spans-Replayed :
      (ss : List (ℕ × ℕ)) (p : JobProgress) → IsSound m p → Replayed m p (resolve_spans m ss p)
  unfolding resolve_spans
  resolve_spans-Replayed [] p v = Replayed-refl m p
  resolve_spans-Replayed ((lo, hi) ∷ ss) p v =
      let k = min (hi + 1) (num_articles m) - lo in
      Replayed-trans m p (each_from (resolve_one m) lo k p) _ (each_from-Replayed lo k p v)
        (resolve_spans-Replayed ss (each_from (resolve_one m) lo k p) (resolve_range m lo k p v).0)

marks_at-recount_files :
    (d e f : ℕ → Bool) (bytes : ℕ → ℕ) (lo : ℕ) (ends : List ℕ) (mfs : List ManifestFile)
    (fs : List FileProgress) (fi : ℕ)
    → marks_at (recount_files d e f bytes lo ends mfs fs) fi ≡ marks_at fs fi
unfolding recount_files
marks_at-recount_files d e f bytes lo [] mfs fs fi = refl
marks_at-recount_files d e f bytes lo (hi ∷ ends) [] fs fi = refl
marks_at-recount_files d e f bytes lo (hi ∷ ends) (mf ∷ mfs) [] fi = refl
marks_at-recount_files d e f bytes lo (hi ∷ ends) (mf ∷ mfs) (x ∷ fs) zero = refl
marks_at-recount_files d e f bytes lo (hi ∷ ends) (mf ∷ mfs) (x ∷ fs) (suc fi) =
    marks_at-recount_files d e f bytes hi ends mfs fs fi

recomputed-Replayed : (m : Manifest) (p : JobProgress) → Replayed m p (recomputed m p)
unfolding recomputed
recomputed-Replayed m p = record {
  marks_kept = λ fi. marks_at-recount_files _ _ _ _ _ _ m.files p.files fi;
  grows = λ j l h. h;
  flight = λ j l. absorbed (get_bit p.emitted j) (get_bit p.done j);
}

pub recompute-Replayed :
    (m : Manifest) (p q : JobProgress) → recompute m p ≡ some q → Replayed m p q
unfolding recompute
recompute-Replayed m p q h = elim (Bool-cases (p.done.n == num_articles m)) [
  | inl e ↦ let k : q ≡ recomputed m p = ground arith in rw k (recomputed-Replayed m p)
  | inr n ↦ absurd (ground arith)
]

progress_of :
    (x y : Content) (p q : JobProgress)
    → x.progress ≡ some p
    → y.progress ≡ some q
    → Path (Result ContentErr Content) (ok x) (ok y)
    → p ≡ q
progress_of x y p q a b h = cc

pub apply_resolution-Replayed :
    (c : Content) (m : Manifest) (p : JobProgress) (ss : List (ℕ × ℕ)) (failures : List ℕ)
    (q : JobProgress)
    → c.manifest ≡ some m
    → c.progress ≡ some p
    → IsManifest m
    → IsSound m p
    → apply_resolution ss failures c ≡ ok (with_progress c q)
    → Replayed m p q
unfolding apply_resolution
apply_resolution-Replayed c m p ss failures q hm hp w v h =
    let p1 = fail_all m failures p in
    let v1 = fail_all-IsSound m failures p v in
    let p2 = resolve_spans m ss p1 in
    let v2 = (resolve_spans_lem m ss p1 v1).0 in
    let (q', came, _, _, _, _) = recompute_total m p2 w v2 in
    let same = rw (hm, hp, came) at h in
    rw (sym (progress_of _ _ q' q refl refl same)) (
      Replayed-trans m p p1 q' (fail_all-Replayed m failures p v) (
        Replayed-trans m p1 p2 q' (resolve_spans-Replayed m ss p1 v1)
          (recompute-Replayed m p2 q' came)))
