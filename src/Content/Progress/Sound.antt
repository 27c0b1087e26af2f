-- ===== src/Content/Progress/Sound.antt =====
-- What marking does to the bits (internal/job/progress.go), whatever the figures say.
use sabnzbd_go.Base.{
  Bool-cases, List, [], ap, arith, false, inl, inr, length, ltb, not, refl, suc, sym, true, zero, ℕ,
  ◌&&◌, ◌==◌, ◌||◌, ◌∙◌, ◌∷◌, ◌≡◌,
}
use sabnzbd_go.Content.Bitset.{get_bit}
use sabnzbd_go.Content.Bitset.Laws.{
  clear_bit-IsBitset, get_bit-clear_bit, get_bit-set_bit, n-clear_bit, n-set_bit, set_bit-IsBitset,
}
use sabnzbd_go.Content.Manifest.{Manifest, num_articles}
use sabnzbd_go.Content.Progress.{
  FileProgress, JobProgress, change_file, mark_done, mark_failed, mark_not_done,
}
use sabnzbd_go.Content.Progress.Recomputed.{IsSound}

pub length-change_file :
    (k : ℕ) (g : FileProgress → FileProgress) (xs : List FileProgress)
    → length (change_file k g xs) ≡ length xs
unfolding change_file
length-change_file k g [] = refl
length-change_file zero g (x ∷ xs) = refl
length-change_file (suc k) g (x ∷ xs) = omega (arith, length-change_file k g xs)

module _ (m : Manifest) (p : JobProgress) (i : ℕ) (v : IsSound m p) where
  pub mark_done-IsSound : IsSound m (mark_done m i p).0
  unfolding mark_done
  mark_done-IsSound = elim (Bool-cases (get_bit p.done i)) [
    | inl h ↦ rw h v
    | inr h ↦ rw h (record {
      done_bits = set_bit-IsBitset p.done i v.done_bits;
      failed_bits = v.failed_bits;
      emitted_bits = clear_bit-IsBitset p.emitted i v.emitted_bits;
      done_size = n-set_bit p.done i ∙ v.done_size;
      failed_size = v.failed_size;
      emitted_size = n-clear_bit p.emitted i ∙ v.emitted_size;
      failed_done =
          λ j f. ground (arith, get_bit-set_bit p.done i j v.done_bits, v.failed_done j f);
      files_size = length-change_file _ _ p.files ∙ v.files_size;
    })
  ]

  pub mark_failed-IsSound : IsSound m (mark_failed m i p).0
  unfolding mark_failed
  mark_failed-IsSound = elim (Bool-cases (get_bit p.done i)) [
    | inl h ↦ rw h v
    | inr h ↦ rw h (record {
      done_bits = set_bit-IsBitset p.done i v.done_bits;
      failed_bits = set_bit-IsBitset p.failed i v.failed_bits;
      emitted_bits = clear_bit-IsBitset p.emitted i v.emitted_bits;
      done_size = n-set_bit p.done i ∙ v.done_size;
      failed_size = n-set_bit p.failed i ∙ v.failed_size;
      emitted_size = n-clear_bit p.emitted i ∙ v.emitted_size;
      failed_done = λ j f. ground (
        arith,
        get_bit-set_bit p.done i j v.done_bits,
        get_bit-set_bit p.failed i j v.failed_bits,
        v.failed_done j,
        v.done_size,
        v.failed_size,
      );
      files_size = length-change_file _ _ p.files ∙ v.files_size;
    })
  ]

  pub mark_not_done-IsSound : IsSound m (mark_not_done i p).0
  unfolding mark_not_done
  mark_not_done-IsSound = elim (Bool-cases (not (get_bit p.done i) || get_bit p.failed i)) [
    | inl h ↦ rw h v
    | inr h ↦ rw h (record {
      done_bits = clear_bit-IsBitset p.done i v.done_bits;
      failed_bits = v.failed_bits;
      emitted_bits = v.emitted_bits;
      done_size = n-clear_bit p.done i ∙ v.done_size;
      failed_size = v.failed_size;
      emitted_size = v.emitted_size;
      failed_done = λ j f. elim (Bool-cases (j == i)) [
        | inl e ↦
            let k : j ≡ i = ground arith in
            let f' : get_bit p.failed i ≡ true = ap (get_bit p.failed) (sym k) ∙ f in
            absurd (ground arith)
        | inr n ↦ ground (arith, get_bit-clear_bit p.done i j v.done_bits, v.failed_done j f)
      ];
      files_size = v.files_size;
    })
  ]

  pub done-mark_done :
      (j : ℕ)
      → get_bit (mark_done m i p).0.done j
        ≡ (get_bit p.done j || ((j == i) && ltb i (num_articles m)))
  unfolding mark_done
  done-mark_done j = elim (Bool-cases (get_bit p.done i)) [
    | inl h ↦ rw h (elim (Bool-cases (j == i)) [
      | inl e ↦
          let k : get_bit p.done j ≡ true = ap (get_bit p.done) (ground arith) ∙ h in ground arith
      | inr n ↦ ground arith
    ])
    | inr h ↦ rw h (ground (arith, get_bit-set_bit p.done i j v.done_bits, v.done_size))
  ]

  pub failed-mark_done : (mark_done m i p).0.failed ≡ p.failed
  unfolding mark_done
  failed-mark_done = elim (Bool-cases (get_bit p.done i)) [ inl h ↦ rw h refl | inr h ↦ rw h refl ]

  pub done-mark_failed :
      (j : ℕ)
      → get_bit (mark_failed m i p).0.done j
        ≡ (get_bit p.done j || ((j == i) && ltb i (num_articles m)))
  unfolding mark_failed
  done-mark_failed j = elim (Bool-cases (get_bit p.done i)) [
    | inl h ↦ rw h (elim (Bool-cases (j == i)) [
      | inl e ↦
          let k : get_bit p.done j ≡ true = ap (get_bit p.done) (ground arith) ∙ h in ground arith
      | inr n ↦ ground arith
    ])
    | inr h ↦ rw h (ground (arith, get_bit-set_bit p.done i j v.done_bits, v.done_size))
  ]

  pub failed-mark_failed :
      (j : ℕ)
      → get_bit (mark_failed m i p).0.failed j
        ≡ (get_bit p.failed j || (((j == i) && ltb i (num_articles m)) && not (get_bit p.done j)))
  unfolding mark_failed
  failed-mark_failed j = elim (Bool-cases (get_bit p.done i)) [
    | inl h ↦ rw h (elim (Bool-cases (j == i)) [
      | inl e ↦
          let k : get_bit p.done j ≡ true = ap (get_bit p.done) (ground arith) ∙ h in ground arith
      | inr n ↦ ground arith
    ])
    | inr h ↦ rw h (elim (Bool-cases (j == i)) [
      | inl e ↦
          let k : get_bit p.done j ≡ false = ap (get_bit p.done) (ground arith) ∙ h in
          ground (arith, get_bit-set_bit p.failed i j v.failed_bits, v.failed_size)
      | inr n ↦ ground (arith, get_bit-set_bit p.failed i j v.failed_bits)
    ])
  ]
