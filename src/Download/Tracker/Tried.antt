-- ===== src/Download/Tracker/Tried.antt =====
-- Which servers an article counts as tried on (internal/downloader/tracker.go).
use sabnzbd_go.Download.Tracker.{
  unmark_in, ArticleKey, DispatchTracker, delete, lookup, same_key, store, unmark_tried,
}
use sabnzbd_go.Base.{
  if◌then◌else◌, Bool, Bool-cases, List, Option, [], ap, arith, false, inl, inr, none, refl, some,
  sym, true, ℕ, ◌&&◌, ◌==◌, ◌∙◌, ◌∷◌, ◌≡◌,
}
use sabnzbd_go.Base.Keys.{string_eq}
use sabnzbd_go.Download.Mask.{ServerMask, has, is_none_tried, unset}
use sabnzbd_go.Download.Mask.Laws.{has-is_none_tried, has-unset}

unfoldable pub has_in : Option ServerMask → ℕ → Bool
has_in none server = false
has_in (some mask) server = has mask server

-- What the dispatcher reads: a server the article was tried on.
unfoldable pub tried : DispatchTracker → ArticleKey → ℕ → Bool
unfolding lookup has_in
tried t k server = has_in (lookup k t.try_list) server

pub same_key_iff : (a b : ArticleKey) → same_key a b ≡ true → a ≡ b
same_key_iff a b h =
    let e : a.job_id ≡ b.job_id = (string_eq.beq_iff a.job_id b.job_id).0 (ground arith) in
    let g : a.art_idx ≡ b.art_idx = ground arith in λ x. record { job_id = e x; art_idx = g x }

pub same_key_refl : (a : ArticleKey) → same_key a a ≡ true
same_key_refl a = ground (arith, (string_eq.beq_iff a.job_id a.job_id).1 refl)

-- Keys equal to one key are equal.
same_key_apart :
    (x k j : ArticleKey) → same_key x k ≡ false → same_key k j ≡ true → same_key x j ≡ false
same_key_apart x k j n h = sym (ap (same_key x) (same_key_iff k j h)) ∙ n

pub lookup-store {ℓ} :
    {V : Type ℓ} (k j : ArticleKey) (v : V) (m : List (ArticleKey × V))
    → lookup j (store k v m) ≡ (if same_key k j then some v else lookup j m)
unfolding lookup store
lookup-store k j v [] = refl
lookup-store k j v ((x, w) ∷ rest) = elim (Bool-cases (same_key x k)) [
  | inl h ↦
      let e : same_key x j ≡ same_key k j = ap (λ y. same_key y j) (same_key_iff x k h) in
      elim (Bool-cases (same_key k j)) [ inl g ↦ rw (h, e, g) refl | inr g ↦ rw (h, e, g) refl ]
  | inr h ↦ elim (Bool-cases (same_key k j)) [
    | inl g ↦ rw (h, same_key_apart x k j h g, lookup-store k j v rest, g) refl
    | inr g ↦ rw (h, lookup-store k j v rest, g) refl
  ]
]

lookup-delete {ℓ} :
    {V : Type ℓ} (k j : ArticleKey) (m : List (ArticleKey × V))
    → lookup j (delete k m) ≡ (if same_key k j then none else lookup j m)
unfolding lookup delete
lookup-delete k j [] = elim (Bool-cases (same_key k j)) [ inl g ↦ rw g refl | inr g ↦ rw g refl ]
lookup-delete k j ((x, w) ∷ rest) = elim (Bool-cases (same_key x k)) [
  | inl h ↦
      let e : same_key x j ≡ same_key k j = ap (λ y. same_key y j) (same_key_iff x k h) in
      elim (Bool-cases (same_key k j)) [
        | inl g ↦ rw (h, e, lookup-delete k j rest, g) refl
        | inr g ↦ rw (h, e, lookup-delete k j rest, g) refl
      ]
  | inr h ↦ elim (Bool-cases (same_key k j)) [
    | inl g ↦ rw (h, same_key_apart x k j h g, lookup-delete k j rest, g) refl
    | inr g ↦ rw (h, lookup-delete k j rest, g) refl
  ]
]

-- Taking back the mark of one server at one article takes back that mark alone: every other server of
-- the article, and every other article, counts as tried exactly when it did, also where the last mark of
-- the article goes and its entry with it.
pub tried-unmark_tried :
    (t : DispatchTracker) (k j : ArticleKey) (server s : ℕ)
    → tried (unmark_tried k server t) j s
      ≡ (if same_key k j && (s == server) then false else tried t j s)
unfolding tried has_in unmark_tried unmark_in
tried-unmark_tried t k j server s = found (lookup k t.try_list) refl
  where
    here : (g : same_key k j ≡ true) → lookup j t.try_list ≡ lookup k t.try_list
    here g = ap (λ y. lookup y t.try_list) (sym (same_key_iff k j g))

    found :
        (o : Option ServerMask)
        → lookup k t.try_list ≡ o
        → tried (unmark_tried k server t) j s
          ≡ (if same_key k j && (s == server) then false else tried t j s)
    found none e = elim (Bool-cases (same_key k j)) [
      | inl g ↦ rw (e, g, here g, e) (ground arith)
      | inr g ↦ rw (e, g) refl
    ]
    found (some mask) e = elim (Bool-cases (is_none_tried (unset mask server))) [
      | inl z ↦
          let gone = has-is_none_tried (unset mask server) s z in
          elim (Bool-cases (same_key k j)) [
            | inl g ↦
                rw (e, z, lookup-delete k j t.try_list, g, here g, e)
                  (ground (arith, gone, has-unset mask server s))
            | inr g ↦ rw (e, z, lookup-delete k j t.try_list, g) refl
          ]
      | inr z ↦ elim (Bool-cases (same_key k j)) [
        | inl g ↦
            rw (e, z, lookup-store k j (unset mask server) t.try_list, g, here g, e)
              (ground (arith, has-unset mask server s))
        | inr g ↦ rw (e, z, lookup-store k j (unset mask server) t.try_list, g) refl
      ]
    ]
