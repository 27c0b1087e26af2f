-- ===== src/Download/Mask/Counts.antt =====
-- The count of a mask (serverMask.count of internal/downloader/mask.go) against the servers that it has.
use sabnzbd_go.Base.{
  false, ltb, true, List, [], get_elem?, length, sym, ◌∷◌, ◌*◌, ◌⊎◌, inl, inr, ◌∙◌, if◌then◌else◌,
  Bool, ap, arith, refl, suc, zero, ℕ, ◌%◌, ◌+◌, ◌-◌, ◌/◌, ◌<◌, ◌^◌, ◌≡◌, ◌≤◌,
}
use sabnzbd_go.Download.Mask.Laws.{has_lem, bit_in}
use sabnzbd_go.Download.Mask.{ServerMask, count_servers, count_words, has, count_word}
use sabnzbd_go.Base.Bits.{bit_at, bit_and_next}
use Prim.Native.Nat.{bit_and}

-- How many of the `n` numbers from `start` on satisfy a test.
unfoldable pub count_from : (ℕ → Bool) → ℕ → ℕ → ℕ
count_from f start zero = 0
count_from f start (suc n) = (if f start then 1 else 0) + count_from f (start + 1) n

-- The same count, of two tests that agree on the range up to a shift.
count_from_shift :
    (f g : ℕ → Bool) (a b n : ℕ)
    → ((k : ℕ) → k < n → f (k + a) ≡ g (k + b))
    → count_from f a n ≡ count_from g b n
unfolding count_from
count_from_shift f g a b zero h = refl
count_from_shift f g a b (suc n) h =
    let first : f a ≡ g b = ap f (omega arith) ∙ h 0 (omega arith) ∙ ap g (omega arith) in
    let rest =
      count_from_shift f g (a + 1) (b + 1) n
        (λ k l. ap f (omega arith) ∙ h (k + 1) (omega arith) ∙ ap g (omega arith)) in
    rw (first, rest) refl

bits_below : ℕ → ℕ → ℕ
bits_below zero v = 0
bits_below (suc n) v = v % 2 + bits_below n (v / 2)

bit_at_moved : (k v : ℕ) → bit_at (k + 0) (v / 2) ≡ bit_at (k + 1) v
unfolding bit_at
bit_at_moved k v =
    let a : k + 0 ≡ k = omega arith in
    let b : suc k ≡ k + 1 = omega arith in ap (λ x. bit_at x (v / 2)) a ∙ ap (λ x. bit_at x v) b

bits_below-count_from : (n v : ℕ) → bits_below n v ≡ count_from (λ k. bit_at k v) 0 n
unfolding bits_below count_from bit_at
bits_below-count_from zero v = refl
bits_below-count_from (suc n) v =
    let e =
      count_from_shift (λ k. bit_at k (v / 2)) (λ k. bit_at k v) 0 1 n (λ k l. bit_at_moved k v) in
    ground (arith, bits_below-count_from n (v / 2), e)

bit_and_self : (n a : ℕ) → a ≤ n → bit_and a a ≡ a
bit_and_self n zero h = refl
bit_and_self zero (suc a) h = absurd (omega arith)
bit_and_self (suc n) (suc a) h =
    omega (arith, bit_and_next (suc a) (suc a), bit_and_self n (suc a / 2) (omega arith))

-- `v & (v - 1)`, by the last digit of `v`.
cleared_odd : (v : ℕ) → v % 2 ≡ 1 → bit_and v (v - 1) ≡ v / 2 * 2
cleared_odd v o =
    let e : bit_and (v / 2) ((v - 1) / 2) ≡ bit_and (v / 2) (v / 2) =
      ap (bit_and (v / 2)) (omega arith) in
    omega (arith, bit_and_next v (v - 1), e, bit_and_self (v / 2) (v / 2) (omega arith))

cleared_even : (v : ℕ) → 0 < v → v % 2 ≡ 0 → bit_and v (v - 1) ≡ bit_and (v / 2) (v / 2 - 1) * 2
cleared_even v p o =
    let e : bit_and (v / 2) ((v - 1) / 2) ≡ bit_and (v / 2) (v / 2 - 1) =
      ap (bit_and (v / 2)) (omega arith) in
    omega (arith, bit_and_next v (v - 1), e)

bits_below_zero : (n : ℕ) → bits_below n 0 ≡ 0
unfolding bits_below
bits_below_zero zero = refl
bits_below_zero (suc n) = omega (arith, bits_below_zero n)

digit_cases : (v : ℕ) → (v % 2 ≡ 1) ⊎ (v % 2 ≡ 0)
digit_cases v = ground arith

-- The lowest bit is cleared, and no other.
bits_below_cleared :
    (n v : ℕ)
    → 0 < v
    → v < 2 ^ n
    → (bits_below n (bit_and v (v - 1)) + 1 ≡ bits_below n v) × (bit_and v (v - 1) < 2 ^ n)
unfolding bits_below
bits_below_cleared zero v p h = absurd (omega arith)
bits_below_cleared (suc n) v p h = elim (digit_cases v) [
  | inl o ↦
      let e = cleared_odd v o in
      let f : bits_below n (bit_and v (v - 1) / 2) ≡ bits_below n (v / 2) =
        ap (bits_below n) (omega (arith, e)) in
      (omega (arith, e, f), omega (arith, e))
  | inr o ↦
      let e = cleared_even v p o in
      let (c, l) = bits_below_cleared n (v / 2) (omega arith) (omega arith) in
      let f : bits_below n (bit_and v (v - 1) / 2) ≡ bits_below n (bit_and (v / 2) (v / 2 - 1)) =
        ap (bits_below n) (omega (arith, e)) in
      (omega (arith, e, f, c), omega (arith, e, l))
]

count_word-bits_below :
    (fuel n v : ℕ) → v < 2 ^ n → bits_below n v ≤ fuel → count_word fuel v ≡ bits_below n v
unfolding count_word
count_word-bits_below zero n zero h l = sym (bits_below_zero n)
count_word-bits_below (suc fuel) n zero h l = sym (bits_below_zero n)
count_word-bits_below zero n (suc v) h l =
    absurd (omega (arith, bits_below_cleared n (suc v) (omega arith) h))
count_word-bits_below (suc fuel) n (suc v) h l =
    let (c, b) = bits_below_cleared n (suc v) (omega arith) h in
    let e = count_word-bits_below fuel n (bit_and (suc v) (suc v - 1)) b (omega (arith, c)) in
    ground (arith, e, c)

bits_below_le : (n v : ℕ) → bits_below n v ≤ n
unfolding bits_below
bits_below_le zero v = omega arith
bits_below_le (suc n) v = omega (arith, bits_below_le n (v / 2))

count_word_lem : (v : ℕ) → v < 2 ^ 64 → count_word 64 v ≡ count_from (λ k. bit_at k v) 0 64
count_word_lem v h =
    count_word-bits_below 64 64 v h (bits_below_le 64 v) ∙ bits_below-count_from 64 v

count_from-append :
    (f : ℕ → Bool) (start a b : ℕ)
    → count_from f start (a + b) ≡ count_from f start a + count_from f (start + a) b
unfolding count_from
count_from-append f start zero b =
    let n : 0 + b ≡ b = omega arith in
    let m : start ≡ start + 0 = omega arith in
    omega (arith, ap (count_from f start) n, ap (λ x. count_from f x b) m)
count_from-append f start (suc a) b =
    let n : suc a + b ≡ suc (a + b) = omega arith in
    let m : start + 1 + a ≡ start + suc a = omega arith in
    omega (
      arith,
      ap (count_from f start) n,
      count_from-append f (start + 1) a b,
      ap (λ x. count_from f x b) m,
    )

abbrev pub AreWords : List ℕ → Type 0
AreWords [] = Unit {0}
AreWords (w ∷ ws) = (w < 2 ^ 64) × AreWords ws

abbrev slow_bit : List ℕ → ℕ → Bool
slow_bit ws j = bit_in (j % 64) (get_elem? ws (j / 64))

-- A word and the rest.
first_word : (w : ℕ) (ws : List ℕ) (k : ℕ) → k < 64 → slow_bit (w ∷ ws) (k + 0) ≡ bit_at (k + 0) w
first_word w ws k l =
    let d : (k + 0) / 64 ≡ 0 = omega arith in
    let r : (k + 0) % 64 ≡ k + 0 = omega arith in rw (d, r) refl

later_words : (w : ℕ) (ws : List ℕ) (k : ℕ) → slow_bit (w ∷ ws) (k + 64) ≡ slow_bit ws (k + 0)
later_words w ws k =
    let d : (k + 64) / 64 ≡ suc ((k + 0) / 64) = omega arith in
    let r : (k + 64) % 64 ≡ (k + 0) % 64 = omega arith in rw (d, r) refl

count_words_cons : (w : ℕ) (ws : List ℕ) → count_words (w ∷ ws) ≡ count_word 64 w + count_words ws
unfolding count_words
count_words_cons w ws = refl

count_words_nil : count_words [] ≡ count_from (slow_bit []) 0 0
unfolding count_words count_from
count_words_nil = refl

count_words_lem :
    (ws : List ℕ) → AreWords ws → count_words ws ≡ count_from (slow_bit ws) 0 (length ws * 64)
count_words_lem [] h = count_words_nil
count_words_lem (w ∷ ws) h =
    let f = slow_bit (w ∷ ws) in
    let n : length (w ∷ ws) * 64 ≡ 64 + length ws * 64 = omega arith in
    let a = count_from_shift f (λ k. bit_at k w) 0 0 64 (first_word w ws) in
    let b = count_from_shift f (slow_bit ws) 64 0 (length ws * 64) (λ k l. later_words w ws k) in
    let split = ap (count_from f 0) n ∙ count_from-append f 0 64 (length ws * 64) in
    count_words_cons w ws ∙ omega (arith, count_word_lem w h.0, count_words_lem ws h.1, split, a, b)

count_servers_split : (m : ServerMask) → count_servers m ≡ count_word 64 m.fast + count_words m.slow
unfolding count_servers
count_servers_split m = refl

has-fast : (m : ServerMask) (k : ℕ) → k < 64 → has m (k + 0) ≡ bit_at (k + 0) m.fast
has-fast m k l = let e : ltb (k + 0) 64 ≡ true = ground arith in has_lem m (k + 0) ∙ rw e refl

has-slow : (m : ServerMask) (k : ℕ) → has m (k + 64) ≡ slow_bit m.slow (k + 0)
has-slow m k =
    let e : ltb (k + 64) 64 ≡ false = ground arith in
    let d : (k + 64) / 64 - 1 ≡ (k + 0) / 64 = omega arith in
    let r : (k + 64) % 64 ≡ (k + 0) % 64 = omega arith in has_lem m (k + 64) ∙ rw (e, d, r) refl

-- Where the words have 64 bits, the count, which clears the lowest set bit of each word until none is
-- left, ends within its 64 rounds with the number of servers that the mask has.
pub count_servers_lem :
    (m : ServerMask)
    → m.fast < 2 ^ 64
    → AreWords m.slow
    → count_servers m ≡ count_from (has m) 0 (64 + length m.slow * 64)
count_servers_lem m f s =
    let n = length m.slow * 64 in
    let a = count_from_shift (has m) (λ k. bit_at k m.fast) 0 0 64 (has-fast m) in
    let b = count_from_shift (has m) (slow_bit m.slow) 64 0 n (λ k l. has-slow m k) in
    let split = count_from-append (has m) 0 64 n in
    count_servers_split m
    ∙ omega (arith, count_word_lem m.fast f, count_words_lem m.slow s, split, a, b)
