-- ===== src/Bitmap/Loops.antt =====
-- About bitmap.h: the tests for an empty and for a full bitmap.
use green_threads.Base.{
  ℕ, zero, suc, ◌+◌, ◌-◌, ◌*◌, ◌/◌, ◌%◌, ◌≤◌, ◌<◌, ◌≡◌, ◌≢◌, refl, arith, ltb, ◌==◌, Bool, ap, ◌↔◌,
  true, false, ◌&&◌, ◌∙◌, sym, List, get_or, length, Bool-cases, inl, inr, Option, some, none,
  get_elem?-eq-get_or,
}
use green_threads.Outcome.{ok, ◌>>=◌}
use green_threads.Word.{testbit, all_ones}
use green_threads.Word.Bits.{testbit-mask, testbit_ext}
use green_threads.Bitmap
use green_threads.Bitmap.{Bitmap, last_word_mask, is_empty_loop, is_full_loop, find_first_set_loop}
use green_threads.Bitmap.Words.{bit_at, testbit-last_word_mask, last_word_mask-lt}
use green_threads.Bitmap.Valid.{IsValid}
use green_threads.Bitmap.Search.{IsFirst, find_first_set-IsFirst, bit_at-word}

abbrev is_none : Option ℕ → Bool
is_none none = true
is_none (some k) = false

-- The emptiness test makes the search for a set bit.
is_empty_loop-find :
    (left i : ℕ) (ws : List ℕ)
    → is_empty_loop left i ws ≡ (find_first_set_loop left i ws >>= λ r. ok (is_none r))
unfolding is_empty_loop find_first_set_loop
is_empty_loop-find zero i ws = refl
is_empty_loop-find (suc k) i ws = ground (arith, is_empty_loop-find k (i + 1) ws)

is_full_loop-ones :
    (left i : ℕ) (ws : List ℕ)
    → i + left ≤ length ws
    → (r : Bool) × (is_full_loop left i ws ≡ ok r)
      × ((r ≡ true) ↔ ((k : ℕ) → i ≤ k → k < i + left → get_or ws k 0 ≡ all_ones))
unfolding is_full_loop
is_full_loop-ones zero i ws h = (true, refl, ((λ _ k lo lt. absurd (omega arith)), λ _. refl))
is_full_loop-ones (suc left) i ws h = elim (Bool-cases (get_or ws i 0 == all_ones)) [
  | inl ones ↦
      let (r, ran, iff) = is_full_loop-ones left (i + 1) ws (omega arith) in
      (
        r,
        ground (arith, get_elem?-eq-get_or ws i 0, ran),
        (
          (λ e k lo lt. elim (Bool-cases (i == k)) [
            | inl here ↦ ground arith
            | inr later ↦ iff.0 e k (ground arith) (omega arith)
          ]),
          λ all. iff.1 (λ k lo lt. all k (omega arith) (omega arith)),
        ),
      )
  | inr miss ↦ (
    false,
    ground (arith, get_elem?-eq-get_or ws i 0),
    ((λ e k lo lt. cc), λ all. ground (arith, all i)),
  )
]

is_none_iff :
    (p : ℕ → Bool) (n : ℕ) (o : Option ℕ)
    → IsFirst p 0 n o
    → (is_none o ≡ true) ↔ ((j : ℕ) → j < n → p j ≡ false)
is_none_iff p n none first = ((λ _ j lt. first j (omega arith) lt), λ _. refl)
is_none_iff p n (some k) first = ((λ e. cc), λ all. ground (arith, all k, first))

module _ (b : Bitmap) (ws : List ℕ) (v : IsValid b ws) where
  is_empty_iff :
      (r : Bool) × (Bitmap.is_empty (some b) ≡ ok r)
      × ((r ≡ true) ↔ ((j : ℕ) → j < b.total_bits → bit_at ws j ≡ false))
  unfolding Bitmap.is_empty Bitmap.find_first_set
  is_empty_iff =
      let (o, ran, first) = find_first_set-IsFirst b ws v 1 (λ e. cc) in
      (
        is_none o,
        ground (arith, is_empty_loop-find b.total_words 0 ws, ran, v.stored),
        is_none_iff (bit_at ws) b.total_bits o first,
      )

  -- A word that is wholly in use is full exactly when its bits are set.
  full_word :
      (i : ℕ) → (get_or ws i 0 ≡ all_ones) ↔ ((k : ℕ) → k < 64 → bit_at ws (i * 64 + k) ≡ true)
  full_word i = (
    (λ e k lt. bit_at-word ws i k lt ∙ ap (λ w. testbit w k) e ∙ testbit-mask 64 k ∙ ground arith),
    λ all.
        testbit_ext 64 (get_or ws i 0) all_ones (v.are_words i) (omega arith)
          (λ k lt. sym (bit_at-word ws i k lt) ∙ all k lt ∙ ground (arith, testbit-mask 64 k)),
  )

  -- So is the word that is partly in use, whose other bits are clear.
  part_word :
      b.total_bits % 64 ≢ 0
      → (get_or ws (b.total_bits / 64) 0 ≡ last_word_mask b.total_bits)
        ↔ ((k : ℕ) → k < b.total_bits % 64 → bit_at ws (b.total_bits / 64 * 64 + k) ≡ true)
  part_word part = (
    (λ e k lt.
        bit_at-word ws (b.total_bits / 64) k (omega arith)
        ∙ ap (λ w. testbit w k) e
        ∙ ground (arith, testbit-last_word_mask b.total_bits k)),
    λ all.
        testbit_ext 64 (get_or ws (b.total_bits / 64) 0) (last_word_mask b.total_bits)
          (v.are_words (b.total_bits / 64)) (last_word_mask-lt b.total_bits)
          (λ k lt.
            sym (bit_at-word ws (b.total_bits / 64) k lt)
            ∙ ground (
              arith,
              all k,
              testbit-last_word_mask b.total_bits k,
              v.trailing (b.total_bits / 64 * 64 + k),
              v.counted,
            )),
  )

  full_words :
      ((k : ℕ) → 0 ≤ k → k < 0 + b.total_bits / 64 → get_or ws k 0 ≡ all_ones)
      ↔ ((j : ℕ) → j < b.total_bits / 64 * 64 → bit_at ws j ≡ true)
  full_words = (
    (λ all j lt.
        let e : j / 64 * 64 + j % 64 ≡ j = omega arith in
        ap (bit_at ws) (sym e)
        ∙ (full_word (j / 64)).0 (all (j / 64) (omega arith) (omega arith)) (j % 64) (omega arith)),
    λ all k lo lt. (full_word k).1 (λ i small. all (k * 64 + i) (omega arith)),
  )

  -- The test that follows the loop, when the last word is partly in use.
  part_iff :
      (r : Bool)
      → b.total_bits % 64 ≢ 0
      → ((r ≡ true) ↔ ((j : ℕ) → j < b.total_bits / 64 * 64 → bit_at ws j ≡ true))
      → ((r && (get_or ws (b.total_bits / 64) 0 == last_word_mask b.total_bits)) ≡ true)
        ↔ ((j : ℕ) → j < b.total_bits → bit_at ws j ≡ true)
  part_iff r part iff = (
    (λ e j lt. elim (Bool-cases (ltb j (b.total_bits / 64 * 64))) [
      | inl low ↦ iff.0 (ground arith) j (ground arith)
      | inr high ↦
          let at : b.total_bits / 64 * 64 + (j - b.total_bits / 64 * 64) ≡ j = ground arith in
          ap (bit_at ws) (sym at)
          ∙ (part_word part).0 (ground arith) (j - b.total_bits / 64 * 64) (ground arith)
    ]),
    λ all.
        let e : r ≡ true = iff.1 (λ j lt. all j (omega arith)) in
        let f = (part_word part).1 (λ k lt. all (b.total_bits / 64 * 64 + k) (omega arith)) in
        ground (arith, e, f),
  )

  pub is_full_iff :
      (r : Bool) × (Bitmap.is_full (some b) ≡ ok r)
      × ((r ≡ true) ↔ ((j : ℕ) → j < b.total_bits → bit_at ws j ≡ true))
  unfolding Bitmap.is_full Bitmap.is_full_partial
  is_full_iff =
      let (r, ran, iff) =
        is_full_loop-ones (b.total_bits / 64) 0 ws (omega (arith, v.counted, v.sized)) in
      elim (Bool-cases (b.total_bits % 64 == 0)) [
        | inl whole ↦ (
          r,
          ground (arith, v.stored, v.counted, ran),
          (
            (λ e j lt. full_words.0 (iff.0 e) j (ground arith)),
            λ all. iff.1 (full_words.1 (λ j lt. all j (omega arith))),
          ),
        )
        | inr part ↦ (
          r && (get_or ws (b.total_bits / 64) 0 == last_word_mask b.total_bits),
          ground (
            arith,
            v.stored,
            v.counted,
            v.sized,
            ran,
            get_elem?-eq-get_or ws (b.total_bits / 64) 0,
          ),
          part_iff r (ground arith)
              ((λ e. full_words.0 (iff.0 e)), λ all. iff.1 (full_words.1 all)),
        )
      ]

  -- On a well-formed bitmap gt_bitmap_is_empty and gt_bitmap_is_full return, and return true
  -- exactly when every bit below total_bits is clear, or set, whether or not the last word is
  -- wholly in use.
  pub levels_iff :
      ((r : Bool) × (Bitmap.is_empty (some b) ≡ ok r)
        × ((r ≡ true) ↔ ((j : ℕ) → j < b.total_bits → bit_at ws j ≡ false)))
      × ((r : Bool) × (Bitmap.is_full (some b) ≡ ok r)
          × ((r ≡ true) ↔ ((j : ℕ) → j < b.total_bits → bit_at ws j ≡ true)))
  levels_iff = (is_empty_iff, is_full_iff)
