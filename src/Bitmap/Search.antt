-- ===== src/Bitmap/Search.antt =====
-- About bitmap.h: the searches for the first set and the first clear bit.
use green_threads.Base.{
  ℕ, zero, suc, ◌+◌, ◌-◌, ◌*◌, ◌/◌, ◌%◌, ◌^◌, ◌≤◌, ◌<◌, bit_and, ◌≡◌, ◌≢◌, refl, arith, ltb, ◌==◌,
  Bool, ap, true, false, not, ◌&&◌, ◌∙◌, sym, List, get_or, length, Bool-cases, inl, inr, Option,
  some, none, if◌then◌else◌, get_elem?-eq-get_or,
}
use green_threads.Outcome.{ok}
use green_threads.Word.{testbit, bit_not, ctz}
use green_threads.Word.Bits.{testbit-zero, testbit-and, testbit-not, bit_and-lt}
use green_threads.Word.Scan.{ctz-IsLowest}
use green_threads.Bitmap
use green_threads.Bitmap.{
  Bitmap, last_word_mask, last_index, find_first_set_loop, find_first_clear_loop,
}
use green_threads.Bitmap.Words.{bit_at, testbit-last_word_mask}
use green_threads.Bitmap.Valid.{IsValid, last_index-pred}

-- The lowest index of `[lo, hi)` at which `p` holds, or `none` if there is none.
abbrev pub IsFirst : (ℕ → Bool) → (lo hi : ℕ) → Option ℕ → Type 0
IsFirst p lo hi none = (j : ℕ) → lo ≤ j → j < hi → p j ≡ false
IsFirst p lo hi (some k) =
    (lo ≤ k) × (k < hi) × (p k ≡ true) × ((j : ℕ) → lo ≤ j → j < k → p j ≡ false)

-- A word `w` whose bits are `p` from the index `64 * i` on.
module _ (p : ℕ → Bool) (i w : ℕ) (fits : w < 2 ^ 64)
    (bits : (k : ℕ) → k < 64 → p (i * 64 + k) ≡ testbit w k) where
  word_bits : (j : ℕ) → i * 64 ≤ j → j < (i + 1) * 64 → p j ≡ testbit w (j - i * 64)
  word_bits j lo hi =
      let e : i * 64 + (j - i * 64) ≡ j = omega arith in
      ap p (sym e) ∙ bits (j - i * 64) (omega arith)

  IsFirst-here :
      (hi : ℕ) → (i + 1) * 64 ≤ hi → w ≢ 0 → IsFirst p (i * 64) hi (some (i * 64 + ctz 64 w))
  IsFirst-here hi le ne =
      let low = ctz-IsLowest 64 w fits ne in
      (
        omega arith,
        omega (arith, low.within),
        bits (ctz 64 w) low.within ∙ low.bit_set,
        λ j lo lt.
            word_bits j lo (omega (arith, low.within)) ∙ low.below (j - i * 64) (omega arith),
      )

  none_here : w ≡ 0 → (j : ℕ) → i * 64 ≤ j → j < (i + 1) * 64 → p j ≡ false
  none_here e j lo lt =
      word_bits j lo lt ∙ ap (λ v. testbit v (j - i * 64)) e ∙ testbit-zero (j - i * 64)

  IsFirst-later :
      (hi : ℕ) (r : Option ℕ) → w ≡ 0 → IsFirst p ((i + 1) * 64) hi r → IsFirst p (i * 64) hi r
  IsFirst-later hi none e rest = λ j lo lt. elim (Bool-cases (ltb j ((i + 1) * 64))) [
    | inl inside ↦ none_here e j lo (ground arith)
    | inr behind ↦ rest j (ground arith) lt
  ]
  IsFirst-later hi (some k) e rest = (
    omega arith,
    rest.1,
    rest.2,
    λ j lo lt. elim (Bool-cases (ltb j ((i + 1) * 64))) [
      | inl inside ↦ none_here e j lo (ground arith)
      | inr behind ↦ rest.3 j (ground arith) lt
    ],
  )

pub bit_at-word :
    (ws : List ℕ) (i k : ℕ) → k < 64 → bit_at ws (i * 64 + k) ≡ testbit (get_or ws i 0) k
bit_at-word ws i k h =
    let e : (i * 64 + k) / 64 ≡ i = omega arith in
    let f : (i * 64 + k) % 64 ≡ k = omega arith in rw (e, f)

module _ (ws : List ℕ) (all : (i : ℕ) → get_or ws i 0 < 2 ^ 64) where
  find_first_set_loop-IsFirst :
      (left i hi : ℕ)
      → i + left ≤ length ws
      → hi ≡ (i + left) * 64
      → (r : Option ℕ) × (find_first_set_loop left i ws ≡ ok r) × IsFirst (bit_at ws) (i * 64) hi r
  unfolding find_first_set_loop
  find_first_set_loop-IsFirst zero i hi h e = (none, refl, λ j lo lt. absurd (omega arith))
  find_first_set_loop-IsFirst (suc k) i hi h e = elim (Bool-cases (get_or ws i 0 == 0)) [
    | inl blank ↦
        let (r, ran, first) =
          find_first_set_loop-IsFirst k (i + 1) hi (omega arith) (omega arith) in
        (
          r,
          ground (arith, get_elem?-eq-get_or ws i 0, ran),
          IsFirst-later (bit_at ws) i (get_or ws i 0) (all i) (bit_at-word ws i) hi r (ground arith)
              first,
        )
    | inr found ↦ (
      some (i * 64 + ctz 64 (get_or ws i 0)),
      ground (arith, get_elem?-eq-get_or ws i 0),
      IsFirst-here (bit_at ws) i (get_or ws i 0) (all i) (bit_at-word ws i) hi (omega arith)
          (ground arith),
    )
  ]

module _ (b : Bitmap) (ws : List ℕ) (v : IsValid b ws) (out : ℕ) (given : out ≢ 0) where
  trim_set :
      (r : Option ℕ)
      → IsFirst (bit_at ws) 0 (b.total_words * 64) r
      → IsFirst (bit_at ws) 0 b.total_bits r
  trim_set none first = λ j lo lt. first j lo (omega (arith, v.counted))
  trim_set (some k) first = (first.0, ground (arith, first, v.trailing k), first.2, first.3)

  pub find_first_set-IsFirst :
      (r : Option ℕ) × (Bitmap.find_first_set (some b) out ≡ ok r)
      × IsFirst (bit_at ws) 0 b.total_bits r
  unfolding Bitmap.find_first_set
  find_first_set-IsFirst =
      let (r, ran, first) =
        find_first_set_loop-IsFirst ws v.are_words b.total_words 0 (b.total_words * 64)
          (omega (arith, v.sized)) (omega arith) in
      (r, ground (arith, v.stored, ran, given), trim_set r first)

-- Bit `j` of the map is in range and clear.
abbrev free : Bitmap → List ℕ → ℕ → Bool
free b ws j = ltb j b.total_bits && not (bit_at ws j)

-- The inverted word that the search looks at.
abbrev inverted : Bitmap → List ℕ → ℕ → ℕ
inverted b ws i =
    if i == last_index b
    then bit_and (bit_not (get_or ws i 0)) (last_word_mask b.total_bits)
    else bit_not (get_or ws i 0)

module _ (b : Bitmap) (ws : List ℕ) (v : IsValid b ws) where
  inverted-lt : (i : ℕ) → inverted b ws i < 2 ^ 64
  inverted-lt i =
      ground (arith, bit_and-lt 64 (bit_not (get_or ws i 0)) (last_word_mask b.total_bits))

  free-inverted :
      (i k : ℕ) → i < b.total_words → k < 64 → free b ws (i * 64 + k) ≡ testbit (inverted b ws i) k
  free-inverted i k h lt = elim (Bool-cases (i == last_index b)) [
    | inl at_end ↦ rw at_end (
        ground (
          arith,
          v.counted,
          v.are_words i,
          last_index-pred b ws v,
          bit_at-word ws i k,
          testbit-and k (bit_not (get_or ws i 0)) (last_word_mask b.total_bits),
          testbit-not 64 k (get_or ws i 0),
          testbit-last_word_mask b.total_bits k,
        ))
    | inr before ↦ rw before (
        ground (
          arith,
          v.counted,
          v.are_words i,
          last_index-pred b ws v,
          bit_at-word ws i k,
          testbit-not 64 k (get_or ws i 0),
        ))
  ]

  find_first_clear_loop-IsFirst :
      (left i hi : ℕ)
      → i + left ≡ b.total_words
      → hi ≡ (i + left) * 64
      → (r : Option ℕ) × (find_first_clear_loop left i b ws ≡ ok r)
        × IsFirst (free b ws) (i * 64) hi r
  unfolding find_first_clear_loop
  find_first_clear_loop-IsFirst zero i hi h e = (none, refl, λ j lo lt. absurd (omega arith))
  find_first_clear_loop-IsFirst (suc k) i hi h e = elim (Bool-cases (inverted b ws i == 0)) [
    | inl full ↦
        let (r, ran, first) =
          find_first_clear_loop-IsFirst k (i + 1) hi (omega arith) (omega arith) in
        (
          r,
          ground (arith, v.sized, get_elem?-eq-get_or ws i 0, ran),
          IsFirst-later (free b ws) i (inverted b ws i) (inverted-lt i)
              (λ k lt. free-inverted i k (omega arith) lt) hi r (ground arith) first,
        )
    | inr found ↦ (
      some (i * 64 + ctz 64 (inverted b ws i)),
      ground (arith, v.sized, get_elem?-eq-get_or ws i 0),
      IsFirst-here (free b ws) i (inverted b ws i) (inverted-lt i)
          (λ k lt. free-inverted i k (omega arith) lt) hi (omega arith) (ground arith),
    )
  ]

  trim_clear :
      (r : Option ℕ)
      → IsFirst (free b ws) 0 (b.total_words * 64) r
      → IsFirst (λ j. not (bit_at ws j)) 0 b.total_bits r
  trim_clear none first = λ j lo lt. ground (arith, first j lo, v.counted)
  trim_clear (some k) first = (
    first.0,
    ground (arith, first),
    ground (arith, first),
    λ j lo lt. ground (arith, first.3 j lo lt, first),
  )

  pub find_first_clear-IsFirst :
      (out : ℕ)
      → out ≢ 0
      → (r : Option ℕ) × (Bitmap.find_first_clear (some b) out ≡ ok r)
        × IsFirst (λ j. not (bit_at ws j)) 0 b.total_bits r
  unfolding Bitmap.find_first_clear
  find_first_clear-IsFirst out given =
      let (r, ran, first) =
        find_first_clear_loop-IsFirst b.total_words 0 (b.total_words * 64) (omega arith)
          (omega arith) in
      (r, ground (arith, v.stored, ran, given), trim_clear r first)

  -- On a well-formed bitmap, with a place for the result, gt_bitmap_find_first_set and
  -- gt_bitmap_find_first_clear return the lowest index below total_bits whose bit is set, or
  -- clear, and false exactly when there is none.
  pub searches-IsFirst :
      (out : ℕ)
      → out ≢ 0
      → ((r : Option ℕ) × (Bitmap.find_first_set (some b) out ≡ ok r)
          × IsFirst (bit_at ws) 0 b.total_bits r)
        × ((r : Option ℕ) × (Bitmap.find_first_clear (some b) out ≡ ok r)
            × IsFirst (λ j. not (bit_at ws j)) 0 b.total_bits r)
  searches-IsFirst out given =
      (find_first_set-IsFirst b ws v out given, find_first_clear-IsFirst out given)
