-- ===== src/Bitmap/Words.antt =====
-- About bitmap.h: the bits of the storage, and what the masks select.
use native.Mathlib.Nat.{pow-le-pow_right}
use green_threads.Base.{
  ℕ, ◌+◌, ◌-◌, ◌/◌, ◌%◌, ◌^◌, ◌<◌, ◌≡◌, arith, ltb, ◌==◌, Bool, true, false, ◌||◌, ◌∙◌, ap, List,
  get_or, Bool-cases, inl, inr,
}
use green_threads.Word.{testbit}
use green_threads.Word.Bits.{testbit-mask, testbit-pow}
use green_threads.Bitmap.{bit_mask, last_word_mask, total_words_for}

-- Bit `j` of the storage.
abbrev pub bit_at : List ℕ → ℕ → Bool
bit_at ws j = testbit (get_or ws (j / 64) 0) (j % 64)

bit_mask-pow : (k : ℕ) → k < 64 → bit_mask k ≡ 2 ^ k
unfolding bit_mask
bit_mask-pow k h =
    omega (arith, pow-le-pow_right {n = 2} (omega arith) {i = k} {j = 63} (omega arith))

pub testbit-bit_mask : (k j : ℕ) → k < 64 → testbit (bit_mask k) j ≡ (k == j)
testbit-bit_mask k j h = ap (λ m. testbit m j) (bit_mask-pow k h) ∙ testbit-pow k j

pub bit_mask-lt : (k : ℕ) → bit_mask k < 2 ^ 64
unfolding bit_mask
bit_mask-lt k = omega arith

last_word_mask-whole : (t : ℕ) → (t % 64 == 0) ≡ true → last_word_mask t ≡ 2 ^ 64 - 1
unfolding last_word_mask
last_word_mask-whole t e = ground arith

last_word_mask-part : (t : ℕ) → (t % 64 == 0) ≡ false → last_word_mask t ≡ 2 ^ (t % 64) - 1
unfolding last_word_mask
last_word_mask-part t e = ground (arith, bit_mask-pow (t % 64))

-- The mask keeps the bits of the last word that stand for a bit of the map.
pub testbit-last_word_mask :
    (t j : ℕ) → j < 64 → testbit (last_word_mask t) j ≡ ((t % 64 == 0) || ltb j (t % 64))
testbit-last_word_mask t j h = elim (Bool-cases (t % 64 == 0)) [
  | inl whole ↦
      rw whole
        (ap (λ m. testbit m j) (last_word_mask-whole t whole) ∙ testbit-mask 64 j ∙ ground arith)
  | inr part ↦
      rw part (ap (λ m. testbit m j) (last_word_mask-part t part) ∙ testbit-mask (t % 64) j)
]

pub last_word_mask-lt : (t : ℕ) → last_word_mask t < 2 ^ 64
unfolding last_word_mask bit_mask
last_word_mask-lt t = ground arith

pub total_words_for_lem : (t : ℕ) → t + 63 < 2 ^ 64 → total_words_for t ≡ (t + 63) / 64
unfolding total_words_for
total_words_for_lem t h = omega arith
