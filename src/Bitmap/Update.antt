-- ===== src/Bitmap/Update.antt =====
-- About bitmap.h: testing, setting and clearing one bit.
use green_threads.Base.{
  ℕ, ◌/◌, ◌%◌, ◌^◌, ◌≤◌, ◌<◌, bit_and, bit_or, ◌≡◌, refl, arith, ◌==◌, false, not, ◌&&◌, ◌||◌, ◌∙◌,
  List, get_or, set, length, Bool-cases, inl, inr, some, if◌then◌else◌, get_elem?-eq-get_or,
  get_or-set_self, get_or-set_ne, length-set,
}
use green_threads.Outcome.{ok}
use green_threads.Word.{testbit, bit_not}
use green_threads.Word.Bits.{
  testbit-zero, testbit-not, testbit-and, testbit-or, bit_and-lt, bit_or-lt, testbit_ext,
}
use green_threads.Bitmap
use green_threads.Bitmap.{Bitmap, bit_mask}
use green_threads.Bitmap.Words.{bit_at, testbit-bit_mask, bit_mask-lt}
use green_threads.Bitmap.Valid.{IsValid, Holds}

-- Writing the word of bit `i`: its bits become those of `w`, every other stays.
bit_at-set :
    (ws : List ℕ) (i j w : ℕ)
    → i / 64 < length ws
    → bit_at (set ws (i / 64) w) j ≡ (if i / 64 == j / 64 then testbit w (j % 64) else bit_at ws j)
bit_at-set ws i j w h =
    ground (arith, get_or-set_self ws (i / 64) w 0, get_or-set_ne ws (i / 64) (j / 64) w 0)

set_bit-bit_at :
    (ws : List ℕ) (i j : ℕ)
    → i / 64 < length ws
    → bit_at (set ws (i / 64) (bit_or (get_or ws (i / 64) 0) (bit_mask (i % 64)))) j
      ≡ ((i == j) || bit_at ws j)
set_bit-bit_at ws i j h = ground (
  arith,
  bit_at-set ws i j (bit_or (get_or ws (i / 64) 0) (bit_mask (i % 64))),
  testbit-or (j % 64) (get_or ws (i / 64) 0) (bit_mask (i % 64)),
  testbit-bit_mask (i % 64) (j % 64),
)

clear_bit-bit_at :
    (ws : List ℕ) (i j : ℕ)
    → i / 64 < length ws
    → bit_at (set ws (i / 64) (bit_and (get_or ws (i / 64) 0) (bit_not (bit_mask (i % 64))))) j
      ≡ (not (i == j) && bit_at ws j)
clear_bit-bit_at ws i j h = ground (
  arith,
  bit_at-set ws i j (bit_and (get_or ws (i / 64) 0) (bit_not (bit_mask (i % 64)))),
  testbit-and (j % 64) (get_or ws (i / 64) 0) (bit_not (bit_mask (i % 64))),
  testbit-bit_mask (i % 64) (j % 64),
  testbit-not 64 (j % 64) (bit_mask (i % 64)),
  bit_mask-lt (i % 64),
)

-- A word keeps a bit of a mask exactly when it has that bit.
mask_test : (w k : ℕ) → w < 2 ^ 64 → k < 64 → not (bit_and w (bit_mask k) == 0) ≡ testbit w k
mask_test w k fits h = elim (Bool-cases (testbit w k)) [
  | inl on ↦
      ground (arith, testbit-and k w (bit_mask k), testbit-bit_mask k k, on, testbit-zero k, apart)
  | inr off ↦
      let none_left : bit_and w (bit_mask k) ≡ 0 =
        testbit_ext 64 (bit_and w (bit_mask k)) 0 (bit_and-lt 64 w (bit_mask k) fits) (omega arith)
          (λ j lt.
            ground
              (arith, testbit-and j w (bit_mask k), testbit-bit_mask k j, testbit-zero j, off)) in
      ground (arith, none_left, off)
]
  where
    apart : bit_and w (bit_mask k) ≡ 0 → testbit (bit_and w (bit_mask k)) k ≡ false
    apart e = rw e (testbit-zero k)

pub set-words :
    (ws : List ℕ) (i w : ℕ)
    → i < length ws
    → w < 2 ^ 64
    → ((k : ℕ) → get_or ws k 0 < 2 ^ 64)
    → (k : ℕ) → get_or (set ws i w) k 0 < 2 ^ 64
set-words ws i w h fits all k =
    ground (arith, get_or-set_self ws i w 0, get_or-set_ne ws i k w 0, all k)

module _ (b : Bitmap) (ws : List ℕ) (v : IsValid b ws) (i : ℕ) (in_range : i < b.total_bits) where
  word_in_range : i / 64 < length ws
  word_in_range = omega (arith, v.counted, v.sized)

  -- On a well-formed bitmap gt_bitmap_test of an index in range returns that bit of the
  -- storage.
  pub test-bit_at : Bitmap.test (some b) i ≡ ok (bit_at ws i)
  unfolding Bitmap.test
  test-bit_at = ground (
    arith,
    v.stored,
    get_elem?-eq-get_or ws (i / 64) 0,
    word_in_range,
    mask_test (get_or ws (i / 64) 0) (i % 64),
    v.are_words (i / 64),
  )

  IsValid-set :
      (w : ℕ)
      → w < 2 ^ 64
      → ((j : ℕ) → b.total_bits ≤ j → bit_at (set ws (i / 64) w) j ≡ bit_at ws j)
      → IsValid (record b { words = some (set ws (i / 64) w) }) (set ws (i / 64) w)
  IsValid-set w fits same = record {
    stored = refl;
    positive = v.positive;
    fits = v.fits;
    counted = v.counted;
    sized = omega (arith, v.sized, length-set {0} ws (i / 64) w);
    are_words = set-words ws (i / 64) w word_in_range fits v.are_words;
    trailing = λ j lo hi. same j lo ∙ v.trailing j lo hi;
  }

  pub set-Holds :
      (b' : Bitmap) × (Bitmap.set (some b) i ≡ ok b')
      × Holds b.total_bits (λ j. (i == j) || bit_at ws j) b'
  unfolding Bitmap.set
  set-Holds = (
    record b { words = some (set ws (i / 64) (bit_or (get_or ws (i / 64) 0) (bit_mask (i % 64)))) },
    ground (arith, v.stored, get_elem?-eq-get_or ws (i / 64) 0, word_in_range),
    record {
      storage = set ws (i / 64) (bit_or (get_or ws (i / 64) 0) (bit_mask (i % 64)));
      valid =
          IsValid-set (bit_or (get_or ws (i / 64) 0) (bit_mask (i % 64)))
            (bit_or-lt 64 (get_or ws (i / 64) 0) (bit_mask (i % 64)) (v.are_words (i / 64))
              (bit_mask-lt (i % 64)))
            (λ j lo. ground (arith, set_bit-bit_at ws i j word_in_range));
      same_size = refl;
      bits = λ j lt. set_bit-bit_at ws i j word_in_range;
    },
  )

  pub clear-Holds :
      (b' : Bitmap) × (Bitmap.clear (some b) i ≡ ok b')
      × Holds b.total_bits (λ j. not (i == j) && bit_at ws j) b'
  unfolding Bitmap.clear
  clear-Holds = (
    record b {
      words = some (set ws (i / 64) (bit_and (get_or ws (i / 64) 0) (bit_not (bit_mask (i % 64)))));
    },
    ground (arith, v.stored, get_elem?-eq-get_or ws (i / 64) 0, word_in_range),
    record {
      storage = set ws (i / 64) (bit_and (get_or ws (i / 64) 0) (bit_not (bit_mask (i % 64))));
      valid =
          IsValid-set (bit_and (get_or ws (i / 64) 0) (bit_not (bit_mask (i % 64))))
            (bit_and-lt 64 (get_or ws (i / 64) 0) (bit_not (bit_mask (i % 64)))
              (v.are_words (i / 64)))
            (λ j lo. ground (arith, clear_bit-bit_at ws i j word_in_range));
      same_size = refl;
      bits = λ j lt. clear_bit-bit_at ws i j word_in_range;
    },
  )

  -- gt_bitmap_set and gt_bitmap_clear of an index in range of a well-formed bitmap set or
  -- clear that bit, leave every other as it is and leave the bitmap well formed.
  pub update-Holds :
      ((b' : Bitmap) × (Bitmap.set (some b) i ≡ ok b')
        × Holds b.total_bits (λ j. (i == j) || bit_at ws j) b')
      × ((b' : Bitmap) × (Bitmap.clear (some b) i ≡ ok b')
          × Holds b.total_bits (λ j. not (i == j) && bit_at ws j) b')
  update-Holds = (set-Holds, clear-Holds)
