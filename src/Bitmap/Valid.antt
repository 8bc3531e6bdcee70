-- ===== src/Bitmap/Valid.antt =====
-- A well-formed bitmap, and the set of bits that it stands for.
use green_threads.Base.{
  ℕ, ◌+◌, ◌-◌, arith, ◌*◌, ◌/◌, ◌^◌, ◌≤◌, ◌<◌, ◌≡◌, Bool, false, some, List, length, get_or,
}
use green_threads.Bitmap.{Bitmap, last_index}
use green_threads.Bitmap.Words.{bit_at}

-- The bitmap `b` is well formed over the storage `ws`: its words lie in the storage, each is a
-- machine word, and the bits behind the last one in use are clear.
pub record IsValid (b : Bitmap) (ws : List ℕ) : Type 0 where
  pub stored : b.words ≡ some ws
  pub positive : 0 < b.total_bits
  pub fits : b.total_bits + 63 < 2 ^ 64
  pub counted : b.total_words ≡ (b.total_bits + 63) / 64
  pub sized : b.total_words ≤ length ws
  pub are_words : (i : ℕ) → get_or ws i 0 < 2 ^ 64
  pub trailing : (j : ℕ) → b.total_bits ≤ j → j < b.total_words * 64 → bit_at ws j ≡ false

-- A call returned a bitmap of the same size, well formed, with the bits `after`.
pub record Holds (total : ℕ) (after : ℕ → Bool) (b : Bitmap) : Type 0 where
  pub storage : List ℕ
  pub valid : IsValid b storage
  pub same_size : b.total_bits ≡ total
  pub bits : (j : ℕ) → j < total → bit_at storage j ≡ after j

pub last_index-pred : (b : Bitmap) (ws : List ℕ) → IsValid b ws → last_index b ≡ b.total_words - 1
last_index-pred b ws v = omega (arith, v.counted, v.positive, v.fits)
