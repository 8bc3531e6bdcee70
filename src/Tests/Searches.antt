-- ===== src/Tests/Searches.antt =====
-- The searches at a bitmap of 70 bits.
use green_threads.Base.{ℕ, ◌≡◌, arith, not, Option, some}
use green_threads.Outcome.{ok}
use green_threads.Bitmap
use green_threads.Bitmap.{
  Bitmap, last_word_mask, last_index, find_first_set_loop, find_first_clear_loop,
}
use green_threads.Bitmap.Words.{bit_at}
use green_threads.Bitmap.Search.{IsFirst, searches-IsFirst}
use green_threads.Tests.Data.{bits70, words, bits70-IsValid}

searches-IsFirst_example :
    ((r : Option ℕ) × (Bitmap.find_first_set (some bits70) 8 ≡ ok r)
      × IsFirst (bit_at words) 0 bits70.total_bits r)
    × ((r : Option ℕ) × (Bitmap.find_first_clear (some bits70) 8 ≡ ok r)
        × IsFirst (λ j. not (bit_at words j)) 0 bits70.total_bits r)
searches-IsFirst_example = searches-IsFirst bits70 words bits70-IsValid 8 (ground arith)
