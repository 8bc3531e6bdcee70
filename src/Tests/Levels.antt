-- ===== src/Tests/Levels.antt =====
-- The tests for empty and full at a bitmap of 70 bits.
use green_threads.Base.{ℕ, ◌<◌, ◌≡◌, Bool, ◌↔◌, true, false, some}
use green_threads.Outcome.{ok}
use green_threads.Bitmap
use green_threads.Bitmap.{Bitmap, last_word_mask, is_empty_loop, is_full_loop, find_first_set_loop}
use green_threads.Bitmap.Words.{bit_at}
use green_threads.Bitmap.Loops.{levels_iff}
use green_threads.Tests.Data.{bits70, words, bits70-IsValid}

levels_iff_example :
    ((r : Bool) × (Bitmap.is_empty (some bits70) ≡ ok r)
      × ((r ≡ true) ↔ ((j : ℕ) → j < bits70.total_bits → bit_at words j ≡ false)))
    × ((r : Bool) × (Bitmap.is_full (some bits70) ≡ ok r)
        × ((r ≡ true) ↔ ((j : ℕ) → j < bits70.total_bits → bit_at words j ≡ true)))
levels_iff_example = levels_iff bits70 words bits70-IsValid
