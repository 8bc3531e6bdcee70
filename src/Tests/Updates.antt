-- ===== src/Tests/Updates.antt =====
-- The updates at a bitmap of 70 bits.
use green_threads.Base.{◌≡◌, arith, ◌==◌, not, ◌&&◌, ◌||◌, some}
use green_threads.Outcome.{ok}
use green_threads.Bitmap
use green_threads.Bitmap.{Bitmap, bit_mask}
use green_threads.Bitmap.Words.{bit_at}
use green_threads.Bitmap.Valid.{Holds}
use green_threads.Bitmap.Update.{update-Holds}
use green_threads.Tests.Data.{bits70, words, bits70-IsValid}

update-Holds_example :
    ((b' : Bitmap) × (Bitmap.set (some bits70) 65 ≡ ok b')
      × Holds bits70.total_bits (λ j. (65 == j) || bit_at words j) b')
    × ((b' : Bitmap) × (Bitmap.clear (some bits70) 65 ≡ ok b')
        × Holds bits70.total_bits (λ j. not (65 == j) && bit_at words j) b')
update-Holds_example = update-Holds bits70 words bits70-IsValid 65 (omega arith)
