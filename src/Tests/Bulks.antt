-- ===== src/Tests/Bulks.antt =====
-- The bulk operations at a bitmap of 70 bits.
use green_threads.Base.{◌≡◌, arith, true, false, some}
use green_threads.Outcome.{ok}
use green_threads.Bitmap
use green_threads.Bitmap.{Bitmap, fill, last_word_mask, total_words_for, last_index}
use green_threads.Bitmap.Valid.{Holds}
use green_threads.Bitmap.Bulk.{init-Holds, set_all-Holds}
use green_threads.Tests.Data.{bits70, words, bits70-IsValid}

init-Holds_example :
    (b : Bitmap) × (Bitmap.init (some bits70) (some words) 70 ≡ ok b) × Holds 70 (λ _. false) b
init-Holds_example =
    init-Holds bits70 words 70 (omega arith) (omega arith) (omega arith) bits70-IsValid.are_words

set_all-Holds_example :
    (b' : Bitmap) × (Bitmap.set_all (some bits70) ≡ ok b') × Holds bits70.total_bits (λ _. true) b'
set_all-Holds_example = set_all-Holds bits70 words bits70-IsValid
