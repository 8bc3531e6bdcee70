-- ===== src/Bitmap.antt =====
-- internal/gt_internal/ds/bitmap/bitmap.h: a bitmap over caller-provided storage. A pointer to a
-- bitmap is an optional bitmap, `none` being NULL; the storage that `words` points to is kept in the
-- record, since nothing else reads it. `out_bit_index` is the address that a result is returned
-- through; the result itself is the value of the call, `none` where the C function returns false.
pub mod Words
pub mod Valid
pub mod Update
pub mod Bulk
pub mod Loops
pub mod Search
use green_threads.Base.{
  ℕ, zero, suc, ◌+◌, ◌-◌, ◌*◌, ◌/◌, ◌%◌, ◌^◌, bit_and, bit_or, Bool, true, false, not, ◌&&◌, ◌==◌,
  ltb, if◌then◌else◌, Option, none, some, List, [], ◌∷◌, get_elem?,
}
use green_threads.Base
use green_threads.Outcome.{Outcome, ok, fault, ◌>>=◌, ◌>>◌, check}
use green_threads.Word.{bits_per_word, word_mod, all_ones, bit_not, ctz}
use Prim.Native.String.{String}

pub record Bitmap : Type 0 where
  pub words : Option (List ℕ)
  pub total_bits : ℕ
  pub total_words : ℕ

-- Memory accesses through a pointer into the storage.
abbrev pub get_word : List ℕ → ℕ → Outcome ℕ
get_word ws i = elim (get_elem? ws i) [ none ↦ fault | some w ↦ ok w ]

abbrev pub set_word : List ℕ → ℕ → ℕ → Outcome (List ℕ)
set_word ws i v = elim (get_elem? ws i) [ none ↦ fault | some w ↦ ok (Base.set ws i v) ]

-- `gt_mem_clear` and `gt_mem_set` over the first `n` words, with every word becoming `v`.
pub fill : ℕ → ℕ → List ℕ → Outcome (List ℕ)
fill zero v ws = ok ws
fill (suc n) v [] = fault
fill (suc n) v (w ∷ ws) = do rest ← fill n v ws; ok (v ∷ rest)

-- Internal helpers.
abbrev pub word_index : ℕ → ℕ
word_index bit_index = bit_index / bits_per_word

abbrev pub bit_offset : ℕ → ℕ
bit_offset bit_index = bit_index % bits_per_word

pub bit_mask : ℕ → ℕ
bit_mask offset = 2 ^ offset % word_mod

pub total_words_for : ℕ → ℕ
total_words_for total_bits = (total_bits + bits_per_word - 1) % word_mod / bits_per_word

pub last_word_mask : ℕ → ℕ
last_word_mask total_bits =
    let offset = bit_offset total_bits in
    if not (offset == 0) then bit_mask offset - 1 else all_ones

-- Validation helpers.
abbrev pub validate_bitmap : Option Bitmap → Outcome Bitmap
validate_bitmap none = do check false "b != NULL"; fault
validate_bitmap (some b) = ok b

abbrev pub validate_storage : Option (List ℕ) → Outcome (List ℕ)
validate_storage none = do check false "words != NULL"; fault
validate_storage (some ws) = ok ws

abbrev pub validate_bit_index : Bitmap → ℕ → Outcome (Unit {0})
validate_bit_index b bit_index = check (ltb bit_index b.total_bits) "bit_index < b->total_bits"

abbrev pub validate_total_bits : ℕ → Outcome (Unit {0})
validate_total_bits total_bits = check (ltb 0 total_bits) "total_bits > 0UL"

abbrev pub validate_out_bit_index : ℕ → Outcome (Unit {0})
validate_out_bit_index out = check (not (out == 0)) "out_bit_index != NULL"

pub init : Option Bitmap → Option (List ℕ) → ℕ → Outcome Bitmap
init b words total_bits = do
  b ← validate_bitmap b
  ws ← validate_storage words
  validate_total_bits total_bits
  let total_words = total_words_for total_bits
  ws' ← fill total_words 0 ws
  ok (record { words = some ws'; total_bits = total_bits; total_words = total_words })

-- The loop of `gt_bitmap_is_empty` at index `i`, with `left` rounds to go.
pub is_empty_loop : (left i : ℕ) → List ℕ → Outcome Bool
is_empty_loop zero i ws = ok true
is_empty_loop (suc k) i ws = do
  w ← get_word ws i
  if not (w == 0) then ok false else is_empty_loop k (i + 1) ws

pub is_empty : Option Bitmap → Outcome Bool
is_empty b = do
  b ← validate_bitmap b
  ws ← validate_storage b.words
  is_empty_loop b.total_words 0 ws

-- The loop of `gt_bitmap_is_full` over the words that are wholly used.
pub is_full_loop : (left i : ℕ) → List ℕ → Outcome Bool
is_full_loop zero i ws = ok true
is_full_loop (suc k) i ws = do
  w ← get_word ws i
  if not (w == all_ones) then ok false else is_full_loop k (i + 1) ws

pub is_full_partial : Bitmap → ℕ → List ℕ → Outcome Bool
is_full_partial b full_total_words ws = do
  w ← get_word ws full_total_words
  ok (w == last_word_mask b.total_bits)

pub is_full : Option Bitmap → Outcome Bool
is_full b = do
  b ← validate_bitmap b
  ws ← validate_storage b.words
  let full_total_words = b.total_bits / bits_per_word
  let has_partial_word = ltb full_total_words b.total_words
  full ← is_full_loop full_total_words 0 ws
  if not full
      then ok false
      else if has_partial_word
      then is_full_partial b full_total_words ws
      else ok true

pub test : Option Bitmap → ℕ → Outcome Bool
test b bit_index = do
  b ← validate_bitmap b
  ws ← validate_storage b.words
  validate_bit_index b bit_index
  w ← get_word ws (word_index bit_index)
  ok (not (bit_and w (bit_mask (bit_offset bit_index)) == 0))

pub set : Option Bitmap → ℕ → Outcome Bitmap
set b bit_index = do
  b ← validate_bitmap b
  ws ← validate_storage b.words
  validate_bit_index b bit_index
  w ← get_word ws (word_index bit_index)
  ws' ← set_word ws (word_index bit_index) (bit_or w (bit_mask (bit_offset bit_index)))
  ok (record b { words = some ws' })

pub clear : Option Bitmap → ℕ → Outcome Bitmap
clear b bit_index = do
  b ← validate_bitmap b
  ws ← validate_storage b.words
  validate_bit_index b bit_index
  w ← get_word ws (word_index bit_index)
  ws' ← set_word ws (word_index bit_index) (bit_and w (bit_not (bit_mask (bit_offset bit_index))))
  ok (record b { words = some ws' })

-- `total_words - 1`, in a `size_t`.
abbrev pub last_index : Bitmap → ℕ
last_index b = (b.total_words + word_mod - 1) % word_mod

pub set_all : Option Bitmap → Outcome Bitmap
set_all b = do
  b ← validate_bitmap b
  ws ← validate_storage b.words
  ws' ← fill b.total_words all_ones ws
  w ← get_word ws' (last_index b)
  ws'' ← set_word ws' (last_index b) (bit_and w (last_word_mask b.total_bits))
  ok (record b { words = some ws'' })

pub clear_all : Option Bitmap → Outcome Bitmap
clear_all b = do
  b ← validate_bitmap b
  ws ← validate_storage b.words
  ws' ← fill b.total_words 0 ws
  ok (record b { words = some ws' })

pub find_first_set_loop : (left i : ℕ) → List ℕ → Outcome (Option ℕ)
find_first_set_loop zero i ws = ok none
find_first_set_loop (suc k) i ws = do
  w ← get_word ws i
  if not (w == 0)
      then ok (some (i * bits_per_word + ctz bits_per_word w))
      else find_first_set_loop k (i + 1) ws

pub find_first_set : Option Bitmap → ℕ → Outcome (Option ℕ)
find_first_set b out_bit_index = do
  b ← validate_bitmap b
  ws ← validate_storage b.words
  validate_out_bit_index out_bit_index
  find_first_set_loop b.total_words 0 ws

pub find_first_clear_loop : (left i : ℕ) → Bitmap → List ℕ → Outcome (Option ℕ)
find_first_clear_loop zero i b ws = ok none
find_first_clear_loop (suc k) i b ws = do
  w ← get_word ws i
  let inverted_word =
      if i == last_index b then bit_and (bit_not w) (last_word_mask b.total_bits) else bit_not w
  if not (inverted_word == 0)
      then ok (some (i * bits_per_word + ctz bits_per_word inverted_word))
      else find_first_clear_loop k (i + 1) b ws

pub find_first_clear : Option Bitmap → ℕ → Outcome (Option ℕ)
find_first_clear b out_bit_index = do
  b ← validate_bitmap b
  ws ← validate_storage b.words
  validate_out_bit_index out_bit_index
  find_first_clear_loop b.total_words 0 b ws
