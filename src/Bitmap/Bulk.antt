-- ===== src/Bitmap/Bulk.antt =====
-- About bitmap.h: initialising a bitmap, and setting and clearing all of it.
use green_threads.Base.{
  ℕ, zero, suc, ◌+◌, ◌-◌, ◌*◌, ◌/◌, ◌%◌, ◌^◌, ◌≤◌, ◌<◌, bit_and, ◌≡◌, refl, arith, ltb, ◌==◌, ap,
  true, false, ◌∙◌, List, [], ◌∷◌, get_or, set, length, Bool-cases, inl, inr, some, if◌then◌else◌,
  get_elem?-eq-get_or, get_or-set_self, get_or-set_ne, length-set,
}
use green_threads.Outcome.{ok}
use green_threads.Word.{testbit, all_ones}
use green_threads.Word.Bits.{testbit-zero, testbit-and, bit_and-lt, testbit-mask}
use green_threads.Bitmap
use green_threads.Bitmap.{Bitmap, fill, last_word_mask, total_words_for, last_index}
use green_threads.Bitmap.Words.{bit_at, testbit-last_word_mask, total_words_for_lem}
use green_threads.Bitmap.Update.{set-words}
use green_threads.Bitmap.Valid.{IsValid, Holds, last_index-pred}

-- The storage after a fill.
filled : ℕ → ℕ → List ℕ → List ℕ
filled zero v ws = ws
filled (suc n) v [] = []
filled (suc n) v (w ∷ ws) = v ∷ filled n v ws

fill-filled : (n v : ℕ) (ws : List ℕ) → n ≤ length ws → fill n v ws ≡ ok (filled n v ws)
unfolding fill filled
fill-filled zero v ws h = refl
fill-filled (suc n) v [] h = absurd (omega arith)
fill-filled (suc n) v (w ∷ ws) h = ground (arith, fill-filled n v ws)

length-filled : (n v : ℕ) (ws : List ℕ) → length (filled n v ws) ≡ length ws
unfolding filled
length-filled zero v ws = refl
length-filled (suc n) v [] = refl
length-filled (suc n) v (w ∷ ws) = ap suc (length-filled n v ws)

get_or-filled :
    (n v : ℕ) (ws : List ℕ) (i : ℕ)
    → n ≤ length ws
    → get_or (filled n v ws) i 0 ≡ (if ltb i n then v else get_or ws i 0)
unfolding filled
get_or-filled zero v ws i h = ground arith
get_or-filled (suc n) v [] i h = absurd (omega arith)
get_or-filled (suc n) v (w ∷ ws) zero h = ground arith
get_or-filled (suc n) v (w ∷ ws) (suc i) h = ground (arith, get_or-filled n v ws i)

filled-words :
    (n v : ℕ) (ws : List ℕ)
    → n ≤ length ws
    → v < 2 ^ 64
    → ((k : ℕ) → get_or ws k 0 < 2 ^ 64)
    → (k : ℕ) → get_or (filled n v ws) k 0 < 2 ^ 64
filled-words n v ws h fits all k = ground (arith, get_or-filled n v ws k, all k)

filled-clear :
    (n : ℕ) (ws : List ℕ) (j : ℕ) → n ≤ length ws → j < n * 64 → bit_at (filled n 0 ws) j ≡ false
filled-clear n ws j h lt =
    ap (λ w. testbit w (j % 64)) (get_or-filled n 0 ws (j / 64) h ∙ ground arith)
    ∙ testbit-zero (j % 64)

-- gt_bitmap_init over enough storage for a positive number of bits, at most 2 ^ 64 - 64, gives
-- a well-formed bitmap of that size with every bit clear.
pub init-Holds :
    (old : Bitmap) (ws : List ℕ) (total : ℕ)
    → 0 < total
    → total + 63 < 2 ^ 64
    → (total + 63) / 64 ≤ length ws
    → ((k : ℕ) → get_or ws k 0 < 2 ^ 64)
    → (b : Bitmap) × (Bitmap.init (some old) (some ws) total ≡ ok b) × Holds total (λ _. false) b
unfolding Bitmap.init
init-Holds old ws total pos fits enough all =
    let n = (total + 63) / 64 in
    (
      record { words = some (filled n 0 ws); total_bits = total; total_words = n },
      ground (arith, total_words_for_lem total, fill-filled n 0 ws),
      record {
        storage = filled n 0 ws;
        valid = record {
          stored = refl;
          positive = pos;
          fits = fits;
          counted = refl;
          sized = omega (arith, length-filled n 0 ws);
          are_words = filled-words n 0 ws enough (omega arith) all;
          trailing = λ j lo hi. filled-clear n ws j enough hi;
        };
        same_size = refl;
        bits = λ j lt. filled-clear n ws j enough (omega arith);
      },
    )

module _ (b : Bitmap) (ws : List ℕ) (v : IsValid b ws) where
  -- gt_bitmap_clear_all of a well-formed bitmap leaves a well-formed bitmap with every bit
  -- clear.
  pub clear_all-Holds :
      (b' : Bitmap) × (Bitmap.clear_all (some b) ≡ ok b') × Holds b.total_bits (λ _. false) b'
  unfolding Bitmap.clear_all
  clear_all-Holds = (
    record b { words = some (filled b.total_words 0 ws) },
    ground (arith, v.stored, fill-filled b.total_words 0 ws, v.sized),
    record {
      storage = filled b.total_words 0 ws;
      valid = record {
        stored = refl;
        positive = v.positive;
        fits = v.fits;
        counted = v.counted;
        sized = omega (arith, v.sized, length-filled b.total_words 0 ws);
        are_words = filled-words b.total_words 0 ws v.sized (omega arith) v.are_words;
        trailing = λ j lo hi. filled-clear b.total_words ws j v.sized hi;
      };
      same_size = refl;
      bits = λ j lt. filled-clear b.total_words ws j v.sized (omega (arith, v.counted));
    },
  )

  all_set : List ℕ
  all_set =
      set (filled b.total_words all_ones ws) (b.total_words - 1)
        (bit_and all_ones (last_word_mask b.total_bits))

  length-all_set : length all_set ≡ length ws
  unfolding all_set
  length-all_set =
      length-set (filled b.total_words all_ones ws) (b.total_words - 1)
        (bit_and all_ones (last_word_mask b.total_bits))
      ∙ length-filled b.total_words all_ones ws

  all_set-word :
      (i : ℕ)
      → i < b.total_words
      → get_or all_set i 0 ≡ (
          if i == b.total_words - 1
          then bit_and all_ones (last_word_mask b.total_bits)
          else all_ones)
  unfolding all_set
  all_set-word i h = ground (
    arith,
    v.sized,
    length-filled b.total_words all_ones ws,
    get_or-set_self (filled b.total_words all_ones ws) (b.total_words - 1)
        (bit_and all_ones (last_word_mask b.total_bits)) 0,
    get_or-set_ne (filled b.total_words all_ones ws) (b.total_words - 1) i
        (bit_and all_ones (last_word_mask b.total_bits)) 0,
    get_or-filled b.total_words all_ones ws i,
  )

  all_set-bit : (j : ℕ) → j < b.total_words * 64 → bit_at all_set j ≡ ltb j b.total_bits
  all_set-bit j h = elim (Bool-cases (j / 64 == b.total_words - 1)) [
    | inl at_end ↦
        let e : get_or all_set (j / 64) 0 ≡ bit_and all_ones (last_word_mask b.total_bits) =
          ground (arith, all_set-word (j / 64)) in
        ap (λ w. testbit w (j % 64)) e
        ∙ ground (
          arith,
          testbit-and (j % 64) all_ones (last_word_mask b.total_bits),
          testbit-mask 64 (j % 64),
          testbit-last_word_mask b.total_bits (j % 64),
          v.counted,
        )
    | inr before ↦
        let e : get_or all_set (j / 64) 0 ≡ all_ones = ground (arith, all_set-word (j / 64)) in
        ap (λ w. testbit w (j % 64)) e ∙ ground (arith, testbit-mask 64 (j % 64), v.counted)
  ]

  all_set-words : (k : ℕ) → get_or all_set k 0 < 2 ^ 64
  unfolding all_set
  all_set-words =
      set-words (filled b.total_words all_ones ws) (b.total_words - 1)
        (bit_and all_ones (last_word_mask b.total_bits))
        (omega (arith, length-filled b.total_words all_ones ws, v.counted, v.positive, v.sized))
        (bit_and-lt 64 all_ones (last_word_mask b.total_bits) (omega arith))
        (filled-words b.total_words all_ones ws v.sized (omega arith) v.are_words)

  -- gt_bitmap_set_all of a well-formed bitmap sets every bit below total_bits and leaves a
  -- well-formed bitmap, whose bits behind the last one in use are clear.
  pub set_all-Holds :
      (b' : Bitmap) × (Bitmap.set_all (some b) ≡ ok b') × Holds b.total_bits (λ _. true) b'
  unfolding Bitmap.set_all all_set
  set_all-Holds = (
    record b { words = some all_set },
    ground (
      arith,
      v.stored,
      v.sized,
      v.counted,
      v.positive,
      fill-filled b.total_words all_ones ws,
      last_index-pred b ws v,
      get_elem?-eq-get_or (filled b.total_words all_ones ws) (b.total_words - 1) 0,
      length-filled b.total_words all_ones ws,
      get_or-filled b.total_words all_ones ws (b.total_words - 1),
    ),
    record {
      storage = all_set;
      valid = record {
        stored = refl;
        positive = v.positive;
        fits = v.fits;
        counted = v.counted;
        sized = omega (arith, v.sized, length-all_set);
        are_words = all_set-words;
        trailing = λ j lo hi. all_set-bit j hi ∙ ground arith;
      };
      same_size = refl;
      bits = λ j lt. all_set-bit j (omega (arith, v.counted)) ∙ ground arith;
    },
  )
