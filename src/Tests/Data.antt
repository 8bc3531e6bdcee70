-- ===== src/Tests/Data.antt =====
-- Concrete lists, bitmaps, identifier pools and runtimes.
use green_threads.Base.{
  ℕ, ◌/◌, ◌%◌, ◌^◌, ◌<◌, ◌≡◌, refl, true, Bool, List, [], ◌∷◌, arith, some, get_or,
}
use green_threads.Links.{Links, update}
use green_threads.Links.Seg.{◌∈◌, ◌∉◌}
use green_threads.Links.Ring.{IsRing}
use green_threads.Bitmap.{Bitmap}
use green_threads.Bitmap.Words.{bit_at}
use green_threads.Bitmap.Valid.{IsValid}
use green_threads.Word.{testbit}
use green_threads.Word.Bits.{testbit-high}
use green_threads.Queue.Laws.{Served, Request, put, take, serve_list}
use green_threads.IdPool.{IdPool}
use green_threads.IdPool.Laws.{Pools}

abbrev pub no_links : Links
no_links = record { prev = λ _. 0; next = λ _. 0 }

-- Links through the nodes, from `p` to `q` and back.
abbrev pub through : Links → ℕ → List ℕ → ℕ → Links
through h p [] q = record { prev = update h.prev q p; next = update h.next p q }
through h p (x ∷ xs) q =
    through (record { prev = update h.prev x p; next = update h.next p x }) x xs q

abbrev pub ring : Links → ℕ → List ℕ → Links
ring h head xs = through h head xs head

abbrev pub three : Links
three = ring no_links 1 (10 ∷ 20 ∷ 30 ∷ [])

pub three-IsRing : IsRing three 1 (10 ∷ 20 ∷ 30 ∷ [])
three-IsRing = record { seg = ground arith; distinct = ground arith; not_null = refl }

-- A second list, in the same memory.
abbrev pub two : Links
two = ring three 2 (40 ∷ [])

pub two-IsRing : IsRing two 1 (10 ∷ 20 ∷ 30 ∷ [])
two-IsRing = record { seg = ground arith; distinct = ground arith; not_null = refl }

pub second-IsRing : IsRing two 2 (40 ∷ [])
second-IsRing = record { seg = ground arith; distinct = ground arith; not_null = refl }

pub two_apart : (a : ℕ) → a ∈ 2 ∷ 40 ∷ [] → a ∉ 1 ∷ 10 ∷ 20 ∷ 30 ∷ []
two_apart a i = ground arith

-- 70 bits in two words: the bits 0, 2, 3 and 64 are set.
abbrev pub words : List ℕ
words = 13 ∷ 1 ∷ []

abbrev pub bits70 : Bitmap
bits70 = record { words = some words; total_bits = 70; total_words = 2 }

words_fit : (i : ℕ) → get_or words i 0 < 2 ^ 64
words_fit i = ground arith

pub bits70-IsValid : IsValid bits70 words
bits70-IsValid = record {
  stored = refl;
  positive = omega arith;
  fits = omega arith;
  counted = refl;
  sized = omega arith;
  are_words = words_fit;
  trailing = λ j lo hi.
      let e : j / 64 ≡ 1 = omega arith in
      rw e (testbit-high 6 (j % 64) 1 (omega arith) (omega arith));
}

abbrev pub taken70 : ℕ → Bool
taken70 j = bit_at words j

abbrev pub pool70 : IdPool
pool70 = record { map = bits70 }

pub pool70-Pools : Pools 70 taken70 pool70
pool70-Pools = record {
  storage = words;
  valid = bits70-IsValid;
  same_size = refl;
  bits = λ j h. refl;
}

pub two_taken : taken70 2 ≡ true
unfolding testbit
two_taken = refl

abbrev pub five_served : Served
five_served = record { got = 10 ∷ 20 ∷ 30 ∷ 40 ∷ 0 ∷ []; left = [] }

abbrev pub six_requests : List Request
six_requests = take ∷ put 40 ∷ take ∷ take ∷ take ∷ take ∷ []

pub six_run : serve_list 1 six_requests (10 ∷ 20 ∷ 30 ∷ []) ≡ some five_served
unfolding serve_list
six_run = refl
