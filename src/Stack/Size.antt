-- ===== src/Stack/Size.antt =====
-- About stack.c: the size of a stack and of its mapping.
use native.Mathlib.Nat.{mod-add-div', mul-mod_left, add-mod_right, mod-eq_of_lt, mul_assoc}
use green_threads.Base.{
  ℕ, ◌+◌, ◌*◌, ◌/◌, ◌%◌, ◌^◌, ◌≤◌, ◌<◌, ◌≡◌, arith, sym, ◌∙◌, inl, inr, Bool-cases, ltb, ◌==◌,
}
use green_threads.Outcome.{ok}
use green_threads.Word.{all_ones}
use green_threads.Platform.Interface.{Machine}
use green_threads.Platform.Page.Laws.{IsPaged, all_ones-mod, page_align_up-multiple}
use green_threads.Stack.{default_size, usable_size}

-- A multiple of the page size is a multiple of 16.
pub page-aligned : (ps x : ℕ) → ps / 16 * 16 ≡ ps → x % ps ≡ 0 → x % 16 ≡ 0
page-aligned ps x a e =
    let x' : x ≡ x / ps * (ps / 16 * 16) = rw a (omega (arith, e, mod-add-div' x ps)) in
    rw x' (rw (sym (mul_assoc (x / ps) (ps / 16) 16)) (mul-mod_left (x / ps * (ps / 16)) 16))

pub page-add : (ps x : ℕ) → x % ps ≡ 0 → (x + ps) % ps ≡ 0
page-add ps x e = add-mod_right x ps ∙ e

default-le : (ps : ℕ) → 0 < ps → default_size % ps ≡ 0 → ps ≤ default_size
default-le ps pos e = elim (Bool-cases (ltb default_size ps)) [
  | inl big ↦
      let big' : default_size < ps = ground arith in absurd (omega (arith, e, mod-eq_of_lt big'))
  | inr small ↦ ground arith
]

pub page-le : (ps u : ℕ) → 0 < u → u % ps ≡ 0 → ps ≤ u
page-le ps u positive whole = elim (Bool-cases (ltb u ps)) [
  | inl small ↦
      let small' : u < ps = ground arith in absurd (omega (arith, whole, mod-eq_of_lt small'))
  | inr large ↦ ground arith
]

-- The usable size for a request: whole pages, at least as much, and with its guard pages a word.
pub usable_size_lem :
    (m : Machine) (ps size : ℕ)
    → IsPaged m.page ps
    → size + 3 * ps ≤ 2 ^ 64
    → (u : ℕ) × (usable_size size m ≡ ok (u, m))
      × (u % ps ≡ 0)
      × (0 < u)
      × (size ≤ u)
      × (u + 2 * ps < 2 ^ 64)
unfolding usable_size
usable_size_lem m ps size p fits = elim (Bool-cases (size == 0)) [
  | inl none ↦ (
    default_size,
    ground arith,
    p.default_whole,
    omega arith,
    ground arith,
    omega (arith, default-le ps p.positive p.default_whole),
  )
  | inr some ↦
      let t = all_ones-mod ps p.positive p.whole in
      let e = mod-add-div' all_ones ps in
      let (r, ran, mult, low, high, word) =
        page_align_up-multiple m size p.ready (ground arith) (rw p.page_size p.whole)
          (rw p.page_size p.alignable) (ground (arith, t, e)) in
      (
        r,
        ground (arith, ran),
        ground (arith, mult, p.page_size),
        ground arith,
        low,
        ground (arith, p.page_size, high),
      )
]
