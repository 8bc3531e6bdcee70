-- ===== src/Platform/Page/Laws.antt =====
-- About page.c: rounding a size to pages.
use native.Mathlib.Nat.{suc-mod, mod-lt, mod-eq_of_lt, mod-add-div', mul-mod_left}
use green_threads.Base.{
  ℕ, suc, ◌+◌, ◌-◌, ◌*◌, ◌/◌, ◌%◌, ◌^◌, ◌≤◌, ◌<◌, ◌≡◌, true, arith, sym, ◌∙◌, inl, inr, Bool-cases,
  ltb,
}
use green_threads.Outcome.{ok}
use green_threads.Word.{all_ones}
use green_threads.Platform.Interface.{Machine, Page}
use green_threads.Platform.Page.{page_align_up, align_down_any}

-- The page variables are initialised to a page size of `ps`: a multiple of 16 that divides both the
-- address space and the default size of a stack, as every power of two from 16 to 64 KiB does.
pub record IsPaged (p : Page) (ps : ℕ) : Type 0 where
  pub ready : p.initialized ≡ true
  pub page_size : p.size ≡ ps
  pub positive : 0 < ps
  pub aligned : ps / 16 * 16 ≡ ps
  pub whole : 2 ^ 64 % ps ≡ 0
  pub default_whole : 64 * 1024 % ps ≡ 0
  pub alignable : p.max_alignable_size ≡ align_down_any all_ones ps

-- The largest remainder is that of the largest word.
pub all_ones-mod : (ps : ℕ) → 0 < ps → 2 ^ 64 % ps ≡ 0 → suc (all_ones % ps) ≡ ps
all_ones-mod ps pos e =
    let lt : all_ones % ps < ps = mod-lt all_ones pos in
    let s : suc (all_ones % ps) % ps ≡ 0 = sym (suc-mod all_ones ps) ∙ e in
    elim (Bool-cases (ltb (suc (all_ones % ps)) ps)) [
      | inl less ↦
          let less' : suc (all_ones % ps) < ps = ground arith in
          absurd (omega (arith, s, mod-eq_of_lt less'))
      | inr not_less ↦ ground arith
    ]

-- With an initialised positive page size that divides 2 ^ 64, gt_page_align_up of a size up to
-- the maximal alignable one returns the least multiple of the page size that is not below the
-- size, which is a machine word.
pub page_align_up-multiple :
    (m : Machine) (size : ℕ)
    → m.page.initialized ≡ true
    → 0 < m.page.size
    → 2 ^ 64 % m.page.size ≡ 0
    → m.page.max_alignable_size ≡ align_down_any all_ones m.page.size
    → size ≤ m.page.max_alignable_size
    → (r : ℕ) × (page_align_up size m ≡ ok (r, m))
      × (r % m.page.size ≡ 0)
      × (size ≤ r)
      × (r < size + m.page.size)
      × (r < 2 ^ 64)
unfolding page_align_up
page_align_up-multiple m size ready pos whole max fits =
    let ps = m.page.size in
    let up = (size + ps - 1) / ps * ps in
    let t = all_ones-mod ps pos whole in
    let e = mod-add-div' all_ones ps in
    let e' = mod-add-div' (size + ps - 1) ps in
    let lt = mod-lt (size + ps - 1) pos in
    let no_wrap : (size + ps + 2 ^ 64 - 1) % 2 ^ 64 ≡ size + ps - 1 = ground (arith, t, e) in
    (
      up,
      ground (arith, no_wrap),
      mul-mod_left ((size + ps - 1) / ps) ps,
      ground arith,
      ground arith,
      ground (arith, t, e),
    )
