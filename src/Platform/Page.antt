-- ===== src/Platform/Page.antt =====
-- src/platform/page/backend/linux/page.c, with the macros of internal/gt_internal/common/align.h and
-- bits.h that it uses.
pub mod Laws
use green_threads.Base.{
  ℕ, ◌+◌, ◌-◌, ◌*◌, ◌/◌, ◌%◌, bit_and, Bool, true, not, ◌==◌, leb, if◌then◌else◌,
}
use green_threads.Outcome.{ok}
use green_threads.Outcome.Cmd.{Cmd, pure, ◌>>=◌, ◌>>◌, assert}
use green_threads.Word.{word_mod, all_ones, bit_not}
use green_threads.Status.{Status, success, page_size_unavailable}
use green_threads.Platform.Interface.{Host, Machine, Page, ℤ, pos, negsuc}

abbrev pub align_up_pot : (val align : ℕ) → ℕ
align_up_pot val align = bit_and ((val + (align - 1)) % word_mod) (bit_not (align - 1))

abbrev pub align_down_pot : (val align : ℕ) → ℕ
align_down_pot val align = bit_and val (bit_not (align - 1))

abbrev pub align_up_any : (val align : ℕ) → ℕ
align_up_any val align = (val + align + word_mod - 1) % word_mod / align * align

abbrev pub align_down_any : (val align : ℕ) → ℕ
align_down_any val align = val / align * align

abbrev pub is_aligned : (val align : ℕ) → Bool
is_aligned val align = val % align == 0

abbrev pub is_pow2 : ℕ → Bool
is_pow2 val = bit_and val ((val + word_mod - 1) % word_mod) == 0

abbrev pub get_page : Cmd Machine Page
get_page m = ok (m.page, m)

abbrev pub put_page : Page → Cmd Machine (Unit {0})
put_page p m = ok (tt, record m { page = p })

abbrev pub validate_initialized : Cmd Machine (Unit {0})
validate_initialized = do p ← get_page; assert p.initialized "__gt_page_size_initialized"

-- The page size was read and is `ps`, which is positive.
unfoldable pub init_with : ℕ → Cmd Machine Status
init_with ps = do
  p ← get_page
  put_page (record p { size = ps })
  assert (is_pow2 ps) "GT_IS_POW2(__gt_page_size)"
  put_page
      (record { size = ps; initialized = true; max_alignable_size = align_down_any all_ones ps })
  pure success

unfoldable pub init_from : ℤ → Cmd Machine Status
unfolding init_with
init_from (pos ps) = if ps == 0 then pure page_size_unavailable else init_with ps
init_from (negsuc n) = pure page_size_unavailable

-- `gt_page_init`.
unfoldable pub init : Host → Cmd Machine Status
unfolding init_from
init host = do p ← get_page; if p.initialized then pure success else init_from host.page_size

-- `gt_page_size`.
unfoldable pub page_size : Cmd Machine ℕ
page_size = do validate_initialized; p ← get_page; pure p.size

-- `gt_page_is_aligned`.
unfoldable pub page_is_aligned : (address : ℕ) → Cmd Machine Bool
page_is_aligned address = do
  validate_initialized
  assert (not (address == 0)) "address != NULL"
  p ← get_page
  pure (is_aligned address p.size)

-- `gt_page_is_size_aligned`.
unfoldable pub page_is_size_aligned : (size : ℕ) → Cmd Machine Bool
page_is_size_aligned size = do validate_initialized; p ← get_page; pure (is_aligned size p.size)

-- `gt_page_align_up`.
unfoldable pub page_align_up : (size : ℕ) → Cmd Machine ℕ
page_align_up size = do
  validate_initialized
  p ← get_page
  assert (leb size p.max_alignable_size) "size <= __gt_page_max_alignable_size"
  pure (align_up_any size p.size)
