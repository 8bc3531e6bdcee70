-- ===== src/Word.antt =====
-- The unsigned machine words of the sources (`unsigned long`, `size_t`, `uintptr_t`, 64 bits each),
-- and their bits.
pub mod Step
pub mod Bits
pub mod Scan
use green_threads.Base.{ℕ, zero, suc, ◌-◌, ◌/◌, ◌%◌, ◌^◌, Bool, ◌==◌, if◌then◌else◌}

-- GT_BITS_PER_WORD: `sizeof(unsigned long) * CHAR_BIT`.
abbrev pub bits_per_word : ℕ
bits_per_word = 64

abbrev pub word_mod : ℕ
word_mod = 2 ^ 64

-- `~0UL`, also SIZE_MAX.
abbrev pub all_ones : ℕ
all_ones = 2 ^ 64 - 1

-- `~a`.
abbrev pub bit_not : ℕ → ℕ
bit_not a = all_ones - a

unfoldable pub testbit : ℕ → ℕ → Bool
testbit a zero = a % 2 == 1
testbit a (suc j) = testbit (a / 2) j

-- The number of trailing zeros among the low `k` bits; at 64 it is `__builtin_ctzl`.
pub ctz : ℕ → ℕ → ℕ
ctz zero a = 0
ctz (suc k) a = let rest = ctz k (a / 2) in if a % 2 == 1 then 0 else suc rest
