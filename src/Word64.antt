-- ===== src/Word64.antt =====
-- The `uint64_t` operations that `SymbolBook` (libs/order-book/include/order_book.h) and
-- `LatencyTracker` (libs/utils/include/latency_tracker.h) use: a word is a number below 2 ^ 64, and
-- each operation wraps where the machine's does.
mod Digits
pub mod Bits
pub mod Scan
use Prim.Native.Nat.{bit_and, bit_or}
use trading_simulation.Prelude.{
  ℕ, zero, suc, ◌+◌, ◌-◌, ◌*◌, ◌/◌, ◌%◌, ◌^◌, Bool, ◌==◌, if◌then◌else◌,
}

abbrev pub word_mod : ℕ
word_mod = 2 ^ 64

-- Digit `k` of `w`, as a truth value.
unfoldable pub test_bit : ℕ → ℕ → Bool
test_bit w zero = w % 2 == 1
test_bit w (suc k) = test_bit (w / 2) k

-- `a << k`
unfoldable pub shift_left : ℕ → ℕ → ℕ
shift_left a k = (a * 2 ^ k) % word_mod

-- `a - b`
unfoldable pub sub_word : ℕ → ℕ → ℕ
sub_word a b = (a + word_mod - b) % word_mod

-- `~a`
unfoldable pub complement : ℕ → ℕ
complement a = word_mod - 1 - a

-- The leading zeros of the low `n` bits of `w`.
unfoldable pub clz_from : ℕ → ℕ → ℕ
clz_from zero w = 0
clz_from (suc k) w = if test_bit w k then 0 else suc (clz_from k w)

-- `__builtin_clzll`; the machine leaves its value at 0 open, and no caller passes 0.
unfoldable pub clzll : ℕ → ℕ
unfolding clz_from test_bit
clzll w = clz_from 64 w

-- The first set bit from bit `i` on, `n` bits being left.
unfoldable pub ctz_from : ℕ → ℕ → ℕ → ℕ
ctz_from zero i w = i
ctz_from (suc n) i w = if test_bit w i then i else ctz_from n (suc i) w

-- `__builtin_ctzll`, with the same remark.
unfoldable pub ctzll : ℕ → ℕ
unfolding ctz_from test_bit
ctzll w = ctz_from 64 0 w
