-- ===== src/Bitset.antt =====
-- The occupancy bitset of libs/order-book/include/order_book.h: `bid_set`, `bid_clear`, `ask_set`,
-- `ask_clear`, `highest_bid` and `lowest_ask` of `SymbolBook`, over an array of 64-bit words. The
-- array is a function from the index of a word to the word.
pub mod Update
pub mod Highest
pub mod Lowest
use Prim.Native.Nat.{bit_and, bit_or}
use trading_simulation.Prelude.{
  ℕ, zero, suc, ◌+◌, ◌-◌, ◌*◌, ◌/◌, ◌%◌, ◌<◌, Bool, ◌==◌, leb, if◌then◌else◌, update,
}
use trading_simulation.Prelude.Int.{ℤ, pos, negsuc}
use trading_simulation.Word64.{word_mod, test_bit, shift_left, sub_word, complement, clzll, ctzll}

-- $5000.00 in ticks of $0.01.
abbrev pub max_ticks : ℕ
max_ticks = 500_000

abbrev pub bitset_words : ℕ
bitset_words = (max_ticks + 63) / 64

abbrev pub Bits : Type 0
Bits = ℕ → ℕ

-- Every word fits 64 bits.
abbrev pub IsWords : Bits → Type 0
IsWords bits = (w : ℕ) → bits w < word_mod

-- The bit that stands for tick `t`.
unfoldable pub occupied : Bits → ℕ → Bool
occupied bits t = test_bit (bits (t / 64)) (t % 64)

-- `bits[t >> 6] |= 1ULL << (t & 63)`
unfoldable pub bit_set : Bits → ℕ → Bits
bit_set bits t = update bits (t / 64) (bit_or (bits (t / 64)) (shift_left 1 (t % 64)))

-- `bits[t >> 6] &= ~(1ULL << (t & 63))`
unfoldable pub bit_clear : Bits → ℕ → Bits
bit_clear bits t =
    update bits (t / 64) (bit_and (bits (t / 64)) (complement (shift_left 1 (t % 64))))

-- `while (mask == 0 && w > 0) mask = bits[--w];`
unfoldable pub descend : Bits → ℕ → ℕ → ℕ × ℕ
descend bits zero mask = (0, mask)
descend bits (suc w) mask = if mask == 0 then descend bits w (bits w) else (suc w, mask)

-- The end of `highest_bid`: `negsuc 0` is -1.
unfoldable pub from_top : ℕ × ℕ → ℤ
from_top (w, mask) = if mask == 0 then negsuc 0 else pos (w * 64 + 63 - clzll mask)

-- The highest set bit at or below a tick, or -1.
unfoldable pub highest_bid : Bits → ℤ → ℤ
highest_bid bits (negsuc n) = negsuc 0
highest_bid bits (pos t) =
    from_top (descend bits (t / 64) (bit_and (bits (t / 64)) (sub_word (shift_left 2 (t % 64)) 1)))

-- `while (mask == 0 && w < max_w) mask = bits[++w];`, with `max_w - w` rounds left.
unfoldable pub ascend : Bits → ℕ → ℕ → ℕ → ℕ × ℕ
ascend bits zero w mask = (w, mask)
ascend bits (suc n) w mask = if mask == 0 then ascend bits n (suc w) (bits (suc w)) else (w, mask)

abbrev pub max_word : ℕ
max_word = (max_ticks - 1) / 64

unfoldable pub from_bottom : ℕ × ℕ → ℕ
from_bottom (w, mask) = if mask == 0 then max_ticks else w * 64 + ctzll mask

-- The lowest set bit at or above a tick, or `max_ticks`.
unfoldable pub lowest_ask : Bits → ℕ → ℕ
lowest_ask bits t =
    if leb max_ticks t
    then max_ticks
    else from_bottom (
        ascend bits (max_word - t / 64) (t / 64)
          (bit_and (bits (t / 64)) (complement (sub_word (shift_left 1 (t % 64)) 1))))
