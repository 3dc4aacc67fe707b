-- ===== src/Bitset/Highest.antt =====
-- `highest_bid` against its definition by a scan of the ticks.
use Prim.Native.Nat.{bit_and}
use trading_simulation.Prelude.{
  ℕ, zero, suc, ◌+◌, ◌-◌, ◌*◌, ◌/◌, ◌%◌, ◌≤◌, ◌<◌, ◌≡◌, refl, inl, inr, Bool, true, false, ◌&&◌,
  arith, ltb, ◌==◌, Bool-cases, lt-cases,
}
use trading_simulation.Prelude.Int.{ℤ, pos, negsuc}
use trading_simulation.Word64.{word_mod, test_bit, shift_left, sub_word, clzll}
use trading_simulation.Word64.Bits.{
  test_bit-and, test_bit-low, test_bit-zero, mask_upto, bit_and-le, zero-or-bit,
}
use trading_simulation.Word64.Scan.{IsTop, clzll-IsTop}
use trading_simulation.Bitset.{Bits, IsWords, occupied, descend, from_top, highest_bid}
use trading_simulation.Bitset.Update.{occupied_at}

-- `r` is the greatest tick at or below `n` with `p`, or -1 if there is none.
abbrev pub IsHighest : (ℕ → Bool) → ℕ → ℤ → Type 0
IsHighest p n (pos h) = (h ≤ n) × (p h ≡ true) × ((j : ℕ) → h < j → j ≤ n → p j ≡ false)
IsHighest p n (negsuc k) = (k ≡ 0) × ((j : ℕ) → j ≤ n → p j ≡ false)

-- What the loop keeps: `mask` has the bits of word `w` at or below `n`, and above that word
-- nothing up to `n` is set.
record Covers (bits : Bits) (n w mask : ℕ) : Type 0 where
  fits : mask < word_mod
  starts : w * 64 ≤ n
  here : (k : ℕ) → k < 64 → test_bit mask k ≡ (ltb (w * 64 + k) (suc n) && test_bit (bits w) k)
  above : (j : ℕ) → suc w * 64 ≤ j → j ≤ n → occupied bits j ≡ false

start-Covers :
    (bits : Bits) (n : ℕ)
    → IsWords bits
    → Covers bits n (n / 64) (bit_and (bits (n / 64)) (sub_word (shift_left 2 (n % 64)) 1))
start-Covers bits n h = record {
  fits = omega (
    arith,
    h (n / 64),
    bit_and-le (bits (n / 64)) (bits (n / 64)) (sub_word (shift_left 2 (n % 64)) 1) (omega arith),
  );
  starts = omega arith;
  here = λ k l. ground (
    arith,
    mask_upto (n % 64) (omega arith),
    test_bit-and k (bits (n / 64)) (sub_word (shift_left 2 (n % 64)) 1),
    test_bit-low (suc (n % 64)) k,
  );
  above = λ j a b. absurd (omega arith);
}

-- An empty mask rules out its whole word.
empty_word :
    (bits : Bits) (n w j : ℕ) → Covers bits n w 0 → w * 64 ≤ j → j ≤ n → occupied bits j ≡ false
empty_word bits n w j c a b = elim (lt-cases j (suc w * 64)) [
  | inl l ↦
      let k : j ≡ w * 64 + (j - w * 64) = omega arith in
      rw k (
        ground (
          arith,
          occupied_at bits w (j - w * 64) (omega arith),
          c.here (j - w * 64) (omega arith),
          test_bit-zero (j - w * 64),
        ))
  | inr g ↦ c.above j g b
]

next-Covers :
    (bits : Bits) (n w : ℕ) → IsWords bits → Covers bits n (suc w) 0 → Covers bits n w (bits w)
next-Covers bits n w h c = record {
  fits = h w;
  starts = omega (arith, c.starts);
  here = λ k l. ground (arith, c.starts);
  above = λ j a b. empty_word bits n (suc w) j c a b;
}

descend-Covers :
    (bits : Bits) (n w mask : ℕ)
    → IsWords bits
    → Covers bits n w mask
    → Covers bits n (descend bits w mask).0 (descend bits w mask).1
      × (((descend bits w mask).1 ≡ 0) → (descend bits w mask).0 ≡ 0)
unfolding descend
descend-Covers bits n zero mask h c = (c, λ e. refl)
descend-Covers bits n (suc w) mask h c = elim (Bool-cases (mask == 0)) [
  | inl e ↦
      let z : mask ≡ 0 = ground arith in
      rw e (descend-Covers bits n w (bits w) h (next-Covers bits n w h (rw z at c)))
  | inr e ↦ rw e (c, λ z. absurd (ground arith))
]

top_of_word :
    (bits : Bits) (n w mask h : ℕ)
    → Covers bits n w mask
    → IsTop 64 mask h
    → IsHighest (occupied bits) n (pos (w * 64 + h))
top_of_word bits n w mask h c t =
    (ground (arith, c.here h t.0), ground (arith, c.here h t.0, occupied_at bits w h t.0), rest)
  where
    rest : (j : ℕ) → w * 64 + h < j → j ≤ n → occupied bits j ≡ false
    rest j a b = elim (lt-cases j (suc w * 64)) [
      | inl l ↦
          let k : j ≡ w * 64 + (j - w * 64) = omega arith in
          rw k (
            ground (
              arith,
              occupied_at bits w (j - w * 64) (omega arith),
              c.here (j - w * 64) (omega arith),
              t.2 (j - w * 64) (omega arith) (omega arith),
            ))
      | inr g ↦ c.above j g b
    ]

from_top-IsHighest :
    (bits : Bits) (n w mask : ℕ)
    → Covers bits n w mask
    → (mask ≡ 0 → w ≡ 0)
    → IsHighest (occupied bits) n (from_top (w, mask))
unfolding from_top
from_top-IsHighest bits n w mask c z = elim (zero-or-bit 64 mask c.fits) [
  | inl e ↦
      let empty : Covers bits n w 0 = rw e at c in
      let start : Covers bits n 0 0 = rw (z e) at empty in
      rw (e) (refl, λ j le. empty_word bits n 0 j start (omega arith) le)
  | inr (k, l, b) ↦
      let some_bit : (mask == 0) ≡ false = ground (arith, test_bit-zero k) in
      let top = clzll-IsTop mask k l b in
      let at : w * 64 + 63 - clzll mask ≡ w * 64 + (63 - clzll mask) = omega (arith, top.0) in
      rw (some_bit, at) (top_of_word bits n w mask (63 - clzll mask) c top.1)
]

-- On words below 2 ^ 64 `highest_bid` finds the greatest occupied tick at or below the given one, and
-- -1 if none is.
pub highest_bid-IsHighest :
    (bits : Bits) (n : ℕ) → IsWords bits → IsHighest (occupied bits) n (highest_bid bits (pos n))
unfolding highest_bid
highest_bid-IsHighest bits n h =
    let d = descend-Covers bits n (n / 64) _ h (start-Covers bits n h) in
    from_top-IsHighest bits n _ _ d.0 d.1
