-- ===== src/Bitset/Lowest.antt =====
-- `lowest_ask` against its definition by a scan of the ticks.
use Prim.Native.Nat.{bit_and}
use trading_simulation.Prelude.{
  ℕ, zero, suc, ◌+◌, ◌-◌, ◌*◌, ◌/◌, ◌%◌, ◌^◌, ◌≤◌, ◌<◌, ◌≡◌, refl, ◌⊎◌, inl, inr, Bool, true, false,
  ◌&&◌, arith, leb, ◌==◌, Bool-cases, lt-cases,
}
use trading_simulation.Word64.{word_mod, test_bit, shift_left, sub_word, complement, ctzll}
use trading_simulation.Word64.Bits.{
  test_bit-and, test_bit-low, test_bit-zero, test_bit-complement, mask_below, bit_and-le,
  zero-or-bit, low-lt,
}
use trading_simulation.Word64.Scan.{IsBottom, ctzll-IsBottom}
use trading_simulation.Bitset.{
  Bits, IsWords, max_ticks, max_word, occupied, ascend, from_bottom, lowest_ask,
}
use trading_simulation.Bitset.Update.{occupied_at}

-- `r` is the least tick from `n` on with `p`, or `max_ticks` if there is none below that.
abbrev pub IsLowest : (ℕ → Bool) → ℕ → ℕ → Type 0
IsLowest p n r =
    (n ≤ r) × ((r ≡ max_ticks) ⊎ (p r ≡ true)) × ((j : ℕ) → n ≤ j → j < r → p j ≡ false)

-- What the loop keeps: `mask` has the bits of word `w` from `n` on, and from `n` up to that word
-- nothing is set.
record Covers (bits : Bits) (n w mask : ℕ) : Type 0 where
  fits : mask < word_mod
  starts : n < suc w * 64
  here : (k : ℕ) → k < 64 → test_bit mask k ≡ (leb n (w * 64 + k) && test_bit (bits w) k)
  below : (j : ℕ) → n ≤ j → j < w * 64 → occupied bits j ≡ false

start-Covers :
    (bits : Bits) (n : ℕ)
    → IsWords bits
    → Covers bits n
        (n / 64)
        (bit_and (bits (n / 64)) (complement (sub_word (shift_left 1 (n % 64)) 1)))
start-Covers bits n h = record {
  fits = omega (
    arith,
    h (n / 64),
    bit_and-le (bits (n / 64)) (bits (n / 64)) (complement (sub_word (shift_left 1 (n % 64)) 1))
        (omega arith),
  );
  starts = omega arith;
  here = λ k l. ground (
    arith,
    mask_below (n % 64) (omega arith),
    low-lt (n % 64) (omega arith),
    test_bit-and k (bits (n / 64)) (complement (sub_word (shift_left 1 (n % 64)) 1)),
    test_bit-complement k (2 ^ (n % 64) - 1) (low-lt (n % 64) (omega arith)) l,
    test_bit-low (n % 64) k,
  );
  below = λ j a b. absurd (omega arith);
}

-- An empty mask rules out its whole word.
empty_word :
    (bits : Bits) (n w j : ℕ) → Covers bits n w 0 → n ≤ j → j < suc w * 64 → occupied bits j ≡ false
empty_word bits n w j c a b = elim (lt-cases j (w * 64)) [
  | inl l ↦ c.below j a l
  | inr g ↦
      let k : j ≡ w * 64 + (j - w * 64) = omega arith in
      rw k (
        ground (
          arith,
          occupied_at bits w (j - w * 64) (omega arith),
          c.here (j - w * 64) (omega arith),
          test_bit-zero (j - w * 64),
        ))
]

next-Covers :
    (bits : Bits) (n w : ℕ)
    → IsWords bits
    → Covers bits n w 0
    → Covers bits n (suc w) (bits (suc w))
next-Covers bits n w h c = record {
  fits = h (suc w);
  starts = omega (arith, c.starts);
  here = λ k l. ground (arith, c.starts);
  below = λ j a b. empty_word bits n w j c a b;
}

ascend-Covers :
    (bits : Bits) (n r w mask : ℕ)
    → IsWords bits
    → Covers bits n w mask
    → Covers bits n (ascend bits r w mask).0 (ascend bits r w mask).1
      × (((ascend bits r w mask).1 ≡ 0) → (ascend bits r w mask).0 ≡ w + r)
unfolding ascend
ascend-Covers bits n zero w mask h c = (c, λ e. omega arith)
ascend-Covers bits n (suc r) w mask h c = elim (Bool-cases (mask == 0)) [
  | inl e ↦
      let z : mask ≡ 0 = ground arith in
      let rest =
        ascend-Covers bits n r (suc w) (bits (suc w)) h (next-Covers bits n w h (rw z at c)) in
      rw e (rest.0, λ q. omega (arith, rest.1 q))
  | inr e ↦ rw e (c, λ z. absurd (ground arith))
]

bottom_of_word :
    (bits : Bits) (n w mask h : ℕ)
    → Covers bits n w mask
    → IsBottom 0 64 mask h
    → IsLowest (occupied bits) n (w * 64 + h)
bottom_of_word bits n w mask h c t = (
  ground (arith, c.here h t.1),
  inr (ground (arith, c.here h t.1, occupied_at bits w h t.1)),
  rest,
)
  where
    rest : (j : ℕ) → n ≤ j → j < w * 64 + h → occupied bits j ≡ false
    rest j a b = elim (lt-cases j (w * 64)) [
      | inl l ↦ c.below j a l
      | inr g ↦
          let k : j ≡ w * 64 + (j - w * 64) = omega arith in
          rw k (
            ground (
              arith,
              t.1,
              occupied_at bits w (j - w * 64) (omega arith),
              c.here (j - w * 64) (omega arith),
              t.3 (j - w * 64) (omega arith) (omega arith),
            ))
    ]

from_bottom-IsLowest :
    (bits : Bits) (n w mask : ℕ)
    → n ≤ max_ticks
    → Covers bits n w mask
    → (mask ≡ 0 → w ≡ max_word)
    → IsLowest (occupied bits) n (from_bottom (w, mask))
unfolding from_bottom
from_bottom-IsLowest bits n w mask m c z = elim (zero-or-bit 64 mask c.fits) [
  | inl e ↦
      let empty : Covers bits n w 0 = rw e at c in
      rw (e) (m, inl refl, λ j a b. empty_word bits n w j empty a (omega (arith, z e)))
  | inr (k, l, b) ↦
      let some_bit : (mask == 0) ≡ false = ground (arith, test_bit-zero k) in
      rw (some_bit) (bottom_of_word bits n w mask (ctzll mask) c (ctzll-IsBottom mask k l b))
]

-- Whatever the bits from `max_ticks` on are, `lowest_ask` stops at an occupied tick or at `max_ticks`.
pub lowest_ask-IsLowest :
    (bits : Bits) (n : ℕ)
    → IsWords bits
    → n ≤ max_ticks
    → IsLowest (occupied bits) n (lowest_ask bits n)
unfolding lowest_ask
lowest_ask-IsLowest bits n h m = elim (Bool-cases (leb max_ticks n)) [
  | inl e ↦ rw e (m, inl refl, λ j a b. absurd (ground arith))
  | inr e ↦
      let inside : n < max_ticks = ground arith in
      let d = ascend-Covers bits n (max_word - n / 64) (n / 64) _ h (start-Covers bits n h) in
      rw e (from_bottom-IsLowest bits n _ _ m d.0 (λ q. omega (arith, d.1 q)))
]

-- No bit from `max_ticks` on is set.
abbrev pub IsInTicks : Bits → Type 0
IsInTicks bits = (j : ℕ) → max_ticks ≤ j → occupied bits j ≡ false

-- `r` is the least tick from `n` on that is occupied, or is `max_ticks` and no tick from `n` on is.
abbrev pub IsLeastTick : (ℕ → Bool) → ℕ → ℕ → Type 0
IsLeastTick p n r =
    ((n ≤ r) × (r < max_ticks) × (p r ≡ true) × ((j : ℕ) → n ≤ j → j < r → p j ≡ false))
    ⊎ ((r ≡ max_ticks) × ((j : ℕ) → n ≤ j → p j ≡ false))

least_of_lowest :
    (bits : Bits) (n r : ℕ)
    → IsInTicks bits
    → IsLowest (occupied bits) n r
    → IsLeastTick (occupied bits) n r
least_of_lowest bits n r inside (above, stop, clear) = elim (lt-cases r max_ticks) [
  | inl l ↦ elim stop [ inl e ↦ absurd (omega (arith, e, l)) | inr o ↦ inl (above, l, o, clear) ]
  | inr g ↦
      let at_end : r ≡ max_ticks = elim stop [ inl e ↦ e | inr o ↦ absurd (cc (o, inside r g)) ] in
      inr (
        at_end,
        λ j a. elim (lt-cases j r) [ inl l ↦ clear j a l | inr k ↦ inside j (omega (arith, g, k)) ],
      )
]

-- On words below 2 ^ 64 in which no bit from `max_ticks` on is set, `lowest_ask` finds, from a tick up to
-- `max_ticks`, the least occupied tick at or above it, and `max_ticks` exactly if none is.
pub lowest_ask-IsLeastTick :
    (bits : Bits) (n : ℕ)
    → IsWords bits
    → IsInTicks bits
    → n ≤ max_ticks
    → IsLeastTick (occupied bits) n (lowest_ask bits n)
lowest_ask-IsLeastTick bits n h inside m =
    least_of_lowest bits n (lowest_ask bits n) inside (lowest_ask-IsLowest bits n h m)
