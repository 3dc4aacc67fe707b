-- ===== src/Bitset/Update.antt =====
-- Setting and clearing a tick changes its own bit and no other.
use native.Mathlib.Nat.{pow-le-pow_right}
use trading_simulation.Prelude.{
  ℕ, ◌+◌, ◌*◌, ◌/◌, ◌%◌, ◌^◌, ◌<◌, ◌≡◌, inl, inr, true, false, arith, ◌==◌, ℕ-cases, if◌then◌else◌,
}
use trading_simulation.Word64.{word_mod, test_bit, shift_left, complement}
use trading_simulation.Word64.Bits.{
  test_bit-zero, test_bit-and, test_bit-or, test_bit-pow, test_bit-complement, shift_left-one,
  bit_or-lt, bit_and-le,
}
use trading_simulation.Bitset.{Bits, IsWords, occupied, bit_set, bit_clear}

-- Bit `k` of word `w` stands for tick 64 * w + k.
pub occupied_at :
    (bits : Bits) (w k : ℕ) → k < 64 → occupied bits (w * 64 + k) ≡ test_bit (bits w) k
unfolding occupied
occupied_at bits w k h =
    let a : (w * 64 + k) / 64 ≡ w = omega arith in
    let b : (w * 64 + k) % 64 ≡ k = omega arith in rw (a, b)

same_bit : (j t : ℕ) → j / 64 ≡ t / 64 → ((j % 64) == (t % 64)) ≡ (j == t)
same_bit j t h = ground arith

pow-lt : (k : ℕ) → k < 64 → 2 ^ k < word_mod
pow-lt k h = omega (arith, pow-le-pow_right {n = 2} (omega arith) {i = k} {j = 63} (omega arith))

-- For any array of words `bit_set` at tick `t` occupies tick `t`, and leaves every other tick as it was.
pub occupied-bit_set :
    (bits : Bits) (t j : ℕ)
    → occupied (bit_set bits t) j ≡ (if j == t then true else occupied bits j)
unfolding occupied bit_set
occupied-bit_set bits t j = elim (ℕ-cases (j / 64) (t / 64)) [
  | inl e ↦ ground (
    arith,
    test_bit-or (j % 64) (bits (t / 64)) (shift_left 1 (t % 64)),
    shift_left-one (t % 64) (omega arith),
    test_bit-pow (t % 64) (j % 64),
    same_bit j t e,
  )
  | inr n ↦ ground arith
]

-- For any array of words `bit_clear` at tick `t` frees tick `t`, and leaves every other tick as it
-- was.
pub occupied-bit_clear :
    (bits : Bits) (t j : ℕ)
    → occupied (bit_clear bits t) j ≡ (if j == t then false else occupied bits j)
unfolding occupied bit_clear
occupied-bit_clear bits t j = elim (ℕ-cases (j / 64) (t / 64)) [
  | inl e ↦ ground (
    arith,
    test_bit-and (j % 64) (bits (t / 64)) (complement (shift_left 1 (t % 64))),
    shift_left-one (t % 64) (omega arith),
    test_bit-complement (j % 64) (2 ^ (t % 64)) (pow-lt (t % 64) (omega arith)) (omega arith),
    test_bit-pow (t % 64) (j % 64),
    same_bit j t e,
  )
  | inr n ↦ ground arith
]

pub bit_set-IsWords : (bits : Bits) (t : ℕ) → IsWords bits → IsWords (bit_set bits t)
unfolding bit_set
bit_set-IsWords bits t h w = ground (
  arith,
  h w,
  h (t / 64),
  shift_left-one (t % 64) (omega arith),
  pow-lt (t % 64) (omega arith),
  bit_or-lt 64 (bits (t / 64)) (2 ^ (t % 64)) (h (t / 64)) (pow-lt (t % 64) (omega arith)),
)

pub bit_clear-IsWords : (bits : Bits) (t : ℕ) → IsWords bits → IsWords (bit_clear bits t)
unfolding bit_clear
bit_clear-IsWords bits t h w = ground (
  arith,
  h w,
  h (t / 64),
  bit_and-le (bits (t / 64)) (bits (t / 64)) (complement (shift_left 1 (t % 64))),
)

pub occupied-zero : (t : ℕ) → occupied (λ _. 0) t ≡ false
unfolding occupied
occupied-zero t = test_bit-zero (t % 64)
