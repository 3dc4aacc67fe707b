-- ===== src/Word64/Bits.antt =====
-- What each operation of a word does to its bits.
use Prim.Native.Nat.{bit_and, bit_or, bit_and-bitwise}
use native.Mathlib.Nat.{pow-suc, one-le-pow, pow-le-pow_right}
use trading_simulation.Prelude.{
  ℕ, zero, suc, ◌-◌, ◌*◌, ◌/◌, ◌%◌, ◌^◌, ◌≤◌, ◌<◌, ◌≡◌, refl, ◌∙◌, ap, ◌⊎◌, inl, inr, true, false,
  not, ◌&&◌, ◌||◌, arith, ltb, ◌==◌, Bool-cases,
}
use trading_simulation.Word64.{word_mod, test_bit, shift_left, sub_word, complement}
use trading_simulation.Word64.Digits.{bit_and_step, bit_or_step}

pub test_bit-and : (k a b : ℕ) → test_bit (bit_and a b) k ≡ (test_bit a k && test_bit b k)
unfolding test_bit
test_bit-and zero a b = ground (arith, bit_and_step a b)
test_bit-and (suc k) a b =
    ap (λ w. test_bit w k) (omega (arith, bit_and_step a b)) ∙ test_bit-and k (a / 2) (b / 2)

pub test_bit-or : (k a b : ℕ) → test_bit (bit_or a b) k ≡ (test_bit a k || test_bit b k)
unfolding test_bit
test_bit-or zero a b = ground (arith, bit_or_step a b)
test_bit-or (suc k) a b =
    ap (λ w. test_bit w k) (omega (arith, bit_or_step a b)) ∙ test_bit-or k (a / 2) (b / 2)

pub test_bit-zero : (k : ℕ) → test_bit 0 k ≡ false
unfolding test_bit
test_bit-zero zero = refl
test_bit-zero (suc k) = test_bit-zero k

-- A power of two has one bit.
pub test_bit-pow : (n k : ℕ) → test_bit (2 ^ n) k ≡ (k == n)
unfolding test_bit
test_bit-pow zero zero = refl
test_bit-pow zero (suc k) = test_bit-zero k ∙ ground arith
test_bit-pow (suc n) zero = ground (arith, pow-suc 2 n)
test_bit-pow (suc n) (suc k) =
    ap (λ w. test_bit w k) (omega (arith, pow-suc 2 n)) ∙ test_bit-pow n k ∙ ground arith

-- 2 ^ n - 1 has the low n bits.
pub test_bit-low : (n k : ℕ) → test_bit (2 ^ n - 1) k ≡ ltb k n
unfolding test_bit
test_bit-low zero k = test_bit-zero k ∙ ground arith
test_bit-low (suc n) zero = ground (arith, pow-suc 2 n, one-le-pow n 2)
test_bit-low (suc n) (suc k) =
    ap (λ w. test_bit w k) (omega (arith, pow-suc 2 n, one-le-pow n 2))
    ∙ test_bit-low n k
    ∙ ground arith

-- The complement within n bits.
test_bit-flip : (n k a : ℕ) → a < 2 ^ n → k < n → test_bit (2 ^ n - 1 - a) k ≡ not (test_bit a k)
unfolding test_bit
test_bit-flip zero k a h l = absurd (omega arith)
test_bit-flip (suc n) zero a h l = ground (arith, pow-suc 2 n, one-le-pow n 2)
test_bit-flip (suc n) (suc k) a h l =
    ap (λ w. test_bit w k) (omega (arith, pow-suc 2 n, one-le-pow n 2))
    ∙ test_bit-flip n k (a / 2) (omega (arith, pow-suc 2 n)) (omega arith)

pub test_bit-complement :
    (k a : ℕ) → a < word_mod → k < 64 → test_bit (complement a) k ≡ not (test_bit a k)
unfolding complement
test_bit-complement k a h l = test_bit-flip 64 k a h l

-- A bit of a number below 2 ^ n stands below n.
pub test_bit_bounded : (n k a : ℕ) → a < 2 ^ n → n ≤ k → test_bit a k ≡ false
unfolding test_bit
test_bit_bounded zero k zero h l = test_bit-zero k
test_bit_bounded zero k (suc a) h l = absurd (omega arith)
test_bit_bounded (suc n) zero a h l = absurd (omega arith)
test_bit_bounded (suc n) (suc k) a h l =
    test_bit_bounded n k (a / 2) (omega (arith, pow-suc 2 n)) (omega arith)

-- A number below 2 ^ n is 0, or one of its low n bits is set.
pub zero-or-bit : (n a : ℕ) → a < 2 ^ n → (a ≡ 0) ⊎ ((k : ℕ) × (k < n) × (test_bit a k ≡ true))
unfolding test_bit
zero-or-bit zero zero h = inl refl
zero-or-bit zero (suc a) h = absurd (omega arith)
zero-or-bit (suc n) a h = elim (Bool-cases (a % 2 == 1)) [
  | inl e ↦ inr (0, omega arith, e)
  | inr e ↦ elim (zero-or-bit n (a / 2) (omega (arith, pow-suc 2 n))) [
    | inl z ↦ inl (ground arith)
    | inr (k, l, b) ↦ inr (suc k, omega arith, b)
  ]
]

pub bit_and-le : (n a b : ℕ) → a ≤ n → bit_and a b ≤ a
bit_and-le zero zero b h = omega (arith, bit_and-bitwise 0 b)
bit_and-le zero (suc a) b h = absurd (omega arith)
bit_and-le (suc n) zero b h = omega (arith, bit_and-bitwise 0 b)
bit_and-le (suc n) (suc a) b h =
    omega (arith, bit_and_step (suc a) b, bit_and-le n (suc a / 2) (b / 2) (omega arith))

pub bit_or-lt : (n a b : ℕ) → a < 2 ^ n → b < 2 ^ n → bit_or a b < 2 ^ n
bit_or-lt zero zero zero h l = omega arith
bit_or-lt zero (suc a) b h l = absurd (omega arith)
bit_or-lt zero zero (suc b) h l = absurd (omega arith)
bit_or-lt (suc n) a b h l = omega (
  arith,
  pow-suc 2 n,
  bit_or_step a b,
  bit_or-lt n (a / 2) (b / 2) (omega (arith, pow-suc 2 n)) (omega (arith, pow-suc 2 n)),
)

pow-lt-word : (k : ℕ) → k < 64 → 2 ^ k * 2 ≤ word_mod
pow-lt-word k h =
    omega (arith, pow-suc 2 k, pow-le-pow_right {n = 2} (omega arith) {i = suc k} {j = 64} h)

-- `1ULL << k` does not wrap.
pub shift_left-one : (k : ℕ) → k < 64 → shift_left 1 k ≡ 2 ^ k
unfolding shift_left
shift_left-one k h = omega (arith, pow-lt-word k h, one-le-pow k 2)

-- `(1ULL << k) - 1` is the mask of the bits below k.
pub mask_below : (k : ℕ) → k < 64 → sub_word (shift_left 1 k) 1 ≡ 2 ^ k - 1
unfolding sub_word
mask_below k h = omega (arith, shift_left-one k h, pow-lt-word k h, one-le-pow k 2)

-- `(2ULL << k) - 1` is the mask of the bits up to k, also at k = 63, where the shift wraps to 0.
pub mask_upto : (k : ℕ) → k < 64 → sub_word (shift_left 2 k) 1 ≡ 2 ^ suc k - 1
unfolding sub_word shift_left
mask_upto k h = omega (arith, pow-suc 2 k, pow-lt-word k h, one-le-pow k 2)

pub low-lt : (k : ℕ) → k < 64 → 2 ^ k - 1 < word_mod
low-lt k h = omega (arith, pow-lt-word k h)
