-- ===== src/Word64/Scan.antt =====
-- Counting zeros finds the highest and the lowest set bit.
use trading_simulation.Prelude.{
  ℕ, zero, suc, ◌+◌, ◌-◌, ◌≤◌, ◌<◌, ◌≡◌, inl, inr, true, false, arith, Bool-cases, ℕ-cases,
}
use trading_simulation.Word64.{test_bit, clz_from, clzll, ctz_from, ctzll}

-- `h` is the highest set bit of `w` below `n`.
abbrev pub IsTop : ℕ → ℕ → ℕ → Type 0
IsTop n w h = (h < n) × (test_bit w h ≡ true) × ((j : ℕ) → h < j → j < n → test_bit w j ≡ false)

-- `h` is the lowest set bit of `w` from `i` on, below `n`.
abbrev pub IsBottom : ℕ → ℕ → ℕ → ℕ → Type 0
IsBottom i n w h =
    (i ≤ h) × (h < n) × (test_bit w h ≡ true) × ((j : ℕ) → i ≤ j → j < h → test_bit w j ≡ false)

above_top :
    (n w h j : ℕ) → IsTop n w h → test_bit w n ≡ false → h < j → j < suc n → test_bit w j ≡ false
above_top n w h j t e a b = elim (ℕ-cases j n) [ inl p ↦ rw p e | inr p ↦ t.2 j a (omega arith) ]

below_ne : (n k w : ℕ) → k < suc n → test_bit w k ≡ true → test_bit w n ≡ false → k < n
below_ne n k w h e f = elim (ℕ-cases k n) [ inl p ↦ cc | inr p ↦ omega arith ]

ctz_step :
    (n i w m : ℕ)
    → test_bit w i ≡ false
    → IsBottom (suc i) (suc i + n) w m
    → IsBottom i (i + suc n) w m
ctz_step n i w m miss t = (omega arith, omega arith, t.2, low)
  where
    low : (j : ℕ) → i ≤ j → j < m → test_bit w j ≡ false
    low j p q = elim (ℕ-cases j i) [ inl s ↦ rw s miss | inr s ↦ t.3 j (omega arith) q ]

at_or_after : (i k w : ℕ) → i ≤ k → test_bit w k ≡ true → test_bit w i ≡ false → suc i ≤ k
at_or_after i k w h e f = elim (ℕ-cases k i) [ inl p ↦ cc | inr p ↦ omega arith ]

clz_from-IsTop :
    (n w k : ℕ) → k < n → test_bit w k ≡ true → (h : ℕ) × (clz_from n w + suc h ≡ n) × IsTop n w h
unfolding clz_from
clz_from-IsTop zero w k h e = absurd (omega arith)
clz_from-IsTop (suc n) w k h e = elim (Bool-cases (test_bit w n)) [
  | inl top ↦ (n, rw top (omega arith), (omega arith, top, λ j a b. absurd (omega arith)))
  | inr low ↦
      let (m, q, t) = clz_from-IsTop n w k (below_ne n k w h e low) e in
      (m, rw low (omega arith), (omega arith, t.1, λ j a b. above_top n w m j t low a b))
]

-- `63 - __builtin_clzll(w)` is the highest set bit of a word that has one.
pub clzll-IsTop :
    (w k : ℕ) → k < 64 → test_bit w k ≡ true → (clzll w ≤ 63) × IsTop 64 w (63 - clzll w)
unfolding clzll
clzll-IsTop w k l e =
    let (h, q, t) = clz_from-IsTop 64 w k l e in
    let p : h ≡ 63 - clz_from 64 w = omega arith in (omega arith, rw (← p) t)

ctz_from-IsBottom :
    (n i w k : ℕ) → i ≤ k → k < i + n → test_bit w k ≡ true → IsBottom i (i + n) w (ctz_from n i w)
unfolding ctz_from
ctz_from-IsBottom zero i w k a b e = absurd (omega arith)
ctz_from-IsBottom (suc n) i w k a b e = elim (Bool-cases (test_bit w i)) [
  | inl hit ↦ rw (hit) (omega arith, omega arith, hit, λ j p q. absurd (omega arith))
  | inr miss ↦ rw (miss) (
      ctz_step n i w (ctz_from n (suc i) w) miss
        (ctz_from-IsBottom n (suc i) w k (at_or_after i k w a e miss) (omega arith) e))
]

-- `__builtin_ctzll(w)` is the lowest set bit of a word that has one.
pub ctzll-IsBottom : (w k : ℕ) → k < 64 → test_bit w k ≡ true → IsBottom 0 64 w (ctzll w)
unfolding ctzll
ctzll-IsBottom w k l e = ctz_from-IsBottom 64 0 w k (omega arith) l e
