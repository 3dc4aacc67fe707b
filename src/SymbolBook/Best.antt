-- ===== src/SymbolBook/Best.antt =====
-- The best ticks when a level is marked or cleared.
use trading_simulation.Prelude.{
  ℕ, ◌≤◌, ◌<◌, ◌≡◌, ◌⊎◌, inl, inr, Bool, true, false, arith, ltb, ◌==◌, if◌then◌else◌, lt-cases,
  Bool-cases,
}
use trading_simulation.Prelude.Int.{ℤ, pos, negsuc, ltb_ℤ}
use trading_simulation.Bitset.{max_ticks}
use trading_simulation.Bitset.Highest.{IsHighest}
use trading_simulation.Bitset.Lowest.{IsLowest}

module _ (p p' : ℕ → Bool) (n t : ℕ)
    (marked : (s : ℕ) → p' s ≡ (if s == t then true else p s)) where
  -- Marking `t` raises the highest tick to `t` where that is above it.
  pub mark-IsHighest :
      (b : ℤ) → t ≤ n → IsHighest p n b → IsHighest p' n (if ltb_ℤ b (pos t) then pos t else b)
  mark-IsHighest (negsuc k) l h =
      let up : ltb_ℤ (negsuc k) (pos t) ≡ true = ground arith in
      rw up (l, ground (arith, marked t), λ j a c. ground (arith, marked j, h.1 j c))
  mark-IsHighest (pos b) l h = elim (Bool-cases (ltb_ℤ (pos b) (pos t))) [
    | inl up ↦
        rw up
          (l, ground (arith, marked t), λ j a c. ground (arith, marked j, h.2 j (ground arith) c))
    | inr same ↦
        rw same (h.0, ground (arith, marked b, h.1), λ j a c. ground (arith, marked j, h.2 j a c))
  ]

  -- Marking `t` lowers the lowest tick to `t` where that is below it.
  pub mark-IsLowest : (a : ℕ) → n ≤ t → IsLowest p n a → IsLowest p' n (if ltb t a then t else a)
  mark-IsLowest a l h = elim (Bool-cases (ltb t a)) [
    | inl down ↦ rw down (
      l,
      inr (ground (arith, marked t)),
      λ j i c. ground (arith, marked j, h.2 j i (ground arith)),
    )
    | inr same ↦ rw same (h.0, kept h.1, λ j i c. ground (arith, marked j, h.2 j i c))
  ]
    where
      kept : (a ≡ max_ticks) ⊎ (p a ≡ true) → (a ≡ max_ticks) ⊎ (p' a ≡ true)
      kept (inl e) = inl e
      kept (inr e) = inr (ground (arith, marked a))

-- Nothing being set between `b` and `n`, the highest tick up to `b` is that up to `n`.
pub extend-IsHighest :
    (p : ℕ → Bool) (b n : ℕ) (r : ℤ)
    → b ≤ n
    → ((j : ℕ) → b < j → j ≤ n → p j ≡ false)
    → IsHighest p b r
    → IsHighest p n r
extend-IsHighest p b n (pos h) l none_above i = (omega (arith, i.0), i.1, rest)
  where
    rest : (j : ℕ) → h < j → j ≤ n → p j ≡ false
    rest j a c = elim (lt-cases b j) [ inl d ↦ none_above j d c | inr d ↦ i.2 j a d ]
extend-IsHighest p b n (negsuc k) l none_above i = (i.0, rest)
  where
    rest : (j : ℕ) → j ≤ n → p j ≡ false
    rest j c = elim (lt-cases b j) [ inl d ↦ none_above j d c | inr d ↦ i.1 j d ]

pub extend-IsLowest :
    (p : ℕ → Bool) (a n r : ℕ)
    → n ≤ a
    → ((j : ℕ) → n ≤ j → j < a → p j ≡ false)
    → IsLowest p a r
    → IsLowest p n r
extend-IsLowest p a n r l none_below i = (omega (arith, i.0), i.1, rest)
  where
    rest : (j : ℕ) → n ≤ j → j < r → p j ≡ false
    rest j b c = elim (lt-cases j a) [ inl d ↦ none_below j b d | inr d ↦ i.2 j d c ]
