-- ===== src/SpscQueue/Ring.antt =====
-- Going round a ring of `capacity` slots: the items between two indices.
use native.Mathlib.Nat.{mod-eq_of_lt, mod_self}
use trading_simulation.Prelude.{
  ℕ, zero, suc, ◌+◌, ◌-◌, ◌%◌, ◌^◌, ◌≡◌, ◌≢◌, ◌≤◌, ◌<◌, refl, ap, ap₂, inl, inr, List, [], ◌∷◌,
  ◌++◌, arith, leb, ◌==◌, if◌then◌else◌, update, update_ne, length, ℕ-cases,
}
use trading_simulation.SpscQueue.{following}

-- The index behind `i`.
abbrev pub succ_in : ℕ → ℕ → ℕ
succ_in capacity i = if suc i == capacity then 0 else suc i

-- The steps from `h` to `t`.
abbrev pub distance : ℕ → ℕ → ℕ → ℕ
distance capacity h t = if leb h t then t - h else capacity - h + t

-- No `size_t` addition wraps, and the remainder only takes the last index to 0.
pub following-succ_in :
    (capacity i : ℕ) → i < capacity → capacity ≤ 2 ^ 63 → following capacity i ≡ succ_in capacity i
following-succ_in capacity i h small = elim (ℕ-cases (suc i) capacity) [
  | inl e ↦
      let whole : (i + 1) % 2 ^ 64 ≡ capacity = omega arith in
      rw whole (ground (arith, mod_self capacity))
  | inr n ↦
      let whole : (i + 1) % 2 ^ 64 ≡ suc i = omega arith in
      rw whole (ground (arith, mod-eq_of_lt {n = suc i} {m = capacity} (omega arith)))
]

module _ {A : Type 0} (capacity : ℕ) where
  -- The `n` items from index `h` on.
  abbrev pub window : (ℕ → A) → ℕ → ℕ → List A
  window buffer h zero = []
  window buffer h (suc n) = buffer h ∷ window buffer (succ_in capacity h) n

  pub length-window : (buffer : ℕ → A) (h n : ℕ) → length (window buffer h n) ≡ n
  length-window buffer h zero = refl
  length-window buffer h (suc n) = ap suc (length-window buffer (succ_in capacity h) n)

  -- A write at the far end is not among the items.
  pub window-update :
      (buffer : ℕ → A) (v : A) (t n h : ℕ)
      → h < capacity
      → t < capacity
      → distance capacity h t ≡ n
      → window (update buffer t v) h n ≡ window buffer h n
  window-update buffer v t zero h hh ht e = refl
  window-update buffer v t (suc n) h hh ht e =
      ap₂ ◌∷◌ (update_ne buffer t h v (ground arith))
        (window-update buffer v t n (succ_in capacity h) (ground arith) ht (ground arith))

  -- One item more.
  pub window_snoc :
      (buffer : ℕ → A) (t n h : ℕ)
      → h < capacity
      → t < capacity
      → distance capacity h t ≡ n
      → window buffer h (suc n) ≡ window buffer h n ++ buffer t ∷ []
  window_snoc buffer t zero h hh ht e = ap (λ i. buffer i ∷ []) (ground arith)
  window_snoc buffer t (suc n) h hh ht e =
      ap (λ xs. buffer h ∷ xs)
        (window_snoc buffer t n (succ_in capacity h) (ground arith) ht (ground arith))

module _ (capacity h t : ℕ) (hh : h < capacity) (ht : t < capacity) where
  pub distance_grow :
      succ_in capacity t ≢ h
      → distance capacity h (succ_in capacity t) ≡ suc (distance capacity h t)
  distance_grow n = ground arith

  pub distance_shrink :
      h ≢ t → distance capacity h t ≡ suc (distance capacity (succ_in capacity h) t)
  distance_shrink n = ground arith

  pub distance_full : succ_in capacity t ≡ h → suc (distance capacity h t) ≡ capacity
  distance_full n = ground arith

  pub distance_room : succ_in capacity t ≢ h → suc (distance capacity h t) < capacity
  distance_room n = ground arith
