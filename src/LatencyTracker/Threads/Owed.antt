-- ===== src/LatencyTracker/Threads/Owed.antt =====
-- The tracker's counters, with what the threads inside `record` still owe them, are those of the samples.
use trading_simulation.Prelude.{
  ℕ, ◌+◌, ◌%◌, ◌^◌, ◌≤◌, ◌<◌, ◌≡◌, ◌⊎◌, inl, inr, refl, sym, subst, arith, List, [], ◌∷◌, update,
  update_at, update_ne, ℕ-cases, length, All,
}
use trading_simulation.Prelude.Family.{sum_of, sum_of-update}
use trading_simulation.Prelude.Int.{ℤ}
use trading_simulation.Word64.{word_mod}
use trading_simulation.LatencyTracker.{LatencyTracker, int64_max}
use trading_simulation.LatencyTracker.Samples.{count_in, total, max_of, min_of, noted}
use trading_simulation.LatencyTracker.Threads.{
  Place, outside, add_bucket, load_max, load_min, swap_max, swap_min, add_count, add_sum,
}
use trading_simulation.LatencyTracker.Threads.Moves.{
  owed_count, owed_bucket, owed_sum, owed_max, owed_min, Knows, InWords, Pays,
}

-- The samples of the calls.
abbrev pub sampled : List ℤ → List ℕ
sampled [] = []
sampled (ns ∷ calls) = noted ns (sampled calls)

abbrev pub IsSample : ℕ → Type 0
IsSample x = (0 < x) × (x < 2 ^ 63)

module _ (n : ℕ) where
  pub record Owed (t : LatencyTracker) (f : ℕ → Place) (xs : List ℕ) : Type 0 where
    pub known : (i : ℕ) → Knows t (f i)
    pub in_words : InWords t
    pub counted : (t.count + sum_of owed_count n f) % word_mod ≡ length xs % word_mod
    pub bucketed :
        (b : ℕ) → (t.buckets b + sum_of (owed_bucket b) n f) % word_mod ≡ count_in b xs % word_mod
    pub summed : (t.sum_ns + sum_of owed_sum n f) % word_mod ≡ total xs % word_mod
    pub max_in : t.max_ns ≤ max_of xs
    pub max_owed : (i : ℕ) → owed_max (f i) ≤ max_of xs
    pub max_covered : (max_of xs ≤ t.max_ns) ⊎ ((i : ℕ) × (i < n) × (max_of xs ≤ owed_max (f i)))
    pub min_in : min_of xs ≤ t.min_ns
    pub min_small : t.min_ns ≤ int64_max
    pub min_owed : (i : ℕ) → min_of xs ≤ owed_min (f i)
    pub min_covered : (t.min_ns ≤ min_of xs) ⊎ ((i : ℕ) × (i < n) × (owed_min (f i) ≤ min_of xs))
    pub samples : All IsSample xs

  -- What a thread knows stays true while the maximum grows and the minimum falls.
  Knows-later :
      (t t' : LatencyTracker) (p : Place)
      → t.max_ns ≤ t'.max_ns
      → t'.min_ns ≤ t.min_ns
      → Knows t p
      → Knows t' p
  Knows-later t t' (add_bucket x) g l k = k
  Knows-later t t' (swap_max x cur) g l k = omega (arith, g, k)
  Knows-later t t' (swap_min x cur) g l k = omega (arith, l, k)
  Knows-later t t' outside g l k = tt
  Knows-later t t' (add_count x) g l k = tt
  Knows-later t t' (add_sum x) g l k = tt
  Knows-later t t' (load_max x) g l k = tt
  Knows-later t t' (load_min x) g l k = tt

  -- A property of every member of a family, after an update.
  pub all_updated :
      (B : Place → Type 0) (f : ℕ → Place) (i : ℕ) (p : Place)
      → B p
      → ((j : ℕ) → B (f j))
      → (j : ℕ) → B (update f i p j)
  all_updated B f i p b h j = elim (ℕ-cases j i) [
    | inl e ↦ subst B (sym (update_at f i j p e)) b
    | inr d ↦ subst B (sym (update_ne f i j p d)) (h j)
  ]

  -- A counter after a step.
  settles :
      (w : Place → ℕ) (c c' k i : ℕ) (f : ℕ → Place) (p : Place)
      → i < n
      → (c + sum_of w n f) % word_mod ≡ k % word_mod
      → (c' + w p) % word_mod ≡ (c + w (f i)) % word_mod
      → (c' + sum_of w n (update f i p)) % word_mod ≡ k % word_mod
  settles w c c' k i f p l h m = omega (arith, h, m, sum_of-update w n i f p l)

  min_of-le : (xs : List ℕ) → min_of xs ≤ int64_max
  min_of-le [] = omega arith
  min_of-le (x ∷ xs) = ground (arith, min_of-le xs)

  -- A member with a property, after an update that keeps it or reaches a goal.
  pub some_updated :
      {G : Type 0} (B : Place → Type 0) (f : ℕ → Place) (i : ℕ) (p : Place)
      → (B (f i) → G ⊎ B p)
      → i < n
      → ((j : ℕ) × (j < n) × B (f j))
      → G ⊎ ((j : ℕ) × (j < n) × B (update f i p j))
  some_updated B f i p b l (j, m, h) = elim (ℕ-cases j i) [
    | inl e ↦ elim (b (subst (λ k. B (f k)) e h)) [
      | inl g ↦ inl g
      | inr c ↦ inr (i, l, subst B (sym (update_at f i i p refl)) c)
    ]
    | inr d ↦ inr (j, m, subst B (sym (update_ne f i j p d)) h)
  ]

  pub move-Owed :
      (t t' : LatencyTracker) (f : ℕ → Place) (i : ℕ) (p : Place) (xs : List ℕ)
      → i < n
      → Pays t (f i) t' p
      → Owed t f xs
      → Owed t' (update f i p) xs
  move-Owed t t' f i p xs l m o = record {
    known =
        all_updated (Knows t') f i p m.knows
          (λ j. Knows-later t t' (f j) m.max_grows m.min_falls (o.known j));
    in_words = m.in_words o.in_words;
    counted = settles owed_count t.count t'.count (length xs) i f p l o.counted m.counted;
    bucketed = λ b.
        settles (owed_bucket b) (t.buckets b) (t'.buckets b) (count_in b xs) i f p l (o.bucketed b)
          (m.bucketed b);
    summed = settles owed_sum t.sum_ns t'.sum_ns (total xs) i f p l o.summed m.summed;
    max_in = elim m.max_from [
      | inl e ↦ omega (arith, e, o.max_in)
      | inr e ↦ omega (arith, e, o.max_owed i)
    ];
    max_owed =
        all_updated (λ q. owed_max q ≤ max_of xs) f i p (omega (arith, m.max_owed, o.max_owed i))
          o.max_owed;
    max_covered = elim o.max_covered [
      | inl h ↦ inl (omega (arith, h, m.max_grows))
      | inr c ↦
          some_updated (λ q. max_of xs ≤ owed_max q) f i p
            (λ h. elim m.max_paid [
              | inl a ↦ inl (omega (arith, a, h))
              | inr a ↦ inr (omega (arith, a, h))
            ])
            l c
    ];
    min_in = elim m.min_from [
      | inl e ↦ omega (arith, e, o.min_in)
      | inr e ↦ omega (arith, e, o.min_owed i)
    ];
    min_small = omega (arith, m.min_falls, o.min_small);
    min_owed =
        all_updated (λ q. min_of xs ≤ owed_min q) f i p
          (elim m.min_owed [ inl h ↦ omega (arith, h, o.min_owed i) | inr e ↦ rw e (min_of-le xs) ])
          o.min_owed;
    min_covered = elim o.min_covered [
      | inl h ↦ inl (omega (arith, h, m.min_falls))
      | inr c ↦
          some_updated (λ q. owed_min q ≤ min_of xs) f i p
            (λ h. elim m.min_paid [
              | inl a ↦ inl (omega (arith, a, h))
              | inr a ↦ inr (omega (arith, a, h))
            ])
            l c
    ];
    samples = o.samples;
  }
