-- ===== src/FixSession/Scan.antt =====
-- Searching for a separator.
use trading_simulation.Prelude.{
  ℕ, suc, ◌≤◌, ◌<◌, ◌≡◌, ◌≢◌, refl, List, [], ◌∷◌, ◌++◌, none, some, arith, length, All, inl, inr,
  ℕ-cases, Option-cases, ==_refl, ==_ne,
}
use trading_simulation.FixSession.{break_at, until}

-- The byte is not in the list.
abbrev pub Lacks : ℕ → List ℕ → Type 0
Lacks c xs = All (λ x. x ≢ c) xs

pub break_at-separator :
    (c : ℕ) (xs ys : List ℕ) → Lacks c xs → break_at c (xs ++ c ∷ ys) ≡ some (xs, ys)
unfolding break_at
break_at-separator c [] ys h = rw (==_refl c)
break_at-separator c (x ∷ xs) ys h = rw (==_ne x c h.0, break_at-separator c xs ys h.1)

pub until-separator : (c : ℕ) (xs ys : List ℕ) → Lacks c xs → until c (xs ++ c ∷ ys) ≡ (xs, ys)
unfolding until
until-separator c [] ys h = rw (==_refl c)
until-separator c (x ∷ xs) ys h = rw (==_ne x c h.0, until-separator c xs ys h.1)

pub until-end : (c : ℕ) (xs : List ℕ) → Lacks c xs → until c xs ≡ (xs, [])
unfolding until
until-end c [] h = refl
until-end c (x ∷ xs) h = rw (==_ne x c h.0, until-end c xs h.1)

pub length-until : (c : ℕ) (xs : List ℕ) → length (until c xs).1 ≤ length xs
unfolding until
length-until c [] = omega arith
length-until c (x ∷ xs) = elim (ℕ-cases x c) [
  | inl e ↦ rw (e, ==_refl c) (omega arith)
  | inr n ↦ rw (==_ne x c n) (omega (arith, length-until c xs))
]

-- A search that starts at a byte passes it.
pub until_passes : (c x : ℕ) (xs : List ℕ) → length (until c (x ∷ xs)).1 < suc (length xs)
unfolding until
until_passes c x xs = elim (ℕ-cases x c) [
  | inl e ↦ rw (e, ==_refl c) (omega arith)
  | inr n ↦ rw (==_ne x c n) (omega (arith, length-until c xs))
]

pub break_at_passes :
    (c : ℕ) (xs before after : List ℕ)
    → break_at c xs ≡ some (before, after)
    → length after < length xs
unfolding break_at
break_at_passes c [] before after e = cc
break_at_passes c (x ∷ xs) before after e = elim (ℕ-cases x c) [
  | inl same ↦
      let whole : break_at c (x ∷ xs) ≡ some ([], xs) = rw (same, ==_refl c) in
      ground (arith, whole, e)
  | inr n ↦ elim (Option-cases (break_at c xs)) [
    | inl f ↦ let whole : break_at c (x ∷ xs) ≡ none = rw (==_ne x c n, f) in cc (whole, e)
    | inr ((b, a), f) ↦
        let whole : break_at c (x ∷ xs) ≡ some (x ∷ b, a) = rw (==_ne x c n, f) in
        ground (arith, whole, e, break_at_passes c xs b a f)
  ]
]
