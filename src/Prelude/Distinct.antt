-- ===== src/Prelude/Distinct.antt =====
-- Lists without repetition: membership, and the pigeonhole bound.
use Prim.Native.Nat.{ℕ, zero, suc, ◌≤◌, ◌<◌}
use mathlib.Core.Path.{◌≡◌, refl}
use mathlib.Core.Logic.{◌≢◌, ◌⊎◌, inl, inr}
use mathlib.Core.Option.{some}
use mathlib.Core.List.{List, [], ◌∷◌, ◌++◌}
use native.Mathlib.Omega.{arith}
use trading_simulation.Prelude.Tests.{◌==◌, if◌then◌else◌, ==_refl, ==_ne, ℕ-cases}
use trading_simulation.Prelude.Lists.{length, last?, ◌∈◌, ◌∉◌, IsDistinct}

-- Every element satisfies `P`.
abbrev pub All : {A : Type 0} → (A → Type 0) → List A → Type 0
All P [] = Unit
All P (x ∷ xs) = P x × All P xs

pub All-of : {A : Type 0} (P : A → Type 0) (xs : List A) → ((x : A) → x ∈ xs → P x) → All P xs
All-of P [] h = tt
All-of P (x ∷ xs) h = (h x (inl refl), All-of P xs (λ y m. h y (inr m)))

pub All_at : {A : Type 0} (P : A → Type 0) (xs : List A) (x : A) → All P xs → x ∈ xs → P x
All_at P [] x h m = absurd m
All_at P (y ∷ xs) x h (inl e) = rw e h.0
All_at P (y ∷ xs) x h (inr m) = All_at P xs x h.1 m

pub All-append :
    {A : Type 0} (P : A → Type 0) (xs ys : List A) → All P xs → All P ys → All P (xs ++ ys)
All-append P [] ys h k = k
All-append P (x ∷ xs) ys h k = (h.0, All-append P xs ys h.1 k)

-- Not being a member, and being none of the members.
pub not_mem_ne : {A : Type 0} (xs : List A) (x y : A) → x ∉ xs → y ∈ xs → x ≢ y
not_mem_ne [] x y n m = absurd m
not_mem_ne (z ∷ xs) x y n (inl e) = λ p. n.0 (rw (p, e))
not_mem_ne (z ∷ xs) x y n (inr m) = not_mem_ne xs x y n.1 m

pub not_mem_of : {A : Type 0} (xs : List A) (x : A) → (x ∈ xs → ⊥) → x ∉ xs
not_mem_of [] x h = tt
not_mem_of (y ∷ xs) x h = ((λ e. h (inl e)), not_mem_of xs x (λ m. h (inr m)))

pub mem_last? : {A : Type 0} (x : A) (xs : List A) (t : A) → last? (x ∷ xs) ≡ some t → t ∈ (x ∷ xs)
mem_last? x [] t e = inl (ground arith)
mem_last? x (y ∷ ys) t e = inr (mem_last? y ys t e)

pub mem_snoc : {A : Type 0} (xs : List A) (x y : A) → y ∈ (xs ++ x ∷ []) → (y ∈ xs) ⊎ (y ≡ x)
mem_snoc [] x y (inl e) = inr e
mem_snoc [] x y (inr m) = absurd m
mem_snoc (z ∷ xs) x y (inl e) = inl (inl e)
mem_snoc (z ∷ xs) x y (inr m) = elim (mem_snoc xs x y m) [ inl a ↦ inl (inr a) | inr b ↦ inr b ]

not_mem_snoc : {A : Type 0} (xs : List A) (x y : A) → y ∉ xs → y ≢ x → y ∉ (xs ++ x ∷ [])
not_mem_snoc [] x y n h = (h, tt)
not_mem_snoc (z ∷ xs) x y n h = (n.0, not_mem_snoc xs x y n.1 h)

pub IsDistinct-snoc :
    {A : Type 0} (xs : List A) (x : A) → IsDistinct xs → x ∉ xs → IsDistinct (xs ++ x ∷ [])
IsDistinct-snoc [] x d n = (tt, tt)
IsDistinct-snoc (y ∷ ys) x d n =
    (not_mem_snoc ys x y d.0 (λ e. n.0 (rw e)), IsDistinct-snoc ys x d.1 n.1)

abbrev remove : ℕ → List ℕ → List ℕ
remove n [] = []
remove n (x ∷ xs) = if x == n then remove n xs else x ∷ remove n xs

remove_absent : (n : ℕ) (xs : List ℕ) → n ∉ xs → remove n xs ≡ xs
remove_absent n [] h = refl
remove_absent n (x ∷ xs) h = ground (arith, h.0, remove_absent n xs h.1)

not_mem_remove : (n x : ℕ) (xs : List ℕ) → x ∉ xs → x ∉ remove n xs
not_mem_remove n x [] h = tt
not_mem_remove n x (y ∷ ys) h = elim (ℕ-cases y n) [
  | inl e ↦ rw (e, ==_refl n) (not_mem_remove n x ys h.1)
  | inr d ↦ rw (==_ne y n d) (h.0, not_mem_remove n x ys h.1)
]

IsDistinct-remove : (n : ℕ) (xs : List ℕ) → IsDistinct xs → IsDistinct (remove n xs)
IsDistinct-remove n [] h = tt
IsDistinct-remove n (x ∷ xs) h = elim (ℕ-cases x n) [
  | inl e ↦ rw (e, ==_refl n) (IsDistinct-remove n xs h.1)
  | inr d ↦ rw (==_ne x n d) (not_mem_remove n x xs h.0, IsDistinct-remove n xs h.1)
]

remove-below : (n : ℕ) (xs : List ℕ) → All (λ x. x < suc n) xs → All (λ x. x < n) (remove n xs)
remove-below n [] h = tt
remove-below n (x ∷ xs) h = elim (ℕ-cases x n) [
  | inl e ↦ rw (e, ==_refl n) (remove-below n xs h.1)
  | inr d ↦ rw (==_ne x n d) (omega (arith, h.0), remove-below n xs h.1)
]

length-remove : (n : ℕ) (xs : List ℕ) → IsDistinct xs → length xs ≤ suc (length (remove n xs))
length-remove n [] h = omega arith
length-remove n (x ∷ xs) h = elim (ℕ-cases x n) [
  | inl e ↦
      let absent : n ∉ xs = rw (← e) h.0 in
      rw (e, ==_refl n, remove_absent n xs absent) (omega arith)
  | inr d ↦ rw (==_ne x n d) (omega (arith, length-remove n xs h.1))
]

-- A list of distinct numbers below `n` has at most `n` of them.
pub length_le_bound : (n : ℕ) (xs : List ℕ) → IsDistinct xs → All (λ x. x < n) xs → length xs ≤ n
length_le_bound zero [] d h = omega arith
length_le_bound zero (x ∷ xs) d h = absurd (omega arith)
length_le_bound (suc n) xs d h = omega (
  arith,
  length-remove n xs d,
  length_le_bound n (remove n xs) (IsDistinct-remove n xs d) (remove-below n xs h),
)
