-- ===== src/StringMap.antt =====
-- Strings and the maps whose keys are strings, as `PositionManager`, `RiskEngine` and
-- `InstrumentStore` use them. A `std::string` is the list of its bytes, and a map the list of its
-- entries, in the order in which they were made.
use trading_simulation.Prelude.{
  ℕ, ◌&&◌, ◌≡◌, refl, sym, ap, ◌∙◌, inl, inr, List, [], ◌∷◌, Option, none, some, Bool, true, false,
  arith, ◌==◌, if◌then◌else◌, Bool-cases, ==_refl,
}

-- `==` on strings.
abbrev pub eqb_list : List ℕ → List ℕ → Bool
eqb_list [] [] = true
eqb_list [] (y ∷ ys) = false
eqb_list (x ∷ xs) [] = false
eqb_list (x ∷ xs) (y ∷ ys) = (x == y) && eqb_list xs ys

-- `std::string` of a `char` array: the bytes before the terminator.
unfoldable pub c_string : List ℕ → List ℕ
c_string [] = []
c_string (c ∷ cs) = let rest = c_string cs in if c == 0 then [] else c ∷ rest

-- `find`
unfoldable pub lookup : {V : Type 0} → List ℕ → List (List ℕ × V) → Option V
lookup key [] = none
lookup key ((k, v) ∷ rest) = let later = lookup key rest in if eqb_list k key then some v else later

-- A write to the entry of a key; a missing entry is made.
unfoldable pub assign : {V : Type 0} → List ℕ → V → List (List ℕ × V) → List (List ℕ × V)
assign key v [] = (key, v) ∷ []
assign key v ((k, w) ∷ rest) =
    let later = assign key v rest in if eqb_list k key then (k, v) ∷ rest else (k, w) ∷ later

pub eqb_list_refl : (xs : List ℕ) → eqb_list xs xs ≡ true
eqb_list_refl [] = refl
eqb_list_refl (y ∷ ys) = rw (==_refl y, eqb_list_refl ys)

pub eqb_list-eq : (xs ys : List ℕ) → eqb_list xs ys ≡ true → xs ≡ ys
eqb_list-eq [] [] e = refl
eqb_list-eq [] (y ∷ ys) e = cc
eqb_list-eq (y ∷ ys) [] e = cc
eqb_list-eq (y ∷ ys) (z ∷ zs) e = ground (arith, e, eqb_list-eq ys zs)

pub lookup-assign_self :
    {V : Type 0} (s : List ℕ) (v : V) (ps : List (List ℕ × V)) → lookup s (assign s v ps) ≡ some v
unfolding lookup assign
lookup-assign_self s v [] = rw (eqb_list_refl s)
lookup-assign_self s v ((k, w) ∷ rest) = elim (Bool-cases (eqb_list k s)) [
  | inl e ↦ rw (e, e)
  | inr e ↦ rw (e, e) (lookup-assign_self s v rest)
]

pub lookup-assign_other :
    {V : Type 0} (s k : List ℕ) (v : V) (ps : List (List ℕ × V))
    → eqb_list s k ≡ false
    → lookup k (assign s v ps) ≡ lookup k ps
unfolding lookup assign
lookup-assign_other s k v [] n = rw n
lookup-assign_other s k v ((j, w) ∷ rest) n = elim (Bool-cases (eqb_list j s)) [
  | inl e ↦
      let differs : eqb_list j k ≡ false = ap (λ i. eqb_list i k) (eqb_list-eq j s e) ∙ n in
      rw (e, differs)
  | inr e ↦ rw (e) (ap (λ r. if eqb_list j k then some w else r) (lookup-assign_other s k v rest n))
]

pub lookup-assign_same :
    {V : Type 0} (s k : List ℕ) (v : V) (ps : List (List ℕ × V))
    → eqb_list s k ≡ true
    → lookup k (assign s v ps) ≡ some v
lookup-assign_same s k v ps e =
    ap (λ i. lookup i (assign s v ps)) (sym (eqb_list-eq s k e)) ∙ lookup-assign_self s v ps
