-- ===== src/Result.antt =====
-- How a loader of reference data ends: with a value, by an exception of the source, or by a read
-- outside a vector, which the language leaves undefined.
use trading_simulation.Prelude.{
  ℕ, ◌≡◌, ◌⊎◌, inl, inr, refl, List, Option, none, some, Bool, true, false,
}

-- The exceptions, with what their messages name; `bad_number` is thrown by `stod` and `stoi`.
pub data Exception : Type 0 where
  missing_symbol : ℕ → Exception
  unknown_asset_class : List ℕ → Exception
  unknown_option_type : List ℕ → Exception
  unknown_option_style : List ℕ → Exception
  instrument_not_found : List ℕ → Exception
  bad_number : Exception

pub data Result {ℓ} (A : Type ℓ) : Type ℓ where
  ok : A → Result A
  throw : Exception → Result A
  out_of_range : Result A

infixl 5 ◌>>=◌
abbrev pub ◌>>=◌ {ℓ κ} : {A : Type ℓ} {B : Type κ} → Result A → (A → Result B) → Result B
ok a >>= f = f a
throw e >>= f = throw e
out_of_range >>= f = out_of_range

-- `fields[i]`
abbrev pub at_index : {A : Type 0} → Option A → Result A
at_index none = out_of_range
at_index (some a) = ok a

-- `stod` and `stoi`
abbrev pub number : {A : Type 0} → Option A → Result A
number none = throw bad_number
number (some a) = ok a

abbrev pub require : Bool → Exception → Result (Unit {0})
require true e = ok tt
require false e = throw e

-- To split on a result and keep the equation.
pub Result-cases :
    {A : Type 0} (r : Result A)
    → ((a : A) × (r ≡ ok a)) ⊎ (((e : Exception) × (r ≡ throw e)) ⊎ (r ≡ out_of_range))
Result-cases (ok a) = inl (a, refl)
Result-cases (throw e) = inr (inl (e, refl))
Result-cases out_of_range = inr (inr refl)
