-- ===== src/VolatilitySurface.antt =====
-- libs/volatility_surface: `VolatilitySurface` (include/vol_surface.h and src/vol_surface.cpp). A
-- `std::map` is the list of its entries in the order of the keys. A file is the list of its bytes; one
-- that cannot be opened reads as an empty one. `stod` and `stoi` are parameters.
pub mod Full
pub mod Nearest
use trading_simulation.Prelude.{
  ℕ, zero, suc, ◌<◌, List, [], ◌∷◌, ◌++◌, Option, none, some, Bool, true, false, if◌then◌else◌, ltb,
  length,
}
use trading_simulation.Prelude.Int.{ℤ, pos, ltb_ℤ}
use trading_simulation.Csv.{pieces, behind_header}
use trading_simulation.Result.{Result, ok, throw, out_of_range, ◌>>=◌, number}
use trading_simulation.Double.{Double}

module _ {K V : Type 0} (before : K → K → Bool) where
  -- `map[key] = value`
  unfoldable pub insert : K → V → List (K × V) → List (K × V)
  insert key v [] = (key, v) ∷ []
  insert key v ((k, w) ∷ rest) =
      let later = insert key v rest in
      if before k key
      then (k, w) ∷ later
      else if before key k
      then (key, v) ∷ (k, w) ∷ rest
      else (k, v) ∷ rest

  -- `find`
  unfoldable pub find : K → List (K × V) → Option V
  find key [] = none
  find key ((k, w) ∷ rest) =
      let later = find key rest in
      if before k key then later else if before key k then none else some w

  -- `lower_bound`, and one back from the end: the first entry at or above the key, or the last. An
  -- empty map has none.
  unfoldable pub snap : K → List (K × V) → Option (K × V)
  snap key [] = none
  snap key ((k, w) ∷ []) = some (k, w)
  snap key ((k, w) ∷ e ∷ rest) =
      let later = snap key (e ∷ rest) in if before k key then later else some (k, w)

-- `volatilities_`
abbrev pub Surface : Type 0 → Type 0
Surface D = List (D × List (ℤ × D))

-- What `volatilities_[strike]` finds or makes.
abbrev pub inner_of : {D : Type 0} → Option (List (ℤ × D)) → List (ℤ × D)
inner_of none = []
inner_of (some m) = m

module _ (F : Double) where
  open F use {Carrier as D, decimal, lt}

  -- A line of the file with at least three fields, which are read already.
  unfoldable pub load_row : Surface D → D × ℤ × D → Surface D
  load_row surface (strike, expiry, vol) =
      insert lt strike (insert ltb_ℤ expiry vol (inner_of (find lt strike surface))) surface

  -- No row of the map is empty: `none` at the second step would be a read before its beginning.
  unfoldable pub get_vol : Surface D → D → ℤ → Option D
  get_vol surface strike expiry = elim (snap lt strike surface) [
    | none ↦ some (decimal 20 2)
    | some (k, row) ↦ (elim (snap ltb_ℤ expiry row) [ none ↦ none | some (e, vol) ↦ some vol ])
  ]

  module _ (stod : List ℕ → Option D) (stoi : List ℕ → Option ℤ) where
    -- The fields of a line: with fewer than three it is passed over.
    unfoldable pub parse_row : List (List ℕ) → Result (Option (D × ℤ × D))
    parse_row (strike_text ∷ expiry_text ∷ vol_text ∷ rest) = do
      strike ← number (stod strike_text)
      expiry ← number (stoi expiry_text)
      vol ← number (stod vol_text)
      ok (some (strike, expiry, vol))
    parse_row fields = ok none

    abbrev pub with_row : Surface D → Option (D × ℤ × D) → Surface D
    with_row surface none = surface
    with_row surface (some row) = load_row surface row

    -- The lines behind the header: the surface, and how the loading ends.
    unfoldable pub load_surface_lines : Surface D → List (List ℕ) → Surface D × Result (Unit {0})
    load_surface_lines surface [] = (surface, ok tt)
    load_surface_lines surface (line ∷ lines) = elim (parse_row (pieces 44 line)) [
      | ok row ↦ load_surface_lines (with_row surface row) lines
      | throw e ↦ (surface, throw e)
      | out_of_range ↦ (surface, out_of_range)
    ]

    -- `loadFromCSV`
    unfoldable pub load_surface : Surface D → List ℕ → Surface D × Result (Unit {0})
    load_surface surface file = load_surface_lines surface (behind_header (pieces 10 file))
