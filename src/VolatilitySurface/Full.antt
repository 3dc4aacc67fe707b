-- ===== src/VolatilitySurface/Full.antt =====
-- The volatility surface always has an answer.
use trading_simulation.Prelude.{
  ℕ, ◌≡◌, refl, inl, inr, List, [], ◌∷◌, Option, none, some, Bool, arith, Bool-cases,
}
use trading_simulation.Prelude.Int.{ℤ, ltb_ℤ}
use trading_simulation.Double.{Double}
use trading_simulation.Csv.{pieces, behind_header}
use trading_simulation.Result.{Result-cases}
use trading_simulation.VolatilitySurface.{
  insert, snap, Surface, load_row, with_row, parse_row, load_surface_lines, load_surface, get_vol,
}

-- A list with an entry.
abbrev pub IsCons : {A : Type 0} → List A → Type 0
IsCons {A} xs = (x : A) × (ys : List A) × (xs ≡ x ∷ ys)

-- Every row has an entry.
abbrev pub IsFull : {D : Type 0} → Surface D → Type 0
IsFull [] = Unit
IsFull ((k, row) ∷ rest) = IsCons row × IsFull rest

module _ {K V : Type 0} (before : K → K → Bool) where
  pub insert-IsCons : (key : K) (v : V) (xs : List (K × V)) → IsCons (insert before key v xs)
  unfolding insert
  insert-IsCons key v [] = (_, _, refl)
  insert-IsCons key v ((k, w) ∷ rest) = elim (Bool-cases (before k key)) [
    | inl e ↦ rw e (_, _, refl)
    | inr e ↦ elim (Bool-cases (before key k)) [
      | inl f ↦ rw (e, f) (_, _, refl)
      | inr f ↦ rw (e, f) (_, _, refl)
    ]
  ]

  snap-some :
      (key : K) (e : K × V) (rest : List (K × V))
      → (r : K × V) × (snap before key (e ∷ rest) ≡ some r)
  unfolding snap
  snap-some key (k, w) [] = (_, refl)
  snap-some key (k, w) (e ∷ rest) = elim (Bool-cases (before k key)) [
    | inl b ↦ let (r, f) = snap-some key e rest in (r, rw b f)
    | inr b ↦ ((k, w), rw b)
  ]

module _ (F : Double) where
  insert-IsFull :
      (key : F.Carrier) (row : List (ℤ × F.Carrier)) (xs : Surface F.Carrier)
      → IsCons row
      → IsFull xs
      → IsFull (insert F.lt key row xs)
  unfolding insert
  insert-IsFull key row [] r h = (r, tt)
  insert-IsFull key row ((k, w) ∷ rest) r h = elim (Bool-cases (F.lt k key)) [
    | inl e ↦ rw e (h.0, insert-IsFull key row rest r h.1)
    | inr e ↦ elim (Bool-cases (F.lt key k)) [
      | inl f ↦ rw (e, f) (r, h)
      | inr f ↦ rw (e, f) (r, h.1)
    ]
  ]

  snap-IsFull :
      (key : F.Carrier) (e : F.Carrier × List (ℤ × F.Carrier)) (rest : Surface F.Carrier)
      → IsFull (e ∷ rest)
      → (r : F.Carrier × List (ℤ × F.Carrier)) × (snap F.lt key (e ∷ rest) ≡ some r) × IsCons r.1
  unfolding snap
  snap-IsFull key (k, w) [] h = ((k, w), refl, h.0)
  snap-IsFull key (k, w) (f ∷ rest) h = elim (Bool-cases (F.lt k key)) [
    | inl b ↦ let (r, e, c) = snap-IsFull key f rest h.1 in (r, rw b e, c)
    | inr b ↦ ((k, w), rw b, h.0)
  ]

  load_row-IsFull :
      (surface : Surface F.Carrier) (row : F.Carrier × ℤ × F.Carrier)
      → IsFull surface
      → IsFull (load_row F surface row)
  unfolding load_row
  load_row-IsFull surface (strike, expiry, vol) h =
      insert-IsFull strike _ surface (insert-IsCons ltb_ℤ expiry vol _) h

  module _ (stod : List ℕ → Option F.Carrier) (stoi : List ℕ → Option ℤ) where
    with_row-IsFull :
        (surface : Surface F.Carrier) (row : Option (F.Carrier × ℤ × F.Carrier))
        → IsFull surface
        → IsFull (with_row F stod stoi surface row)
    with_row-IsFull surface none h = h
    with_row-IsFull surface (some row) h = load_row-IsFull surface row h

    load_surface_lines-IsFull :
        (surface : Surface F.Carrier) (lines : List (List ℕ))
        → IsFull surface
        → IsFull (load_surface_lines F stod stoi surface lines).0
    unfolding load_surface_lines
    load_surface_lines-IsFull surface [] h = h
    load_surface_lines-IsFull surface (line ∷ lines) h =
        elim (Result-cases (parse_row F stod stoi (pieces 44 line))) [
          | inl (row, e) ↦
              rw (e, load_surface_lines)
                (load_surface_lines-IsFull (with_row F stod stoi surface row) lines
                  (with_row-IsFull surface row h))
          | inr (inl (x, e)) ↦ rw (e, load_surface_lines) h
          | inr (inr e) ↦ rw (e, load_surface_lines) h
        ]

    -- Whatever the file, the surface that is loaded has no empty row.
    pub load_surface-IsFull : (file : List ℕ) → IsFull (load_surface F stod stoi [] file).0
    unfolding load_surface
    load_surface-IsFull file = load_surface_lines-IsFull [] (behind_header (pieces 10 file)) tt

  -- The volatility at a strike and an expiry, where the surface has full rows.
  row_vol :
      (surface : Surface F.Carrier) (strike k : F.Carrier) (expiry : ℤ) (row : List (ℤ × F.Carrier))
      → snap F.lt strike surface ≡ some (k, row)
      → IsCons row
      → (vol : F.Carrier) × (get_vol F surface strike expiry ≡ some vol)
  unfolding get_vol
  row_vol surface strike k expiry row e (x, xs, c) =
      let ((j, vol), f) = snap-some ltb_ℤ expiry x xs in (vol, ground (arith, e, c, f))

  empty_vol : (strike : F.Carrier) (expiry : ℤ) → get_vol F [] strike expiry ≡ some (F.decimal 20 2)
  unfolding get_vol snap
  empty_vol strike expiry = refl

  pub get_vol_answers :
      (surface : Surface F.Carrier) (strike : F.Carrier) (expiry : ℤ)
      → IsFull surface
      → (vol : F.Carrier) × (get_vol F surface strike expiry ≡ some vol)
  get_vol_answers [] strike expiry h = (_, empty_vol strike expiry)
  get_vol_answers (e ∷ rest) strike expiry h =
      let ((k, row), f, c) = snap-IsFull strike e rest h in
      row_vol (e ∷ rest) strike k expiry row f c
