-- ===== src/VolatilitySurface/Nearest.antt =====
-- Which entry of a row `getVol` snaps to.
use trading_simulation.Prelude.{
  ◌≡◌, refl, sym, ap, subst, fun_ext, ◌∙◌, ◌⊎◌, inl, inr, List, [], ◌∷◌, Option, none, some, true,
  false, arith, if◌then◌else◌, Bool-cases, All,
}
use trading_simulation.Prelude.Int.{ℤ, ltb_ℤ, eqb_ℤ, ◌≤ℤ◌, ◌<ℤ◌}
use trading_simulation.Double.{Double}
use trading_simulation.VolatilitySurface.{insert, find, snap, Surface, get_vol}
use trading_simulation.VolatilitySurface.Full.{insert-IsCons}

module _ {V : Type 0} where
  -- The entries stand in the order of their keys.
  abbrev pub IsSorted : List (ℤ × V) → Type 0
  IsSorted [] = Unit
  IsSorted ((k, w) ∷ rest) = All (λ e. k <ℤ e.0) rest × IsSorted rest

  insert-above :
      (k key : ℤ) (v : V) (xs : List (ℤ × V))
      → k <ℤ key
      → All (λ e. k <ℤ e.0) xs
      → All (λ e. k <ℤ e.0) (insert ltb_ℤ key v xs)
  unfolding insert
  insert-above k key v [] l h = (l, tt)
  insert-above k key v ((j, w) ∷ rest) l h = elim (Bool-cases (ltb_ℤ j key)) [
    | inl e ↦ rw e (h.0, insert-above k key v rest l h.1)
    | inr e ↦ elim (Bool-cases (ltb_ℤ key j)) [ inl f ↦ rw (e, f) (l, h) | inr f ↦ rw (e, f) h ]
  ]

  All-later :
      (k j : ℤ) (xs : List (ℤ × V)) → k <ℤ j → All (λ e. j <ℤ e.0) xs → All (λ e. k <ℤ e.0) xs
  All-later k j [] l h = tt
  All-later k j (x ∷ xs) l h = (omega (arith, h.0), All-later k j xs l h.1)

  insert-IsSorted :
      (key : ℤ) (v : V) (xs : List (ℤ × V)) → IsSorted xs → IsSorted (insert ltb_ℤ key v xs)
  unfolding insert
  insert-IsSorted key v [] h = (tt, tt)
  insert-IsSorted key v ((j, w) ∷ rest) h = elim (Bool-cases (ltb_ℤ j key)) [
    | inl e ↦ rw e (insert-above j key v rest (ground arith) h.0, insert-IsSorted key v rest h.1)
    | inr e ↦ elim (Bool-cases (ltb_ℤ key j)) [
      | inl f ↦ let l : key <ℤ j = ground arith in rw (e, f) ((l, All-later key j rest l h.0), h)
      | inr f ↦ rw (e, f) h
    ]
  ]

  -- The row that a list of settings makes, the latest first in the list.
  abbrev pub row_of : List (ℤ × V) → List (ℤ × V)
  row_of [] = []
  row_of ((k, v) ∷ settings) = insert ltb_ℤ k v (row_of settings)

  row_of-IsSorted : (settings : List (ℤ × V)) → IsSorted (row_of settings)
  row_of-IsSorted [] = tt
  row_of-IsSorted ((k, v) ∷ settings) =
      insert-IsSorted k v (row_of settings) (row_of-IsSorted settings)

  -- What was last set at a key.
  abbrev pub last_set : ℤ → List (ℤ × V) → Option V
  last_set key [] = none
  last_set key ((k, v) ∷ settings) = if eqb_ℤ k key then some v else last_set key settings

  find-above : (key : ℤ) (xs : List (ℤ × V)) → All (λ e. key <ℤ e.0) xs → find ltb_ℤ key xs ≡ none
  unfolding find
  find-above key [] h = refl
  find-above key ((k, w) ∷ rest) h =
      let up : ltb_ℤ k key ≡ false = ground (arith, h.0) in
      let down : ltb_ℤ key k ≡ true = ground (arith, h.0) in rw (up, down)

  find-insert :
      (key k : ℤ) (v : V) (xs : List (ℤ × V))
      → IsSorted xs
      → find ltb_ℤ key (insert ltb_ℤ k v xs) ≡ (if eqb_ℤ k key then some v else find ltb_ℤ key xs)
  unfolding find insert
  find-insert key k v [] h = ground arith
  find-insert key k v ((j, w) ∷ rest) h = ground (arith, find-insert key k v rest h.1)

  find-row_of :
      (key : ℤ) (settings : List (ℤ × V)) → find ltb_ℤ key (row_of settings) ≡ last_set key settings
  unfolding find
  find-row_of key [] = refl
  find-row_of key ((k, v) ∷ settings) =
      find-insert key k v (row_of settings) (row_of-IsSorted settings)
      ∙ ap (λ o. if eqb_ℤ k key then some v else o) (find-row_of key settings)

  find-lt :
      (k key : ℤ) (v : V) (xs : List (ℤ × V))
      → All (λ e. k <ℤ e.0) xs
      → find ltb_ℤ key xs ≡ some v
      → k <ℤ key
  unfolding find
  find-lt k key v [] h e = cc
  find-lt k key v ((j, w) ∷ rest) h e = elim (Bool-cases (ltb_ℤ j key)) [
    | inl f ↦ ground (arith, h.0)
    | inr f ↦ elim (Bool-cases (ltb_ℤ key j)) [
      | inl g ↦ ground (arith, e, f, g)
      | inr g ↦ ground (arith, h.0)
    ]
  ]

  -- `key` snaps to the entry `r`: looking up its key gives its value, and its key is the least of
  -- the keys at or above `key`, or the greatest of all where none is.
  abbrev pub SnapsTo : (ℤ → Option V) → ℤ → ℤ × V → Type 0
  SnapsTo look key r =
      (look r.0 ≡ some r.1)
      × (((key ≤ℤ r.0) × ((k : ℤ) (v : V) → look k ≡ some v → key ≤ℤ k → r.0 ≤ℤ k))
          ⊎ ((r.0 <ℤ key) × ((k : ℤ) (v : V) → look k ≡ some v → k ≤ℤ r.0)))

  find-first : (k : ℤ) (w : V) (rest : List (ℤ × V)) → find ltb_ℤ k ((k, w) ∷ rest) ≡ some w
  unfolding find
  find-first k w rest = ground arith

  find-ge :
      (k key : ℤ) (w v : V) (rest : List (ℤ × V))
      → find ltb_ℤ key ((k, w) ∷ rest) ≡ some v
      → k ≤ℤ key
  unfolding find
  find-ge k key w v rest e = ground (arith, e)

  find-only : (k key : ℤ) (w v : V) → find ltb_ℤ key ((k, w) ∷ []) ≡ some v → key ≤ℤ k
  unfolding find
  find-only k key w v e = ground (arith, e)

  find-rest :
      (k key : ℤ) (w : V) (rest : List (ℤ × V))
      → k <ℤ key
      → find ltb_ℤ key ((k, w) ∷ rest) ≡ find ltb_ℤ key rest
  unfolding find
  find-rest k key w rest l = ground arith

  first-SnapsTo :
      (key k : ℤ) (w : V) (rest : List (ℤ × V))
      → key ≤ℤ k
      → SnapsTo (λ q. find ltb_ℤ q ((k, w) ∷ rest)) key (k, w)
  first-SnapsTo key k w rest l = (find-first k w rest, inl (l, λ q v e m. find-ge k q w v rest e))

  rest-SnapsTo :
      (key k : ℤ) (w : V) (rest : List (ℤ × V)) (r : ℤ × V)
      → k <ℤ key
      → All (λ e. k <ℤ e.0) rest
      → SnapsTo (λ q. find ltb_ℤ q rest) key r
      → SnapsTo (λ q. find ltb_ℤ q ((k, w) ∷ rest)) key r
  rest-SnapsTo key k w rest r l h (at, inl (above, least)) = (
    find-rest k r.0 w rest (find-lt k r.0 r.1 rest h at) ∙ at,
    inl (above, λ q v e m. least q v (sym (find-rest k q w rest (omega (arith, l, m))) ∙ e) m),
  )
  rest-SnapsTo key k w rest r l h (at, inr (below, greatest)) =
      let over = find-lt k r.0 r.1 rest h at in
      (
        find-rest k r.0 w rest over ∙ at,
        inr (
          below,
          λ q v e. elim (Bool-cases (ltb_ℤ k q)) [
            | inl f ↦
                let up : k <ℤ q = ground (arith, f) in
                greatest q v (sym (find-rest k q w rest up) ∙ e)
            | inr f ↦ let down : q ≤ℤ k = ground (arith, f) in omega (arith, down, over)
          ],
        ),
      )

  snap-SnapsTo :
      (key : ℤ) (e : ℤ × V) (rest : List (ℤ × V))
      → IsSorted (e ∷ rest)
      → (r : ℤ × V) × (snap ltb_ℤ key (e ∷ rest) ≡ some r)
        × SnapsTo (λ q. find ltb_ℤ q (e ∷ rest)) key r
  unfolding snap
  snap-SnapsTo key (k, w) [] h = elim (Bool-cases (ltb_ℤ k key)) [
    | inl f ↦
        let l : k <ℤ key = ground (arith, f) in
        ((k, w), refl, (find-first k w [], inr (l, λ q v e. find-only k q w v e)))
    | inr f ↦ let l : key ≤ℤ k = ground (arith, f) in ((k, w), refl, first-SnapsTo key k w [] l)
  ]
  snap-SnapsTo key (k, w) (e ∷ rest) h = elim (Bool-cases (ltb_ℤ k key)) [
    | inl f ↦
        let l : k <ℤ key = ground (arith, f) in
        let (r, g, near) = snap-SnapsTo key e rest h.1 in
        (r, rw f g, rest-SnapsTo key k w (e ∷ rest) r l h.0 near)
    | inr f ↦
        let l : key ≤ℤ k = ground (arith, f) in ((k, w), rw f, first-SnapsTo key k w (e ∷ rest) l)
  ]

  snap-row_of :
      (key : ℤ) (setting : ℤ × V) (settings : List (ℤ × V))
      → (r : ℤ × V) × (snap ltb_ℤ key (row_of (setting ∷ settings)) ≡ some r)
        × SnapsTo (λ q. last_set q (setting ∷ settings)) key r
  snap-row_of key (k, v) settings =
      let (e, rest, whole) = insert-IsCons ltb_ℤ k v (row_of settings) in
      let sorted = subst IsSorted whole (row_of-IsSorted ((k, v) ∷ settings)) in
      let (r, found, near) = snap-SnapsTo key e rest sorted in
      let look : (λ q. find ltb_ℤ q (e ∷ rest)) ≡ (λ q. last_set q ((k, v) ∷ settings)) =
        fun_ext (λ q. ap (find ltb_ℤ q) (sym whole) ∙ find-row_of q ((k, v) ∷ settings)) in
      (r, ap (snap ltb_ℤ key) whole ∙ found, subst (λ f. SnapsTo f key r) look near)

-- Where the row that a strike snaps to was made by settings of an expiry to a volatility, one at least,
-- `getVol` answers with the volatility last set at the least expiry at or above the one asked for, or, where
-- none is, at the greatest expiry; so not always at the nearest.
pub get_vol-row_of :
    (F : Double) (surface : Surface F.Carrier) (strike k : F.Carrier) (expiry : ℤ)
    (setting : ℤ × F.Carrier) (settings : List (ℤ × F.Carrier))
    → snap F.lt strike surface ≡ some (k, row_of (setting ∷ settings))
    → (r : ℤ × F.Carrier) × (get_vol F surface strike expiry ≡ some r.1)
      × SnapsTo (λ q. last_set q (setting ∷ settings)) expiry r
unfolding get_vol
get_vol-row_of F surface strike k expiry setting settings row =
    let (r, found, near) = snap-row_of expiry setting settings in
    (r, ground (arith, row, found), near)
