-- ===== src/Csv.antt =====
-- Reading text as libs/reference-data/src/instrument_store.cpp and
-- libs/volatility_surface/src/vol_surface.cpp do: `getline` to the end of the text.
use trading_simulation.Prelude.{
  ℕ, ◌≡◌, ◌≢◌, List, [], ◌∷◌, ◌++◌, ◌==◌, if◌then◌else◌, All, ==_refl, ==_ne,
}

-- The pieces that `while (getline(stream, piece, c))` reads: a separator at the end starts no piece.
abbrev pub onto_first : ℕ → List (List ℕ) → List (List ℕ)
onto_first x [] = (x ∷ []) ∷ []
onto_first x (p ∷ ps) = (x ∷ p) ∷ ps

unfoldable pub pieces : ℕ → List ℕ → List (List ℕ)
pieces c [] = []
pieces c (x ∷ xs) = let rest = pieces c xs in if x == c then [] ∷ rest else onto_first x rest

-- The lines behind the first, which holds the names of the columns.
abbrev pub behind_header : List (List ℕ) → List (List ℕ)
behind_header [] = []
behind_header (header ∷ lines) = lines

-- The byte is not in the text.
abbrev pub Lacks : ℕ → List ℕ → Type 0
Lacks c xs = All (λ x. x ≢ c) xs

pub pieces-separator :
    (c : ℕ) (xs ys : List ℕ) → Lacks c xs → pieces c (xs ++ c ∷ ys) ≡ xs ∷ pieces c ys
unfolding pieces
pieces-separator c [] ys h = rw (==_refl c)
pieces-separator c (x ∷ xs) ys h = rw (==_ne x c h.0, pieces-separator c xs ys h.1)

-- The last piece, if it has a byte.
pub pieces-last : (c x : ℕ) (xs : List ℕ) → Lacks c (x ∷ xs) → pieces c (x ∷ xs) ≡ (x ∷ xs) ∷ []
unfolding pieces
pieces-last c x [] h = rw (==_ne x c h.0)
pieces-last c x (y ∷ ys) h = rw (==_ne x c h.0, pieces-last c y ys h.1)
