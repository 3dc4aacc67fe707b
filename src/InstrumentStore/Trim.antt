-- ===== src/InstrumentStore/Trim.antt =====
-- What `trim` leaves of a text.
use trading_simulation.Prelude.{
  ℕ, ◌≡◌, refl, sym, ap, ◌∙◌, inl, inr, List, [], ◌∷◌, ◌++◌, true, false, ◌&&◌, Option, none, some,
  if◌then◌else◌, last?, All, append_assoc, Bool-cases,
}
use trading_simulation.InstrumentStore.{is_blank, is_nil, trim_start, trim_end, trim}

abbrev pub AllBlank : List ℕ → Type 0
AllBlank xs = All (λ c. is_blank c ≡ true) xs

-- The first byte is not blank, and neither is the last.
abbrev pub StartsTight : List ℕ → Type 0
StartsTight [] = Unit
StartsTight (c ∷ cs) = is_blank c ≡ false

abbrev LastTight : Option ℕ → Type 0
LastTight none = Unit
LastTight (some c) = is_blank c ≡ false

abbrev pub EndsTight : List ℕ → Type 0
EndsTight xs = LastTight (last? xs)

trim_start_lem :
    (s : List ℕ)
    → (pre : List ℕ) × (s ≡ pre ++ trim_start s) × AllBlank pre × StartsTight (trim_start s)
unfolding trim_start
trim_start_lem [] = ([], refl, tt, tt)
trim_start_lem (c ∷ cs) = elim (Bool-cases (is_blank c)) [
  | inl b ↦
      let (pre, e, blank, tight) = trim_start_lem cs in
      (c ∷ pre, rw b (ap (λ xs. c ∷ xs) e), (b, blank), rw b tight)
  | inr b ↦ ([], rw b, tt, rw b b)
]

EndsTight-cons : (c d : ℕ) (ds : List ℕ) → EndsTight (d ∷ ds) → EndsTight (c ∷ d ∷ ds)
EndsTight-cons c d ds h = h

trim_end_cons :
    (c : ℕ) (rest post : List ℕ)
    → AllBlank post
    → EndsTight rest
    → let r = (if is_blank c && is_nil rest then [] else c ∷ rest) in
      (post' : List ℕ) × (c ∷ (rest ++ post) ≡ r ++ post') × AllBlank post' × EndsTight r
trim_end_cons c [] post h t = elim (Bool-cases (is_blank c)) [
  | inl b ↦ rw b (c ∷ post, refl, (b, h), tt)
  | inr b ↦ rw b (post, refl, h, b)
]
trim_end_cons c (d ∷ ds) post h t = elim (Bool-cases (is_blank c)) [
  | inl b ↦ rw b (post, refl, h, t)
  | inr b ↦ rw b (post, refl, h, t)
]

trim_end_lem :
    (s : List ℕ)
    → (post : List ℕ) × (s ≡ trim_end s ++ post) × AllBlank post × EndsTight (trim_end s)
unfolding trim_end
trim_end_lem [] = ([], refl, tt, tt)
trim_end_lem (c ∷ cs) =
    let (post, e, blank, tight) = trim_end_lem cs in
    let (post', f, blank', tight') = trim_end_cons c (trim_end cs) post blank tight in
    (post', ap (λ xs. c ∷ xs) e ∙ f, blank', tight')

StartsTight-prefix : (xs ys : List ℕ) → StartsTight (xs ++ ys) → StartsTight xs
StartsTight-prefix [] ys h = tt
StartsTight-prefix (x ∷ xs) ys h = h

-- `trim` takes blanks off both ends of any text, and only those: what is left starts and ends with a
-- byte that is not blank, if it has one.
pub trim_lem :
    (s : List ℕ)
    → (pre : List ℕ) × (post : List ℕ) × (s ≡ pre ++ trim s ++ post)
      × AllBlank pre
      × AllBlank post
      × StartsTight (trim s)
      × EndsTight (trim s)
unfolding trim
trim_lem s =
    let (pre, e, blank, start) = trim_start_lem s in
    let (post, f, blank', end) = trim_end_lem (trim_start s) in
    (
      pre,
      post,
      e ∙ ap (λ xs. pre ++ xs) f ∙ sym (append_assoc pre (trim_end (trim_start s)) post),
      blank,
      blank',
      StartsTight-prefix (trim_end (trim_start s)) post (rw (← f) start),
      end,
    )

-- A text with no blank is left as it is.
abbrev pub NoBlank : List ℕ → Type 0
NoBlank s = All (λ c. is_blank c ≡ false) s

trim_end-NoBlank : (s : List ℕ) → NoBlank s → trim_end s ≡ s
unfolding trim_end
trim_end-NoBlank [] h = refl
trim_end-NoBlank (c ∷ cs) h = rw (trim_end-NoBlank cs h.1, h.0)

trim_start-NoBlank : (s : List ℕ) → NoBlank s → trim_start s ≡ s
unfolding trim_start
trim_start-NoBlank [] h = refl
trim_start-NoBlank (c ∷ cs) h = rw h.0

pub trim-NoBlank : (s : List ℕ) → NoBlank s → trim s ≡ s
unfolding trim
trim-NoBlank s h = rw (trim_start-NoBlank s h) (trim_end-NoBlank s h)
