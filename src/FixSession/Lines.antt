-- ===== src/FixSession/Lines.antt =====
-- What the parser makes of a line of `tag=value` fields.
use trading_simulation.Prelude.{
  ℕ, zero, suc, ◌<◌, ◌≡◌, refl, ◌∙◌, List, [], ◌∷◌, ◌++◌, none, some, arith, length, length-append,
  Option-cases, inl, inr,
}
use trading_simulation.Prelude.Int.{ℤ}
use trading_simulation.Order.{Order}
use trading_simulation.FixSession.{
  break_at, until, set_field, parse_fields, stamped, parse_fix_line,
}
use trading_simulation.FixSession.Scan.{
  Lacks, break_at-separator, break_at_passes, until-separator, until-end, length-until,
}

-- A field: its tag and its value.
abbrev pub Field : Type 0
Field = List ℕ × List ℕ

-- The line with these fields: `tag=value|tag=value`.
abbrev pub render : List Field → List ℕ
render [] = []
render ((tag, val) ∷ []) = tag ++ 61 ∷ val
render ((tag, val) ∷ f ∷ fs) = tag ++ 61 ∷ (val ++ 124 ∷ render (f ∷ fs))

-- The tag has no `=` and the value no `|`.
abbrev pub IsFields : List Field → Type 0
IsFields [] = Unit
IsFields ((tag, val) ∷ fs) = Lacks 61 tag × Lacks 124 val × IsFields fs

module _ {D : Type 0} (atof : List ℕ → D) where
  -- The fields stored one after the other.
  abbrev pub store_fields : Order D → List Field → Order D
  store_fields o [] = o
  store_fields o ((tag, val) ∷ fs) = store_fields (set_field atof o tag val) fs

  parse_round :
      (fuel : ℕ) (o : Order D) (p tag rest : List ℕ)
      → break_at 61 p ≡ some (tag, rest)
      → parse_fields atof (suc fuel) o p
        ≡ parse_fields atof fuel (set_field atof o tag (until 124 rest).0) (until 124 rest).1
  unfolding parse_fields break_at
  parse_round fuel o [] tag rest e = cc
  parse_round fuel o (c ∷ cs) tag rest e = ground (arith, e)

  parse_end : (fuel : ℕ) (o : Order D) → parse_fields atof (suc fuel) o [] ≡ some o
  unfolding parse_fields
  parse_end fuel o = refl

  parse_stop :
      (fuel : ℕ) (o : Order D) (p : List ℕ)
      → break_at 61 p ≡ none
      → parse_fields atof (suc fuel) o p ≡ some o
  unfolding parse_fields
  parse_stop fuel o [] e = refl
  parse_stop fuel o (c ∷ cs) e = ground (arith, e)

  pub parse_fields-render :
      (fuel : ℕ) (o : Order D) (fs : List Field)
      → IsFields fs
      → length (render fs) < fuel
      → parse_fields atof fuel o (render fs) ≡ some (store_fields o fs)
  parse_fields-render zero o fs h l = absurd (omega arith)
  parse_fields-render (suc fuel) o [] h l = parse_end fuel o
  parse_fields-render (suc zero) o ((tag, val) ∷ []) h l =
      absurd (omega (arith, length-append tag (61 ∷ val)))
  parse_fields-render (suc (suc fuel)) o ((tag, val) ∷ []) h l =
      parse_round (suc fuel) o _ tag val (break_at-separator 61 tag val h.0)
      ∙ rw (until-end 124 val h.1) (parse_end fuel _)
  parse_fields-render (suc fuel) o ((tag, val) ∷ f ∷ fs) h l =
      let rest = render (f ∷ fs) in
      parse_round fuel o _ tag (val ++ 124 ∷ rest) (break_at-separator 61 tag _ h.0)
      ∙ rw (until-separator 124 val rest h.1) (
          parse_fields-render fuel _ (f ∷ fs) h.2 (
            omega (
              arith,
              length-append tag (61 ∷ (val ++ 124 ∷ rest)),
              length-append val (124 ∷ rest),
            )))

  -- A line of fields whose tags have no `=` and whose values have no `|` is read as those fields, each
  -- stored in turn into the stamped order.
  pub parse_fix_line-render :
      (z : D) (now : ℤ) (fs : List Field)
      → IsFields fs
      → parse_fix_line atof z now (render fs) ≡ some (store_fields (stamped z now) fs)
  unfolding parse_fix_line
  parse_fix_line-render z now fs h =
      parse_fields-render (suc (length (render fs))) (stamped z now) fs h (omega arith)

  pub parse_fields_ends :
      (fuel : ℕ) (o : Order D) (p : List ℕ)
      → length p < fuel
      → (o' : Order D) × (parse_fields atof fuel o p ≡ some o')
  parse_fields_ends zero o p l = absurd (omega arith)
  parse_fields_ends (suc fuel) o p l = elim (Option-cases (break_at 61 p)) [
    | inl e ↦ (o, parse_stop fuel o p e)
    | inr ((tag, rest), e) ↦
        let (o', f) =
          parse_fields_ends fuel (set_field atof o tag (until 124 rest).0) (until 124 rest).1
            (omega (arith, break_at_passes 61 p tag rest e, length-until 124 rest)) in
        (o', parse_round fuel o p tag rest e ∙ f)
  ]

  -- Every line of bytes, well formed or not, is parsed to an order.
  pub parse_fix_line_ends :
      (z : D) (now : ℤ) (line : List ℕ) → (o : Order D) × (parse_fix_line atof z now line ≡ some o)
  unfolding parse_fix_line
  parse_fix_line_ends z now line =
      parse_fields_ends (suc (length line)) (stamped z now) line (omega arith)
