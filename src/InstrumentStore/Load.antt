-- ===== src/InstrumentStore/Load.antt =====
-- What the store holds after a file is loaded.
use trading_simulation.Prelude.{
  ℕ, suc, ◌+◌, length, subst, ◌≡◌, refl, ap, ◌∙◌, inl, inr, List, [], ◌∷◌, ◌++◌, Option, some,
  arith, if◌then◌else◌, Bool-cases,
}
use trading_simulation.Prelude.Int.{ℤ}
use trading_simulation.Result.{Result, ok, throw, out_of_range}
use trading_simulation.StringMap.{eqb_list, lookup, assign, lookup-assign_same, lookup-assign_other}
use trading_simulation.Csv.{pieces}
use trading_simulation.InstrumentStore.{Instrument, Store, parse_fields, parse_line, load_lines}

-- The store with the instruments put in one after the other.
abbrev pub stored : {D : Type 0} → Store D → List (Instrument D) → Store D
stored store [] = store
stored store (inst ∷ insts) = stored (assign inst.symbol inst store) insts

-- The last of the instruments with a symbol, and what was there where none has it.
abbrev pub latest :
    {D : Type 0} → List ℕ → Option (Instrument D) → List (Instrument D) → Option (Instrument D)
latest s before [] = before
latest s before (inst ∷ insts) =
    latest s (if eqb_list inst.symbol s then some inst else before) insts

module _ {D : Type 0} where
  lookup-assign :
      (s : List ℕ) (inst : Instrument D) (store : Store D)
      → lookup s (assign inst.symbol inst store)
        ≡ (if eqb_list inst.symbol s then some inst else lookup s store)
  lookup-assign s inst store = elim (Bool-cases (eqb_list inst.symbol s)) [
    | inl e ↦ rw e (lookup-assign_same inst.symbol s inst store e)
    | inr e ↦ rw e (lookup-assign_other inst.symbol s inst store e)
  ]

  pub lookup-stored :
      (s : List ℕ) (store : Store D) (insts : List (Instrument D))
      → lookup s (stored store insts) ≡ latest s (lookup s store) insts
  lookup-stored s store [] = refl
  lookup-stored s store (inst ∷ insts) =
      lookup-stored s (assign inst.symbol inst store) insts
      ∙ ap (λ o. latest s o insts) (lookup-assign s inst store)

module _ {D : Type 0} (stod : List ℕ → Option D) (stoi : List ℕ → Option ℤ) where
  -- Each line is read as the instrument beside it, whatever its number.
  abbrev pub AreLines : List (List ℕ) → List (Instrument D) → Type 0
  AreLines [] [] = Unit
  AreLines [] (inst ∷ insts) = ⊥
  AreLines (line ∷ lines) [] = ⊥
  AreLines (line ∷ lines) (inst ∷ insts) =
      ((n : ℕ) → parse_line stod stoi n line ≡ ok inst) × AreLines lines insts

  -- A line that fails with the number `n`, and how.
  abbrev pub Fails : ℕ → List ℕ → Result (Unit {0}) → Type 0
  Fails n line (ok u) = ⊥
  Fails n line (throw e) = parse_line stod stoi n line ≡ throw e
  Fails n line out_of_range = parse_line stod stoi n line ≡ out_of_range

  load_step :
      (n : ℕ) (store : Store D) (line : List ℕ) (lines : List (List ℕ)) (inst : Instrument D)
      → parse_line stod stoi (suc n) line ≡ ok inst
      → load_lines stod stoi n store (line ∷ lines)
        ≡ load_lines stod stoi (suc n) (assign inst.symbol inst store) lines
  unfolding load_lines
  load_step n store line lines inst e = ground (arith, e)

  pub load_lines-stored :
      (n : ℕ) (store : Store D) (lines : List (List ℕ)) (insts : List (Instrument D))
      → AreLines lines insts
      → load_lines stod stoi n store lines ≡ (stored store insts, ok tt)
  unfolding load_lines
  load_lines-stored n store [] [] h = refl
  load_lines-stored n store [] (inst ∷ insts) h = absurd h
  load_lines-stored n store (line ∷ lines) [] h = absurd h
  load_lines-stored n store (line ∷ lines) (inst ∷ insts) h =
      load_step n store line lines inst (h.0 (suc n))
      ∙ load_lines-stored (suc n) (assign inst.symbol inst store) lines insts h.1

  load_stop :
      (n : ℕ) (store : Store D) (line : List ℕ) (lines : List (List ℕ)) (r : Result (Unit {0}))
      → Fails (suc n) line r
      → load_lines stod stoi n store (line ∷ lines) ≡ (store, r)
  unfolding load_lines
  load_stop n store line lines (ok u) h = absurd h
  load_stop n store line lines (throw e) h = ground (arith, h)
  load_stop n store line lines out_of_range h = ground (arith, h)

  -- Lines that are read, before one that fails at its number: the store has the instruments of the
  -- lines before it, the loading ends as that line does, and the lines behind it do not count.
  pub load_lines-failure :
      (n : ℕ) (store : Store D) (lines : List (List ℕ)) (insts : List (Instrument D)) (bad : List ℕ)
      (r : Result (Unit {0})) (behind : List (List ℕ))
      → AreLines lines insts
      → Fails (suc (n + length lines)) bad r
      → load_lines stod stoi n store (lines ++ bad ∷ behind) ≡ (stored store insts, r)
  load_lines-failure n store [] [] bad r behind h f =
      load_stop n store bad behind r (subst (λ m. Fails m bad r) (omega arith) f)
  load_lines-failure n store [] (inst ∷ insts) bad r behind h f = absurd h
  load_lines-failure n store (line ∷ lines) [] bad r behind h f = absurd h
  load_lines-failure n store (line ∷ lines) (inst ∷ insts) bad r behind h f =
      load_step n store line (lines ++ bad ∷ behind) inst (h.0 (suc n))
      ∙ load_lines-failure (suc n) (assign inst.symbol inst store) lines insts bad r behind h.1
          (subst (λ m. Fails m bad r) (omega arith) f)

  -- The first trimmed field of an empty line does not exist.
  parse_line-nil : (n : ℕ) → parse_line stod stoi n [] ≡ out_of_range
  unfolding parse_line parse_fields pieces
  parse_line-nil n = refl

  -- An empty line after lines that are read ends the loading with a read outside a vector.
  pub load_lines-empty :
      (n : ℕ) (store : Store D) (lines : List (List ℕ)) (insts : List (Instrument D))
      (behind : List (List ℕ))
      → AreLines lines insts
      → load_lines stod stoi n store (lines ++ [] ∷ behind) ≡ (stored store insts, out_of_range)
  load_lines-empty n store lines insts behind h =
      load_lines-failure n store lines insts [] out_of_range behind h
        (parse_line-nil (suc (n + length lines)))
