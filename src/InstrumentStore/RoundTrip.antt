-- ===== src/InstrumentStore/RoundTrip.antt =====
-- The round trip of a line and of a file.
use trading_simulation.Prelude.{
  ℕ, ◌^◌, ◌<◌, ◌≡◌, ◌≢◌, refl, ap, ◌∙◌, get_elem?, List, [], ◌∷◌, ◌++◌, Option, none, some, arith,
  All,
}
use trading_simulation.Prelude.Int.{ℤ, pos}
use trading_simulation.Csv.{pieces, Lacks, pieces-separator}
use trading_simulation.Result.{ok}
use trading_simulation.StringMap.{lookup}
use trading_simulation.InstrumentStore.{
  optional_number, optional_text, optional_field, Date, Instrument, Store, read_date,
  parse_trimmed_date, parse_date, parse_fields, parse_line, load_from_csv,
}
use trading_simulation.InstrumentStore.Trim.{trim-NoBlank}
use trading_simulation.InstrumentStore.Load.{latest, AreLines, lookup-stored, load_lines-stored}
use trading_simulation.InstrumentStore.Print.{
  All-no_comma, IsDate, IsDateText-NoBlank, IsField, IsName, IsStyled, IsTyped, asset_class_read,
  class_text, class_text-IsField, date-IsField, date_fields, date_text, printed-IsDateText, digits,
  is_nil-ne, join, join-no_newline, map_trim-append, map_trim-date, nil-IsField, option_style_read,
  option_type_read, pieces-date_text, pieces-join, style_text, style_text-IsField, text_or_nil,
  type_text, type_text-IsField,
}

-- What is asked of the library: `stod` reads what the printer writes of a number, which is a field and
-- not empty, and `stoi` reads the decimal digits, zeros in front included, of a number that an int holds.
pub record Reads {D : Type 0} (stod : List ℕ → Option D) (stoi : List ℕ → Option ℤ)
    (show : D → List ℕ) : Type 0 where
  pub reads : (x : D) → stod (show x) ≡ some x
  pub shown : (x : D) → IsField (show x)
  pub not_empty : (x : D) → (c : ℕ) × (cs : List ℕ) × (show x ≡ c ∷ cs)
  pub whole : (w n : ℕ) → 0 < w → n < 10 ^ w → n < 2 ^ 31 → stoi (digits w n) ≡ some (pos n)

-- An instrument that a line can carry.
pub record IsPrintable {D : Type 0} (inst : Instrument D) : Type 0 where
  pub symbol : IsField inst.symbol
  pub named : inst.symbol ≢ []
  pub description : IsField inst.description
  pub currency : IsField inst.currency
  pub typed : IsTyped inst.option_type
  pub styled : IsStyled inst.option_style
  pub underlying : IsName inst.underlying
  pub expiry : IsDate inst.expiry

module _ {D : Type 0} (stod : List ℕ → Option D) (stoi : List ℕ → Option ℤ) (show : D → List ℕ)
    (r : Reads stod stoi show) where
  abbrev pub strike_text : Option D → List ℕ
  strike_text none = []
  strike_text (some x) = show x

  -- The fields in front of the date.
  abbrev pub print_fields : Instrument D → List (List ℕ)
  print_fields inst =
      inst.symbol
      ∷ inst.description
      ∷ class_text inst.asset_class
      ∷ inst.currency
      ∷ show inst.tick_size
      ∷ show inst.contract_size
      ∷ strike_text inst.strike
      ∷ type_text inst.option_type
      ∷ style_text inst.option_style
      ∷ text_or_nil inst.underlying
      ∷ []

  abbrev pub print_line : Instrument D → List ℕ
  print_line inst = join (print_fields inst) (date_text inst.expiry)

  strike_read : (o : Option D) → optional_number stod stoi (some (strike_text o)) ≡ ok o
  strike_read none = refl
  strike_read (some x) = let (c, cs, e) = r.not_empty x in rw e (ground (arith, e, r.reads x))

  underlying_read : (o : Option (List ℕ)) → IsName o → optional_text (some (text_or_nil o)) ≡ o
  underlying_read none h = refl
  underlying_read (some []) h = absurd (h.1 refl)
  underlying_read (some (c ∷ cs)) h = refl

  read_date-text :
      (y m d : ℕ)
      → y < 10000
      → m < 100
      → d < 100
      → read_date stoi (digits 4 y ++ 45 ∷ (digits 2 m ++ 45 ∷ digits 2 d))
        ≡ ok (some (record { year = pos y; month = m; day = d }))
  unfolding read_date
  read_date-text y m d hy hm hd =
      rw
        (
          r.whole 4 y (omega arith) hy (omega arith),
          r.whole 2 m (omega arith) hm (omega arith),
          r.whole 2 d (omega arith) hd (omega arith),
        )
        (ground arith)

  parse_date-text :
      (y m d : ℕ)
      → y < 10000
      → m < 100
      → d < 100
      → parse_date stoi (digits 4 y ++ 45 ∷ (digits 2 m ++ 45 ∷ digits 2 d))
        ≡ ok (some (record { year = pos y; month = m; day = d }))
  unfolding parse_date parse_trimmed_date
  parse_date-text y m d hy hm hd =
      rw
        (trim-NoBlank (digits 4 y ++ 45 ∷ (digits 2 m ++ 45 ∷ digits 2 d)) (
          IsDateText-NoBlank (digits 4 y ++ 45 ∷ (digits 2 m ++ 45 ∷ digits 2 d))
            (printed-IsDateText y m d)))
        (read_date-text y m d hy hm hd)

  date_read :
      (o : Option Date)
      → IsDate o
      → optional_field (parse_date stoi) (get_elem? (date_fields o) 0) ≡ ok o
  date_read none h = refl
  date_read (some d) (y, e, hy, hm, hd) = rw e (parse_date-text y d.month d.day hy hm hd)

  parse_fields-print :
      (n : ℕ) (inst : Instrument D)
      → IsPrintable inst
      → parse_fields stod stoi n (print_fields inst ++ date_fields inst.expiry) ≡ ok inst
  unfolding parse_fields
  parse_fields-print n inst h = rw (
    is_nil-ne inst.symbol h.named,
    asset_class_read inst.asset_class,
    r.reads inst.tick_size,
    r.reads inst.contract_size,
    strike_read inst.strike,
    option_type_read inst.option_type h.typed,
    option_style_read inst.option_style h.styled,
    underlying_read inst.underlying h.underlying,
    date_read inst.expiry h.expiry,
  )

  IsName-IsField : (o : Option (List ℕ)) → IsName o → IsField (text_or_nil o)
  IsName-IsField none h = nil-IsField
  IsName-IsField (some s) h = h.0

  strike-IsField : (o : Option D) → IsField (strike_text o)
  strike-IsField none = nil-IsField
  strike-IsField (some x) = r.shown x

  fields-IsField : (inst : Instrument D) → IsPrintable inst → All IsField (print_fields inst)
  fields-IsField inst h = (
    h.symbol,
    (
      h.description,
      (
        class_text-IsField inst.asset_class,
        (
          h.currency,
          (
            r.shown inst.tick_size,
            (
              r.shown inst.contract_size,
              (
                strike-IsField inst.strike,
                (
                  type_text-IsField inst.option_type,
                  (
                    style_text-IsField inst.option_style,
                    (IsName-IsField inst.underlying h.underlying, tt),
                  ),
                ),
              ),
            ),
          ),
        ),
      ),
    ),
  )

  pub parse_line-print :
      (n : ℕ) (inst : Instrument D)
      → IsPrintable inst
      → parse_line stod stoi n (print_line inst) ≡ ok inst
  unfolding parse_line
  parse_line-print n inst h =
      rw
        (
          pieces-join (print_fields inst) (date_text inst.expiry)
              (All-no_comma (print_fields inst) (fields-IsField inst h)),
          pieces-date_text inst.expiry h.expiry,
          map_trim-append (print_fields inst) (date_fields inst.expiry) (fields-IsField inst h),
          map_trim-date inst.expiry h.expiry,
        )
        (parse_fields-print n inst h)

  -- A header line, and a line for each instrument.
  abbrev pub print_lines : List (Instrument D) → List ℕ
  print_lines [] = []
  print_lines (inst ∷ insts) = print_line inst ++ 10 ∷ print_lines insts

  abbrev pub print_file : List ℕ → List (Instrument D) → List ℕ
  print_file header insts = header ++ 10 ∷ print_lines insts

  abbrev pub line_list : List (Instrument D) → List (List ℕ)
  line_list [] = []
  line_list (inst ∷ insts) = print_line inst ∷ line_list insts

  pieces-print_lines :
      (insts : List (Instrument D))
      → All IsPrintable insts
      → pieces 10 (print_lines insts) ≡ line_list insts
  unfolding pieces
  pieces-print_lines [] h = refl
  pieces-print_lines (inst ∷ insts) h =
      pieces-separator 10 (print_line inst) (print_lines insts) (
        join-no_newline (print_fields inst) (date_text inst.expiry) (fields-IsField inst h.0)
          (date-IsField inst.expiry h.0.expiry).no_newline)
      ∙ ap (λ ls. print_line inst ∷ ls) (pieces-print_lines insts h.1)

  line_list-AreLines :
      (insts : List (Instrument D))
      → All IsPrintable insts
      → AreLines stod stoi (line_list insts) insts
  line_list-AreLines [] h = tt
  line_list-AreLines (inst ∷ insts) h =
      ((λ n. parse_line-print n inst h.0), line_list-AreLines insts h.1)

  -- A file with any header line and a line for each instrument that a line can carry is loaded to the
  -- end, and each symbol is then looked up as the last instrument written under it, or as what the
  -- store had before where none was, if `stod` reads what was written of a double and `stoi` the digits of
  -- a number that an int holds.
  pub load_from_csv-print :
      (store : Store D) (header : List ℕ) (insts : List (Instrument D)) (s : List ℕ)
      → Lacks 10 header
      → All IsPrintable insts
      → let (store', out) = load_from_csv stod stoi store (print_file header insts) in
        (out ≡ ok tt) × (lookup s store' ≡ latest s (lookup s store) insts)
  unfolding load_from_csv
  load_from_csv-print store header insts s no_newline h =
      rw
        (
          pieces-separator 10 header (print_lines insts) no_newline,
          pieces-print_lines insts h,
          load_lines-stored stod stoi 1 store (line_list insts) insts (line_list-AreLines insts h),
        )
        (refl, lookup-stored s store insts)
