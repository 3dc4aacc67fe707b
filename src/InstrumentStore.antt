-- ===== src/InstrumentStore.antt =====
-- libs/reference-data: `Instrument` (include/instrument.h) and `InstrumentStore`
-- (include/instrument_store.h and src/instrument_store.cpp). A file is the list of its bytes; one that
-- cannot be opened reads as an empty one. `stod` and `stoi` are parameters: `none` is an exception.
pub mod Trim
pub mod Load
pub mod Print
pub mod RoundTrip
use trading_simulation.Prelude.{
  ℕ, zero, suc, ◌+◌, ◌-◌, ◌%◌, ◌^◌, ◌&&◌, ◌||◌, not, List, [], ◌∷◌, ◌++◌, Option, none, some, Bool,
  true, false, ltb, ◌==◌, if◌then◌else◌, length, get_elem?, take, drop,
}
use trading_simulation.Prelude.Int.{ℤ, pos, negsuc}
use trading_simulation.Prelude.Text.{codes}
use trading_simulation.Csv.{pieces, behind_header}
use trading_simulation.Result.{
  Result, ok, throw, out_of_range, ◌>>=◌, at_index, number, require, missing_symbol,
  unknown_asset_class, unknown_option_type, unknown_option_style, instrument_not_found,
}
use trading_simulation.StringMap.{eqb_list, lookup, assign}

pub data AssetClass : Type 0 where
  equity future option fx : AssetClass

-- `None` of the two enumerations is used by nothing.
pub data OptionType : Type 0 where
  call put unset : OptionType

pub data OptionStyle : Type 0 where
  european american unset : OptionStyle

-- `std::chrono::year_month_day`
pub record Date : Type 0 where
  pub year : ℤ
  pub month : ℕ
  pub day : ℕ

pub record Instrument (D : Type 0) : Type 0 where
  pub symbol : List ℕ
  pub description : List ℕ
  pub asset_class : AssetClass
  pub currency : List ℕ
  pub tick_size : D
  pub contract_size : D
  pub strike : Option D
  pub option_type : Option OptionType
  pub option_style : Option OptionStyle
  pub underlying : Option (List ℕ)
  pub expiry : Option Date

-- `instruments_`
abbrev pub Store : Type 0 → Type 0
Store D = List (List ℕ × Instrument D)

-- One of `" \t\r\n"`.
abbrev pub is_blank : ℕ → Bool
is_blank c = c == 32 || c == 9 || c == 13 || c == 10

abbrev pub is_nil : {A : Type 0} → List A → Bool
is_nil [] = true
is_nil (x ∷ xs) = false

unfoldable pub trim_start : List ℕ → List ℕ
trim_start [] = []
trim_start (c ∷ cs) = let rest = trim_start cs in if is_blank c then rest else c ∷ cs

unfoldable pub trim_end : List ℕ → List ℕ
trim_end [] = []
trim_end (c ∷ cs) = let rest = trim_end cs in if is_blank c && is_nil rest then [] else c ∷ rest

-- From the first byte that is not blank to the last, and nothing where all are.
unfoldable pub trim : List ℕ → List ℕ
trim s = trim_end (trim_start s)

unfoldable pub parse_asset_class : List ℕ → Result AssetClass
parse_asset_class s =
    if eqb_list s (codes "Equity")
    then ok AssetClass.equity
    else if eqb_list s (codes "Future")
    then ok AssetClass.future
    else if eqb_list s (codes "Option")
    then ok AssetClass.option
    else if eqb_list s (codes "FX")
    then ok AssetClass.fx
    else throw (unknown_asset_class s)

unfoldable pub parse_option_type : List ℕ → Result (Option OptionType)
parse_option_type s =
    if is_nil s
    then ok none
    else if eqb_list s (codes "Call")
    then ok (some OptionType.call)
    else if eqb_list s (codes "Put")
    then ok (some OptionType.put)
    else throw (unknown_option_type s)

unfoldable pub parse_option_style : List ℕ → Result (Option OptionStyle)
parse_option_style s =
    if is_nil s
    then ok none
    else if eqb_list s (codes "European")
    then ok (some OptionStyle.european)
    else if eqb_list s (codes "American")
    then ok (some OptionStyle.american)
    else throw (unknown_option_style s)

-- The remainder of an integer by a power of two, as its conversion to an unsigned type has it.
abbrev pub wrap : ℕ → ℤ → ℕ
wrap m (pos n) = n % m
wrap m (negsuc n) = m - 1 - n % m

-- A 16-bit pattern read as a `short`.
abbrev pub short_of : ℕ → ℤ
short_of w = if ltb w (2 ^ 15) then pos w else negsuc (2 ^ 16 - 1 - w)

-- `year{y} / month{m} / day{d}`, which keep 16, 8 and 8 bits.
abbrev pub date_of : ℤ → ℤ → ℤ → Date
date_of y m d = record { year = short_of (wrap (2 ^ 16) y); month = wrap 256 m; day = wrap 256 d }

module _ (stoi : List ℕ → Option ℤ) where
  unfoldable pub read_date : List ℕ → Result (Option Date)
  read_date s = do
    y ← number (stoi (take 4 s))
    m ← number (stoi (take 2 (drop 5 s)))
    d ← number (stoi (take 2 (drop 8 s)))
    ok (some (date_of y m d))

  -- The date in a text that is trimmed.
  unfoldable pub parse_trimmed_date : List ℕ → Result (Option Date)
  parse_trimmed_date s = if is_nil s || ltb (length s) 10 then ok none else read_date s

  unfoldable pub parse_date : List ℕ → Result (Option Date)
  parse_date s = parse_trimmed_date (trim s)

abbrev pub optional_text : Option (List ℕ) → Option (List ℕ)
optional_text none = none
optional_text (some []) = none
optional_text (some (c ∷ cs)) = some (c ∷ cs)

-- `fields.size() > i ? parse(fields[i]) : nullopt`
abbrev pub optional_field :
    {A : Type 0} → (List ℕ → Result (Option A)) → Option (List ℕ) → Result (Option A)
optional_field parse none = ok none
optional_field parse (some s) = parse s

abbrev pub map_trim : List (List ℕ) → List (List ℕ)
map_trim [] = []
map_trim (f ∷ fs) = trim f ∷ map_trim fs

module _ {D : Type 0} (stod : List ℕ → Option D) (stoi : List ℕ → Option ℤ) where
  -- `(fields.size() > i && !fields[i].empty()) ? optional<double>{stod(fields[i])} : nullopt`
  abbrev pub optional_number : Option (List ℕ) → Result (Option D)
  optional_number none = ok none
  optional_number (some []) = ok none
  optional_number (some (c ∷ cs)) = do x ← number (stod (c ∷ cs)); ok (some x)

  -- The body of the loop of `loadFromCSV` on the trimmed fields of line `line_number`.
  unfoldable pub parse_fields : ℕ → List (List ℕ) → Result (Instrument D)
  parse_fields line_number fields = do
    symbol ← at_index (get_elem? fields 0)
    _ ← require (not (is_nil symbol)) (missing_symbol line_number)
    description ← at_index (get_elem? fields 1)
    class_name ← at_index (get_elem? fields 2)
    asset_class ← parse_asset_class class_name
    currency ← at_index (get_elem? fields 3)
    tick_text ← at_index (get_elem? fields 4)
    tick_size ← number (stod tick_text)
    contract_text ← at_index (get_elem? fields 5)
    contract_size ← number (stod contract_text)
    strike ← optional_number (get_elem? fields 6)
    option_type ← optional_field parse_option_type (get_elem? fields 7)
    option_style ← optional_field parse_option_style (get_elem? fields 8)
    expiry ← optional_field (parse_date stoi) (get_elem? fields 10)
    ok (record {
      symbol = symbol;
      description = description;
      asset_class = asset_class;
      currency = currency;
      tick_size = tick_size;
      contract_size = contract_size;
      strike = strike;
      option_type = option_type;
      option_style = option_style;
      underlying = optional_text (get_elem? fields 9);
      expiry = expiry;
    })

  unfoldable pub parse_line : ℕ → List ℕ → Result (Instrument D)
  parse_line line_number line = parse_fields line_number (map_trim (pieces 44 line))

  -- The lines behind the header, `line_number` being the number of the one before: the store with the
  -- lines up to the first that fails, and how the loading ends.
  unfoldable pub load_lines : ℕ → Store D → List (List ℕ) → Store D × Result (Unit {0})
  load_lines line_number store [] = (store, ok tt)
  load_lines line_number store (line ∷ lines) = elim (parse_line (suc line_number) line) [
    | ok inst ↦ load_lines (suc line_number) (assign inst.symbol inst store) lines
    | throw e ↦ (store, throw e)
    | out_of_range ↦ (store, out_of_range)
  ]

  -- `loadFromCSV`
  unfoldable pub load_from_csv : Store D → List ℕ → Store D × Result (Unit {0})
  load_from_csv store file = load_lines 1 store (behind_header (pieces 10 file))

-- `lookup`
unfoldable pub find_instrument : {D : Type 0} → Store D → List ℕ → Result (Instrument D)
find_instrument store symbol = elim (lookup symbol store) [
  | none ↦ throw (instrument_not_found symbol)
  | some inst ↦ ok inst
]

unfoldable pub store_size : {D : Type 0} → Store D → ℕ
store_size store = length store
