-- ===== src/Tests/Reference.antt =====
-- The theorems on the reference data and the volatility rows, each at a concrete input.
use trading_simulation.Prelude.{
  ℕ, zero, suc, ◌+◌, ◌*◌, ◌-◌, ◌/◌, ◌%◌, ◌^◌, ◌<◌, ◌≡◌, ◌≢◌, refl, ap, ◌∙◌, List, [], ◌∷◌, ◌++◌,
  Option, none, some, false, arith, All, length, replicate,
}
use trading_simulation.Prelude.Int.{ℤ, pos}
use trading_simulation.Prelude.Text.{codes}
use trading_simulation.Result.{ok, throw, missing_symbol}
use trading_simulation.StringMap.{lookup}
use trading_simulation.Csv.{pieces}
use trading_simulation.InstrumentStore.{
  AssetClass, OptionType, OptionStyle, Instrument, is_blank, trim, trim_start, trim_end,
  parse_fields, parse_line, load_lines, load_from_csv,
}
use trading_simulation.InstrumentStore.Trim.{trim-NoBlank}
use trading_simulation.InstrumentStore.Load.{stored, load_lines-failure}
use trading_simulation.InstrumentStore.Print.{digits, IsField}
use trading_simulation.InstrumentStore.RoundTrip.{
  Reads, IsPrintable, print_file, print_line, parse_line-print, load_from_csv-print,
}
use trading_simulation.VolatilitySurface.{snap, insert, Surface, get_vol}
use trading_simulation.VolatilitySurface.Nearest.{row_of, last_set, SnapsTo, get_vol-row_of}
use trading_simulation.Tests.Fixed.{fixed}

-- Volatilities for 30 and 60 days at one strike.
abbrev two_expiries : Surface ℤ
two_expiries = (pos 100, row_of ((pos 60, pos 8) ∷ (pos 30, pos 7) ∷ [])) ∷ []

get_vol-row_of_example :
    (r : ℤ × ℤ) × (get_vol fixed two_expiries (pos 90) (pos 31) ≡ some r.1)
    × SnapsTo (λ q. last_set q ((pos 60, pos 8) ∷ (pos 30, pos 7) ∷ [])) (pos 31) r
unfolding snap
get_vol-row_of_example =
    get_vol-row_of fixed two_expiries (pos 90) (pos 100) (pos 31) (pos 60, pos 8)
      ((pos 30, pos 7) ∷ []) refl

-- 31 days are next to 30, and get what was set for 60.
get_vol_above : get_vol fixed two_expiries (pos 90) (pos 31) ≡ some (pos 8)
unfolding get_vol snap insert
get_vol_above = refl

-- Numbers in strokes, in the place of `double`.
abbrev stroke : ℕ → List ℕ
stroke n = 73 ∷ replicate n 73

abbrev strokes : List ℕ → Option ℕ
strokes [] = none
strokes (c ∷ cs) = some (length cs)

-- A reader of decimal digits, in the place of `stoi`.
abbrev decimal : ℕ → List ℕ → ℕ
decimal n [] = n
decimal n (c ∷ cs) = decimal (n * 10 + (c - 48)) cs

abbrev stoi : List ℕ → Option ℤ
stoi [] = none
stoi (c ∷ cs) = some (pos (decimal 0 (c ∷ cs)))

decimal-append : (n c : ℕ) (xs : List ℕ) → decimal n (xs ++ c ∷ []) ≡ decimal n xs * 10 + (c - 48)
decimal-append n c [] = refl
decimal-append n c (x ∷ xs) = decimal-append (n * 10 + (x - 48)) c xs

decimal-digits : (w n : ℕ) → n < 10 ^ w → decimal 0 (digits w n) ≡ n
decimal-digits zero n h = omega (arith, h)
decimal-digits (suc w) n h =
    decimal-append 0 (48 + n % 10) (digits w (n / 10))
    ∙ ap (λ d. d * 10 + (48 + n % 10 - 48)) (decimal-digits w (n / 10) (omega (arith, h)))
    ∙ omega arith

stoi-cons : (xs : List ℕ) (c : ℕ) → stoi (xs ++ c ∷ []) ≡ some (pos (decimal 0 (xs ++ c ∷ [])))
stoi-cons [] c = refl
stoi-cons (x ∷ xs) c = refl

length-replicate : (n : ℕ) → length {A = ℕ} (replicate n 73) ≡ n
length-replicate zero = refl
length-replicate (suc n) = ap suc (length-replicate n)

All-replicate : (P : ℕ → Type 0) (n : ℕ) → P 73 → All P (replicate n 73)
All-replicate P zero h = tt
All-replicate P (suc n) h = (h, All-replicate P n h)

stroke-IsField : (n : ℕ) → IsField (stroke n)
stroke-IsField n = record {
  trimmed = trim-NoBlank (stroke n) (refl, All-replicate (λ c. is_blank c ≡ false) n refl);
  no_comma = (omega arith, All-replicate (λ c. c ≢ 44) n (omega arith));
  no_newline = (omega arith, All-replicate (λ c. c ≢ 10) n (omega arith));
}

stoi-digits : (w n : ℕ) → 0 < w → n < 10 ^ w → stoi (digits w n) ≡ some (pos n)
stoi-digits zero n p h = absurd (omega (arith, p))
stoi-digits (suc w) n p h =
    stoi-cons (digits w (n / 10)) (48 + n % 10)
    ∙ ap (λ d. some (pos d)) (decimal-digits (suc w) n h)

reads : Reads strokes stoi stroke
reads = record {
  reads = λ n. ap some (length-replicate n);
  shown = stroke-IsField;
  not_empty = λ n. (73, replicate n 73, refl);
  whole = λ w n p h fits. stoi-digits w n p h;
}

abbrev share : Instrument ℕ
share = record {
  symbol = codes "AAPL";
  description = codes "Apple Inc";
  asset_class = AssetClass.equity;
  currency = codes "USD";
  tick_size = 1;
  contract_size = 1;
  strike = none;
  option_type = none;
  option_style = none;
  underlying = none;
  expiry = none;
}

abbrev call_option : Instrument ℕ
call_option = record {
  symbol = codes "AAPL_C";
  description = codes "a call";
  asset_class = AssetClass.option;
  currency = codes "USD";
  tick_size = 1;
  contract_size = 3;
  strike = some 4;
  option_type = some OptionType.call;
  option_style = some OptionStyle.american;
  underlying = some (codes "AAPL");
  expiry = some (record { year = pos 2025; month = 1; day = 17 });
}

share-IsPrintable : IsPrintable share
unfolding trim trim_start trim_end
share-IsPrintable = record {
  symbol = record { trimmed = refl; no_comma = omega arith; no_newline = omega arith };
  named = λ e. cc;
  description = record { trimmed = refl; no_comma = omega arith; no_newline = omega arith };
  currency = record { trimmed = refl; no_comma = omega arith; no_newline = omega arith };
  typed = tt;
  styled = tt;
  underlying = tt;
  expiry = tt;
}

call_option-IsPrintable : IsPrintable call_option
unfolding trim trim_start trim_end
call_option-IsPrintable = record {
  symbol = record { trimmed = refl; no_comma = omega arith; no_newline = omega arith };
  named = λ e. cc;
  description = record { trimmed = refl; no_comma = omega arith; no_newline = omega arith };
  currency = record { trimmed = refl; no_comma = omega arith; no_newline = omega arith };
  typed = tt;
  styled = tt;
  underlying =
      (record { trimmed = refl; no_comma = omega arith; no_newline = omega arith }, λ e. cc);
  expiry = (2025, refl, omega arith, omega arith, omega arith);
}

abbrev header : List ℕ
header = codes "symbol,description"

load_from_csv-print_example :
    let (store, out) =
      load_from_csv strokes stoi []
        (print_file strokes stoi stroke reads header (share ∷ call_option ∷ [])) in
    (out ≡ ok tt) × (lookup (codes "AAPL_C") store ≡ some call_option)
load_from_csv-print_example =
    load_from_csv-print strokes stoi stroke reads [] header (share ∷ call_option ∷ [])
      (codes "AAPL_C") (omega arith) (share-IsPrintable, (call_option-IsPrintable, tt))

abbrev lines : List (List ℕ)
lines = print_line strokes stoi stroke reads share ∷ []

no_symbol : parse_line strokes stoi 3 (codes ",x") ≡ throw (missing_symbol 3)
unfolding parse_line parse_fields pieces trim trim_start trim_end
no_symbol = refl

load_lines-failure_example :
    load_lines strokes stoi 1 [] (lines ++ codes ",x" ∷ codes "B" ∷ [])
    ≡ (stored [] (share ∷ []), throw (missing_symbol 3))
load_lines-failure_example =
    load_lines-failure strokes stoi 1 [] lines (share ∷ []) (codes ",x") (throw (missing_symbol 3))
      (codes "B" ∷ [])
      ((λ n. parse_line-print strokes stoi stroke reads n share share-IsPrintable), tt) no_symbol
