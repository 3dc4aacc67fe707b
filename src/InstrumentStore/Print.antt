-- ===== src/InstrumentStore/Print.antt =====
-- A file written from instruments is loaded as those instruments.
use trading_simulation.Prelude.{
  ℕ, zero, suc, ◌+◌, ◌/◌, ◌%◌, ◌≤◌, ◌<◌, ◌≡◌, ◌≢◌, refl, ap, ap₂, All-append, ◌∙◌, List, [], ◌∷◌,
  ◌++◌, Option, none, some, false, arith, All,
}
use trading_simulation.Prelude.Int.{ℤ, pos}
use trading_simulation.Prelude.Text.{codes}
use trading_simulation.Csv.{pieces, Lacks, pieces-separator, pieces-last}
use trading_simulation.Result.{ok}
use trading_simulation.InstrumentStore.{
  is_nil, AssetClass, OptionType, OptionStyle, Date, is_blank, trim, parse_asset_class,
  parse_option_type, parse_option_style, map_trim,
}
use trading_simulation.InstrumentStore.Trim.{trim-NoBlank}

-- The last `w` decimal digits of a number.
abbrev pub digits : ℕ → ℕ → List ℕ
digits zero n = []
digits (suc w) n = digits w (n / 10) ++ (48 + n % 10) ∷ []

abbrev pub class_text : AssetClass → List ℕ
class_text AssetClass.equity = codes "Equity"
class_text AssetClass.future = codes "Future"
class_text AssetClass.option = codes "Option"
class_text AssetClass.fx = codes "FX"

abbrev pub type_text : Option OptionType → List ℕ
type_text none = []
type_text (some OptionType.call) = codes "Call"
type_text (some OptionType.put) = codes "Put"
type_text (some OptionType.unset) = []

abbrev pub style_text : Option OptionStyle → List ℕ
style_text none = []
style_text (some OptionStyle.european) = codes "European"
style_text (some OptionStyle.american) = codes "American"
style_text (some OptionStyle.unset) = []

abbrev pub text_or_nil : Option (List ℕ) → List ℕ
text_or_nil none = []
text_or_nil (some s) = s

-- `YYYY-MM-DD`
abbrev pub year_text : ℤ → List ℕ
year_text (pos y) = digits 4 y
year_text _ = []

abbrev pub date_text : Option Date → List ℕ
date_text none = []
date_text (some d) = year_text d.year ++ 45 ∷ (digits 2 d.month ++ 45 ∷ digits 2 d.day)

-- Fields with a comma behind each, and a last one.
abbrev pub join : List (List ℕ) → List ℕ → List ℕ
join [] last = last
join (f ∷ fs) last = f ++ 44 ∷ join fs last

-- The text of a field: trimmed, with no comma and no end of line.
pub record IsField (s : List ℕ) : Type 0 where
  pub trimmed : trim s ≡ s
  pub no_comma : Lacks 44 s
  pub no_newline : Lacks 10 s

abbrev pub IsTyped : Option OptionType → Type 0
IsTyped (some OptionType.unset) = ⊥
IsTyped _ = Unit

abbrev pub IsStyled : Option OptionStyle → Type 0
IsStyled (some OptionStyle.unset) = ⊥
IsStyled _ = Unit

abbrev pub IsName : Option (List ℕ) → Type 0
IsName none = Unit
IsName (some s) = IsField s × (s ≢ [])

-- A date of four, two and two digits.
abbrev pub IsDate : Option Date → Type 0
IsDate none = Unit
IsDate (some d) = (y : ℕ) × (d.year ≡ pos y) × (y < 10000) × (d.month < 100) × (d.day < 100)

-- Bytes of dates are neither blanks nor commas.
abbrev pub IsDateText : List ℕ → Type 0
IsDateText s = All (λ c. (45 ≤ c) × (c ≤ 57)) s

pub IsDateText-Lacks : (k : ℕ) (s : List ℕ) → k < 45 → IsDateText s → Lacks k s
IsDateText-Lacks k [] l h = tt
IsDateText-Lacks k (c ∷ cs) l h = (ground (arith, h.0), IsDateText-Lacks k cs l h.1)

pub IsDateText-NoBlank : (s : List ℕ) → IsDateText s → All (λ c. is_blank c ≡ false) s
IsDateText-NoBlank [] h = tt
IsDateText-NoBlank (c ∷ cs) h = (ground (arith, h.0), IsDateText-NoBlank cs h.1)

pub IsDateText-IsField : (s : List ℕ) → IsDateText s → IsField s
IsDateText-IsField s h = record {
  trimmed = trim-NoBlank s (IsDateText-NoBlank s h);
  no_comma = IsDateText-Lacks 44 s (omega arith) h;
  no_newline = IsDateText-Lacks 10 s (omega arith) h;
}

pub printed-IsDateText :
    (y m d : ℕ) → IsDateText (digits 4 y ++ 45 ∷ (digits 2 m ++ 45 ∷ digits 2 d))
printed-IsDateText y m d = omega arith

pub pieces-join :
    (fs : List (List ℕ)) (last : List ℕ)
    → All (λ f. Lacks 44 f) fs
    → pieces 44 (join fs last) ≡ fs ++ pieces 44 last
pieces-join [] last h = refl
pieces-join (f ∷ fs) last h =
    pieces-separator 44 f (join fs last) h.0 ∙ ap (λ ps. f ∷ ps) (pieces-join fs last h.1)

pub asset_class_read : (c : AssetClass) → parse_asset_class (class_text c) ≡ ok c
unfolding parse_asset_class
asset_class_read AssetClass.equity = refl
asset_class_read AssetClass.future = refl
asset_class_read AssetClass.option = refl
asset_class_read AssetClass.fx = refl

pub option_type_read : (o : Option OptionType) → IsTyped o → parse_option_type (type_text o) ≡ ok o
unfolding parse_option_type
option_type_read none h = refl
option_type_read (some OptionType.call) h = refl
option_type_read (some OptionType.put) h = refl
option_type_read (some OptionType.unset) h = absurd h

pub option_style_read :
    (o : Option OptionStyle) → IsStyled o → parse_option_style (style_text o) ≡ ok o
unfolding parse_option_style
option_style_read none h = refl
option_style_read (some OptionStyle.european) h = refl
option_style_read (some OptionStyle.american) h = refl
option_style_read (some OptionStyle.unset) h = absurd h

pub is_nil-ne : {A : Type 0} (s : List A) → s ≢ [] → is_nil s ≡ false
is_nil-ne [] n = absurd (n refl)
is_nil-ne (c ∷ cs) n = refl

-- The date behind the last comma, if there is one.
abbrev pub date_fields : Option Date → List (List ℕ)
date_fields none = []
date_fields (some d) = date_text (some d) ∷ []

pub date-IsField : (o : Option Date) → IsDate o → IsField (date_text o)
date-IsField none h = record { trimmed = trim-NoBlank [] tt; no_comma = tt; no_newline = tt }
date-IsField (some d) (y, e, hy, hm, hd) =
    rw e (IsDateText-IsField _ (printed-IsDateText y d.month d.day))

pub pieces-date_text : (o : Option Date) → IsDate o → pieces 44 (date_text o) ≡ date_fields o
unfolding pieces
pieces-date_text none h = refl
pieces-date_text (some d) (y, e, hy, hm, hd) = rw e (
    pieces-last 44 _ _ (
      IsDateText-Lacks 44 (digits 4 y ++ 45 ∷ (digits 2 d.month ++ 45 ∷ digits 2 d.day))
        (omega arith) (printed-IsDateText y d.month d.day)))

pub nil-IsField : IsField []
nil-IsField = record { trimmed = trim-NoBlank [] tt; no_comma = tt; no_newline = tt }

-- Letters.
abbrev pub IsWord : List ℕ → Type 0
IsWord s = All (λ c. 58 ≤ c) s

pub IsWord-Lacks : (k : ℕ) (s : List ℕ) → k < 58 → IsWord s → Lacks k s
IsWord-Lacks k [] l h = tt
IsWord-Lacks k (c ∷ cs) l h = (ground (arith, h.0), IsWord-Lacks k cs l h.1)

pub IsWord-NoBlank : (s : List ℕ) → IsWord s → All (λ c. is_blank c ≡ false) s
IsWord-NoBlank [] h = tt
IsWord-NoBlank (c ∷ cs) h = (ground (arith, h.0), IsWord-NoBlank cs h.1)

pub IsWord-IsField : (s : List ℕ) → IsWord s → IsField s
IsWord-IsField s h = record {
  trimmed = trim-NoBlank s (IsWord-NoBlank s h);
  no_comma = IsWord-Lacks 44 s (omega arith) h;
  no_newline = IsWord-Lacks 10 s (omega arith) h;
}

pub class_text-IsField : (c : AssetClass) → IsField (class_text c)
class_text-IsField AssetClass.equity = IsWord-IsField _ (omega arith)
class_text-IsField AssetClass.future = IsWord-IsField _ (omega arith)
class_text-IsField AssetClass.option = IsWord-IsField _ (omega arith)
class_text-IsField AssetClass.fx = IsWord-IsField _ (omega arith)

pub type_text-IsField : (o : Option OptionType) → IsField (type_text o)
type_text-IsField none = nil-IsField
type_text-IsField (some OptionType.call) = IsWord-IsField _ (omega arith)
type_text-IsField (some OptionType.put) = IsWord-IsField _ (omega arith)
type_text-IsField (some OptionType.unset) = nil-IsField

pub style_text-IsField : (o : Option OptionStyle) → IsField (style_text o)
style_text-IsField none = nil-IsField
style_text-IsField (some OptionStyle.european) = IsWord-IsField _ (omega arith)
style_text-IsField (some OptionStyle.american) = IsWord-IsField _ (omega arith)
style_text-IsField (some OptionStyle.unset) = nil-IsField

pub All-no_comma : (fs : List (List ℕ)) → All IsField fs → All (λ f. Lacks 44 f) fs
All-no_comma [] h = tt
All-no_comma (f ∷ fs) h = (h.0.no_comma, All-no_comma fs h.1)

pub join-no_newline :
    (fs : List (List ℕ)) (last : List ℕ) → All IsField fs → Lacks 10 last → Lacks 10 (join fs last)
join-no_newline [] last h l = l
join-no_newline (f ∷ fs) last h l =
    All-append (λ x. x ≢ 10) f (44 ∷ join fs last) h.0.no_newline
      (omega arith, join-no_newline fs last h.1 l)

pub map_trim-append :
    (fs gs : List (List ℕ)) → All IsField fs → map_trim (fs ++ gs) ≡ fs ++ map_trim gs
map_trim-append [] gs h = refl
map_trim-append (f ∷ fs) gs h = ap₂ ◌∷◌ h.0.trimmed (map_trim-append fs gs h.1)

pub map_trim-date : (o : Option Date) → IsDate o → map_trim (date_fields o) ≡ date_fields o
map_trim-date none h = refl
map_trim-date (some d) h = ap (λ t. t ∷ []) (date-IsField (some d) h).trimmed
