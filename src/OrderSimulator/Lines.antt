-- ===== src/OrderSimulator/Lines.antt =====
-- A line of the simulator is read by `parseFixLine` as the order that it was made from.
use trading_simulation.Prelude.{
  ℕ, zero, suc, ◌+◌, ◌-◌, ◌/◌, ◌%◌, ◌^◌, ◌≤◌, ◌<◌, ◌≡◌, ◌≢◌, refl, ap, ◌∙◌, inl, inr, ◌⊎◌, List, [],
  ◌∷◌, ◌++◌, none, some, ◌==◌, if◌then◌else◌, take, drop, min, length, replicate, arith, All-append,
  length-append, length-replicate, Bool-cases,
}
use trading_simulation.Prelude.Int.{ℤ, pos, ◌+ℤ◌, ◌*ℤ◌}
use trading_simulation.Prelude.Text.{codes}
use trading_simulation.Double.{Double}
use trading_simulation.Order.{Order, OrderType}
use trading_simulation.InstrumentStore.Print.{digits}
use trading_simulation.FixSession.{
  copy_field, digit_of, parse_quantity, parse_side, stamped, set_known, set_field, parse_fix_line,
}
use trading_simulation.FixSession.Scan.{Lacks}
use trading_simulation.FixSession.Lines.{Field, render, store_fields, parse_fix_line-render}
use trading_simulation.OrderSimulator.{SimSymbol, zero_filled, order_line}

-- An integer is written in decimal digits, at most ten of them.
abbrev pub IsDecimal : (ℕ → List ℕ) → Type 0
IsDecimal show = (n : ℕ) → n < 10 ^ 9 → (w : ℕ) × (w ≤ 10) × (n < 10 ^ w) × (show n ≡ digits w n)

parse_quantity-append :
    (q : ℤ) (xs : List ℕ) (c : ℕ)
    → parse_quantity q (xs ++ c ∷ []) ≡ parse_quantity q xs *ℤ pos 10 +ℤ digit_of c
unfolding parse_quantity
parse_quantity-append q [] c = refl
parse_quantity-append q (x ∷ xs) c = parse_quantity-append (q *ℤ pos 10 +ℤ digit_of x) xs c

last_digit : (n : ℕ) → pos (n / 10) *ℤ pos 10 +ℤ digit_of (48 + n % 10) ≡ pos n
unfolding digit_of ◌*ℤ◌ ◌+ℤ◌
last_digit n = ground arith

parse_quantity-digits : (w n : ℕ) → n < 10 ^ w → parse_quantity (pos 0) (digits w n) ≡ pos n
unfolding parse_quantity
parse_quantity-digits zero n h = ap pos (omega (arith, h))
parse_quantity-digits (suc w) n h =
    parse_quantity-append (pos 0) (digits w (n / 10)) (48 + n % 10)
    ∙ ap (λ q. q *ℤ pos 10 +ℤ digit_of (48 + n % 10))
        (parse_quantity-digits w (n / 10) (omega (arith, h)))
    ∙ last_digit n

digit_ne : (k d : ℕ) → d < 10 → (k < 48) ⊎ (57 < k) → 48 + d ≢ k
digit_ne k d l (inl h) = omega (arith, l, h)
digit_ne k d l (inr h) = omega (arith, l, h)

digits-Lacks : (k w n : ℕ) → (k < 48) ⊎ (57 < k) → Lacks k (digits w n)
digits-Lacks k zero n h = tt
digits-Lacks k (suc w) n h =
    All-append (λ c. c ≢ k) (digits w (n / 10)) ((48 + n % 10) ∷ []) (digits-Lacks k w (n / 10) h)
      (digit_ne k (n % 10) (omega arith) h, tt)

length-digits : (w n : ℕ) → length (digits w n) ≡ w
length-digits zero n = refl
length-digits (suc w) n =
    length-append (digits w (n / 10)) ((48 + n % 10) ∷ [])
    ∙ ap (λ l. l + 1) (length-digits w (n / 10))
    ∙ omega arith

pub replicate-Lacks : (k n : ℕ) → 48 ≢ k → Lacks k (replicate n 48)
replicate-Lacks k zero h = tt
replicate-Lacks k (suc n) h = (h, replicate-Lacks k n h)

take-length : (xs : List ℕ) → take (length xs) xs ≡ xs
take-length [] = refl
take-length (x ∷ xs) = ap (λ l. x ∷ l) (take-length xs)

drop-replicate : (k n m : ℕ) → m ≡ k + n → drop k (replicate {A = ℕ} m 0) ≡ replicate n 0
drop-replicate zero n m e = ap (λ l. replicate {A = ℕ} l 0) (omega (arith, e))
drop-replicate (suc k) n zero e = absurd (omega (arith, e))
drop-replicate (suc k) n (suc m) e = drop-replicate k n m (omega (arith, e))

replicate-pred : (n : ℕ) → 0 < n → 0 ∷ replicate {A = ℕ} (n - 1) 0 ≡ replicate n 0
replicate-pred zero h = absurd (omega (arith, h))
replicate-pred (suc n) h = ap (λ l. 0 ∷ replicate {A = ℕ} l 0) (omega arith)

-- A field that fits, copied into an array of zeros.
copy_field-zeros :
    (size : ℕ) (val : List ℕ)
    → length val < size
    → copy_field size (replicate size 0) val ≡ val ++ replicate (size - length val) 0
unfolding copy_field
copy_field-zeros size val h =
    let l : min (length val) (size - 1) ≡ length val = omega (arith, h) in
    rw (l, take-length val)
      (ap (λ xs. val ++ xs)
        (ap (λ xs. 0 ∷ xs)
            (drop-replicate (suc (length val)) (size - length val - 1) size (omega (arith, h)))
          ∙ replicate-pred (size - length val) (omega (arith, h))))

-- The fields of a line.
abbrev line_fields : List ℕ → List ℕ → ℕ → List ℕ → List ℕ → List Field
line_fields id symbol side price quantity =
    (codes "11", codes "ORD" ++ id)
    ∷ (codes "35", codes "D")
    ∷ (codes "55", symbol)
    ∷ (codes "54", if side == 0 then codes "1" else codes "2")
    ∷ (codes "44", price)
    ∷ (codes "38", quantity)
    ∷ []

side-Lacks : (side : ℕ) → Lacks 124 (if side == 0 then codes "1" else codes "2")
side-Lacks side = elim (Bool-cases (side == 0)) [
  | inl e ↦ rw e (omega arith)
  | inr e ↦ rw e (omega arith)
]

parse_side_lem :
    (side : ℕ)
    → parse_side (if side == 0 then codes "1" else codes "2")
      ≡ (if side == 0 then OrderType.buy else OrderType.sell)
unfolding parse_side
parse_side_lem side = elim (Bool-cases (side == 0)) [ inl e ↦ rw e | inr e ↦ rw e ]

abbrev order_of : {D : Type 0} → ℤ → List ℕ → List ℕ → D → OrderType → ℤ → Order D
order_of now id symbol price side quantity = record {
  id = id;
  symbol = symbol;
  price = price;
  order_type = side;
  quantity = quantity;
  arrival_ns = now;
  next = none;
}

stored_fields :
    {D : Type 0} (atof : List ℕ → D) (z : D) (now : ℤ) (id symbol : List ℕ) (side : ℕ)
    (price quantity : List ℕ)
    → store_fields atof (stamped z now) (line_fields id symbol side price quantity) ≡ record {
      id = copy_field 16 (replicate 16 0) (codes "ORD" ++ id);
      symbol = copy_field 8 (replicate 8 0) symbol;
      price = atof (take (min (length price) 31) price ++ 0 ∷ []);
      order_type = parse_side (if side == 0 then codes "1" else codes "2");
      quantity = parse_quantity (pos 0) quantity;
      arrival_ns = now;
      next = none;
    }
unfolding set_field set_known stamped
stored_fields atof z now id symbol side price quantity = refl

whole_price : (price : List ℕ) → length price < 32 → take (min (length price) 31) price ≡ price
whole_price price h =
    let l : min (length price) 31 ≡ length price = omega (arith, h) in rw l (take-length price)

same_order :
    {D : Type 0} {now : ℤ} {id id' symbol symbol' : List ℕ} {price price' : D}
    {side side' : OrderType} {quantity quantity' : ℤ}
    → id ≡ id'
    → symbol ≡ symbol'
    → price ≡ price'
    → side ≡ side'
    → quantity ≡ quantity'
    → order_of now id symbol price side quantity ≡ order_of now id' symbol' price' side' quantity'
same_order a b c d e = cc (a, b, c, d, e)

module _ (F : Double) (show : ℕ → List ℕ) (money : F.Carrier → List ℕ) (atof : List ℕ → F.Carrier)
    (is_decimal : IsDecimal show) where
  open F use {Carrier as D}

  order_line-render :
      (i : ℕ) (s : SimSymbol D) (side quantity : ℕ)
      → order_line F show money i s side quantity
        ≡ render (
            line_fields
              (zero_filled 5 (show i))
              s.symbol
              side
              (money s.current_price)
              (show quantity))
  unfolding order_line
  order_line-render i s side quantity = refl

  id_short : (i : ℕ) → i < 10 ^ 9 → length (zero_filled 5 (show i)) ≤ 10
  id_short i l =
      let (w, small, h, e) = is_decimal i l in
      let n : length (show i) ≡ w = ap length e ∙ length-digits w i in
      omega (
        arith,
        n,
        small,
        length-append (replicate (5 - length (show i)) 48) (show i),
        length-replicate {A = ℕ} (5 - length (show i)) 48,
      )

  pub shown-Lacks : (k n : ℕ) → n < 10 ^ 9 → (k < 48) ⊎ (57 < k) → Lacks k (show n)
  shown-Lacks k n l o = let (w, small, h, e) = is_decimal n l in rw e (digits-Lacks k w n o)

  shown_quantity : (n : ℕ) → n < 10 ^ 9 → parse_quantity (pos 0) (show n) ≡ pos n
  shown_quantity n l = let (w, small, h, e) = is_decimal n l in rw e (parse_quantity-digits w n h)

  id_stored :
      (i : ℕ)
      → i < 10 ^ 9
      → copy_field 16 (replicate 16 0) (codes "ORD" ++ zero_filled 5 (show i))
        ≡ codes "ORD"
          ++ (zero_filled 5 (show i) ++ replicate (13 - length (zero_filled 5 (show i))) 0)
  id_stored i l =
      copy_field-zeros 16 (codes "ORD" ++ zero_filled 5 (show i)) (omega (arith, id_short i l))
      ∙ ap (λ n. codes "ORD" ++ (zero_filled 5 (show i) ++ replicate n 0)) (omega arith)

  pub parse_fix_line-order_line :
      (z : D) (now : ℤ) (i : ℕ) (s : SimSymbol D) (side quantity : ℕ)
      → i < 10 ^ 9
      → quantity < 10 ^ 9
      → length s.symbol < 8
      → Lacks 124 s.symbol
      → length (money s.current_price) < 32
      → Lacks 124 (money s.current_price)
      → parse_fix_line atof z now (order_line F show money i s side quantity)
        ≡ some (record {
          id =
              codes "ORD"
              ++ (zero_filled 5 (show i) ++ replicate (13 - length (zero_filled 5 (show i))) 0);
          symbol = s.symbol ++ replicate (8 - length s.symbol) 0;
          price = atof (money s.current_price ++ 0 ∷ []);
          order_type = if side == 0 then OrderType.buy else OrderType.sell;
          quantity = pos quantity;
          arrival_ns = now;
          next = none;
        })
  unfolding order_line
  parse_fix_line-order_line z now i s side quantity li lq ls cs lm cm =
      parse_fix_line-render atof z now
        (line_fields (zero_filled 5 (show i)) s.symbol side (money s.current_price) (show quantity))
        (
          (omega arith, omega arith),
          (
            omega arith,
            (
              omega arith,
              (
                omega arith,
                All-append (λ c. c ≢ 124) (replicate (5 - length (show i)) 48) (show i)
                    (replicate-Lacks 124 (5 - length (show i)) (omega arith))
                    (shown-Lacks 124 i li (inr (omega arith))),
              ),
            ),
          ),
          (
            omega arith,
            omega arith,
            (
              omega arith,
              cs,
              (
                omega arith,
                side-Lacks side,
                (
                  omega arith,
                  cm,
                  (omega arith, shown-Lacks 124 quantity lq (inr (omega arith)), tt),
                ),
              ),
            ),
          ),
        )
      ∙ ap some (
          stored_fields atof z now (zero_filled 5 (show i)) s.symbol side (money s.current_price)
            (show quantity)
          ∙ same_order (id_stored i li) (copy_field-zeros 8 s.symbol ls)
              (ap (λ m. atof (m ++ 0 ∷ [])) (whole_price (money s.current_price) lm))
              (parse_side_lem side) (shown_quantity quantity lq))
