-- ===== src/OrderSimulator/File.antt =====
-- The file of the simulator, read by `FixSessionReader::start`.
use trading_simulation.Prelude.{
  ℕ, zero, suc, ◌+◌, ◌-◌, ◌^◌, ◌≤◌, ◌<◌, ◌≡◌, ◌≢◌, refl, sym, ap, ◌∙◌, inl, inr, List, [], ◌∷◌,
  ◌++◌, append_assoc, append-nil, Option, none, some, true, ◌==◌, if◌then◌else◌, length, replicate,
  arith, All-append, Bool-cases, get_elem?, set, subst, length-append,
}
use trading_simulation.Prelude.Int.{ℤ, pos}
use trading_simulation.Prelude.Text.{codes}
use trading_simulation.Double.{Double}
use trading_simulation.Order.{Order, OrderType}
use trading_simulation.OrderBook.{Outcome, done}
use trading_simulation.FixSession.{until, call_back, handle_line, replay, start, parse_fix_line}
use trading_simulation.FixSession.Scan.{Lacks, until-separator}
use trading_simulation.FixSession.Replay.{replay_handled}
use trading_simulation.OrderSimulator.{SimSymbol, Draw, zero_filled, walked, order_line, simulate}
use trading_simulation.OrderSimulator.Lines.{
  IsDecimal, parse_fix_line-order_line, shown-Lacks, replicate-Lacks,
}

-- One text behind another.
Lacks-append : (xs ys : List ℕ) → Lacks 10 xs → Lacks 10 ys → Lacks 10 (xs ++ ys)
Lacks-append xs ys h k = All-append (λ c. c ≢ 10) xs ys h k

line_without :
    (id symbol side price quantity : List ℕ)
    → Lacks 10 id
    → Lacks 10 symbol
    → Lacks 10 side
    → Lacks 10 price
    → Lacks 10 quantity
    → Lacks 10 (
        codes "11=ORD"
        ++ (id
            ++ (codes "|35=D"
                ++ (codes "|55="
                    ++ (symbol
                        ++ (codes "|54="
                            ++ (side
                                ++ (codes "|44=" ++ (price ++ (codes "|38=" ++ quantity))))))))))
line_without id symbol side price quantity a b c d e =
    let t1 = codes "|38=" ++ quantity in
    let t2 = codes "|44=" ++ (price ++ t1) in
    let t3 = codes "|54=" ++ (side ++ t2) in
    let t4 = codes "|35=D" ++ (codes "|55=" ++ (symbol ++ t3)) in
    let l1 : Lacks 10 t1 = Lacks-append (codes "|38=") quantity (omega arith) e in
    let l2 : Lacks 10 t2 =
      Lacks-append (codes "|44=") (price ++ t1) (omega arith) (Lacks-append price t1 d l1) in
    let l3 : Lacks 10 t3 =
      Lacks-append (codes "|54=") (side ++ t2) (omega arith) (Lacks-append side t2 c l2) in
    let l4 : Lacks 10 t4 =
      Lacks-append (codes "|35=D|55=") (symbol ++ t3) (omega arith) (Lacks-append symbol t3 b l3) in
    Lacks-append (codes "11=ORD") (id ++ t4) (omega arith) (Lacks-append id t4 a l4)

side_without : (side : ℕ) → Lacks 10 (if side == 0 then codes "1" else codes "2")
side_without side = elim (Bool-cases (side == 0)) [
  | inl e ↦ rw e (omega arith)
  | inr e ↦ rw e (omega arith)
]

module _ (F : Double) (show : ℕ → List ℕ) (money : F.Carrier → List ℕ) (atof : List ℕ → F.Carrier)
    (now : ℕ → ℤ) where
  open F use {Carrier as D}

  -- A line that the reader's buffers take.
  abbrev pub IsLine : SimSymbol D → Draw D → Type 0
  IsLine s d =
      (d.quantity < 10 ^ 9)
      × (length s.symbol < 8)
      × Lacks 124 s.symbol
      × Lacks 10 s.symbol
      × (length (money s.current_price) < 32)
      × Lacks 124 (money s.current_price)
      × Lacks 10 (money s.current_price)

  -- The draws are in the table, and their lines fit.
  abbrev pub Fits : List (SimSymbol D) → List (Draw D) → Type 0
  Fits table [] = Unit
  Fits table (d ∷ draws) = elim (get_elem? table d.index) [
    | none ↦ ⊥
    | some s ↦
        IsLine (walked F show money s d.noise) d
        × Fits (set table d.index (walked F show money s d.noise)) draws
  ]

  abbrev FitsAt : List (SimSymbol D) → Draw D → List (Draw D) → Option (SimSymbol D) → Type 0
  FitsAt table d draws none = ⊥
  FitsAt table d draws (some s) =
      IsLine (walked F show money s d.noise) d
      × Fits (set table d.index (walked F show money s d.noise)) draws

  -- The order that a line is about, read in round `r`.
  abbrev pub order_made : ℕ → ℕ → SimSymbol D → Draw D → Order D
  order_made i r s d = record {
    id =
        codes "ORD"
        ++ (zero_filled 5 (show i) ++ replicate (13 - length (zero_filled 5 (show i))) 0);
    symbol = s.symbol ++ replicate (8 - length s.symbol) 0;
    price = atof (money s.current_price ++ 0 ∷ []);
    order_type = if d.side == 0 then OrderType.buy else OrderType.sell;
    quantity = pos d.quantity;
    arrival_ns = now r;
    next = none;
  }

  abbrev pub orders_made : ℕ → ℕ → List (SimSymbol D) → List (Draw D) → List (Order D)
  orders_made i r table [] = []
  orders_made i r table (d ∷ draws) = elim (get_elem? table d.index) [
    | none ↦ []
    | some s ↦
        order_made i r (walked F show money s d.noise) d
        ∷ orders_made (suc i) (suc r) (set table d.index (walked F show money s d.noise)) draws
  ]

  abbrev made_at :
      ℕ → ℕ → List (SimSymbol D) → Draw D → List (Draw D) → Option (SimSymbol D) → List (Order D)
  made_at i r table d draws none = []
  made_at i r table d draws (some s) =
      order_made i r (walked F show money s d.noise) d
      ∷ orders_made (suc i) (suc r) (set table d.index (walked F show money s d.noise)) draws

  -- The callback that keeps the orders.
  abbrev pub collect : List (Order D) → Order D → Outcome (List (Order D))
  collect seen o = done (seen ++ o ∷ [])

  abbrev reading : ℕ → ℕ → List (Order D) → List ℕ → Outcome (List (Order D))
  reading = replay atof collect (F.decimal 0 0) now (λ r. true)

  module _ (is_decimal : IsDecimal show) where
    order_line-Lacks :
        (i : ℕ) (s : SimSymbol D) (d : Draw D)
        → i < 10 ^ 9
        → IsLine s d
        → Lacks 10 (order_line F show money i s d.side d.quantity)
    unfolding order_line
    order_line-Lacks i s d l h =
        line_without (zero_filled 5 (show i)) s.symbol
          (if d.side == 0 then codes "1" else codes "2") (money s.current_price) (show d.quantity)
          (Lacks-append (replicate (5 - length (show i)) 48) (show i)
            (replicate-Lacks 10 (5 - length (show i)) (omega arith))
            (shown-Lacks F show money atof is_decimal 10 i l (inl (omega arith))))
          h.3 (side_without d.side) h.6
          (shown-Lacks F show money atof is_decimal 10 d.quantity h.0 (inl (omega arith)))

    abbrev line_of : ℕ → SimSymbol D → Draw D → List ℕ
    line_of i s d = order_line F show money i s d.side d.quantity

    -- A line has a first byte.
    line_cons : (i : ℕ) (s : SimSymbol D) (d : Draw D) → (cs : List ℕ) × (line_of i s d ≡ 49 ∷ cs)
    unfolding order_line
    line_cons i s d = (_, refl)

    line_handled :
        (i r : ℕ) (seen : List (Order D)) (s : SimSymbol D) (d : Draw D) (c : ℕ) (cs : List ℕ)
        → i < 10 ^ 9
        → IsLine s d
        → line_of i s d ≡ c ∷ cs
        → handle_line atof collect (F.decimal 0 0) now (λ r. true) r seen (c ∷ cs)
          ≡ done (seen ++ order_made i r s d ∷ [])
    unfolding handle_line call_back
    line_handled i r seen s d c cs l h e =
        let parsed =
          parse_fix_line-order_line F show money atof is_decimal (F.decimal 0 0) (now r) i s d.side
            d.quantity l h.0 h.1 h.2 h.4 h.5 in
        rw (ap (parse_fix_line atof (F.decimal 0 0) (now r)) (sym e) ∙ parsed)

    -- One round of the reader on a line.
    round_read :
        (fuel i r : ℕ) (seen : List (Order D)) (s : SimSymbol D) (d : Draw D) (rest : List ℕ)
        → i < 10 ^ 9
        → IsLine s d
        → reading (suc fuel) r seen (line_of i s d ++ 10 ∷ rest)
          ≡ reading fuel (suc r) (seen ++ order_made i r s d ∷ []) rest
    round_read fuel i r seen s d rest l h =
        let (cs, e) = line_cons i s d in
        let split = until-separator 10 (line_of i s d) rest (order_line-Lacks i s d l h) in
        let split' : until 10 (49 ∷ (cs ++ 10 ∷ rest)) ≡ (49 ∷ cs, rest) =
          ap (λ xs. until 10 (xs ++ 10 ∷ rest)) (sym e) ∙ split ∙ ap (λ xs. (xs, rest)) e in
        ap (λ xs. reading (suc fuel) r seen (xs ++ 10 ∷ rest)) e
        ∙ replay_handled atof collect (F.decimal 0 0) now (λ r. true) (λ _. Unit)
            (λ before o u. (before ++ o ∷ [], refl, tt)) fuel r seen
            (seen ++ order_made i r s d ∷ []) 49 (cs ++ 10 ∷ rest) refl
            (ap
                (λ (p : List ℕ × List ℕ).
                  handle_line atof collect (F.decimal 0 0) now (λ r. true) r seen p.0)
                split'
              ∙ line_handled i r seen s d 49 cs l h e)
        ∙ ap (λ (p : List ℕ × List ℕ). reading fuel (suc r) (seen ++ order_made i r s d ∷ []) p.1)
            split'

    -- What the simulator writes, and what the reader makes of it.
    abbrev ReadsBack : ℕ → ℕ → List (Order D) → List (SimSymbol D) → List (Draw D) → Type 0
    ReadsBack i r seen table draws =
        (file : List ℕ) × (simulate F show money i table draws ≡ some file)
        × ((fuel : ℕ)
            → length file < fuel
            → reading fuel r seen file ≡ done (seen ++ orders_made i r table draws))

    simulated :
        (i : ℕ) (table : List (SimSymbol D)) (d : Draw D) (draws : List (Draw D)) (s : SimSymbol D)
        (rest : List ℕ)
        → get_elem? table d.index ≡ some s
        → simulate F show money (suc i) (set table d.index (walked F show money s d.noise)) draws
          ≡ some rest
        → simulate F show money i table (d ∷ draws)
          ≡ some (line_of i (walked F show money s d.noise) d ++ 10 ∷ rest)
    unfolding simulate
    simulated i table d draws s rest e f = ground (arith, e, f)

    Fits-some :
        (table : List (SimSymbol D)) (d : Draw D) (draws : List (Draw D)) (o : Option (SimSymbol D))
        → get_elem? table d.index ≡ o
        → Fits table (d ∷ draws)
        → (s : SimSymbol D) × (o ≡ some s)
          × IsLine (walked F show money s d.noise) d
          × Fits (set table d.index (walked F show money s d.noise)) draws
    Fits-some table d draws none e h = absurd (subst (FitsAt table d draws) e h)
    Fits-some table d draws (some s) e h =
        let (line, rest) = subst (FitsAt table d draws) e h in (s, refl, line, rest)

    read_nil : (fuel r : ℕ) (seen : List (Order D)) → 0 < fuel → reading fuel r seen [] ≡ done seen
    unfolding replay
    read_nil zero r seen h = absurd (omega (arith, h))
    read_nil (suc fuel) r seen h = refl

    orders_made-some :
        (i r : ℕ) (table : List (SimSymbol D)) (d : Draw D) (draws : List (Draw D))
        (s : SimSymbol D)
        → get_elem? table d.index ≡ some s
        → orders_made i r table (d ∷ draws)
          ≡ order_made i r (walked F show money s d.noise) d
            ∷ orders_made (suc i) (suc r) (set table d.index (walked F show money s d.noise)) draws
    orders_made-some i r table d draws s e = ap (made_at i r table d draws) e

    read_step :
        (fuel i r : ℕ) (seen : List (Order D)) (s : SimSymbol D) (d : Draw D) (rest : List ℕ)
        (orders : List (Order D))
        → i < 10 ^ 9
        → IsLine s d
        → ((fuel : ℕ)
            → length rest < fuel
            → reading fuel (suc r) (seen ++ order_made i r s d ∷ []) rest
              ≡ done ((seen ++ order_made i r s d ∷ []) ++ orders))
        → length (line_of i s d ++ 10 ∷ rest) < fuel
        → reading fuel r seen (line_of i s d ++ 10 ∷ rest)
          ≡ done (seen ++ order_made i r s d ∷ orders)
    read_step zero i r seen s d rest orders l h back n = absurd (omega (arith, n))
    read_step (suc fuel) i r seen s d rest orders l h back n =
        round_read fuel i r seen s d rest l h
        ∙ back fuel (omega (arith, n, length-append (line_of i s d) (10 ∷ rest)))
        ∙ ap done (append_assoc seen (order_made i r s d ∷ []) orders)

    simulate-ReadsBack :
        (i r : ℕ) (seen : List (Order D)) (table : List (SimSymbol D)) (draws : List (Draw D))
        → i + length draws ≤ 10 ^ 9
        → Fits table draws
        → ReadsBack i r seen table draws
    unfolding simulate
    simulate-ReadsBack i r seen table [] l h =
        ([], refl, λ fuel n. read_nil fuel r seen n ∙ ap done (sym (append-nil seen)))
    simulate-ReadsBack i r seen table (d ∷ draws) l h =
        let (s, e, line, fits) = Fits-some table d draws (get_elem? table d.index) refl h in
        let s' = walked F show money s d.noise in
        let (rest, f, back) =
          simulate-ReadsBack (suc i) (suc r) (seen ++ order_made i r s' d ∷ [])
            (set table d.index s') draws (omega (arith, l)) fits in
        (
          line_of i s' d ++ 10 ∷ rest,
          simulated i table d draws s rest e f,
          λ fuel n.
              read_step fuel i r seen s' d rest
                (orders_made (suc i) (suc r) (set table d.index s') draws) (omega (arith, l)) line
                back n
              ∙ ap (λ os. done (seen ++ os)) (sym (orders_made-some i r table d draws s e)),
        )

    -- The file that the simulator writes for any draws, fewer than 10 ^ 9, whose lines fit the reader's
    -- buffers is read to its end, and the callback gets the orders of the draws, each once and in order,
    -- with the name, the symbol, the side and the quantity of its line, and the price as `atof` reads it,
    -- if integers are written in decimal.
    pub start-simulate :
        (table : List (SimSymbol D)) (draws : List (Draw D))
        → length draws < 10 ^ 9
        → Fits table draws
        → (file : List ℕ) × (simulate F show money 1 table draws ≡ some file)
          × (start atof collect (F.decimal 0 0) now (λ r. true) [] file
              ≡ done (orders_made 1 0 table draws))
    unfolding start
    start-simulate table draws l h =
        let (file, e, back) = simulate-ReadsBack 1 0 [] table draws (omega (arith, l)) h in
        (file, e, back (suc (length file)) (omega arith))
