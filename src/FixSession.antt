-- ===== src/FixSession.antt =====
-- libs/fix_session: the parser of a FIX line (src/fix_session_reader.cpp) and the loop over the lines
-- of the file (include/fix_session_reader.h). The mapped file is the list of its bytes. `atof` is a
-- parameter, a function of the bytes of the buffer that it is given.
pub mod Scan
pub mod Lines
pub mod Replay
pub mod Files
pub mod Orders
pub mod Bounds
use trading_simulation.Prelude.{
  ℕ, zero, suc, ◌+◌, ◌-◌, ◌<◌, List, [], ◌∷◌, ◌++◌, Option, none, some, Bool, ◌==◌, ltb,
  if◌then◌else◌, take, drop, length, min,
}
use trading_simulation.Prelude.Int.{ℤ, pos, sub_ℕ, ◌+ℤ◌, ◌*ℤ◌}
use trading_simulation.Order.{Order, OrderType, zero_order}
use trading_simulation.OrderBook.{Outcome, done, fault, out_of_fuel}

-- `memchr` with a null result as `none`: the bytes before the byte searched for, and those after it.
unfoldable pub break_at : ℕ → List ℕ → Option (List ℕ × List ℕ)
break_at c [] = none
break_at c (x ∷ xs) =
    let rest = break_at c xs in
    if x == c
    then some ([], xs)
    else elim rest [ none ↦ none | some (before, after) ↦ some (x ∷ before, after) ]

-- `memchr` with the end in place of null.
unfoldable pub until : ℕ → List ℕ → List ℕ × List ℕ
until c [] = ([], [])
until c (x ∷ xs) =
    let (before, after) = until c xs in if x == c then ([], xs) else (x ∷ before, after)

-- `memcpy` of at most `size - 1` bytes and a terminator; the bytes behind it stay.
unfoldable pub copy_field : ℕ → List ℕ → List ℕ → List ℕ
copy_field size old val = let n = min (length val) (size - 1) in take n val ++ 0 ∷ drop (suc n) old

-- `val[i] - '0'`, `char` being signed.
unfoldable pub digit_of : ℕ → ℤ
digit_of c = if ltb c 128 then sub_ℕ c 48 else sub_ℕ c (256 + 48)

-- `qty = qty * 10 + (val[i] - '0')`
unfoldable pub parse_quantity : ℤ → List ℕ → ℤ
parse_quantity qty [] = qty
parse_quantity qty (c ∷ cs) = parse_quantity (qty *ℤ pos 10 +ℤ digit_of c) cs

-- `(val_len > 0 && val[0] == '1') ? BUY : SELL`
unfoldable pub parse_side : List ℕ → OrderType
parse_side [] = OrderType.sell
parse_side (c ∷ cs) = if c == 49 then OrderType.buy else OrderType.sell

-- `Order{}` with its time stamp.
unfoldable pub stamped : {D : Type 0} → D → ℤ → Order D
stamped z now = record (zero_order z) { arrival_ns = now }

module _ {D : Type 0} (atof : List ℕ → D) where
  -- The tests on a tag of two characters.
  unfoldable pub set_known : Order D → ℕ → ℕ → List ℕ → Order D
  set_known o t0 t1 val =
      if (t0 == 49)
      then (if t1 == 49 then record o { id = copy_field 16 o.id val } else o)
      else if (t0 == 53)
      then (if t1 == 53
          then record o { symbol = copy_field 8 o.symbol val }
          else if t1 == 52
          then record o { order_type = parse_side val }
          else o)
      else if (t0 == 52)
      then (if t1 == 52
          then record o { price = atof (take (min (length val) 31) val ++ 0 ∷ []) }
          else o)
      else if (t0 == 51)
      then (if t1 == 56 then record o { quantity = parse_quantity (pos 0) val } else o)
      else o

  -- Tags of another length are passed over.
  unfoldable pub set_field : Order D → List ℕ → List ℕ → Order D
  set_field o [] val = o
  set_field o (t0 ∷ []) val = o
  set_field o (t0 ∷ t1 ∷ []) val = set_known o t0 t1 val
  set_field o (t0 ∷ t1 ∷ t2 ∷ ts) val = o

  -- The loop over the fields, with fuel.
  unfoldable pub parse_fields : ℕ → Order D → List ℕ → Option (Order D)
  parse_fields zero o p = none
  parse_fields (suc fuel) o [] = some o
  parse_fields (suc fuel) o (c ∷ cs) = elim (break_at 61 (c ∷ cs)) [
    | none ↦ some o
    | some (tag, rest) ↦
        let (val, next) = until 124 rest in parse_fields fuel (set_field o tag val) next
  ]

  -- Each round of the loop passes a byte at least.
  unfoldable pub parse_fix_line : D → ℤ → List ℕ → Option (Order D)
  parse_fix_line z now line = parse_fields (suc (length line)) (stamped z now) line

  module _ {S : Type 0} (callback : S → Order D → Outcome S) (z : D) (now : ℕ → ℤ)
      (running : ℕ → Bool) where
    unfoldable pub call_back : S → Option (Order D) → Outcome S
    call_back s none = out_of_fuel
    call_back s (some order) = callback s order

    -- One line: an empty one is passed over.
    unfoldable pub handle_line : ℕ → S → List ℕ → Outcome S
    handle_line i s [] = done s
    handle_line i s (c ∷ cs) = call_back s (parse_fix_line z (now i) (c ∷ cs))

    -- The loop of `start`, with fuel; `running i` is what round `i` reads of the flag, and `now i`
    -- the clock.
    unfoldable pub replay : ℕ → ℕ → S → List ℕ → Outcome S
    replay zero i s p = out_of_fuel
    replay (suc fuel) i s [] = done s
    replay (suc fuel) i s (c ∷ cs) =
        let (line, next) = until 10 (c ∷ cs) in
        if running i
        then (elim (handle_line i s line) [
          | done s' ↦ replay fuel (suc i) s' next
          | fault ↦ fault
          | out_of_fuel ↦ out_of_fuel
        ])
        else done s

    -- `start` on the bytes of a file; an empty file is not mapped.
    unfoldable pub start : S → List ℕ → Outcome S
    start s data_ = replay (suc (length data_)) 0 s data_
