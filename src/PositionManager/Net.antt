-- ===== src/PositionManager/Net.antt =====
-- The quantity of a position is what was bought less what was sold.
use trading_simulation.Prelude.{
  ℕ, ◌+◌, ◌^◌, ◌≤◌, ◌≡◌, refl, sym, ap, ◌∙◌, subst, inl, inr, List, [], ◌∷◌, true, false, arith,
  if◌then◌else◌, Bool-cases,
}
use trading_simulation.StringMap.{
  c_string, eqb_list, lookup, lookup-assign_other, lookup-assign_same, eqb_list-eq,
}
use trading_simulation.Prelude.Int.{
  ℤ, pos, eqb_ℤ, ◌+ℤ◌, ◌-ℤ◌, pos_part, neg_part, eq_of_parts, -ℤ_parts,
}
use trading_simulation.Double.{Double}
use trading_simulation.Order.{Side, Execution}
use trading_simulation.PositionManager.{
  Position, Positions, found_or_new, named, named_at, apply_buy, apply_sell, apply_side,
  on_execution,
}
use trading_simulation.PositionManager.Exact.{IsSmall, IsExact}

-- The quantity after a fill of `n` units.
abbrev pub moved : Side → ℤ → ℕ → ℤ
moved Side.buy a n = a +ℤ pos n
moved Side.sell a n = a -ℤ pos n

moved-small :
    (side : Side) (a : ℤ) (n : ℕ)
    → pos_part (moved side a n) + neg_part (moved side a n) ≤ n + (pos_part a + neg_part a)
unfolding ◌+ℤ◌ ◌-ℤ◌
moved-small Side.buy a n = ground arith
moved-small Side.sell a n = ground arith

IsSmall-add :
    (a b : ℤ) → pos_part a + neg_part a + (pos_part b + neg_part b) ≤ 2 ^ 53 → IsSmall (a +ℤ b)
unfolding ◌+ℤ◌
IsSmall-add a b h = ground arith

IsSmall-sub :
    (a b : ℤ) → pos_part a + neg_part a + (pos_part b + neg_part b) ≤ 2 ^ 53 → IsSmall (a -ℤ b)
unfolding ◌-ℤ◌
IsSmall-sub a b h = ground arith

turned : (a b : ℤ) → pos 0 -ℤ (b -ℤ a) ≡ a -ℤ b
turned a b = eq_of_parts _ _ (omega (arith, -ℤ_parts a b, -ℤ_parts b a, -ℤ_parts (pos 0) (b -ℤ a)))

from_zero : (a b : ℤ) → eqb_ℤ a (pos 0) ≡ true → pos 0 -ℤ b ≡ a -ℤ b
from_zero a b e = ap (λ c. c -ℤ b) (sym (eq_of_parts a (pos 0) (ground (arith, e))))

module _ (F : Double) (Denotes : F.Carrier → ℤ → Type 0) (x : IsExact F Denotes) where
  module _ (p : Position F.Carrier) (qty price : F.Carrier) (a : ℤ) (n : ℕ)
      (held : Denotes p.quantity a) (filled : Denotes qty (pos n))
      (room : pos_part a + neg_part a + n ≤ 2 ^ 53) where
    buy-Denotes : Denotes (apply_buy F p qty price).quantity (a +ℤ pos n)
    unfolding apply_buy
    buy-Denotes =
        let sum =
          x.add p.quantity qty a (pos n) held filled (IsSmall-add a (pos n) (omega arith)) in
        elim (Bool-cases (F.lt p.quantity (F.decimal 0 0))) [ inl e ↦ rw e sum | inr e ↦ rw e sum ]

    difference : Denotes (F.sub p.quantity qty) (a -ℤ pos n)
    difference = x.sub p.quantity qty a (pos n) held filled (IsSmall-sub a (pos n) (omega arith))

    turned_over : Denotes (F.neg (F.sub qty p.quantity)) (a -ℤ pos n)
    turned_over = subst (Denotes (F.neg (F.sub qty p.quantity))) (turned a (pos n)) (
        x.neg _ _
          (x.sub qty p.quantity (pos n) a filled held (IsSmall-sub (pos n) a (omega arith))))

    opened : eqb_ℤ a (pos 0) ≡ true → Denotes (F.neg qty) (a -ℤ pos n)
    opened e = subst (Denotes (F.neg qty)) (from_zero a (pos n) e) (x.neg qty (pos n) filled)

    sell-Denotes : Denotes (apply_sell F p qty price).quantity (a -ℤ pos n)
    unfolding apply_sell
    sell-Denotes = elim (Bool-cases (F.lt (F.decimal 0 0) p.quantity)) [
      | inl long ↦ elim (Bool-cases (F.le p.quantity qty)) [
        | inl closed ↦ rw (long, closed) turned_over
        | inr part ↦ rw (long, part) difference
      ]
      | inr not_long ↦ elim (Bool-cases (F.eq p.quantity (F.decimal 0 0))) [
        | inl flat ↦
            rw (not_long, flat)
              (opened (sym (x.eq p.quantity (F.decimal 0 0) a (pos 0) held x.naught) ∙ flat))
        | inr short ↦ rw (not_long, short) difference
      ]
    ]

  -- On a position of `a` units, a fill of `n` units leaves `a + n` units on the side of the buyer and
  -- `a - n` on that of the seller, on every branch, if the units come to 2 ^ 53 at most.
  pub apply_side-Denotes :
      (side : Side) (p : Position F.Carrier) (qty price : F.Carrier) (a : ℤ) (n : ℕ)
      → Denotes p.quantity a
      → Denotes qty (pos n)
      → pos_part a + neg_part a + n ≤ 2 ^ 53
      → Denotes (apply_side F side p qty price).quantity (moved side a n)
  unfolding apply_side
  apply_side-Denotes Side.buy p qty price a n held filled room =
      buy-Denotes p qty price a n held filled room
  apply_side-Denotes Side.sell p qty price a n held filled room =
      sell-Denotes p qty price a n held filled room

  -- The units that the ledger has of a symbol.
  abbrev pub holding : Positions F.Carrier → List ℕ → F.Carrier
  holding ps s = (found_or_new (F.decimal 0 0) (lookup s ps)).quantity

  -- The fills of a symbol among the executions, each with its units.
  abbrev pub net : List (Execution F.Carrier × ℕ) → List ℕ → ℤ
  net [] s = pos 0
  net ((e, n) ∷ es) s =
      if eqb_list (c_string e.symbol) s then moved e.side (net es s) n else net es s

  abbrev pub volume : List (Execution F.Carrier × ℕ) → ℕ
  volume [] = 0
  volume ((e, n) ∷ es) = n + volume es

  -- Each execution's quantity has the value beside it.
  abbrev pub IsMeasured : List (Execution F.Carrier × ℕ) → Type 0
  IsMeasured [] = Unit
  IsMeasured ((e, n) ∷ es) = Denotes e.quantity (pos n) × IsMeasured es

  -- The ledger after the executions, the latest first in the list.
  abbrev pub ledger : List (Execution F.Carrier × ℕ) → Positions F.Carrier
  ledger [] = []
  ledger ((e, n) ∷ es) = on_execution F (ledger es) e

  net-small :
      (es : List (Execution F.Carrier × ℕ)) (s : List ℕ)
      → pos_part (net es s) + neg_part (net es s) ≤ volume es
  net-small [] s = omega arith
  net-small ((e, n) ∷ es) s = elim (Bool-cases (eqb_list (c_string e.symbol) s)) [
    | inl same ↦ rw same (omega (arith, moved-small e.side (net es s) n, net-small es s))
    | inr other ↦ rw other (omega (arith, net-small es s))
  ]

  named-quantity_at :
      (s c : List ℕ) (p : Position F.Carrier) → (named_at s c p).quantity ≡ p.quantity
  named-quantity_at s [] p = refl
  named-quantity_at s (c ∷ cs) p = refl

  holding-nil : (s : List ℕ) → holding [] s ≡ F.decimal 0 0
  unfolding lookup
  holding-nil s = refl

  -- The entry that an execution finds or makes, and the one that it writes.
  abbrev entry : Positions F.Carrier → Execution F.Carrier → Position F.Carrier
  entry ps e =
      named (c_string e.symbol) (found_or_new (F.decimal 0 0) (lookup (c_string e.symbol) ps))

  abbrev filled_entry : Positions F.Carrier → Execution F.Carrier → Position F.Carrier
  filled_entry ps e = apply_side F e.side (entry ps e) e.quantity e.trade_price

  holding_same :
      (ps : Positions F.Carrier) (e : Execution F.Carrier) (s : List ℕ)
      → eqb_list (c_string e.symbol) s ≡ true
      → holding (on_execution F ps e) s ≡ (filled_entry ps e).quantity
  unfolding on_execution
  holding_same ps e s same =
      ap (λ o. (found_or_new (F.decimal 0 0) o).quantity)
        (lookup-assign_same (c_string e.symbol) s (filled_entry ps e) ps same)

  holding_other :
      (ps : Positions F.Carrier) (e : Execution F.Carrier) (s : List ℕ)
      → eqb_list (c_string e.symbol) s ≡ false
      → holding (on_execution F ps e) s ≡ holding ps s
  unfolding on_execution
  holding_other ps e s other =
      ap (λ o. (found_or_new (F.decimal 0 0) o).quantity)
        (lookup-assign_other (c_string e.symbol) s (filled_entry ps e) ps other)

  -- The ledger's quantity of every symbol is what was bought of it less what was sold, if each
  -- execution has the units given and all the units come to 2 ^ 53 at most; integers up to 2 ^ 53 are
  -- taken to be exact.
  pub ledger-net :
      (es : List (Execution F.Carrier × ℕ)) (s : List ℕ)
      → IsMeasured es
      → volume es ≤ 2 ^ 53
      → Denotes (holding (ledger es) s) (net es s)
  ledger-net [] s m v = rw (holding-nil s) x.naught
  ledger-net ((e, n) ∷ es) s m v = elim (Bool-cases (eqb_list (c_string e.symbol) s)) [
    | inl same ↦
        let key = c_string e.symbol in
        let at : net es key ≡ net es s = ap (net es) (eqb_list-eq key s same) in
        let held =
          subst (λ q. Denotes q (net es key))
            (sym (named-quantity_at key _ (found_or_new (F.decimal 0 0) (lookup key (ledger es)))))
            (ledger-net es key m.1 (omega arith)) in
        rw (holding_same (ledger es) e s same, same)
          (apply_side-Denotes e.side (entry (ledger es) e) e.quantity e.trade_price (net es s) n
            (subst (Denotes (entry (ledger es) e).quantity) at held) m.0
            (omega (arith, net-small es s)))
    | inr other ↦
        rw (holding_other (ledger es) e s other, other) (ledger-net es s m.1 (omega arith))
  ]
