-- ===== src/PriceLevel.antt =====
-- `PriceLevel` of libs/order-book/include/order_book.h: the FIFO queue whose links are the `next`
-- fields of the orders. The memory is the pool's slab, a function from the slot to the order in it.
pub mod Queue
use trading_simulation.Prelude.{
  ℕ, ◌+◌, ◌-◌, ◌%◌, ◌^◌, Option, none, some, Bool, true, false, update,
}
use trading_simulation.Order.{Order}

abbrev pub Memory : Type 0 → Type 0
Memory D = ℕ → Order D

pub record PriceLevel : Type 0 where
  pub head : Option ℕ
  pub tail : Option ℕ
  pub count : ℕ

abbrev pub empty_level : PriceLevel
empty_level = record { head = none; tail = none; count = 0 }

-- `p->next = q`
abbrev pub set_next : {D : Type 0} → Memory D → ℕ → Option ℕ → Memory D
set_next m p q = update m p (record (m p) { next = q })

-- `tail->next = o`. A null `tail` beside a head that is not null is no state of a queue:
-- `PriceLevel.Queue` shows that none is met.
abbrev pub link_after : {D : Type 0} → Memory D → Option ℕ → ℕ → Memory D
link_after m none o = m
link_after m (some t) o = set_next m t (some o)

unfoldable pub push : {D : Type 0} → Memory D → PriceLevel → ℕ → Memory D × PriceLevel
push m l o = elim l.head [
  | none ↦
      (set_next m o none, record { head = some o; tail = some o; count = (l.count + 1) % 2 ^ 32 })
  | some h ↦ (
    link_after (set_next m o none) l.tail o,
    record { head = some h; tail = some o; count = (l.count + 1) % 2 ^ 32 },
  )
]

-- `if (!head) tail = nullptr;`
abbrev pub tail_under : Option ℕ → Option ℕ → Option ℕ
tail_under none t = none
tail_under (some h) t = t

unfoldable pub pop_front : {D : Type 0} → Memory D → PriceLevel → Option ℕ × PriceLevel
pop_front m l = elim l.head [
  | none ↦ (none, l)
  | some o ↦ (
    some o,
    record {
      head = (m o).next;
      tail = tail_under (m o).next l.tail;
      count = (l.count + 2 ^ 32 - 1) % 2 ^ 32;
    },
  )
]

unfoldable pub is_empty : PriceLevel → Bool
is_empty l = elim l.head [ none ↦ true | some h ↦ false ]
