-- ===== src/ObjectPool.antt =====
-- libs/utils/include/object_pool.h: `ObjectPool<T, CAPACITY>`. The slab's slots are numbered, the
-- free stack is an array of slot numbers with the stack pointer `top`. The slab itself is the
-- memory that the users of the pool read and write.
pub mod Laws
use trading_simulation.Prelude.{
  ℕ, zero, suc, ◌+◌, ◌-◌, List, [], ◌∷◌, Option, none, some, ◌==◌, if◌then◌else◌, update,
}

pub record ObjectPool : Type 0 where
  pub free_stack : ℕ → ℕ
  pub top : ℕ

-- The constructor: every slot is free.
unfoldable pub init : ℕ → ObjectPool
init capacity = record { free_stack = λ i. i; top = capacity }

-- `nullptr` is `none`.
unfoldable pub alloc : ObjectPool → Option ℕ × ObjectPool
alloc p =
    if p.top == 0
    then (none, p)
    else (some (p.free_stack (p.top - 1)), record p { top = p.top - 1 })

unfoldable pub release : ObjectPool → ℕ → ObjectPool
release p obj = record p { free_stack = update p.free_stack p.top obj; top = p.top + 1 }

unfoldable pub available : ObjectPool → ℕ
available p = p.top
