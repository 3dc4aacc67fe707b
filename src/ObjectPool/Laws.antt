-- ===== src/ObjectPool/Laws.antt =====
-- The pool as a stack of distinct free slots.
use trading_simulation.Prelude.{
  ℕ, zero, suc, ◌-◌, ◌+◌, ◌≤◌, ◌<◌, ◌≡◌, refl, ap, List, [], ◌∷◌, Option, none, some, arith, update,
  update_self, update_ne, length, ◌∉◌, IsDistinct, All, length_le_bound, ◌==◌, subst, false,
}
use trading_simulation.ObjectPool.{ObjectPool, init, alloc, release}

-- The first `n` entries of the array, the topmost first.
abbrev pub entries : (ℕ → ℕ) → ℕ → List ℕ
entries stack zero = []
entries stack (suc n) = stack n ∷ entries stack n

-- The free slots, the next one to be handed out first.
abbrev pub free_list : ObjectPool → List ℕ
free_list p = entries p.free_stack p.top

-- The pool's slots are numbered below its capacity, and no slot is free twice.
pub record IsValid (capacity : ℕ) (p : ObjectPool) : Type 0 where
  pub distinct : IsDistinct (free_list p)
  pub in_slab : All (λ s. s < capacity) (free_list p)

-- A stack: what `pop` returns, and what is left.
abbrev pub pop_list : List ℕ → Option ℕ × List ℕ
pop_list [] = (none, [])
pop_list (x ∷ xs) = (some x, xs)

pub length-entries : (stack : ℕ → ℕ) (n : ℕ) → length (entries stack n) ≡ n
length-entries stack zero = refl
length-entries stack (suc n) = ap suc (length-entries stack n)

alloc_at :
    (stack : ℕ → ℕ) (n : ℕ)
    → let (r, q) = alloc (record { free_stack = stack; top = n }) in
      (r, free_list q) ≡ pop_list (entries stack n)
unfolding alloc
alloc_at stack zero = refl
alloc_at stack (suc n) =
    let e : suc n - 1 ≡ n = omega arith in
    let test : (suc n == 0) ≡ false = ground arith in rw (e, test)

-- `alloc` hands out the top of the stack of free slots, and null only when there is none.
pub alloc_refines :
    (p : ObjectPool) → let (r, q) = alloc p in (r, free_list q) ≡ pop_list (free_list p)
alloc_refines p = alloc_at p.free_stack p.top

entries-update :
    (stack : ℕ → ℕ) (n m v : ℕ) → n ≤ m → entries (update stack m v) n ≡ entries stack n
entries-update stack zero m v h = refl
entries-update stack (suc n) m v h =
    ground (arith, update_ne stack m n v, entries-update stack n m v)

-- `release` pushes the slot.
pub release_refines : (p : ObjectPool) (s : ℕ) → free_list (release p s) ≡ s ∷ free_list p
unfolding release
release_refines p s =
    let e : p.top + 1 ≡ suc p.top = omega arith in
    rw
      (e, update_self p.free_stack p.top s, entries-update p.free_stack p.top p.top s (omega arith))

pub init-IsValid : (n : ℕ) → IsValid n (init n)
unfolding init
init-IsValid n = record { distinct = distinct n; in_slab = below n n (omega arith) }
  where
    above : (k s : ℕ) → k ≤ s → s ∉ entries (λ i. i) k
    above zero s h = tt
    above (suc k) s h = (omega arith, above k s (omega arith))

    distinct : (k : ℕ) → IsDistinct (entries (λ i. i) k)
    distinct zero = tt
    distinct (suc k) = (above k k (omega arith), distinct k)

    below : (k m : ℕ) → k ≤ m → All (λ s. s < m) (entries (λ i. i) k)
    below zero m h = tt
    below (suc k) m h = (omega arith, below k m (omega arith))

-- What `alloc` does to a valid pool, by the list of free slots.
abbrev pub Allocates : ℕ → ObjectPool → Option ℕ × ObjectPool → Type 0
Allocates capacity p (none, q) = (free_list p ≡ []) × (free_list q ≡ [])
Allocates capacity p (some s, q) =
    (free_list p ≡ s ∷ free_list q) × (s < capacity) × (s ∉ free_list q) × IsValid capacity q

alloc_cases :
    (capacity : ℕ) (p : ObjectPool) (free : List ℕ) (out : Option ℕ × ObjectPool)
    → IsValid capacity p
    → free_list p ≡ free
    → (out.0, free_list out.1) ≡ pop_list free
    → Allocates capacity p out
alloc_cases capacity p [] (none, q) v e o = (e, ground arith)
alloc_cases capacity p (x ∷ xs) (none, q) v e o = cc (ap (λ (r : Option ℕ × List ℕ). r.0) o)
alloc_cases capacity p [] (some s, q) v e o = cc (ap (λ (r : Option ℕ × List ℕ). r.0) o)
alloc_cases capacity p (x ∷ xs) (some s, q) v e o =
    let whole : free_list p ≡ s ∷ free_list q = ground arith in
    let distinct : IsDistinct (s ∷ free_list q) = subst IsDistinct whole v.distinct in
    let inside : All (λ s. s < capacity) (s ∷ free_list q) =
      subst (All (λ s. s < capacity)) whole v.in_slab in
    (whole, inside.0, distinct.0, record { distinct = distinct.1; in_slab = inside.1 })

-- `alloc` on a valid pool: null exactly when no slot is free, and then nothing changes; otherwise
-- a slot of the slab that was free and is not free any more, and the pool stays valid.
pub alloc-Allocates :
    {capacity : ℕ} (p : ObjectPool) → IsValid capacity p → Allocates capacity p (alloc p)
alloc-Allocates {capacity} p v =
    alloc_cases capacity p (free_list p) (alloc p) v refl (alloc_refines p)

-- On a valid pool, releasing a slot of the slab that is not free keeps the pool valid, and the write
-- stays inside the array.
pub release-IsValid :
    {capacity : ℕ} (p : ObjectPool) (s : ℕ)
    → IsValid capacity p
    → s < capacity
    → s ∉ free_list p
    → IsValid capacity (release p s) × (p.top < capacity)
release-IsValid {capacity} p s v inside fresh = (valid, bound)
  where
    valid : IsValid capacity (release p s)
    valid = record {
      distinct = rw (release_refines p s) (fresh, v.distinct);
      in_slab = rw (release_refines p s) (inside, v.in_slab);
    }

    bound : p.top < capacity
    bound = omega (
      arith,
      length_le_bound capacity (free_list (release p s)) valid.distinct valid.in_slab,
      ap length (release_refines p s),
      length-entries p.free_stack p.top,
    )

pub top-le : {capacity : ℕ} (p : ObjectPool) → IsValid capacity p → p.top ≤ capacity
top-le {capacity} p v = omega (
  arith,
  length_le_bound capacity (free_list p) v.distinct v.in_slab,
  length-entries p.free_stack p.top,
)

pub top-release : (p : ObjectPool) (s : ℕ) → (release p s).top ≡ p.top + 1
unfolding release
top-release p s = refl
