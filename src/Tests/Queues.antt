-- ===== src/Tests/Queues.antt =====
-- The theorems on the ring buffer at a queue of three slots that has wrapped.
use trading_simulation.Prelude.{ℕ, ◌+◌, ◌≡◌, refl, true, some, [], ◌∷◌, arith}
use trading_simulation.SpscQueue.{SpscQueue, push, pop}
use trading_simulation.SpscQueue.Refine.{
  IsValid, contents, push_list, pop_list, push_refines, pop_refines, push-IsValid,
}
use trading_simulation.SpscQueue.Threads.{
  Threads, Producer, Consumer, load_tail, here, next, IsSafe, Reach-IsSafe,
}

-- One item waits, in the last slot.
abbrev wrapped : SpscQueue ℕ
wrapped = record { capacity = 3; buffer = λ i. i + 20; head = 2; tail = 0 }

wrapped-IsValid : IsValid wrapped
wrapped-IsValid = record { head_in = omega arith; tail_in = omega arith; small = omega arith }

contents-wrapped : contents wrapped ≡ 22 ∷ []
contents-wrapped = refl

push_refines_example : (true, contents (push wrapped 7).1) ≡ push_list 3 (22 ∷ []) 7
unfolding push
push_refines_example = push_refines wrapped wrapped-IsValid 7

pop_refines_example : (some 22, contents (pop wrapped).1) ≡ pop_list (22 ∷ [])
unfolding pop
pop_refines_example = pop_refines wrapped wrapped-IsValid

push-IsValid_example : IsValid (push wrapped 7).1
push-IsValid_example = push-IsValid wrapped wrapped-IsValid 7

-- The producer at rest and about to push 7.
abbrev at_rest : Threads ℕ
at_rest = record {
  queue = wrapped;
  producer = Producer.outside;
  consumer = Consumer.outside;
  pushed = 22 ∷ [];
  popped = [];
}

at_rest-IsSafe : IsSafe at_rest
at_rest-IsSafe = record { valid = wrapped-IsValid; producing = tt; consuming = tt; history = refl }

abbrev pushing : Threads ℕ
pushing = record at_rest { producer = Producer.at_test 7 0 }

Reach-IsSafe_example : IsSafe pushing
Reach-IsSafe_example = Reach-IsSafe (next here (load_tail 7 refl refl)) at_rest-IsSafe
