-- ===== src/SpscQueue/Threads.antt =====
-- `push` and `pop` as two threads run them: one step is one access to a shared variable, and the steps
-- of the two threads interleave in any order. The accesses to the indices are the acquire and
-- release operations of the source; a step sees what the steps before it wrote.
use trading_simulation.Prelude.{
  ℕ, ◌≡◌, ◌≢◌, refl, sym, ap, ◌∙◌, List, [], ◌∷◌, ◌++◌, append_assoc, arith, update, update_self,
  update_ne, subst,
}
use trading_simulation.SpscQueue.{SpscQueue, following}
use trading_simulation.SpscQueue.Ring.{succ_in, window-update, window_snoc, distance_grow}
use trading_simulation.SpscQueue.Refine.{
  IsValid, contents, following-tail, following-head, contents_shrink,
}

-- Where the producer is in `push`, with its local variables.
pub data Producer (A : Type 0) : Type 0 where
  outside : Producer A
  at_test : A → ℕ → Producer A
  at_write : A → ℕ → Producer A
  at_store : A → ℕ → Producer A

-- Where the consumer is in `pop`.
pub data Consumer (A : Type 0) : Type 0 where
  outside : Consumer A
  at_test : ℕ → Consumer A
  at_read : ℕ → Consumer A
  at_store : A → ℕ → Consumer A

-- The shared queue, the two threads, and the items of the calls that returned true, in order.
pub record Threads (A : Type 0) : Type 0 where
  pub queue : SpscQueue A
  pub producer : Producer A
  pub consumer : Consumer A
  pub pushed : List A
  pub popped : List A

module _ {A : Type 0} where
  pub data Step (s t : Threads A) : Type 0 where
    -- `current_tail = tail_.load(); next_tail = (current_tail + 1) % capacity_`
    load_tail :
        (x : A)
        → s.producer ≡ Producer.outside
        → t ≡ record s { producer = Producer.at_test x s.queue.tail }
        → Step s t
    -- `if (next_tail == head_.load()) return false;`
    test_full :
        (x : A) (i : ℕ)
        → s.producer ≡ Producer.at_test x i
        → following s.queue.capacity i ≡ s.queue.head
        → t ≡ record s { producer = Producer.outside }
        → Step s t
    test_room :
        (x : A) (i : ℕ)
        → s.producer ≡ Producer.at_test x i
        → following s.queue.capacity i ≢ s.queue.head
        → t ≡ record s { producer = Producer.at_write x i }
        → Step s t
    -- `buffer_[current_tail] = item;`
    write_slot :
        (x : A) (i : ℕ)
        → s.producer ≡ Producer.at_write x i
        → t ≡ record s {
          queue = record (s.queue) { buffer = update s.queue.buffer i x };
          producer = Producer.at_store x i;
        }
        → Step s t
    -- `tail_.store(next_tail); return true;`
    store_tail :
        (x : A) (i : ℕ)
        → s.producer ≡ Producer.at_store x i
        → t ≡ record s {
          queue = record (s.queue) { tail = following s.queue.capacity i };
          producer = Producer.outside;
          pushed = s.pushed ++ x ∷ [];
        }
        → Step s t
    -- `current_head = head_.load();`
    load_head :
        s.consumer ≡ Consumer.outside
        → t ≡ record s { consumer = Consumer.at_test s.queue.head }
        → Step s t
    -- `if (current_head == tail_.load()) return false;`
    test_empty :
        (i : ℕ)
        → s.consumer ≡ Consumer.at_test i
        → i ≡ s.queue.tail
        → t ≡ record s { consumer = Consumer.outside }
        → Step s t
    test_item :
        (i : ℕ)
        → s.consumer ≡ Consumer.at_test i
        → i ≢ s.queue.tail
        → t ≡ record s { consumer = Consumer.at_read i }
        → Step s t
    -- `item = buffer_[current_head];`
    read_slot :
        (i : ℕ)
        → s.consumer ≡ Consumer.at_read i
        → t ≡ record s { consumer = Consumer.at_store (s.queue.buffer i) i }
        → Step s t
    -- `head_.store((current_head + 1) % capacity_); return true;`
    store_head :
        (x : A) (i : ℕ)
        → s.consumer ≡ Consumer.at_store x i
        → t ≡ record s {
          queue = record (s.queue) { head = following s.queue.capacity i };
          consumer = Consumer.outside;
          popped = s.popped ++ x ∷ [];
        }
        → Step s t

  pub data Reach (s : Threads A) : Threads A → Type 0 where
    here : Reach s s
    next : {t u : Threads A} → Reach s t → Step t u → Reach s u

  -- What the producer knows at each point, the queue changing under it.
  abbrev ProducerKnows : SpscQueue A → Producer A → Type 0
  ProducerKnows q Producer.outside = Unit
  ProducerKnows q (Producer.at_test x i) = i ≡ q.tail
  ProducerKnows q (Producer.at_write x i) = (i ≡ q.tail) × (succ_in q.capacity q.tail ≢ q.head)
  ProducerKnows q (Producer.at_store x i) =
      (i ≡ q.tail) × (succ_in q.capacity q.tail ≢ q.head) × (q.buffer q.tail ≡ x)

  abbrev ConsumerKnows : SpscQueue A → Consumer A → Type 0
  ConsumerKnows q Consumer.outside = Unit
  ConsumerKnows q (Consumer.at_test i) = i ≡ q.head
  ConsumerKnows q (Consumer.at_read i) = (i ≡ q.head) × (q.head ≢ q.tail)
  ConsumerKnows q (Consumer.at_store x i) = (i ≡ q.head) × (q.head ≢ q.tail) × (q.buffer q.head ≡ x)

  -- The items pushed are those popped and then those in the queue.
  pub record IsSafe (s : Threads A) : Type 0 where
    pub valid : IsValid s.queue
    pub producing : ProducerKnows s.queue s.producer
    pub consuming : ConsumerKnows s.queue s.consumer
    pub history : s.pushed ≡ s.popped ++ contents s.queue

  -- The consumer's knowledge survives the producer's write and store.
  consumer_write :
      (q : SpscQueue A) (x : A) (c : Consumer A)
      → ConsumerKnows q c
      → ConsumerKnows (record q { buffer = update q.buffer q.tail x }) c
  consumer_write q x Consumer.outside k = tt
  consumer_write q x (Consumer.at_test i) k = k
  consumer_write q x (Consumer.at_read i) k = k
  consumer_write q x (Consumer.at_store y i) k =
      (k.0, k.1, update_ne q.buffer q.tail q.head x k.1 ∙ k.2)

  consumer_tail :
      (q : SpscQueue A) (c : Consumer A)
      → succ_in q.capacity q.tail ≢ q.head
      → ConsumerKnows q c
      → ConsumerKnows (record q { tail = succ_in q.capacity q.tail }) c
  consumer_tail q Consumer.outside n k = tt
  consumer_tail q (Consumer.at_test i) n k = k
  consumer_tail q (Consumer.at_read i) n k = (k.0, λ e. n (sym e))
  consumer_tail q (Consumer.at_store y i) n k = (k.0, (λ e. n (sym e)), k.2)

  -- The producer's knowledge survives the consumer's store.
  producer_head :
      (q : SpscQueue A) (p : Producer A)
      → IsValid q
      → q.head ≢ q.tail
      → ProducerKnows q p
      → ProducerKnows (record q { head = succ_in q.capacity q.head }) p
  producer_head q Producer.outside v n k = tt
  producer_head q (Producer.at_test x i) v n k = k
  producer_head q (Producer.at_write x i) v n k = (k.0, ground (arith, v.head_in, v.tail_in))
  producer_head q (Producer.at_store x i) v n k = (k.0, ground (arith, v.head_in, v.tail_in), k.2)

  contents_write :
      (q : SpscQueue A) (x : A)
      → IsValid q
      → contents (record q { buffer = update q.buffer q.tail x }) ≡ contents q
  contents_write q x v =
      window-update q.capacity q.buffer x q.tail _ q.head v.head_in v.tail_in refl

  contents_tail :
      (q : SpscQueue A)
      → IsValid q
      → succ_in q.capacity q.tail ≢ q.head
      → contents (record q { tail = succ_in q.capacity q.tail })
        ≡ contents q ++ q.buffer q.tail ∷ []
  contents_tail q v n =
      rw (distance_grow q.capacity q.head q.tail v.head_in v.tail_in n)
        (window_snoc q.capacity q.buffer q.tail _ q.head v.head_in v.tail_in refl)

  stored_tail :
      (s : Threads A) (x : A) (i : ℕ)
      → IsSafe s
      → ProducerKnows s.queue (Producer.at_store x i)
      → IsSafe (record s {
        queue = record (s.queue) { tail = following s.queue.capacity i };
        producer = Producer.outside;
        pushed = s.pushed ++ x ∷ [];
      })
  stored_tail s x i v k =
      let q = s.queue in
      let at : following q.capacity i ≡ succ_in q.capacity q.tail =
        ap (following q.capacity) k.0 ∙ following-tail q v.valid in
      rw at (record {
        valid = record {
          head_in = v.valid.head_in;
          tail_in = ground (arith, v.valid.tail_in);
          small = v.valid.small;
        };
        producing = tt;
        consuming = consumer_tail q s.consumer k.1 v.consuming;
        history =
            rw (contents_tail q v.valid k.1, k.2, v.history)
              (append_assoc s.popped (contents q) (x ∷ []));
      })

  stored_head :
      (s : Threads A) (x : A) (i : ℕ)
      → IsSafe s
      → ConsumerKnows s.queue (Consumer.at_store x i)
      → IsSafe (record s {
        queue = record (s.queue) { head = following s.queue.capacity i };
        consumer = Consumer.outside;
        popped = s.popped ++ x ∷ [];
      })
  stored_head s x i v k =
      let q = s.queue in
      let at : following q.capacity i ≡ succ_in q.capacity q.head =
        ap (following q.capacity) k.0 ∙ following-head q v.valid in
      rw at (record {
        valid = record {
          head_in = ground (arith, v.valid.head_in);
          tail_in = v.valid.tail_in;
          small = v.valid.small;
        };
        producing = producer_head q s.producer v.valid k.1 v.producing;
        consuming = tt;
        history =
            v.history
            ∙ ap (λ xs. s.popped ++ xs) (contents_shrink q v.valid k.1)
            ∙ rw k.2 (sym (append_assoc s.popped (x ∷ []) _));
      })

  -- Every step of either thread keeps the queue safe.
  pub Step-IsSafe : {s t : Threads A} → Step s t → IsSafe s → IsSafe t
  Step-IsSafe (load_tail x e d) v =
      rw d
        (record { valid = v.valid; producing = refl; consuming = v.consuming; history = v.history })
  Step-IsSafe (test_full x i e f d) v =
      rw d
        (record { valid = v.valid; producing = tt; consuming = v.consuming; history = v.history })
  Step-IsSafe {s} (test_room x i e f d) v =
      let k = subst (ProducerKnows s.queue) e v.producing in
      rw d (record {
        valid = v.valid;
        producing =
            (k, λ g. f (ap (following s.queue.capacity) k ∙ following-tail s.queue v.valid ∙ g));
        consuming = v.consuming;
        history = v.history;
      })
  Step-IsSafe {s} (write_slot x i e d) v =
      let k = subst (ProducerKnows s.queue) e v.producing in
      rw (d, k.0)
        (record {
          valid = record {
            head_in = v.valid.head_in;
            tail_in = v.valid.tail_in;
            small = v.valid.small;
          };
          producing = (refl, k.1, update_self s.queue.buffer s.queue.tail x);
          consuming = consumer_write s.queue x s.consumer v.consuming;
          history = rw (contents_write s.queue x v.valid) v.history;
        })
  Step-IsSafe {s} (store_tail x i e d) v =
      rw d (stored_tail s x i v (subst (ProducerKnows s.queue) e v.producing))
  Step-IsSafe (load_head e d) v =
      rw d
        (record { valid = v.valid; producing = v.producing; consuming = refl; history = v.history })
  Step-IsSafe (test_empty i e f d) v =
      rw d
        (record { valid = v.valid; producing = v.producing; consuming = tt; history = v.history })
  Step-IsSafe {s} (test_item i e f d) v =
      let k = subst (ConsumerKnows s.queue) e v.consuming in
      rw d (record {
        valid = v.valid;
        producing = v.producing;
        consuming = (k, λ g. f (k ∙ g));
        history = v.history;
      })
  Step-IsSafe {s} (read_slot i e d) v =
      let k = subst (ConsumerKnows s.queue) e v.consuming in
      rw d (record {
        valid = v.valid;
        producing = v.producing;
        consuming = (k.0, k.1, ap s.queue.buffer (sym k.0));
        history = v.history;
      })
  Step-IsSafe {s} (store_head x i e d) v =
      rw d (stored_head s x i v (subst (ConsumerKnows s.queue) e v.consuming))

  -- From a safe state, in every interleaving of one producer and one consumer the state stays safe:
  -- the items pushed are, in order, those popped and then those in the queue.
  pub Reach-IsSafe : {s t : Threads A} → Reach s t → IsSafe s → IsSafe t
  Reach-IsSafe here v = v
  Reach-IsSafe (next r st) v = Step-IsSafe st (Reach-IsSafe r v)
