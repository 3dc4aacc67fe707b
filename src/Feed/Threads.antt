-- ===== src/Feed/Threads.antt =====
-- `UDPFeedSubscriber::start` on its thread, and `stop` on another (src/udp_feed_subscriber.cpp): a step is
-- one system call or one access to the flag, and the steps of the two interleave in any order. What the
-- system calls bring is the choice between steps.
pub mod Stop
use trading_simulation.Prelude.{
  ◌==◌, if◌then◌else◌, ==_ne, ==_iff, ◌∙◌, sym, ◌++◌, ℕ, ◌+◌, ◌≤◌, ◌<◌, ◌≡◌, refl, ap, subst, List,
  [], ◌∷◌, Bool, true, false, arith, length, ◌⊎◌, inl, inr,
}
use trading_simulation.Feed.{tick_size}

-- Where the receiving thread is.
pub data Receiver : Type 0 where
  at_socket : Receiver
  at_bind : Receiver
  at_flag : Receiver
  testing : Receiver
  receiving : Receiver
  dispatching : List ℕ → Receiver
  closing : Receiver
  returned : Receiver
  exited : Receiver

-- The flag, the thread, and the datagrams that it got and those whose ticks it has dispatched, the
-- latest first.
pub record Subscriber : Type 0 where
  pub running : Bool
  pub receiver : Receiver
  pub arrived : List (List ℕ)
  pub dispatched : List (List ℕ)

-- A new subscriber on which `start` is called.
abbrev pub new_subscriber : Subscriber
new_subscriber = record { running = false; receiver = at_socket; arrived = []; dispatched = [] }

pub data Step (s : Subscriber) : Subscriber → Type 0 where
  -- `exit(EXIT_FAILURE)`
  socket_failed : s.receiver ≡ at_socket → Step s (record s { receiver = exited })
  socket_made : s.receiver ≡ at_socket → Step s (record s { receiver = at_bind })
  bind_failed : s.receiver ≡ at_bind → Step s (record s { receiver = exited })
  socket_bound : s.receiver ≡ at_bind → Step s (record s { receiver = at_flag })
  -- `running_ = true;`
  flag_set : s.receiver ≡ at_flag → Step s (record s { running = true; receiver = testing })
  -- `while (running_)`
  goes_on : s.receiver ≡ testing → s.running ≡ true → Step s (record s { receiver = receiving })
  leaves : s.receiver ≡ testing → s.running ≡ false → Step s (record s { receiver = closing })
  -- `recvfrom`
  receive_failed : s.receiver ≡ receiving → Step s (record s { receiver = closing })
  malformed :
      (bytes : List ℕ)
      → s.receiver ≡ receiving
      → length bytes < tick_size
      → Step s (record s { receiver = testing; arrived = bytes ∷ s.arrived })
  received :
      (bytes : List ℕ)
      → s.receiver ≡ receiving
      → length bytes ≡ tick_size
      → Step s (record s { receiver = dispatching bytes; arrived = bytes ∷ s.arrived })
  -- `dispatcher.dispatch(tick);`
  dispatch_tick :
      (bytes : List ℕ)
      → s.receiver ≡ dispatching bytes
      → Step s (record s { receiver = testing; dispatched = bytes ∷ s.dispatched })
  socket_closed : s.receiver ≡ closing → Step s (record s { receiver = returned })
  -- `stop`
  stopped : Step s (record s { running = false })

pub data Reaches (s : Subscriber) : Subscriber → Type 0 where
  here : Reaches s s
  more : {t u : Subscriber} → Reaches s t → Step t u → Reaches s u

-- The datagrams with the bytes of a tick.
abbrev pub wholes : List (List ℕ) → List (List ℕ)
wholes [] = []
wholes (bytes ∷ rest) = if length bytes == tick_size then bytes ∷ wholes rest else wholes rest

-- The datagram that the thread is about to dispatch.
abbrev pub in_hand : Receiver → List (List ℕ)
in_hand (dispatching bytes) = bytes ∷ []
in_hand r = []

-- Each datagram with the bytes of a tick has been dispatched, in order, or is in hand.
abbrev pub IsAccounted : Subscriber → Type 0
IsAccounted s = in_hand s.receiver ++ s.dispatched ≡ wholes s.arrived

-- A step that leaves the two lists alone, from a place with nothing in hand.
nothing_held :
    (s : Subscriber) (p : Receiver)
    → s.receiver ≡ p
    → in_hand p ≡ []
    → IsAccounted s
    → s.dispatched ≡ wholes s.arrived
nothing_held s p e none v = ap (λ xs. xs ++ s.dispatched) (sym (ap in_hand e ∙ none)) ∙ v

Step-IsAccounted : {s t : Subscriber} → Step s t → IsAccounted s → IsAccounted t
Step-IsAccounted {s} (socket_failed e) v = nothing_held s _ e refl v
Step-IsAccounted {s} (socket_made e) v = nothing_held s _ e refl v
Step-IsAccounted {s} (bind_failed e) v = nothing_held s _ e refl v
Step-IsAccounted {s} (socket_bound e) v = nothing_held s _ e refl v
Step-IsAccounted {s} (flag_set e) v = nothing_held s _ e refl v
Step-IsAccounted {s} (goes_on e on) v = nothing_held s _ e refl v
Step-IsAccounted {s} (leaves e off) v = nothing_held s _ e refl v
Step-IsAccounted {s} (receive_failed e) v = nothing_held s _ e refl v
Step-IsAccounted {s} (malformed bytes e short) v =
    rw (==_ne (length bytes) tick_size (omega (arith, short))) (nothing_held s _ e refl v)
Step-IsAccounted {s} (received bytes e whole) v =
    rw ((==_iff (length bytes) tick_size).1 whole)
      (ap (λ xs. bytes ∷ xs) (nothing_held s _ e refl v))
Step-IsAccounted {s} (dispatch_tick bytes e) v = ap (λ r. in_hand r ++ s.dispatched) (sym e) ∙ v
Step-IsAccounted {s} (socket_closed e) v = nothing_held s _ e refl v
Step-IsAccounted stopped v = v

-- In every interleaving of `start` and `stop`, from the call of `start` on, the thread has dispatched the
-- datagrams with the bytes of a tick, among those that arrived, in order and each once, but for one that
-- it holds.
pub Reaches-IsAccounted : (s : Subscriber) → Reaches new_subscriber s → IsAccounted s
Reaches-IsAccounted s here = refl
Reaches-IsAccounted s (more {t} r st) = Step-IsAccounted st (Reaches-IsAccounted t r)
