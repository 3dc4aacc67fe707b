-- ===== src/MetricsServer/Threads/Stop.antt =====
-- What `stop` brings about, and how long it waits.
use trading_simulation.Prelude.{
  ℕ, suc, ◌≡◌, ◌≢◌, refl, inl, inr, ◌⊎◌, List, ◌∷◌, ◌++◌, none, some, Bool, true, false, subst,
}
use trading_simulation.MetricsServer.Threads.{
  Caller, Acceptor, AcceptLoop, Client, Server, Accepts, Step, Reaches, no_server, close, binding,
  spawning, closing, joining, terminated, absent, listening, closed, ended, start_running,
  start_bound, start_not_bound, start_no_option, start_thread, start_twice, stop_again,
  stop_running, stop_close, stop_no_thread, stop_join, accept_step, client_step, here, more,
}

-- Where the caller is outside and the flag is off, there is no accept thread and no open acceptor; the
-- flag is on in `start`, off in `stop`, and the acceptor is not open behind `close`.
abbrev IsStopped : Server → Type 0
IsStopped s = (s.acceptor ≢ listening) × (s.accept_thread ≡ none)

abbrev At : Caller → Server → Type 0
At Caller.outside s = (s.running ≡ true) ⊎ ((s.running ≡ false) × IsStopped s)
At binding s = s.running ≡ true
At spawning s = s.running ≡ true
At closing s = s.running ≡ false
At joining s = (s.running ≡ false) × (s.acceptor ≢ listening)
At terminated s = Unit

abbrev IsValid : Server → Type 0
IsValid s = At s.caller s

close-ne : (a : Acceptor) → close a ≢ listening
close-ne absent e = cc
close-ne listening e = cc
close-ne closed e = cc

At-accept :
    (c : Caller) (s : Server) (a b : AcceptLoop) (cs : List Client)
    → s.accept_thread ≡ some a
    → At c s
    → At c (record s { accept_thread = some b; clients = cs })
At-accept Caller.outside s a b cs n (inl on) = inl on
At-accept Caller.outside s a b cs n (inr (off, (shut, idle))) = absurd cc
At-accept binding s a b cs n v = v
At-accept spawning s a b cs n v = v
At-accept closing s a b cs n v = v
At-accept joining s a b cs n v = v
At-accept terminated s a b cs n v = tt

At-clients :
    (c : Caller) (s : Server) (cs : List Client) → At c s → At c (record s { clients = cs })
At-clients Caller.outside s cs v = v
At-clients binding s cs v = v
At-clients spawning s cs v = v
At-clients closing s cs v = v
At-clients joining s cs v = v
At-clients terminated s cs v = tt

at : (s : Server) {c : Caller} → s.caller ≡ c → IsValid s → At c s
at s e v = subst (λ c. At c s) e v

Step-IsValid : (s t : Server) → IsValid s → Step s t → IsValid t
Step-IsValid s t v (start_running c e) = rw e refl
Step-IsValid s t v (start_bound c e) = rw e (at s c v)
Step-IsValid s t v (start_not_bound c e) = rw e (inl (at s c v))
Step-IsValid s t v (start_no_option c e) = rw e (inl (at s c v))
Step-IsValid s t v (start_thread c n e) = rw e (inl (at s c v))
Step-IsValid s t v (start_twice a c n e) = rw e tt
Step-IsValid s t v (stop_again c f e) = rw e v
Step-IsValid s t v (stop_running c f e) = rw e refl
Step-IsValid s t v (stop_close c e) = rw e (at s c v, close-ne s.acceptor)
Step-IsValid s t v (stop_no_thread c n e) =
    let (off, shut) = at s c v in rw e (inr (off, (shut, n)))
Step-IsValid s t v (stop_join c n e) = let (off, shut) = at s c v in rw e (inr (off, (shut, refl)))
Step-IsValid s t v (accept_step a b new c n st e) =
    rw e (At-accept s.caller s a b (s.clients ++ new) n v)
Step-IsValid s t v (client_step before behind a b c n st e) =
    rw e (At-clients s.caller s (before ++ b ∷ behind) v)

reached-IsValid : {s : Server} → Reaches no_server s → IsValid s
reached-IsValid here = inr (refl, ((λ e. cc), refl))
reached-IsValid (more {t} {u} r st) = Step-IsValid t u (reached-IsValid r) st

-- However the caller, the accept thread and the clients interleave: where no `start` or `stop` is under
-- way and the flag is off, the accept thread is joined and its acceptor is not open, so that no client is
-- let in.
pub reached_stopped :
    (s : Server)
    → Reaches no_server s
    → s.caller ≡ Caller.outside
    → s.running ≡ false
    → (s.acceptor ≢ listening) × (s.accept_thread ≡ none)
reached_stopped s r c off = elim (at s c (reached-IsValid r)) [
  | inl on ↦ absurd cc
  | inr (f, (shut, n)) ↦ (shut, n)
]

-- A run of the accept thread by so many steps, while the flag and the acceptor stay as they are: only the
-- caller of `start` and `stop` changes them.
pub data AcceptsFor (running : Bool) (acceptor : Acceptor)
    : ℕ → AcceptLoop → AcceptLoop → Type 0 where
  stay : {a : AcceptLoop} → AcceptsFor running acceptor 0 a a
  go_on :
      {n : ℕ} {a b c : AcceptLoop} {new : List Client}
      → Accepts running acceptor a b new
      → AcceptsFor running acceptor n b c
      → AcceptsFor running acceptor (suc n) a c

-- How many steps the accept thread takes behind `close`.
abbrev steps_left : AcceptLoop → ℕ
steps_left ended = 0
steps_left a = 1
