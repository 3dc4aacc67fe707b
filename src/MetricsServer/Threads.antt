-- ===== src/MetricsServer/Threads.antt =====
-- The threads of src/metrics_server.cpp: the thread that calls `start` and `stop`, the accept thread, and
-- a thread for each client. One step is one access to what they share, or one call that waits, and the
-- steps interleave in any order. What the sockets do is the choice between steps.
pub mod Clients
pub mod Stop
use trading_simulation.Prelude.{
  ℕ, zero, suc, ◌+◌, ◌≤◌, ◌<◌, append-nil, ◌≡◌, ◌≢◌, refl, sym, ap, ◌∙◌, inl, inr, ◌⊎◌, List, [],
  ◌∷◌, ◌++◌, Option, none, some, Bool, true, false, arith, subst,
}

-- Where the caller is: outside, or in `start` or `stop`. `std::thread` ends the program when it is assigned
-- to a thread that still runs.
pub data Caller : Type 0 where
  outside : Caller
  binding : Caller
  spawning : Caller
  closing : Caller
  joining : Caller
  terminated : Caller

pub data Acceptor : Type 0 where
  absent : Acceptor
  listening : Acceptor
  closed : Acceptor

-- Where the accept thread is in `acceptLoop`.
pub data AcceptLoop : Type 0 where
  testing : AcceptLoop
  accepting : AcceptLoop
  accepted : AcceptLoop
  ended : AcceptLoop

-- Where a client thread is in `serveClient`.
pub data Client : Type 0 where
  handshaking : Client
  testing : Client
  sleeping : Client
  checking : Client
  writing : Client
  leaving : Client
  gone : Client

pub record Server : Type 0 where
  pub running : Bool
  pub acceptor : Acceptor
  pub accept_thread : Option AcceptLoop
  pub clients : List Client
  pub caller : Caller

abbrev pub no_server : Server
no_server = record {
  running = false;
  acceptor = absent;
  accept_thread = none;
  clients = [];
  caller = Caller.outside;
}

-- `if (acceptor_) acceptor_->close(ec);`
abbrev pub close : Acceptor → Acceptor
close absent = absent
close listening = closed
close closed = closed

-- One step of a client thread, where the flag is as the first argument says.
pub data Serves (running : Bool) : Client → Client → Type 0 where
  upgraded : Serves running handshaking Client.testing
  refused : Serves running handshaking gone
  goes_on : running ≡ true → Serves running Client.testing sleeping
  stops : running ≡ false → Serves running Client.testing leaving
  wakes : Serves running sleeping checking
  still_runs : running ≡ true → Serves running checking writing
  stopped_asleep : running ≡ false → Serves running checking leaving
  wrote : Serves running writing Client.testing
  disconnected : Serves running writing leaving
  left : Serves running leaving gone

-- One step of the accept thread: the flag, the acceptor, the place before and behind, and the clients
-- that it starts.
pub data Accepts (running : Bool) (acceptor : Acceptor)
    : AcceptLoop → AcceptLoop → List Client → Type 0 where
  test_true : running ≡ true → Accepts running acceptor AcceptLoop.testing accepting []
  test_false : running ≡ false → Accepts running acceptor AcceptLoop.testing ended []
  connected : acceptor ≡ listening → Accepts running acceptor accepting accepted []
  -- `accept` sets `ec`: on an acceptor that is open, for whatever reason, and on one that is not, because of
  -- that, which is what `close` in `stop` is for
  failed : acceptor ≡ listening → Accepts running acceptor accepting ended []
  aborted : acceptor ≢ listening → Accepts running acceptor accepting ended []
  spawned : running ≡ true → Accepts running acceptor accepted AcceptLoop.testing (handshaking ∷ [])
  too_late : running ≡ false → Accepts running acceptor accepted ended []

pub data Step (s t : Server) : Type 0 where
  -- `impl_->running_ = true;`
  start_running :
      s.caller ≡ Caller.outside → t ≡ record s { running = true; caller = binding } → Step s t
  -- `make_unique<tcp::acceptor>(...)` and `set_option`, and where one of them throws
  start_bound :
      s.caller ≡ binding → t ≡ record s { acceptor = listening; caller = spawning } → Step s t
  start_not_bound : s.caller ≡ binding → t ≡ record s { caller = Caller.outside } → Step s t
  start_no_option :
      s.caller ≡ binding → t ≡ record s { acceptor = listening; caller = Caller.outside } → Step s t
  -- `acceptThread_ = std::thread(...)`
  start_thread :
      s.caller ≡ spawning
      → s.accept_thread ≡ none
      → t ≡ record s { accept_thread = some AcceptLoop.testing; caller = Caller.outside }
      → Step s t
  start_twice :
      (a : AcceptLoop)
      → s.caller ≡ spawning
      → s.accept_thread ≡ some a
      → t ≡ record s { caller = terminated }
      → Step s t
  -- `if (!running_.exchange(false)) return;`
  stop_again : s.caller ≡ Caller.outside → s.running ≡ false → t ≡ s → Step s t
  stop_running :
      s.caller ≡ Caller.outside
      → s.running ≡ true
      → t ≡ record s { running = false; caller = closing }
      → Step s t
  stop_close :
      s.caller ≡ closing → t ≡ record s { acceptor = close s.acceptor; caller = joining } → Step s t
  -- `if (acceptThread_.joinable()) acceptThread_.join();`
  stop_no_thread :
      s.caller ≡ joining
      → s.accept_thread ≡ none
      → t ≡ record s { caller = Caller.outside }
      → Step s t
  stop_join :
      s.caller ≡ joining
      → s.accept_thread ≡ some ended
      → t ≡ record s { accept_thread = none; caller = Caller.outside }
      → Step s t
  accept_step :
      (a b : AcceptLoop) (new : List Client)
      → s.caller ≢ terminated
      → s.accept_thread ≡ some a
      → Accepts s.running s.acceptor a b new
      → t ≡ record s { accept_thread = some b; clients = s.clients ++ new }
      → Step s t
  client_step :
      (before behind : List Client) (a b : Client)
      → s.caller ≢ terminated
      → s.clients ≡ before ++ a ∷ behind
      → Serves s.running a b
      → t ≡ record s { clients = before ++ b ∷ behind }
      → Step s t

pub data Reaches (s : Server) : Server → Type 0 where
  here : Reaches s s
  more : {t u : Server} → Reaches s t → Step t u → Reaches s u
