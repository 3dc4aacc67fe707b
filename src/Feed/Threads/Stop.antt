-- ===== src/Feed/Threads/Stop.antt =====
-- The receiving thread when the flag is off.
use trading_simulation.Prelude.{
  ℕ, ◌+◌, ◌≤◌, ◌≡◌, refl, ap, subst, false, arith, length, ◌⊎◌, inl, inr,
}
use trading_simulation.Feed.Threads.{
  Receiver, Subscriber, Step, Reaches, at_socket, at_bind, at_flag, testing, receiving, dispatching,
  closing, returned, exited, socket_failed, socket_made, bind_failed, socket_bound, flag_set,
  goes_on, leaves, receive_failed, malformed, received, dispatch_tick, socket_closed, stopped, here,
  more,
}

-- The thread has set the flag.
abbrev pub IsPastFlag : Receiver → Type 0
IsPastFlag at_socket = ⊥
IsPastFlag at_bind = ⊥
IsPastFlag at_flag = ⊥
IsPastFlag exited = ⊥
IsPastFlag r = Unit

-- The datagrams that a thread may still dispatch after the flag is off.
abbrev pub still_due : Receiver → ℕ
still_due receiving = 1
still_due (dispatching bytes) = 1
still_due r = 0

-- What holds after a stop.
record IsStopped (bound : ℕ) (s : Subscriber) : Type 0 where
  off : s.running ≡ false
  past : IsPastFlag s.receiver
  few : length s.dispatched + still_due s.receiver ≤ bound

Step-IsStopped : (bound : ℕ) {s t : Subscriber} → Step s t → IsStopped bound s → IsStopped bound t
Step-IsStopped bound (socket_failed e) v = absurd (subst IsPastFlag e v.past)
Step-IsStopped bound (socket_made e) v = absurd (subst IsPastFlag e v.past)
Step-IsStopped bound (bind_failed e) v = absurd (subst IsPastFlag e v.past)
Step-IsStopped bound (socket_bound e) v = absurd (subst IsPastFlag e v.past)
Step-IsStopped bound (flag_set e) v = absurd (subst IsPastFlag e v.past)
Step-IsStopped bound (goes_on e on) v = cc (v.off, on)
Step-IsStopped bound (leaves e off) v = record {
  off = v.off;
  past = tt;
  few = omega (arith, v.few, ap still_due e);
}
Step-IsStopped bound (receive_failed e) v = record {
  off = v.off;
  past = tt;
  few = omega (arith, v.few, ap still_due e);
}
Step-IsStopped bound (malformed bytes e short) v = record {
  off = v.off;
  past = tt;
  few = omega (arith, v.few, ap still_due e);
}
Step-IsStopped bound (received bytes e whole) v = record {
  off = v.off;
  past = tt;
  few = omega (arith, v.few, ap still_due e);
}
Step-IsStopped bound (dispatch_tick bytes e) v = record {
  off = v.off;
  past = tt;
  few = omega (arith, v.few, ap still_due e);
}
Step-IsStopped bound (socket_closed e) v = record {
  off = v.off;
  past = tt;
  few = omega (arith, v.few, ap still_due e);
}
Step-IsStopped bound stopped v = record { off = refl; past = v.past; few = v.few }

Reaches-IsStopped :
    (bound : ℕ) {s t : Subscriber} → Reaches s t → IsStopped bound s → IsStopped bound t
Reaches-IsStopped bound here v = v
Reaches-IsStopped bound (more r st) v = Step-IsStopped bound st (Reaches-IsStopped bound r v)

-- A step of the thread counts, a call of `stop` does not.
abbrev pub own_step : {s t : Subscriber} → Step s t → ℕ
own_step (socket_failed e) = 1
own_step (socket_made e) = 1
own_step (bind_failed e) = 1
own_step (socket_bound e) = 1
own_step (flag_set e) = 1
own_step (goes_on e on) = 1
own_step (leaves e off) = 1
own_step (receive_failed e) = 1
own_step (malformed bytes e short) = 1
own_step (received bytes e whole) = 1
own_step (dispatch_tick bytes e) = 1
own_step (socket_closed e) = 1
own_step stopped = 0

abbrev pub own_steps : {s t : Subscriber} → Reaches s t → ℕ
own_steps here = 0
own_steps (more r st) = own_steps r + own_step st

-- How many steps the thread still takes when the flag is off.
abbrev rank : Receiver → ℕ
rank receiving = 4
rank (dispatching bytes) = 3
rank testing = 2
rank closing = 1
rank r = 0

Step-rank :
    (bound : ℕ) {s t : Subscriber} (st : Step s t)
    → IsStopped bound s
    → own_step st + rank t.receiver ≤ rank s.receiver
Step-rank bound (socket_failed e) v = absurd (subst IsPastFlag e v.past)
Step-rank bound (socket_made e) v = absurd (subst IsPastFlag e v.past)
Step-rank bound (bind_failed e) v = absurd (subst IsPastFlag e v.past)
Step-rank bound (socket_bound e) v = absurd (subst IsPastFlag e v.past)
Step-rank bound (flag_set e) v = absurd (subst IsPastFlag e v.past)
Step-rank bound (goes_on e on) v = cc (v.off, on)
Step-rank bound (leaves e off) v = omega (arith, ap rank e)
Step-rank bound (receive_failed e) v = omega (arith, ap rank e)
Step-rank bound (malformed bytes e short) v = omega (arith, ap rank e)
Step-rank bound (received bytes e whole) v = omega (arith, ap rank e)
Step-rank bound (dispatch_tick bytes e) v = omega (arith, ap rank e)
Step-rank bound (socket_closed e) v = omega (arith, ap rank e)
Step-rank bound stopped v = omega arith

Reaches-rank :
    (bound : ℕ) {s t : Subscriber} (r : Reaches s t)
    → IsStopped bound s
    → own_steps r + rank t.receiver ≤ rank s.receiver
Reaches-rank bound here v = omega arith
Reaches-rank bound (more r st) v =
    omega (arith, Reaches-rank bound r v, Step-rank bound st (Reaches-IsStopped bound r v))

rank_le : (p : Receiver) → rank p ≤ 4
rank_le at_socket = omega arith
rank_le at_bind = omega arith
rank_le at_flag = omega arith
rank_le testing = omega arith
rank_le receiving = omega arith
rank_le (dispatching bytes) = omega arith
rank_le closing = omega arith
rank_le returned = omega arith
rank_le exited = omega arith

-- The thread has returned, or waits in `recvfrom`, or can take a step, whatever comes from outside.
abbrev pub Goes : Subscriber → Type 0
Goes s =
    (s.receiver ≡ returned)
    ⊎ (s.receiver ≡ receiving)
    ⊎ ((t : Subscriber) × (st : Step s t) × (own_step st ≡ 1))

goes : (s : Subscriber) (p : Receiver) → s.receiver ≡ p → IsPastFlag p → s.running ≡ false → Goes s
goes s at_socket e past off = absurd past
goes s at_bind e past off = absurd past
goes s at_flag e past off = absurd past
goes s exited e past off = absurd past
goes s testing e past off = inr (inr (_, leaves e off, refl))
goes s receiving e past off = inr (inl e)
goes s (dispatching bytes) e past off = inr (inr (_, dispatch_tick bytes e, refl))
goes s closing e past off = inr (inr (_, socket_closed e, refl))
goes s returned e past off = inl e

still_due-le : (p : Receiver) → still_due p ≤ 1
still_due-le receiving = omega arith
still_due-le (dispatching bytes) = omega arith
still_due-le at_socket = omega arith
still_due-le at_bind = omega arith
still_due-le at_flag = omega arith
still_due-le testing = omega arith
still_due-le closing = omega arith
still_due-le returned = omega arith
still_due-le exited = omega arith

-- From any state in which the flag is off and the thread has set it before, in every run: the flag stays
-- off, at most one more datagram is dispatched, the thread takes at most four more steps, and where it has
-- not returned it can take the next, unless it waits in `recvfrom`.
pub stopped_ends :
    (s t : Subscriber) (r : Reaches s t)
    → s.running ≡ false
    → IsPastFlag s.receiver
    → (t.running ≡ false)
      × (length t.dispatched ≤ length s.dispatched + 1)
      × (own_steps r ≤ 4)
      × Goes t
stopped_ends s t r off past =
    let bound = length s.dispatched + 1 in
    let at_stop : IsStopped bound s = record {
      off = off;
      past = past;
      few = omega (arith, still_due-le s.receiver);
    } in
    let v = Reaches-IsStopped bound r at_stop in
    (
      v.off,
      omega (arith, v.few),
      omega (arith, Reaches-rank bound r at_stop, rank_le s.receiver),
      goes t t.receiver refl v.past v.off,
    )
