-- ===== src/TickSimulator/Bytes.antt =====
-- The bytes of a tick, and the tick that the feed reads from them.
use trading_simulation.Prelude.{
  ℕ, zero, suc, ◌+◌, ◌/◌, ◌^◌, ◌≤◌, ◌<◌, ◌≡◌, refl, ap, ap₂, ◌∙◌, List, [], ◌∷◌, ◌++◌, map, true,
  leb, take, drop, length, length-append, arith, All,
}
use trading_simulation.Prelude.Int.{ℤ, pos, negsuc, pos_part, neg_part}
use trading_simulation.Double.{Double}
use trading_simulation.LatencyTracker.{signed}
use trading_simulation.OrderBook.{sym_key}
use trading_simulation.Dispatcher.{Tick}
use trading_simulation.Feed.{decode, tick_size}
use trading_simulation.Feed.Whole.{ticks_of}
use trading_simulation.TickSimulator.{word_bytes, as_word, encode}

-- The range of `int64_t`.
abbrev pub IsInt64 : ℤ → Type 0
IsInt64 z = (pos_part z < 2 ^ 63) × (neg_part z ≤ 2 ^ 63)

length-word_bytes : (n w : ℕ) → length (word_bytes n w) ≡ n
unfolding word_bytes
length-word_bytes zero w = refl
length-word_bytes (suc n) w = ap suc (length-word_bytes n (w / 256))

sym_key-word_bytes : (n w : ℕ) → w < 256 ^ n → sym_key (word_bytes n w) ≡ w
unfolding sym_key word_bytes
sym_key-word_bytes zero w h = omega (arith, h)
sym_key-word_bytes (suc n) w h = omega (arith, sym_key-word_bytes n (w / 256) (omega (arith, h)))

signed-as_word : (z : ℤ) → IsInt64 z → signed (as_word z) ≡ z
unfolding signed as_word
signed-as_word (pos n) h = ground (arith, h)
signed-as_word (negsuc n) h = ground (arith, h)

as_word_small : (z : ℤ) → as_word z < 256 ^ 8
unfolding as_word
as_word_small (pos n) = omega arith
as_word_small (negsuc n) = omega arith

read_word : (z : ℤ) → IsInt64 z → signed (sym_key (word_bytes 8 (as_word z))) ≡ z
read_word z h = ap signed (sym_key-word_bytes 8 (as_word z) (as_word_small z)) ∙ signed-as_word z h

-- A text in front.
take-front : (n : ℕ) (xs ys : List ℕ) → length xs ≡ n → take n (xs ++ ys) ≡ xs
take-front zero [] ys e = refl
take-front (suc n) [] ys e = absurd (omega (arith, e))
take-front zero (x ∷ xs) ys e = absurd (omega (arith, e))
take-front (suc n) (x ∷ xs) ys e = ap (λ zs. x ∷ zs) (take-front n xs ys (omega (arith, e)))

drop-front : (k m : ℕ) (xs ys : List ℕ) → k ≡ length xs + m → drop k (xs ++ ys) ≡ drop m ys
drop-front k m [] ys e = ap (λ n. drop n ys) (omega (arith, e))
drop-front zero m (x ∷ xs) ys e = absurd (omega (arith, e))
drop-front (suc k) m (x ∷ xs) ys e = drop-front k m xs ys (omega (arith, e))

take-all : (n : ℕ) (xs : List ℕ) → length xs ≡ n → take n xs ≡ xs
take-all zero [] e = refl
take-all (suc n) [] e = refl
take-all zero (x ∷ xs) e = absurd (omega (arith, e))
take-all (suc n) (x ∷ xs) e = ap (λ zs. x ∷ zs) (take-all n xs (omega (arith, e)))

-- A tick as the wire carries it.
abbrev pub IsWireTick : {D : Type 0} → Tick D → Type 0
IsWireTick t = (length t.symbol ≡ 8) × IsInt64 t.timestamp_ns

module _ (F : Double) (write_double : F.Carrier → List ℕ) (read_double : List ℕ → F.Carrier)
    (eight : (d : F.Carrier) → length (write_double d) ≡ 8)
    (reads : (d : F.Carrier) → read_double (write_double d) ≡ d) where
  length-encode : (t : Tick F.Carrier) → IsWireTick t → length (encode F write_double t) ≡ tick_size
  unfolding encode
  length-encode t h =
      let w = word_bytes 8 (as_word t.timestamp_ns) in
      omega (
        arith,
        h.0,
        eight t.bid,
        eight t.ask,
        eight t.last,
        length-word_bytes 8 (as_word t.timestamp_ns),
        length-append t.symbol
            (write_double t.bid ++ (write_double t.ask ++ (write_double t.last ++ w))),
        length-append (write_double t.bid) (write_double t.ask ++ (write_double t.last ++ w)),
        length-append (write_double t.ask) (write_double t.last ++ w),
        length-append (write_double t.last) w,
      )

  -- The bytes of a tick are read as the tick.
  decode-encode :
      (t : Tick F.Carrier) → IsWireTick t → decode read_double (encode F write_double t) ≡ t
  unfolding decode encode
  decode-encode t h =
      let w = word_bytes 8 (as_word t.timestamp_ns) in
      let lw = length-word_bytes 8 (as_word t.timestamp_ns) in
      let b4 = write_double t.last ++ w in
      let b3 = write_double t.ask ++ b4 in
      let b2 = write_double t.bid ++ b3 in
      let d8 = drop-front 8 0 t.symbol b2 (omega (arith, h.0)) in
      let d16 =
        drop-front 16 8 t.symbol b2 (omega (arith, h.0))
        ∙ drop-front 8 0 (write_double t.bid) b3 (omega (arith, eight t.bid)) in
      let d24 =
        drop-front 24 16 t.symbol b2 (omega (arith, h.0))
        ∙ drop-front 16 8 (write_double t.bid) b3 (omega (arith, eight t.bid))
        ∙ drop-front 8 0 (write_double t.ask) b4 (omega (arith, eight t.ask)) in
      let d32 =
        drop-front 32 24 t.symbol b2 (omega (arith, h.0))
        ∙ drop-front 24 16 (write_double t.bid) b3 (omega (arith, eight t.bid))
        ∙ drop-front 16 8 (write_double t.ask) b4 (omega (arith, eight t.ask))
        ∙ drop-front 8 0 (write_double t.last) w (omega (arith, eight t.last)) in
      λ i. record {
        symbol = take-front 8 t.symbol b2 h.0 i;
        bid =
            (ap (λ xs. read_double (take 8 xs)) d8
                ∙ ap read_double (take-front 8 (write_double t.bid) b3 (eight t.bid))
                ∙ reads t.bid)
              i;
        ask =
            (ap (λ xs. read_double (take 8 xs)) d16
                ∙ ap read_double (take-front 8 (write_double t.ask) b4 (eight t.ask))
                ∙ reads t.ask)
              i;
        last =
            (ap (λ xs. read_double (take 8 xs)) d24
                ∙ ap read_double (take-front 8 (write_double t.last) w (eight t.last))
                ∙ reads t.last)
              i;
        timestamp_ns =
            (ap (λ xs. signed (sym_key (take 8 xs))) d32
                ∙ ap (λ xs. signed (sym_key xs)) (take-all 8 w lw)
                ∙ read_word t.timestamp_ns h.1)
              i;
      }

  -- The datagrams of any ticks are read as those ticks.
  pub ticks_of-encode :
      (ticks : List (Tick F.Carrier))
      → All IsWireTick ticks
      → ticks_of read_double (map (encode F write_double) ticks) ≡ ticks
  ticks_of-encode [] h = refl
  ticks_of-encode (t ∷ ticks) h =
      let full = length-encode t h.0 in
      let same = take-all tick_size (encode F write_double t) full in
      rw (leb_whole (length (encode F write_double t)) full)
        (ap₂ ◌∷◌ (ap (decode read_double) same ∙ decode-encode t h.0) (ticks_of-encode ticks h.1))
    where
      leb_whole : (n : ℕ) → n ≡ tick_size → leb tick_size n ≡ true
      leb_whole n e = ground (arith, e)
