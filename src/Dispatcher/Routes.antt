-- ===== src/Dispatcher/Routes.antt =====
-- Which callbacks a tick reaches.
use trading_simulation.Prelude.{
  ℕ, zero, suc, ◌-◌, ◌<◌, ◌≤◌, ◌≡◌, refl, sym, ap, ◌∙◌, inl, inr, List, [], ◌∷◌, ◌++◌, none, some,
  arith, ◌==◌, if◌then◌else◌, length, length-append, length-replicate, take, replicate, min,
  update_ne, All, Bool-cases, append-nil, Option, ==_refl, ==_ne, ==_false→ne, update_at,
  All-append,
}
use trading_simulation.StringMap.{eqb_list, eqb_list_refl, eqb_list-eq}
use trading_simulation.OrderBook.{sym_key}
use trading_simulation.OrderBook.Key.{sym_key_injective}
use trading_simulation.Dispatcher.{Tick, Dispatcher, padded, entry_of, called, subscribe, dispatch}

-- The first so many bytes, with zeros behind the last.
abbrev pub first_or_zero : ℕ → List ℕ → List ℕ
first_or_zero zero s = []
first_or_zero (suc n) [] = 0 ∷ first_or_zero n []
first_or_zero (suc n) (b ∷ bs) = b ∷ first_or_zero n bs

module _ {C : Type 0} where
  -- The subscriptions made one after the other, the latest first in the list.
  abbrev pub subscribed : List (List ℕ × C) → Dispatcher C
  subscribed [] = λ key. none
  subscribed ((s, c) ∷ rest) = subscribe (subscribed rest) s c

  -- The callback, if a subscription is for the tick's eight bytes; an empty symbol is for none.
  abbrev pub matching : List ℕ → List ℕ → C → List C
  matching bytes [] c = []
  matching bytes (b ∷ bs) c = if eqb_list (first_or_zero 8 (b ∷ bs)) bytes then c ∷ [] else []

  -- The callbacks of the subscriptions for the tick's bytes, in the order of subscription.
  abbrev pub routed : List ℕ → List (List ℕ × C) → List C
  routed bytes [] = []
  routed bytes ((s, c) ∷ rest) = routed bytes rest ++ matching bytes s c

  abbrev pub AreBytes : List (List ℕ × C) → Type 0
  AreBytes [] = Unit
  AreBytes ((s, c) ∷ rest) = All (λ b. b < 256) s × AreBytes rest

length-take : {A : Type 0} (n : ℕ) (xs : List A) → n ≤ length xs → length (take n xs) ≡ n
length-take zero xs h = refl
length-take (suc n) [] h = absurd (omega arith)
length-take (suc n) (x ∷ xs) h = ap suc (length-take n xs (omega arith))

All-take : (n : ℕ) (xs : List ℕ) → All (λ b. b < 256) xs → All (λ b. b < 256) (take n xs)
All-take zero xs h = tt
All-take (suc n) [] h = tt
All-take (suc n) (x ∷ xs) h = (h.0, All-take n xs h.1)

All-zeros : (n : ℕ) → All (λ b. b < 256) (replicate n 0)
All-zeros zero = tt
All-zeros (suc n) = (omega arith, All-zeros n)

first_or_zero-nil : (n : ℕ) → replicate n 0 ≡ first_or_zero n []
first_or_zero-nil zero = refl
first_or_zero-nil (suc n) = ap (λ xs. 0 ∷ xs) (first_or_zero-nil n)

first_or_zero-take :
    (n : ℕ) (s : List ℕ)
    → take (min (length s) n) s ++ replicate (n - min (length s) n) 0 ≡ first_or_zero n s
first_or_zero-take zero [] = refl
first_or_zero-take zero (b ∷ bs) =
    let none_taken : min (suc (length bs)) 0 ≡ 0 = omega arith in rw none_taken refl
first_or_zero-take (suc n) [] =
    let none_taken : min 0 (suc n) ≡ 0 = omega arith in
    let all_left : suc n - 0 ≡ suc n = omega arith in
    rw (none_taken, all_left) (first_or_zero-nil (suc n))
first_or_zero-take (suc n) (b ∷ bs) =
    let one_more : min (suc (length bs)) (suc n) ≡ suc (min (length bs) n) = omega arith in
    let as_left : suc n - suc (min (length bs) n) ≡ n - min (length bs) n = omega arith in
    rw (one_more, as_left) (ap (λ xs. b ∷ xs) (first_or_zero-take n bs))

padded_lem : (s : List ℕ) → padded s ≡ first_or_zero 8 s
unfolding padded
padded_lem s = first_or_zero-take 8 s

length-padded : (s : List ℕ) → length (padded s) ≡ 8
unfolding padded
length-padded s =
    let n = min (length s) 8 in
    omega (
      arith,
      length-append (take n s) (replicate (8 - n) 0),
      length-take n s (omega arith),
      length-replicate {A = ℕ} (8 - n) 0,
    )

padded-bytes : (s : List ℕ) → All (λ b. b < 256) s → All (λ b. b < 256) (padded s)
unfolding padded
padded-bytes s h =
    let n = min (length s) 8 in
    All-append (λ b. b < 256) (take n s) (replicate (8 - n) 0) (All-take n s h) (All-zeros (8 - n))

module _ (bytes : List ℕ) (eight : length bytes ≡ 8) (small : All (λ b. b < 256) bytes) where
  same_key :
      (s : List ℕ)
      → All (λ b. b < 256) s
      → (sym_key (padded s) == sym_key bytes) ≡ eqb_list (padded s) bytes
  same_key s h = elim (Bool-cases (eqb_list (padded s) bytes)) [
    | inl e ↦ rw (e, eqb_list-eq (padded s) bytes e) (==_refl (sym_key bytes))
    | inr e ↦ rw e (
        ==_ne (sym_key (padded s)) (sym_key bytes) (λ k.
          let same =
            sym_key_injective (padded s) bytes (padded-bytes s h) small
              (length-padded s ∙ sym eight) k in
          cc (e, ap (λ xs. eqb_list xs bytes) same, eqb_list_refl bytes)))
  ]

  module _ {C : Type 0} where
    -- The callback, if the eight bytes of its subscription are the tick's.
    abbrev for_bytes : List ℕ → C → List C
    for_bytes s c = if eqb_list s bytes then c ∷ [] else []

    subscribe-entry :
        (d : Dispatcher C) (b : ℕ) (bs : List ℕ) (c : C)
        → All (λ x. x < 256) (b ∷ bs)
        → entry_of (subscribe d (b ∷ bs) c (sym_key bytes))
          ≡ entry_of (d (sym_key bytes)) ++ for_bytes (padded (b ∷ bs)) c
    unfolding subscribe
    subscribe-entry d b bs c h = elim (Bool-cases (eqb_list (padded (b ∷ bs)) bytes)) [
      | inl e ↦
          let k = ap sym_key (eqb_list-eq (padded (b ∷ bs)) bytes e) in
          rw e (
            ap entry_of (update_at d (sym_key (padded (b ∷ bs))) _ _ (sym k))
            ∙ ap (λ key. entry_of (d key) ++ c ∷ []) k)
      | inr e ↦
          let n = ==_false→ne _ _ (same_key (b ∷ bs) h ∙ e) in
          rw e (
            ap entry_of (update_ne d (sym_key (padded (b ∷ bs))) (sym_key bytes) _ (λ q. n (sym q)))
            ∙ sym (append-nil (entry_of (d (sym_key bytes)))))
    ]

    entry-subscribed :
        (subs : List (List ℕ × C))
        → AreBytes subs
        → entry_of (subscribed subs (sym_key bytes)) ≡ routed bytes subs
    unfolding subscribe
    entry-subscribed [] h = refl
    entry-subscribed (([], c) ∷ rest) h =
        entry-subscribed rest h.1 ∙ sym (append-nil (routed bytes rest))
    entry-subscribed ((b ∷ bs, c) ∷ rest) h =
        subscribe-entry (subscribed rest) b bs c h.0
        ∙ ap (λ cs. cs ++ for_bytes (padded (b ∷ bs)) c) (entry-subscribed rest h.1)
        ∙ ap (λ s. routed bytes rest ++ for_bytes s c) (padded_lem (b ∷ bs))

    called_entry : (o : Option (List C)) → called o ≡ entry_of o
    called_entry none = refl
    called_entry (some cs) = refl

    dispatch_entry :
        {D : Type 0} (d : Dispatcher C) (tick : Tick D)
        → dispatch d tick ≡ entry_of (d (sym_key tick.symbol))
    unfolding dispatch
    dispatch_entry d tick = called_entry (d (sym_key tick.symbol))

    -- A tick with eight bytes for a symbol reaches exactly the callbacks subscribed under a symbol of
    -- bytes, not empty, whose first eight bytes, with zeros behind a shorter one, are those, in the order
    -- of subscription.
    pub dispatch-subscribed :
        {D : Type 0} (tick : Tick D) (subs : List (List ℕ × C))
        → tick.symbol ≡ bytes
        → AreBytes subs
        → dispatch (subscribed subs) tick ≡ routed bytes subs
    dispatch-subscribed tick subs e h =
        dispatch_entry (subscribed subs) tick
        ∙ ap (λ xs. entry_of (subscribed subs (sym_key xs))) e
        ∙ entry-subscribed subs h
