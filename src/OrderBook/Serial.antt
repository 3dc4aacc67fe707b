-- ===== src/OrderBook/Serial.antt =====
-- Orders one after another, up to a call that does not return.
use trading_simulation.Prelude.{
  ◌≡◌, refl, sym, ap, ◌∙◌, List, [], ◌∷◌, ◌++◌, append-nil, ℕ, fun_ext,
}
use trading_simulation.Prelude.Int.{ℤ}
use trading_simulation.Double.{Double}
use trading_simulation.Order.{Order, Execution}
use trading_simulation.OrderBook.{OrderBook, Outcome, done, fault, out_of_fuel, accept_new_order}
use trading_simulation.OrderBook.Frame.{behind_book, in_outcome, accept_new_order-behind}

abbrev pub followed : {A B : Type 0} → Outcome A → (A → Outcome B) → Outcome B
followed (done a) f = f a
followed fault f = fault
followed out_of_fuel f = out_of_fuel

-- A callback called with each of the orders.
abbrev pub each : {D S : Type 0} → (S → Order D → Outcome S) → S → List (Order D) → Outcome S
each f s [] = done s
each f s (order ∷ orders) = followed (f s order) (λ s'. each f s' orders)

pub followed_done : {A : Type 0} (out : Outcome A) → followed out done ≡ out
followed_done (done a) = refl
followed_done fault = refl
followed_done out_of_fuel = refl

pub followed_assoc :
    {A B C : Type 0} (out : Outcome A) (f : A → Outcome B) (g : B → Outcome C)
    → followed (followed out f) g ≡ followed out (λ a. followed (f a) g)
followed_assoc (done a) f g = refl
followed_assoc fault f g = refl
followed_assoc out_of_fuel f g = refl

pub each-append :
    {D S : Type 0} (f : S → Order D → Outcome S) (s : S) (xs ys : List (Order D))
    → each f s (xs ++ ys) ≡ followed (each f s xs) (λ s'. each f s' ys)
each-append f s [] ys = refl
each-append f s (x ∷ xs) ys =
    ap (followed (f s x)) (fun_ext (λ s'. each-append f s' xs ys))
    ∙ sym (followed_assoc (f s x) (λ s'. each f s' xs) (λ s'. each f s' ys))

-- The order book by itself.
abbrev pub accept_all :
    (F : Double)
    → (ℕ → ℤ)
    → OrderBook F.Carrier
    → List (Order F.Carrier)
    → Outcome (OrderBook F.Carrier)
accept_all F clock ob orders = each (accept_new_order F clock) ob orders

-- The order book with nothing left to report.
abbrev pub told_all : {D : Type 0} → OrderBook D → OrderBook D
told_all ob = record ob { emitted = [] }

module _ (F : Double) (clock : ℕ → ℤ) where
  followed-behind :
      (xs : List (Execution F.Carrier)) (orders : List (Order F.Carrier))
      (out : Outcome (OrderBook F.Carrier))
      → ((ob : OrderBook F.Carrier)
          → accept_all F clock (behind_book xs ob) orders
            ≡ in_outcome (behind_book xs) (accept_all F clock ob orders))
      → followed (in_outcome (behind_book xs) out) (λ ob. accept_all F clock ob orders)
        ≡ in_outcome (behind_book xs) (followed out (λ ob. accept_all F clock ob orders))
  followed-behind xs orders (done ob) h = h ob
  followed-behind xs orders fault h = refl
  followed-behind xs orders out_of_fuel h = refl

  accept_all-behind :
      (xs : List (Execution F.Carrier)) (ob : OrderBook F.Carrier) (orders : List (Order F.Carrier))
      → accept_all F clock (behind_book xs ob) orders
        ≡ in_outcome (behind_book xs) (accept_all F clock ob orders)
  accept_all-behind xs ob [] = refl
  accept_all-behind xs ob (order ∷ orders) =
      ap (λ out. followed out (λ ob'. accept_all F clock ob' orders))
        (accept_new_order-behind F clock xs ob order)
      ∙ followed-behind xs orders (accept_new_order F clock ob order)
          (λ ob'. accept_all-behind xs ob' orders)

  -- What the other orders find, after one whose executions were reported.
  pub behind_told :
      (ob ob' : OrderBook F.Carrier) (orders : List (Order F.Carrier))
      → accept_all F clock (told_all ob) orders ≡ done ob'
      → accept_all F clock ob orders ≡ done (behind_book ob.emitted ob')
  behind_told ob ob' orders e =
      ap (λ b. accept_all F clock b orders)
        (λ i. record ob { emitted = sym (append-nil ob.emitted) i })
      ∙ accept_all-behind ob.emitted (told_all ob) orders
      ∙ ap (in_outcome (behind_book ob.emitted)) e
