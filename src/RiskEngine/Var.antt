-- ===== src/RiskEngine/Var.antt =====
-- The value at risk is always computed.
use trading_simulation.Prelude.{ℕ, ◌≡◌, refl, List, [], ◌∷◌, Option, some, arith}
use trading_simulation.Prelude.Int.{ℤ, pos}
use trading_simulation.Double.{Double}
use trading_simulation.PositionManager.{Position, Positions}
use trading_simulation.RiskEngine.{current_price, sum_var, compute_var}
use trading_simulation.VolatilitySurface.{Surface, load_surface}
use trading_simulation.VolatilitySurface.Full.{IsFull, load_surface-IsFull, get_vol_answers}

module _ (F : Double) where
  module _ (sqrt : F.Carrier → F.Carrier) where
    -- The sum after a position.
    abbrev next_var :
        List (List ℕ × F.Carrier) → F.Carrier → List ℕ → Position F.Carrier → F.Carrier → F.Carrier
    next_var prices var symbol p annual = F.add var (
        F.mul (F.mul p.quantity (current_price F prices symbol p))
          (F.div annual (sqrt (F.decimal 252 0))))

    sum_var_answers :
        (surface : Surface F.Carrier) (prices : List (List ℕ × F.Carrier)) (var : F.Carrier)
        (ps : Positions F.Carrier)
        → IsFull surface
        → (v : F.Carrier) × (sum_var F sqrt surface prices var ps ≡ some v)
    unfolding sum_var
    sum_var_answers surface prices var [] h = (var, refl)
    sum_var_answers surface prices var ((symbol, p) ∷ ps) h =
        let (annual, e) = get_vol_answers F surface (current_price F prices symbol p) (pos 30) h in
        let (v, f) = sum_var_answers surface prices (next_var prices var symbol p annual) ps h in
        (v, ground (arith, e, f))

    -- For a surface loaded from any file, whether or not the loading ended by an exception, the value at
    -- risk of any positions at any prices is computed: no step goes before the beginning of a map.
    pub compute_var_answers :
        (stod : List ℕ → Option F.Carrier) (stoi : List ℕ → Option ℤ) (file : List ℕ)
        (prices : List (List ℕ × F.Carrier)) (ps : Positions F.Carrier)
        → (v : F.Carrier) × (compute_var F sqrt (load_surface F stod stoi [] file).0 prices ps
            ≡ some v)
    unfolding compute_var
    compute_var_answers stod stoi file prices ps =
        let (v, e) =
          sum_var_answers (load_surface F stod stoi [] file).0 prices (F.decimal 0 0) ps
            (load_surface-IsFull F stod stoi file) in
        (F.mul v (F.decimal 1645 3), ground (arith, e))
