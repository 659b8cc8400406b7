-- ===== src/PortfolioRisk.antt =====
-- server/src/risk/portfolio_risk.py: the risk that the open positions take, and the limits of it.
pub mod Budget
mod Tests
use stock_test.Base.{
  ℕ, ◌≤◌, Bool, true, false, Option, none, some, List, [], ◌∷◌, ltb, leb, if◌then◌else◌, length,
  get_or,
}
use stock_test.Float.{FloatOps, of_dec, fzero, add, sub, mul, div, flt, fle, fmin, fmax, fabs}
use stock_test.Dict.{Dict, lookup, has_key, put, remove}
use stock_test.Psm.State.{Side, long, short}

pub data MarketCondition : Type 0 where
  normal risky : MarketCondition

pub record PositionRisk (F : Type 0) : Type 0 where
  pub symbol : ℕ
  pub side : Side
  pub entry_price : F
  pub current_price : F
  pub quantity : F
  pub stop_price : F
  pub risk_amount : F
  pub risk_pct : F
  pub strategy : ℕ
  pub opened_at : ℕ

-- The settings of `RiskConfig` that are read here
pub record RiskLimits (F : Type 0) : Type 0 where
  pub risk_per_trade : F
  pub max_risk_per_trade : F
  pub total_risk_limit_normal : F
  pub total_risk_limit_risky : F
  pub max_concurrent_positions : ℕ

pub record PortfolioRiskManager (F : Type 0) : Type 0 where
  pub config : RiskLimits F
  pub position_risks : Dict (PositionRisk F)
  pub market_condition : MarketCondition
  pub equity : F

-- The answer of `can_open_position`
pub data OpenCheck : Type 0 where
  already_holding max_positions_reached insufficient_budget allowed : OpenCheck

module _ {F : Type 0} where
  unfoldable pub update_equity : F → PortfolioRiskManager F → PortfolioRiskManager F
  update_equity equity m = record m { equity = equity }

  unfoldable pub set_market_condition :
      MarketCondition → PortfolioRiskManager F → PortfolioRiskManager F
  set_market_condition condition m = record m { market_condition = condition }

  unfoldable pub get_risk_limit : PortfolioRiskManager F → F
  get_risk_limit m = elim m.market_condition [
    | risky ↦ m.config.total_risk_limit_risky
    | normal ↦ m.config.total_risk_limit_normal
  ]

  unfoldable pub remove_position_risk : ℕ → PortfolioRiskManager F → PortfolioRiskManager F
  remove_position_risk symbol m = record m { position_risks = remove symbol m.position_risks }

  unfoldable pub update_position_price : ℕ → F → PortfolioRiskManager F → PortfolioRiskManager F
  update_position_price symbol price m = elim (lookup symbol m.position_risks) [
    | none ↦ m
    | some p ↦ record m {
      position_risks = put symbol (record p { current_price = price }) m.position_risks;
    }
  ]

module _ {F : Type 0} ⦃fl : FloatOps F⦄ where
  -- `add_position_risk`: whether a risk is returned, and the manager
  unfoldable pub add_position_risk :
      ℕ → ℕ → Side → F → F → F → ℕ → PortfolioRiskManager F → Bool × PortfolioRiskManager F
  add_position_risk now symbol side entry quantity stop strategy m =
      let per_unit : F = elim side [ long ↦ sub entry stop | short ↦ sub stop entry ] in
      let amount = fabs (mul per_unit quantity) in
      let risk : PositionRisk F = record {
        symbol = symbol;
        side = side;
        entry_price = entry;
        current_price = entry;
        quantity = quantity;
        stop_price = stop;
        risk_amount = amount;
        risk_pct = div amount m.equity;
        strategy = strategy;
        opened_at = now;
      } in
      if fle m.equity fzero
      then (false, m)
      else (true, record m { position_risks = put symbol risk m.position_risks })

  -- `sum(p.risk_pct …)`, from what has been summed
  unfoldable pub sum_risk : F → Dict (PositionRisk F) → F
  sum_risk total [] = total
  sum_risk total (e ∷ d) = sum_risk (add total e.1.risk_pct) d

  unfoldable pub get_total_risk_pct : PortfolioRiskManager F → F
  get_total_risk_pct m = sum_risk fzero m.position_risks

  unfoldable pub get_available_risk_pct : PortfolioRiskManager F → F
  get_available_risk_pct m = fmax fzero (sub (get_risk_limit m) (get_total_risk_pct m))

  -- `calc_position_size`: the quantity and the risk
  unfoldable pub calc_position_size : F → F → Option F → PortfolioRiskManager F → F × F
  calc_position_size entry stop risk_pct m =
      let capped = fmin (get_or risk_pct m.config.risk_per_trade) m.config.max_risk_per_trade in
      let risk = fmin capped (get_available_risk_pct m) in
      let distance = fabs (sub entry stop) in
      if fle m.equity fzero
      then (fzero, fzero)
      else if fle risk fzero
      then (fzero, fzero)
      else if fle distance fzero
      then (fzero, fzero)
      else (div (mul m.equity risk) distance, risk)

  unfoldable pub can_open_position : ℕ → PortfolioRiskManager F → OpenCheck
  can_open_position symbol m =
      if has_key symbol m.position_risks
      then already_holding
      else if leb m.config.max_concurrent_positions (length m.position_risks)
      then max_positions_reached
      else if flt (get_available_risk_pct m) (mul m.config.risk_per_trade (of_dec 5 1))
      then insufficient_budget
      else allowed

  unfoldable pub get_positions_to_reduce : F → Dict (PositionRisk F) → List (ℕ × F)
  get_positions_to_reduce pct [] = []
  get_positions_to_reduce pct (e ∷ d) =
      let rest = get_positions_to_reduce pct d in
      let qty = mul e.1.quantity pct in if flt fzero qty then (e.0, qty) ∷ rest else rest
