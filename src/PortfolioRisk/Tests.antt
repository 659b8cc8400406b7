-- ===== src/PortfolioRisk/Tests.antt =====
-- A manager with room for two positions, and the theorems at it.
use stock_test.Base.{[]}
use stock_test.Float.{of_dec, of_ℕ}
use stock_test.Float.Fixed.{ℤ, fixed_ops}
use stock_test.PortfolioRisk.{PortfolioRiskManager, normal}

abbrev manager : PortfolioRiskManager ℤ
manager = record {
  config = record {
    risk_per_trade = of_dec 3 3;
    max_risk_per_trade = of_dec 5 3;
    total_risk_limit_normal = of_dec 15 3;
    total_risk_limit_risky = of_dec 8 3;
    max_concurrent_positions = 2;
  };
  position_risks = [];
  market_condition = normal;
  equity = of_ℕ 1000;
}
