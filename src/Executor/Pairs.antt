-- ===== src/Executor/Pairs.antt =====
-- The hedge pairs of server/src/execution/executor.py, given what `submit_order` answers.
use Prim.Native.String.{String}
use stock_test.Base.{ℕ, ◌≡◌, Bool, true, false, if◌then◌else◌, arith, inl, inr, Bool-cases}
use stock_test.Float.{FloatOps}
use stock_test.Order.{Order, OrderSide}
use stock_test.TradingMode.{TradingMode}
use stock_test.RiskEngine.{Cause}
use stock_test.Executor.{ok, raised, missing_attribute, World, OrderUrgency, Settings}
use stock_test.Executor.Submit.{Desk}
use stock_test.Executor.Hedge.{after_spot, submit_hedge_pair}
use stock_test.Executor.Success.{blocked, submit_never_sends}

module _ {F L X : Type 0} ⦃fl : FloatOps F⦄ (w : World F X) (rounds : ℕ) (settings : Settings F)
    (call : L → TradingMode → String → X → Bool × X) (text : Cause → String)
    (why : String → OrderSide → String) where
  -- No leg of a hedge pair is ever sent: where the risk engine stops the spot order the pair is
  -- answered False for both, and everywhere else it raises; no recovery is tried, and the engine and
  -- the exchanges stay as they were.
  pub pair_never_sends :
      (spot perp : Order F) (urgency : OrderUrgency) (d : Desk F L X)
      → submit_hedge_pair w rounds settings call text why spot perp urgency d ≡ (
          if blocked w rounds settings true spot d
          then (ok (false, false), d)
          else (raised missing_attribute, d))
  unfolding submit_hedge_pair after_spot
  pair_never_sends spot perp urgency d =
      let e = submit_never_sends w rounds settings true urgency spot d in
      elim (Bool-cases (blocked w rounds settings true spot d)) [
        | inl stop ↦ ground (arith, e, stop)
        | inr free ↦ ground (arith, e, free)
      ]
