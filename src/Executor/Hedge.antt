-- ===== src/Executor/Hedge.antt =====
-- Hedge pairs in server/src/execution/executor.py: a spot order and a perpetual order against it, and
-- what is done when only the first is filled. `call` calls a listener of the mode manager, and `why` is
-- the text of a hedge failure; `text` is that of a cause.
use Prim.Native.String.{String}
use stock_test.Base.{
  ℕ, zero, suc, ◌+◌, ◌-◌, Bool, true, false, Option, none, some, List, [], ◌∷◌, ◌++◌, if◌then◌else◌,
  length, map, filter,
}
use stock_test.Float.{FloatOps, of_ℕ, fzero, div, feq}
use stock_test.Order.{OrderSide, buy, sell, market, Order}
use stock_test.TradingMode.{TradingMode}
use stock_test.ExecHealth.{sum, is_empty}
use stock_test.RiskEngine.{Cause}
use stock_test.RiskEngine.Actions.{on_hedge_failure}
use stock_test.Executor.{
  missing_attribute, ok, World, OrderUrgency, high, HedgeRecoveryResult, ExecutionEngine, Settings,
  assign,
}
use stock_test.Executor.Calls.{Call, ◌>>=◌, ◌>>◌, return, raise}
use stock_test.Executor.Submit.{Desk, create_order, submit_order}

abbrev pub opposite : OrderSide → OrderSide
opposite buy = sell
opposite sell = buy

-- `get_hedge_recovery_stats`; an empty history has no success rate.
pub record RecoveryStats (F : Type 0) : Type 0 where
  pub total_recoveries : ℕ
  pub success_count : ℕ
  pub failure_count : ℕ
  pub success_rate : Option F
  pub avg_attempts : F
  pub avg_slippage_bps : F
  pub total_rollback_quantity : F

abbrev pub total : List ℕ → ℕ
total [] = 0
total (n ∷ ns) = n + total ns

module _ {F L X : Type 0} where
  -- A change of the engine
  abbrev pub change : (ExecutionEngine F L → ExecutionEngine F L) → Call (Desk F L X) (Unit {0})
  change f d = (ok tt, record d { engine = f d.engine })

  unfoldable pub register_pair : Order F → String → Call (Desk F L X) (Unit {0})
  register_pair spot id =
      change (λ e. record e { hedge_pairs = assign spot.order_id id e.hedge_pairs })

  unfoldable pub keep_result : HedgeRecoveryResult F → Call (Desk F L X) (Unit {0})
  keep_result r =
      change (λ e. record e { hedge_recovery_history = e.hedge_recovery_history ++ r ∷ [] })

  -- What the result of a recovery is made of.
  unfoldable pub settle : Order F → HedgeRecoveryResult F → Call (Desk F L X) (Bool × Bool)
  unfolding keep_result register_pair
  settle spot r = do
    keep_result r
    elim r.success [
      | false ↦ return (true, false)
      | true ↦ elim r.final_perp_order_id [
        | none ↦ return (true, true)
        | some id ↦ do register_pair spot id; return (true, true)
      ]
    ]

module _ {F L X : Type 0} ⦃fl : FloatOps F⦄ (w : World F X) (rounds : ℕ)
    (settings : Settings F) where
  -- The spot position is closed, and what is reported then.
  unfoldable pub roll_back : ℕ → Order F → Call (Desk F L X) (HedgeRecoveryResult F)
  roll_back attempts spot = do
    let qty = if feq spot.filled_quantity fzero then spot.quantity else spot.filled_quantity
    close ← create_order w spot.symbol spot.strategy (opposite spot.side) market qty none
    answer ← submit_order w rounds settings true high close
    return (record {
      success = false;
      attempts = attempts;
      spot_rollback_executed = answer.0;
      rollback_quantity = if answer.0 then qty else fzero;
      total_slippage_bps = fzero;
      final_perp_order_id = none;
    })

  -- A new market order in place of the perpetual one
  unfoldable pub try_again : Order F → Call (Desk F L X) (Bool × Order F)
  try_again perp = do
    o ← create_order w perp.symbol perp.strategy perp.side market perp.quantity none
    submit_order w rounds settings false high o

  -- The retries that are left of the loop, and the roll-back after the last. A retry that succeeds
  -- reads `fill_price`, which an order does not have, and raises: the answer after it is not reached.
  unfoldable pub retry : ℕ → ℕ → Order F → Order F → Call (Desk F L X) (HedgeRecoveryResult F)
  retry max zero spot perp = roll_back max spot
  retry max (suc left) spot perp = do
    let rest : Call (Desk F L X) (HedgeRecoveryResult F) = retry max left spot perp
    answer ← try_again perp
    elim answer.0 [ true ↦ raise missing_attribute | false ↦ rest ]

  unfoldable pub attempt_hedge_recovery :
      Order F → Order F → Call (Desk F L X) (HedgeRecoveryResult F)
  attempt_hedge_recovery spot perp = retry 3 3 spot perp

  module _ (call : L → TradingMode → String → X → Bool × X) (text : Cause → String)
      (why : String → OrderSide → String) where
    unfoldable pub tell_hedge_failure : Order F → Call (Desk F L X) (Unit {0})
    tell_hedge_failure spot d =
        let (t, x) = w.now d.outside in
        let (r, y) = on_hedge_failure call text (why spot.symbol spot.side) t d.engine.risk x in
        (ok tt, record { engine = record d.engine { risk = r }; outside = y })

    -- The spot order is filled and the perpetual one is not.
    unfoldable pub follow : Order F → Order F → Call (Desk F L X) (Bool × Bool)
    follow spot perp = do
      tell_hedge_failure spot
      r ← attempt_hedge_recovery spot perp
      settle spot r

    -- From the answers to the two orders on
    unfoldable pub after_perp : Order F → Bool × Order F → Call (Desk F L X) (Bool × Bool)
    unfolding register_pair
    after_perp spot (true, perp) = do register_pair spot perp.order_id; return (true, true)
    after_perp spot (false, perp) = follow spot perp

    unfoldable pub after_spot : Order F → Bool × Order F → Call (Desk F L X) (Bool × Bool)
    after_spot perp (false, spot) = return (false, false)
    after_spot perp (true, spot) = do
      answer ← submit_order w rounds settings false high perp
      after_perp spot answer

    unfoldable pub submit_hedge_pair :
        Order F → Order F → OrderUrgency → Call (Desk F L X) (Bool × Bool)
    submit_hedge_pair spot perp urgency = do
      answer ← submit_order w rounds settings true urgency spot
      after_spot perp answer

module _ {F L : Type 0} ⦃fl : FloatOps F⦄ where
  unfoldable pub get_hedge_recovery_stats : ExecutionEngine F L → RecoveryStats F
  get_hedge_recovery_stats e =
      let rs = e.hedge_recovery_history in
      let n = length rs in
      let successes = length (filter (λ r. r.success) rs) in
      if is_empty rs
      then record {
        total_recoveries = 0;
        success_count = 0;
        failure_count = 0;
        success_rate = none;
        avg_attempts = fzero;
        avg_slippage_bps = fzero;
        total_rollback_quantity = fzero;
      }
      else record {
        total_recoveries = n;
        success_count = successes;
        failure_count = n - successes;
        success_rate = some (div (of_ℕ successes) (of_ℕ n));
        avg_attempts = div (of_ℕ (total (map (λ r. r.attempts) rs))) (of_ℕ n);
        avg_slippage_bps = div (sum fzero (map (λ r. r.total_slippage_bps) rs)) (of_ℕ n);
        total_rollback_quantity = sum fzero (map (λ r. r.rollback_quantity) rs);
      }
