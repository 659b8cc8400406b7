-- ===== src/Executor/Submit.antt =====
-- `create_order` and `submit_order` of server/src/execution/executor.py.
use Prim.Native.String.{String}
use text.Mathlib.Text
use stock_test.Base.{ℕ, Bool, true, false, not, ◌&&◌, Option, List, [], ◌∷◌, ◌++◌, if◌then◌else◌}
use stock_test.Float.{FloatOps}
use stock_test.Order.{OrderSide, buy, sell, OrderType, StrategyType, Order, create}
use stock_test.ExecHealth.{record_order_result}
use stock_test.TradingMode.{can_open_new_position}
use stock_test.RiskEngine.Actions.{on_order}
use stock_test.Executor.{
  Result, ok, raised, World, OrderUrgency, ExecutionEngine, Exec, Settings, get_policy_for_strategy,
}
use stock_test.Executor.Calls.{Call}
use stock_test.Executor.Place.{execute_with_policy}

-- The engine and the outside
pub record Desk (F L X : Type 0) : Type 0 where
  pub engine : ExecutionEngine F L
  pub outside : X

abbrev pub is_buy : OrderSide → Bool
is_buy buy = true
is_buy sell = false

-- Whether the call has answered True
abbrev pub succeeded : Result Bool → Bool
succeeded (ok b) = b
succeeded (raised x) = false

module _ {F : Type 0} where
  -- The orders that the engine holds see what happens to the one with this id.
  unfoldable pub store : Order F → List (Order F) → List (Order F)
  store o [] = []
  store o (p ∷ os) = if Text.◌==◌ p.order_id o.order_id then o ∷ os else p ∷ store o os

module _ {F L X : Type 0} ⦃fl : FloatOps F⦄ (w : World F X) where
  unfoldable pub create_order :
      String → StrategyType → OrderSide → OrderType → F → Option F → Call (Desk F L X) (Order F)
  create_order symbol strategy side kind qty price d =
      let (id, x) = w.new_id d.outside in
      let (t, y) = w.now x in
      let (u, z) = w.now y in
      let o = create id symbol strategy side kind qty price t u in
      (
        ok o,
        record {
          engine = record d.engine { active_orders = d.engine.active_orders ++ o ∷ [] };
          outside = z;
        },
      )

  -- The report of an execution, the same after an exception: the latency, the health, the risk engine
  unfoldable pub report :
      ExecutionEngine F L → Result Bool × Exec F X → Result (Bool × Order F) × Desk F L X
  report e (answer, s) =
      let done = succeeded answer in
      let (ms, x) = w.elapsed s.outside in
      let (t, y) = w.now x in
      let (u, z) = w.now y in
      (
        ok (done, s.order),
        record {
          engine = record e {
            health = record_order_result t done ms e.health;
            risk = on_order u done e.risk;
            slippage_history = s.slippage;
            active_orders = store s.order e.active_orders;
          };
          outside = z;
        },
      )

  -- `submit_order`: its answer and the order
  unfoldable pub submit_order :
      ℕ → Settings F → Bool → OrderUrgency → Order F → Call (Desk F L X) (Bool × Order F)
  unfolding report
  submit_order rounds settings spot urgency o d =
      if not (can_open_new_position d.engine.risk.mode_manager) && is_buy o.side
      then (ok (false, o), d)
      else elim (get_policy_for_strategy settings o.strategy urgency) [
        | raised x ↦ (raised x, d)
        | ok policy ↦ report d.engine (
            execute_with_policy w spot rounds policy
              (record { order = o; outside = d.outside; slippage = d.engine.slippage_history }))
      ]
