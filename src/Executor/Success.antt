-- ===== src/Executor/Success.antt =====
-- Theorems on server/src/execution/executor.py: what an execution leaves of its order, and what
-- `submit_order` comes to with the settings that there are.
use Prim.Native.String.{String}
use stock_test.Ledger.{strategy_named}
use stock_test.Base.{
  if◌then◌else◌, ℕ, ◌≡◌, refl, Bool, true, false, not, ◌&&◌, Option, none, some, [], ◌∷◌, arith,
}
use stock_test.Float.{FloatOps}
use stock_test.Order.{
  StrategyType, Order, OrderStatus, new, filled, partial, rejected, status_eq, status_in,
}
use stock_test.Order.{transition_to, mark_sent, mark_rejected}
use stock_test.TradingMode.{can_open_new_position}
use stock_test.Executor.{
  OrderResult, missing_attribute, ok, raised, World, OrderUrgency, low, high, OrderPolicy, Exec,
  Settings, get_policy_for_strategy, slippage_limit, read_setting,
}
use stock_test.Executor.Place.{
  accepted_id, do_sent, reject, do_rejected, settle_ioc, execute_ioc, maker_attempt,
  execute_with_policy,
}
use stock_test.Executor.Submit.{Desk, is_buy, succeeded, submit_order}
use stock_test.Executor.Maker.{HasFill, ioc-HasFill, accept-fails}

no_policy :
    {F : Type 0} ⦃fl : FloatOps F⦄ (settings : Settings F) (strategy : StrategyType)
    (urgency : OrderUrgency)
    → get_policy_for_strategy settings strategy urgency ≡ raised missing_attribute
unfolding get_policy_for_strategy slippage_limit read_setting strategy_named
no_policy settings strategy low = refl
no_policy settings strategy high = refl

module _ {F X : Type 0} ⦃fl : FloatOps F⦄ (w : World F X) (spot : Bool) where
  attempt-HasFill :
      (rounds : ℕ) (policy : OrderPolicy F) (s : Exec F X)
      → succeeded (maker_attempt w spot rounds policy s).0 ≡ true
      → HasFill (maker_attempt w spot rounds policy s).1.order.status
  unfolding maker_attempt
  attempt-HasFill rounds policy s h = grind (arith, ioc-HasFill, accept-fails)

  -- An execution that reports success leaves the order filled, at least partly, under every policy.
  pub execute-HasFill :
      (rounds : ℕ) (policy : OrderPolicy F) (s : Exec F X)
      → succeeded (execute_with_policy w spot rounds policy s).0 ≡ true
      → HasFill (execute_with_policy w spot rounds policy s).1.order.status
  unfolding execute_with_policy
  execute-HasFill rounds policy s h =
      ground (arith, ioc-HasFill w spot s.order.price s, attempt-HasFill rounds policy s)

  -- An order that the exchange has accepted, but says is neither filled nor partly filled, ends as
  -- rejected here, with the id of the exchange, and is reported as not executed.
  pub accepted_is_rejected :
      (expected : Option F) (s : Exec F X) (r : OrderResult F) (id : String)
      → s.order.status ≡ new
      → (w.place_order spot s.order.symbol s.order.side stock_test.Order.OrderType.market
          s.order.quantity none false s.outside).0
        ≡ ok r
      → accepted_id r ≡ some id
      → status_in r.status (filled ∷ partial ∷ []) ≡ false
      → ((execute_ioc w spot expected s).0 ≡ ok false)
        × ((execute_ioc w spot expected s).1.order.status ≡ rejected)
        × ((execute_ioc w spot expected s).1.order.exchange_order_id ≡ some id)
  unfolding execute_ioc do_sent mark_sent settle_ioc reject do_rejected mark_rejected transition_to
  accepted_is_rejected expected s r id fresh reply accepted live = ground arith

module _ {F L X : Type 0} ⦃fl : FloatOps F⦄ (w : World F X) (rounds : ℕ) (settings : Settings F)
    (spot : Bool) where
  -- The risk engine stops a buy unless its mode is NORMAL.
  abbrev pub blocked : Order F → Desk F L X → Bool
  blocked o d = not (can_open_new_position d.engine.risk.mode_manager) && is_buy o.side

  -- An order is never sent, for every strategy and urgency and whatever the settings hold: a buy that
  -- the risk engine stops is answered False, and every other call raises, since the settings have no
  -- slippage limits and `StrategyType` no member CORE. The engine, the order and the exchange stay as
  -- they were.
  pub submit_never_sends :
      (urgency : OrderUrgency) (o : Order F) (d : Desk F L X)
      → submit_order w rounds settings spot urgency o d
        ≡ (if blocked o d then (ok (false, o), d) else (raised missing_attribute, d))
  unfolding submit_order
  submit_never_sends urgency o d = ground (arith, no_policy settings o.strategy urgency)
