-- ===== src/Executor/Book.antt =====
-- The orders that the engine of server/src/execution/executor.py holds: cancelling, synchronising and
-- clearing them, and the health of the execution.
use Prim.Native.String.{String}
use text.Mathlib.Text
use stock_test.Base.{
  ℕ, Bool, true, false, not, Option, none, some, List, [], ◌∷◌, ◌++◌, if◌then◌else◌, filter, length,
  ltb, take_last,
}
use stock_test.Float.{FloatOps}
use stock_test.Order.{
  OrderStatus, Order, is_terminal, is_active, status_eq, mark_canceled, transition_to,
}
use stock_test.ExecHealth.{HealthReason, health_of, should_enter_safe}
use stock_test.ExecHealth
use stock_test.Executor.{ok, raised, World, ExecutionEngine}
use stock_test.Executor.Place.{truthy}
use stock_test.Executor.Submit.{Desk, store}

module _ {F : Type 0} where
  -- `_active_orders.get(order_id)`
  unfoldable pub find_order : String → List (Order F) → Option (Order F)
  find_order id [] = none
  find_order id (o ∷ os) = if Text.◌==◌ o.order_id id then some o else find_order id os

  -- An order without an exchange id is cancelled by the empty one.
  abbrev pub exchange_id : Order F → String
  exchange_id o = elim o.exchange_order_id [ none ↦ "" | some id ↦ id ]

module _ {F L : Type 0} where
  unfoldable pub put_back : Order F → ExecutionEngine F L → ExecutionEngine F L
  put_back o e = record e { active_orders = store o e.active_orders }

  unfoldable pub get_active_orders : ExecutionEngine F L → List (Order F)
  get_active_orders e = filter (λ o. is_active o.status) e.active_orders

  unfoldable pub get_order_history : ℕ → ExecutionEngine F L → List (Order F)
  get_order_history n e = take_last n e.order_history

  -- Orders that are over go to the history, which keeps the last 10000.
  unfoldable pub cleanup_completed_orders : ExecutionEngine F L → ExecutionEngine F L
  cleanup_completed_orders e =
      let all = e.order_history ++ filter (λ o. is_terminal o.status) e.active_orders in
      record e {
        active_orders = filter (λ o. not (is_terminal o.status)) e.active_orders;
        order_history = if ltb 10000 (length all) then take_last 10000 all else all;
      }

module _ {F L X : Type 0} (w : World F X) where
  -- `cancel_order`; an exception is caught and answers False.
  unfoldable pub cancel_found : Bool → Order F → Desk F L X → Bool × Desk F L X
  cancel_found spot o d =
      let (answer, x) = w.cancel_order spot o.symbol (exchange_id o) d.outside in
      let (t, y) = w.now x in
      let (o', e) = mark_canceled t o in
      elim answer [
        | raised _ ↦ (false, record d { outside = x })
        | ok false ↦ (false, record d { outside = x })
        | ok true ↦ (
          elim e [ none ↦ true | some _ ↦ false ],
          record { engine = put_back o' d.engine; outside = y },
        )
      ]

  unfoldable pub cancel_order : String → Bool → Desk F L X → Bool × Desk F L X
  unfolding cancel_found
  cancel_order id spot d = elim (find_order id d.engine.active_orders) [
    | none ↦ (false, d)
    | some o ↦ if is_terminal o.status then (false, d) else cancel_found spot o d
  ]

  -- `sync_order_status`; a transition that is not valid leaves the order as it was.
  unfoldable pub sync_found : Bool → String → Order F → Desk F L X → Option OrderStatus × Desk F L X
  sync_found spot id o d =
      let (answer, x) = w.get_order_status spot o.symbol id d.outside in
      let (t, y) = w.now x in
      elim answer [
        | raised _ ↦ (none, record d { outside = x })
        | ok none ↦ (none, record d { outside = x })
        | ok (some s) ↦ if status_eq s o.status then (some s, record d { outside = x }) else (
          some s,
          record { engine = put_back (transition_to t s o).0 d.engine; outside = y },
        )
      ]

  unfoldable pub sync_order_status : String → Bool → Desk F L X → Option OrderStatus × Desk F L X
  unfolding sync_found
  sync_order_status id spot d = elim (find_order id d.engine.active_orders) [
    | none ↦ (none, d)
    | some o ↦ elim (truthy o.exchange_order_id) [
      | none ↦ (none, d)
      | some xid ↦ sync_found spot xid o d
    ]
  ]

module _ {F L : Type 0} ⦃fl : FloatOps F⦄ where
  -- With the reasons that its text joins; asking leaves the last health in the monitor.
  unfoldable pub is_execution_healthy :
      ExecutionEngine F L → (Bool × List HealthReason) × ExecutionEngine F L
  is_execution_healthy e =
      let ((unsafe, why), m) = should_enter_safe e.health in
      (
        if not (health_of e.health).is_healthy then (false, why) else (true, []),
        record e { health = m },
      )

  unfoldable pub record_ws_latency : F → ExecutionEngine F L → ExecutionEngine F L
  record_ws_latency latency e = record e { health = ExecHealth.record_ws_latency latency e.health }

  unfoldable pub record_reconcile_drift : ℕ → F → ExecutionEngine F L → ExecutionEngine F L
  record_reconcile_drift now drift e = record e {
    health = ExecHealth.record_reconcile_drift now drift e.health;
  }
