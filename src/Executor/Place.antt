-- ===== src/Executor/Place.antt =====
-- The placing of one order in server/src/execution/executor.py: the maker attempt, the wait for its
-- fill, the chase of the price and the IOC order. `rounds` is the number of rounds of the wait that the
-- clock allows before the timeout. In each state an exception ends the call.
use Prim.Native.String.{String}
use text.Mathlib.Text
use stock_test.Base.{
  ℕ, zero, suc, Bool, true, false, ◌&&◌, Option, none, some, ltb, if◌then◌else◌, get_or,
}
use stock_test.Float.{FloatOps, fzero, feq, flt}
use stock_test.Order.{
  OrderStatus, filled, partial, canceled, rejected, OrderType, market, limit, Order, Outcome,
  status_eq, mark_sent, mark_acked, mark_filled, mark_partial_fill, mark_rejected,
}
use stock_test.Executor.Calls.{Call, ◌>>=◌, ◌>>◌, return, raise}
use stock_test.Executor.{
  OrderResult, OrderInfo, order_error, missing_attribute, type_error, Result, ok, raised, World,
  OrderPolicy, Exec, calculate_slippage_bps, record_slippage,
}

-- A method of one execution
abbrev pub M : Type 0 → Type 0 → Type 0 → Type 0
M F X A = Call (Exec F X) A

module _ {F X : Type 0} where
  -- The order as it is now
  abbrev pub the_order : M F X (Order F)
  the_order s = (ok s.order, s)

  -- A call of the outside
  abbrev pub ask : {A : Type 0} → (X → Result A × X) → M F X A
  ask f s = let (a, x) = f s.outside in (a, record s { outside = x })

  -- A method of the order, which raises or not
  abbrev pub on_order : (Order F → Outcome F) → M F X (Unit {0})
  on_order f s =
      let (o, e) = f s.order in
      (elim e [ none ↦ ok tt | some x ↦ raised (order_error x) ], record s { order = o })

  abbrev pub read_clock : World F X → M F X ℕ
  read_clock w s = let (t, x) = w.now s.outside in (ok t, record s { outside = x })

-- `if id:`, where an empty id counts as none
abbrev pub truthy : Option String → Option String
truthy none = none
truthy (some id) = if Text.◌==◌ id "" then none else some id

-- Whether the exchange has taken the order
abbrev pub accepted_id : {F : Type 0} → OrderResult F → Option String
accepted_id r = if r.success then truthy r.exchange_order_id else none

abbrev pub is_limit : OrderType → Bool
is_limit limit = true
is_limit market = false

module _ {F X : Type 0} ⦃fl : FloatOps F⦄ (w : World F X) (spot : Bool) where
  unfoldable pub do_sent : String → M F X (Unit {0})
  do_sent id = do t ← read_clock w; on_order (mark_sent t id)

  unfoldable pub do_acked : M F X (Unit {0})
  do_acked = do t ← read_clock w; on_order (mark_acked t)

  unfoldable pub do_rejected : M F X (Unit {0})
  do_rejected = do t ← read_clock w; on_order (mark_rejected t)

  unfoldable pub do_filled : Option F → Option F → M F X (Unit {0})
  do_filled qty price = do t ← read_clock w; on_order (mark_filled t qty price fzero)

  unfoldable pub do_partial : F → F → M F X (Unit {0})
  do_partial qty price = do
    t ← read_clock w
    u ← read_clock w
    on_order (mark_partial_fill t u qty price fzero)

  -- The fill of an order that the exchange says is filled
  unfoldable pub take_fill : Option (OrderInfo F) → M F X (Unit {0})
  unfolding do_filled
  take_fill none = return tt
  take_fill (some info) = do
    o ← the_order
    do_filled (get_or info.filled_qty (some o.quantity)) (get_or info.avg_price o.price)

  -- The fill of an order that is partly filled; `None` cannot be multiplied.
  unfoldable pub take_partial : Option (OrderInfo F) → M F X (Unit {0})
  unfolding do_partial
  take_partial none = return tt
  take_partial (some info) = do
    o ← the_order
    elim (get_or info.filled_qty (some fzero)) [
      | none ↦ raise type_error
      | some qty ↦ elim (get_or info.avg_price o.price) [
        | none ↦ raise type_error
        | some p ↦ do_partial qty p
      ]
    ]

  -- What one round of the wait makes of the status: an answer, or `none` to go on.
  unfoldable pub on_status : String → Option OrderStatus → M F X (Option Bool)
  unfolding do_acked take_fill take_partial
  on_status id none = return none
  on_status id (some filled) = do
    do_acked
    o ← the_order
    info ← ask (w.get_order spot o.symbol id)
    take_fill info
    return (some true)
  on_status id (some partial) = do
    do_acked
    o ← the_order
    info ← ask (w.get_order spot o.symbol id)
    take_partial info
    return none
  on_status id (some canceled) = return (some false)
  on_status id (some rejected) = return (some false)
  on_status id (some _) = return none

  -- One round of `_wait_for_fill`
  unfoldable pub poll : M F X (Option Bool)
  unfolding on_status
  poll = do
    o ← the_order
    elim (truthy o.exchange_order_id) [
      | none ↦ return (some false)
      | some id ↦ do status ← ask (w.get_order_status spot o.symbol id); on_status id status
    ]

  unfoldable pub wait_for_fill : ℕ → M F X Bool
  wait_for_fill zero = return false
  wait_for_fill (suc rounds) = do
    let rest : M F X Bool = wait_for_fill rounds
    answer ← poll
    elim answer [ none ↦ rest | some b ↦ return b ]

  -- The order has no attribute `fill_price`, so the check of the slippage raises.
  unfoldable pub check_and_record_slippage : M F X (Unit {0})
  check_and_record_slippage = raise missing_attribute

  -- The slippage of a filled IOC order, where both prices are given and not 0
  unfoldable pub note_slippage : Option F → F → M F X (Unit {0})
  note_slippage none actual s = (ok tt, s)
  note_slippage (some expected) actual s =
      let bps = calculate_slippage_bps expected actual s.order.side in
      if feq actual fzero
      then (ok tt, s)
      else if feq expected fzero
      then (ok tt, s)
      else (ok tt, record s { slippage = record_slippage s.order.symbol bps s.slippage })

  unfoldable pub settle_filled : Option F → OrderResult F → M F X Bool
  unfolding do_acked do_filled
  settle_filled expected r = do
    do_acked
    do_filled (some r.filled_qty) (some r.avg_price)
    note_slippage expected r.avg_price
    return true

  unfoldable pub settle_partial : OrderResult F → M F X Bool
  unfolding do_acked do_partial
  settle_partial r = do do_acked; do_partial r.filled_qty r.avg_price; return true

  unfoldable pub reject : M F X Bool
  unfolding do_rejected
  reject = do do_rejected; return false

  -- What an accepted IOC order has become; one that is neither filled nor partly filled is rejected.
  unfoldable pub settle_ioc : Option F → OrderResult F → M F X Bool
  unfolding settle_filled settle_partial reject
  settle_ioc expected r s =
      if status_eq r.status filled
      then settle_filled expected r s
      else if status_eq r.status partial
      then settle_partial r s
      else reject s

  unfoldable pub execute_ioc : Option F → M F X Bool
  unfolding do_sent reject
  execute_ioc expected = do
    o ← the_order
    r ← ask (w.place_order spot o.symbol o.side market o.quantity none false)
    elim (accepted_id r) [ some id ↦ do do_sent id; settle_ioc expected r | none ↦ reject ]

  -- `_chase_price`; a ticker without a last price leaves the expected one. `None` as the expected
  -- price cannot be compared.
  unfoldable pub chase_at : OrderPolicy F → Option F → Option F → M F X Bool
  chase_at policy none last s = (raised type_error, s)
  chase_at policy (some p) last s =
      let price = get_or last p in
      if flt policy.max_slippage_bps (calculate_slippage_bps p price s.order.side)
      then (ok false, s)
      else execute_ioc (some p) (record s { order = record s.order { price = some price } })

  unfoldable pub chase_price : OrderPolicy F → Option F → M F X Bool
  unfolding chase_at
  chase_price policy expected = do
    o ← the_order
    ticker ← ask (w.get_ticker spot o.symbol)
    elim ticker [ none ↦ execute_ioc expected | some last ↦ chase_at policy expected last ]

  -- After the wait of the maker attempt
  unfoldable pub after_wait : OrderPolicy F → Option F → String → Bool → M F X Bool
  unfolding check_and_record_slippage
  after_wait policy expected id true = do check_and_record_slippage; return true
  after_wait policy expected id false = do
    o ← the_order
    ask (w.cancel_order spot o.symbol id)
    if ltb 0 policy.max_price_chase then chase_price policy expected else return false

  -- From the acceptance of the maker order on
  unfoldable pub after_accept : ℕ → OrderPolicy F → Option F → String → M F X Bool
  unfolding do_sent
  after_accept rounds policy expected id = do
    do_sent id
    done ← wait_for_fill rounds
    after_wait policy expected id done

  -- The first attempt, as a maker
  unfoldable pub maker_attempt : ℕ → OrderPolicy F → M F X Bool
  maker_attempt rounds policy = do
    o ← the_order
    r ← ask (w.place_order spot o.symbol o.side o.order_type o.quantity o.price true)
    elim (accepted_id r) [
      | none ↦ execute_ioc o.price
      | some id ↦ after_accept rounds policy o.price id
    ]

  unfoldable pub execute_with_policy : ℕ → OrderPolicy F → M F X Bool
  unfolding maker_attempt
  execute_with_policy rounds policy s =
      if policy.use_post_only && is_limit s.order.order_type
      then maker_attempt rounds policy s
      else execute_ioc s.order.price s
