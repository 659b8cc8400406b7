-- ===== src/Executor/Maker.antt =====
-- Theorems on server/src/execution/executor.py: what becomes of a maker order, and what a successful
-- execution leaves.
use Prim.Native.String.{String}
use stock_test.Base.{
  ℕ, zero, suc, ◌≡◌, refl, ◌≢◌, Bool, true, false, Option, none, some, [], ◌∷◌, arith,
}
use stock_test.Float.{FloatOps}
use stock_test.Order.{
  OrderStatus, new, filled, partial, status_eq, status_in, transition_to, mark_sent, mark_acked,
  mark_filled, mark_partial_fill,
}
use stock_test.Executor.{OrderResult, OrderInfo, Result, ok, World, OrderPolicy, Exec}
use stock_test.Executor.Calls.{◌>>=◌}
use stock_test.Executor.Place.{
  accepted_id, is_limit, do_sent, do_acked, do_filled, do_partial, take_fill, take_partial,
  on_status, poll, wait_for_fill, check_and_record_slippage, note_slippage, settle_filled,
  settle_partial, reject, settle_ioc, execute_ioc, chase_at, chase_price, after_wait, after_accept,
  maker_attempt, execute_with_policy,
}
use stock_test.Executor.Submit.{succeeded}

-- The order is filled, at least partly.
abbrev pub HasFill : OrderStatus → Type 0
HasFill status = status_in status (filled ∷ partial ∷ []) ≡ true

module _ {F X : Type 0} ⦃fl : FloatOps F⦄ (w : World F X) (spot : Bool) where
  -- The order has been sent at some time.
  abbrev WasSent : Exec F X → Type 0
  WasSent s = status_eq s.order.status new ≡ false

  acked-WasSent : (s : Exec F X) → WasSent s → WasSent (do_acked w spot s).1
  unfolding do_acked mark_acked transition_to
  acked-WasSent s h = ground arith

  fill-WasSent :
      (info : Option (OrderInfo F)) (s : Exec F X) → WasSent s → WasSent (take_fill w spot info s).1
  unfolding take_fill do_filled mark_filled transition_to
  fill-WasSent none s h = h
  fill-WasSent (some info) s h = ground arith

  partial-WasSent :
      (info : Option (OrderInfo F)) (s : Exec F X)
      → WasSent s
      → WasSent (take_partial w spot info s).1
  unfolding take_partial do_partial mark_partial_fill transition_to
  partial-WasSent none s h = h
  partial-WasSent (some info) s h = ground arith

  -- An accepted order that has been sent before makes the new sending raise.
  sent-raises : (id : String) (s : Exec F X) → WasSent s → (do_sent w spot id s).0 ≢ ok tt
  unfolding do_sent mark_sent transition_to
  sent-raises id s h = ground arith

  ioc-fails :
      (expected : Option F) (s : Exec F X)
      → WasSent s
      → succeeded (execute_ioc w spot expected s).0 ≡ false
  unfolding execute_ioc do_sent mark_sent transition_to reject
  ioc-fails expected s h = ground arith

  status-WasSent :
      (id : String) (status : Option OrderStatus) (s : Exec F X)
      → WasSent s
      → WasSent (on_status w spot id status s).1
  unfolding on_status
  status-WasSent id none s h = h
  status-WasSent id (some filled) s h = grind (arith, acked-WasSent, fill-WasSent)
  status-WasSent id (some partial) s h = grind (arith, acked-WasSent, partial-WasSent)
  status-WasSent id (some OrderStatus.canceled) s h = h
  status-WasSent id (some OrderStatus.rejected) s h = h
  status-WasSent id (some new) s h = h
  status-WasSent id (some OrderStatus.pending) s h = h
  status-WasSent id (some OrderStatus.sent) s h = h
  status-WasSent id (some OrderStatus.ack) s h = h
  status-WasSent id (some OrderStatus.synced) s h = h

  poll-WasSent : (s : Exec F X) → WasSent s → WasSent (poll w spot s).1
  unfolding poll
  poll-WasSent s h = grind (arith, status-WasSent)

  wait-WasSent : (rounds : ℕ) (s : Exec F X) → WasSent s → WasSent (wait_for_fill w spot rounds s).1
  unfolding wait_for_fill
  wait-WasSent zero s h = h
  wait-WasSent (suc rounds) s h =
      ground (arith, poll-WasSent s h, wait-WasSent rounds (poll w spot s).1)

  chase-fails :
      (policy : OrderPolicy F) (expected : Option F) (s : Exec F X)
      → WasSent s
      → succeeded (chase_price w spot policy expected s).0 ≡ false
  unfolding chase_price chase_at
  chase-fails policy expected s h = grind (arith, ioc-fails)

  after_wait-fails :
      (policy : OrderPolicy F) (expected : Option F) (id : String) (done : Bool) (s : Exec F X)
      → WasSent s
      → succeeded (after_wait w spot policy expected id done s).0 ≡ false
  unfolding after_wait check_and_record_slippage
  after_wait-fails policy expected id true s h = refl
  after_wait-fails policy expected id false s h = grind (arith, chase-fails)

  -- The place of a maker order at the exchange
  abbrev pub maker_reply : Exec F X → Result (OrderResult F) × X
  maker_reply s =
      w.place_order spot s.order.symbol s.order.side s.order.order_type s.order.quantity
        s.order.price true s.outside

  do_sent-WasSent :
      (id : String) (s : Exec F X)
      → (do_sent w spot id s).0 ≡ ok tt
      → WasSent (do_sent w spot id s).1
  unfolding do_sent mark_sent transition_to
  do_sent-WasSent id s h = ground arith

  waited-fails :
      (rounds : ℕ) (policy : OrderPolicy F) (expected : Option F) (id : String) (s : Exec F X)
      → WasSent s
      → succeeded
          ((wait_for_fill w spot rounds >>= λ done. after_wait w spot policy expected id done) s).0
        ≡ false
  waited-fails rounds policy expected id s h = ground (
    arith,
    wait-WasSent rounds s h,
    after_wait-fails policy expected id true (wait_for_fill w spot rounds s).1,
    after_wait-fails policy expected id false (wait_for_fill w spot rounds s).1,
  )

  pub accept-fails :
      (rounds : ℕ) (policy : OrderPolicy F) (expected : Option F) (id : String) (s : Exec F X)
      → succeeded (after_accept w spot rounds policy expected id s).0 ≡ false
  unfolding after_accept
  accept-fails rounds policy expected id s =
      ground (
        arith,
        do_sent-WasSent id s,
        waited-fails rounds policy expected id (do_sent w spot id s).1,
      )

  -- A maker order that the exchange has accepted is never reported as executed, whatever the exchange
  -- says of its fill and of the orders after it.
  pub maker_never_succeeds :
      (rounds : ℕ) (policy : OrderPolicy F) (s : Exec F X) (r : OrderResult F) (id : String)
      → policy.use_post_only ≡ true
      → is_limit s.order.order_type ≡ true
      → (maker_reply s).0 ≡ ok r
      → accepted_id r ≡ some id
      → succeeded (execute_with_policy w spot rounds policy s).0 ≡ false
  unfolding execute_with_policy maker_attempt
  maker_never_succeeds rounds policy s r id post kind reply accepted = ground (
    arith,
    accept-fails rounds policy s.order.price id (record s { outside = (maker_reply s).1 }),
  )

  note-order :
      (expected : Option F) (actual : F) (s : Exec F X)
      → (note_slippage w spot expected actual s).1.order ≡ s.order
  unfolding note_slippage
  note-order none actual s = refl
  note-order (some p) actual s = ground arith

  filled-HasFill :
      (expected : Option F) (r : OrderResult F) (s : Exec F X)
      → succeeded (settle_filled w spot expected r s).0 ≡ true
      → HasFill (settle_filled w spot expected r s).1.order.status
  unfolding settle_filled do_filled mark_filled transition_to
  filled-HasFill expected r s h = grind (arith, note-order)

  partial-HasFill :
      (r : OrderResult F) (s : Exec F X)
      → succeeded (settle_partial w spot r s).0 ≡ true
      → HasFill (settle_partial w spot r s).1.order.status
  unfolding settle_partial do_partial mark_partial_fill transition_to
  partial-HasFill r s h = ground arith

  settle-HasFill :
      (expected : Option F) (r : OrderResult F) (s : Exec F X)
      → succeeded (settle_ioc w spot expected r s).0 ≡ true
      → HasFill (settle_ioc w spot expected r s).1.order.status
  unfolding settle_ioc reject
  settle-HasFill expected r s h = ground (arith, filled-HasFill expected r s, partial-HasFill r s)

  pub ioc-HasFill :
      (expected : Option F) (s : Exec F X)
      → succeeded (execute_ioc w spot expected s).0 ≡ true
      → HasFill (execute_ioc w spot expected s).1.order.status
  unfolding execute_ioc
  ioc-HasFill expected s h = grind (arith, settle-HasFill)
