-- ===== src/Reducer/Escalation.antt =====
-- Which triggers are accepted while a reduction is on, and when positions may grow again.
use stock_test.Base.{ℕ, ◌+◌, ◌≡◌, refl, true, false, not, List, [], ◌∷◌, arith, leb, filter}
use stock_test.Float.{FloatOps, FloatOrder, of_dec, of_ℕ, fzero, mul, fle}
use stock_test.Dict.{Dict}
use stock_test.Reducer.{
  ReduceTrigger, ReduceOrder, PositionReducer, minutes, mark_executed, get_pending_orders,
  check_stay_period, can_expand_position, get_reduce_pct, orders_of, trigger_reduce,
  force_close_all, gradual_hard_dd_close, new_order,
}

-- What comes in while a reduction is on
pub data Event (F : Type 0) : Type 0 where
  triggered : ℕ → ReduceTrigger → Dict F → F → Event F
  executed : ℕ → ℕ → Event F

module _ {F : Type 0} ⦃fl : FloatOps F⦄ where
  unfoldable pub apply : Event F → PositionReducer F → PositionReducer F
  apply (triggered now trigger positions severity) r =
      (trigger_reduce now trigger positions severity r).1
  apply (executed now symbol) r = mark_executed now symbol r

  unfoldable pub run : List (Event F) → PositionReducer F → PositionReducer F
  run [] r = r
  run (e ∷ es) r = run es (apply e r)

  not-leb : (ord : FloatOrder F) (a b : F) → fle b a ≡ false → fle a b ≡ true
  not-leb ord a b h = ground (arith, h, ord.leb_total a b)

  apply_escalates :
      (ord : FloatOrder F) (e : Event F) (r : PositionReducer F)
      → r.state.is_reducing ≡ true
      → ((apply e r).state.is_reducing ≡ true)
        × (fle r.state.reduce_pct (apply e r).state.reduce_pct ≡ true)
  unfolding apply trigger_reduce mark_executed
  apply_escalates ord (triggered now trigger positions severity) r on =
      let pct = get_reduce_pct r.config trigger severity in
      ground (arith, on, ord.leb_refl r.state.reduce_pct, not-leb ord r.state.reduce_pct pct)
  apply_escalates ord (executed now symbol) r on = (on, ord.leb_refl r.state.reduce_pct)

  -- While a reduction is on, triggers and executed orders keep it on, and its rate never goes down.
  -- (Numbers in a total order.)
  pub run-escalated :
      (ord : FloatOrder F) (es : List (Event F)) (r : PositionReducer F)
      → r.state.is_reducing ≡ true
      → ((run es r).state.is_reducing ≡ true)
        × (fle r.state.reduce_pct (run es r).state.reduce_pct ≡ true)
  unfolding run
  run-escalated ord [] r on = (on, ord.leb_refl r.state.reduce_pct)
  run-escalated ord (e ∷ es) r on =
      let (on', up) = apply_escalates ord e r on in
      let (on'', up') = run-escalated ord es (apply e r) on' in (on'', ord.leb_trans _ _ _ up up')

  -- After a trigger that is accepted, positions may grow again exactly from the end of the stay on.
  pub stay_iff :
      (now later : ℕ) (trigger : ReduceTrigger) (positions : Dict F) (severity : F)
      (r : PositionReducer F)
      → r.state.is_reducing ≡ false
      → fle (get_reduce_pct r.config trigger severity) fzero ≡ false
      → (can_expand_position later (trigger_reduce now trigger positions severity r).1).0
        ≡ leb (now + minutes r.config.reduce_stay_duration_minutes) later
  unfolding trigger_reduce can_expand_position check_stay_period
  stay_iff now later trigger positions severity r off some_ = ground (arith, off, some_)

  orders_of-pending :
      (now : ℕ) (trigger : ReduceTrigger) (pct : F) (part : F → F) (positions : Dict F)
      → filter (λ (o : ReduceOrder F). not o.executed) (orders_of now trigger pct part positions)
        ≡ orders_of now trigger pct part positions
  unfolding orders_of new_order
  orders_of-pending now trigger pct part [] = refl
  orders_of-pending now trigger pct part ((symbol, qty) ∷ positions) =
      ground (arith, orders_of-pending now trigger pct part positions)

  -- After the order to close everything, positions may grow at any time, at once too, while every
  -- order to close is still to be executed.
  pub closed_expands :
      (now later : ℕ) (trigger : ReduceTrigger) (positions : Dict F) (r : PositionReducer F)
      → let (orders, after) = force_close_all now trigger positions r in
        ((can_expand_position later after).0 ≡ true) × (get_pending_orders after ≡ orders)
  unfolding force_close_all can_expand_position check_stay_period get_pending_orders
  closed_expands now later trigger positions r =
      (refl, orders_of-pending now trigger (of_ℕ 1) (λ qty. qty) positions)

  -- The second phase of a gradual close lowers the rate of the reduction that is on: a trigger with
  -- a rate above 30 %, but not above that of the first phase, is turned down after the first phase
  -- and accepted after the second.
  pub phase2_reopens :
      (now later : ℕ) (trigger : ReduceTrigger) (positions pnls : Dict F) (severity : F)
      (r : PositionReducer F)
      → r.config.hard_dd_gradual_close_enabled ≡ true
      → fle (get_reduce_pct r.config trigger severity) fzero ≡ false
      → fle (get_reduce_pct r.config trigger severity) (of_dec 30 2) ≡ false
      → fle (get_reduce_pct r.config trigger severity) r.config.hard_dd_phase1_reduce_pct ≡ true
      → let pct = get_reduce_pct r.config trigger severity in
        ((trigger_reduce later trigger positions severity
            (gradual_hard_dd_close now positions pnls 1 r).1).0
          ≡ [])
        × ((trigger_reduce later trigger positions severity
              (gradual_hard_dd_close later positions pnls 2
                (gradual_hard_dd_close now positions pnls 1 r).1).1).0
            ≡ orders_of later trigger pct (λ qty. mul qty pct) positions)
  unfolding trigger_reduce gradual_hard_dd_close get_reduce_pct
  phase2_reopens now later trigger positions pnls severity r on some_ high low =
      ground (arith, on, some_, high, low)
