-- ===== src/Trading/Exits.antt =====
-- `_manage_v3_exits` of server/src/engine/core.py, which catches every exception and ends with what has
-- been done by then.
use stock_test.Base.{ℕ, Bool, true, false, not, Option, none, some, List, [], ◌∷◌, if◌then◌else◌}
use stock_test.Float.{FloatOps, fzero, flt, fle}
use stock_test.Dict.{Dict, lookup}
use stock_test.UserMode.{UserModeManager, should_execute_trades}
use stock_test.Executor.{OrderResult, Result, ok, raised}
use stock_test.Strategies.{V3Position, V3Strategy, ExitType, MarketData, check_exit, close_position}
use stock_test.Trading.{Balance, Market, Names}
use stock_test.Trading.Entries.{Floor}

-- A strategy and the outside in a pass, and whether an exception has ended the pass
pub record Exiting (F X : Type 0) : Type 0 where
  pub over : Bool
  pub strategy : V3Strategy F
  pub outside : X

-- The strategies after a pass, and the outside
pub record Exited (F X : Type 0) : Type 0 where
  pub over : Bool
  pub strategies : List (V3Strategy F)
  pub outside : X

module _ {F : Type 0} ⦃fl : FloatOps F⦄ where
  -- The whole balance of the asset, or what the position says where there is none
  abbrev pub sell_quantity : F → Option (Balance F) → F
  sell_quantity qty none = qty
  sell_quantity qty (some b) = if flt fzero b.total then b.total else qty

  module _ {X : Type 0} (w : Market F X) (n : Names) (mode : UserModeManager F) where
    -- The answer to a sale. Its fill event is made without `requested_price`, which has no default, so
    -- a sale ends the pass.
    unfoldable pub sold : ℕ → Result (OrderResult F) → V3Strategy F → X → Exiting F X
    sold symbol (raised e) s x = record { over = true; strategy = s; outside = x }
    sold symbol (ok r) s x = record {
      over = r.success;
      strategy = if r.success then close_position symbol s else s;
      outside = x;
    }

    -- From the answer of the exchange on the balance of the asset on
    unfoldable pub sell :
        ℕ → V3Position F → Result (Option (Balance F)) → V3Strategy F → X → Exiting F X
    sell symbol p (raised e) s x = record { over = true; strategy = s; outside = x }
    sell symbol p (ok b) s x =
        let (r, y) = w.place_order false symbol (sell_quantity p.quantity b) x in sold symbol r s y

    -- From what the check of a position says on
    unfoldable pub leave : ℕ → V3Position F → Option ExitType → V3Strategy F → X → Exiting F X
    leave symbol p none s x = record { over = false; strategy = s; outside = x }
    leave symbol p (some e) s x =
        let (balance, y) = w.get_balance (n.base_of symbol) x in
        if not (should_execute_trades mode)
        then record { over = false; strategy = s; outside = x }
        else sell symbol p balance s y

    abbrev pub price_of : ℕ → Dict (MarketData F) → F
    price_of symbol mds = elim (lookup symbol mds) [ none ↦ fzero | some md ↦ md.price ]

    unfoldable pub exit_position :
        Dict (MarketData F) → ℕ → ℕ → V3Position F → V3Strategy F → X → Exiting F X
    exit_position mds now symbol p s x =
        let price = price_of symbol mds in
        let (reason, t) = check_exit symbol price now s in
        if fle price fzero
        then record { over = false; strategy = s; outside = x }
        else leave symbol p reason t x

    -- The positions that the strategy had at the start of its turn
    unfoldable pub exit_positions :
        Dict (MarketData F) → ℕ → Dict (V3Position F) → V3Strategy F → X → Exiting F X
    exit_positions mds now [] s x = record { over = false; strategy = s; outside = x }
    exit_positions mds now (e ∷ es) s x =
        let a = exit_position mds now e.0 e.1 s x in
        let rest = exit_positions mds now es a.strategy a.outside in if a.over then a else rest

    unfoldable pub exit_strategies : Dict (MarketData F) → ℕ → List (V3Strategy F) → X → Exited F X
    exit_strategies mds now [] x = record { over = false; strategies = []; outside = x }
    exit_strategies mds now (s ∷ ss) x =
        let a = exit_positions mds now s.positions s x in
        let rest = exit_strategies mds now ss a.outside in
        if a.over
        then record { over = true; strategies = a.strategy ∷ ss; outside = a.outside }
        else record rest { strategies = a.strategy ∷ rest.strategies }

  unfoldable pub manage_v3_exits : {X : Type 0} → Market F X → Names → Floor F X → Floor F X
  manage_v3_exits w n d =
      let (now, x) = w.now d.outside in
      let r =
        exit_strategies w n d.engine.mode_manager d.engine.market_data now d.engine.v3_strategies
          x in
      record { engine = record d.engine { v3_strategies = r.strategies }; outside = r.outside }
