-- ===== src/Positions/View.antt =====
-- The ledger as a map from symbol and strategy to the open position: what a fill makes of it.
use stock_test.Base.{
  ◌+◌, ℕ, ◌≡◌, ◌∙◌, true, Option, none, some, arith, ◌&&◌, ◌==◌, if◌then◌else◌, Option-cases, inl,
  inr,
}
use stock_test.Float.{add, mul, div, flt, fabs, FloatOps, fzero, sub}
use stock_test.Dict.{lookup, lookup-put}
use stock_test.Positions.{
  long, opened, PositionLedgerEntry, PositionLedger, FillEvent, is_open, closed, partial_closed,
}
use stock_test.Positions.Fills.{
  find_open_position, named, target, on_buy_fill, on_sell_fill, create_new_position, new_position,
  add_to_position, with_buy, close_position, with_sell, remove_from_index, add_to_index,
  add_fill_history, is_spent,
}
use stock_test.Positions.Invariant.{IsConsistent, find_open-held, find_open-none}
use stock_test.Positions.Calls.{NamesOpen, buy-IsConsistent, sell-IsConsistent}
use stock_test.Positions.Found.{view-put}

module _ {F : Type 0} ⦃fl : FloatOps F⦄ where
  -- What a buy makes of the open position of its symbol and strategy, and a sell.
  unfoldable pub after_buy :
      ℕ → FillEvent F → Option (PositionLedgerEntry F) → Option (PositionLedgerEntry F)
  after_buy id fill none = some record {
    position_id = id;
    strategy_id = fill.strategy_id;
    symbol = fill.symbol;
    side = long;
    quantity = fill.filled_quantity;
    avg_entry_price = fill.fill_price;
    realized_pnl = fzero;
    unrealized_pnl = fzero;
    total_fees = fill.fee;
    status = opened;
    entry_time = fill.timestamp;
    last_fill_time = fill.timestamp;
    fill_count = 1;
    stop_price = fill.initial_stop_price;
    take_profit_price = none;
    initial_stop_distance = elim fill.initial_stop_price [
      | none ↦ fzero
      | some stop ↦ fabs (sub fill.fill_price stop)
    ];
  }
  after_buy id fill (some p) =
      let total = add p.quantity fill.filled_quantity in
      some record p {
        quantity = total;
        avg_entry_price =
            if flt fzero total
            then div
                (add (mul p.quantity p.avg_entry_price) (mul fill.filled_quantity fill.fill_price))
                total
            else fzero;
        total_fees = add p.total_fees fill.fee;
        last_fill_time = fill.timestamp;
        fill_count = p.fill_count + 1;
      }

  unfoldable pub after_sell :
      FillEvent F → Option (PositionLedgerEntry F) → Option (PositionLedgerEntry F)
  after_sell fill none = none
  after_sell fill (some p) =
      if is_spent (sub p.quantity fill.filled_quantity)
      then none
      else some (record (with_sell fill p) { status = partial_closed })

  buy-put :
      (id i : ℕ) (fill : FillEvent F) (l : PositionLedger F)
      → fill.position_id ≡ none
      → find_open_position fill.symbol fill.strategy_id l ≡ none
      → lookup i (on_buy_fill id fill l).positions
        ≡ (if id == i then some (new_position id fill) else lookup i l.positions)
  unfolding on_buy_fill target named create_new_position add_to_index add_fill_history new_position
  buy-put id i fill l unnamed nobody =
      ground (arith, lookup-put id i (new_position id fill) l.positions)

  rebuy-put :
      (id i : ℕ) (fill : FillEvent F) (l : PositionLedger F) (p : PositionLedgerEntry F)
      → fill.position_id ≡ none
      → find_open_position fill.symbol fill.strategy_id l ≡ some p
      → lookup i (on_buy_fill id fill l).positions
        ≡ (if p.position_id == i then some (with_buy fill p) else lookup i l.positions)
  unfolding on_buy_fill target named add_to_position add_fill_history with_buy
  rebuy-put id i fill l p unnamed e =
      ground (arith, lookup-put p.position_id i (with_buy fill p) l.positions)

  unnamed-NamesOpen :
      (fill : FillEvent F) (l : PositionLedger F) → fill.position_id ≡ none → NamesOpen fill l
  unfolding named
  unnamed-NamesOpen fill l unnamed p e = ground arith

  new-view :
      (id symbol strategy : ℕ) (fill : FillEvent F) (l : PositionLedger F)
      → IsConsistent l
      → fill.position_id ≡ none
      → lookup id l.positions ≡ none
      → find_open_position fill.symbol fill.strategy_id l ≡ none
      → find_open_position symbol strategy (on_buy_fill id fill l) ≡ (
          if fill.symbol == symbol && fill.strategy_id == strategy
          then some (new_position id fill)
          else find_open_position symbol strategy l)
  unfolding new_position is_open
  new-view id symbol strategy fill l h unnamed fresh nobody =
      view-put l (on_buy_fill id fill l) id symbol strategy (new_position id fill) h
        (buy-IsConsistent id fill l h (unnamed-NamesOpen fill l unnamed) fresh)
        (λ i. buy-put id i fill l unnamed nobody) (λ p e. absurd (cc (fresh, e)))
        (λ i r e open_ sy st.
          absurd (find_open-none fill.symbol fill.strategy_id l h nobody i r e open_ sy st))

  rebuy-view :
      (id symbol strategy : ℕ) (fill : FillEvent F) (l : PositionLedger F)
      (p : PositionLedgerEntry F)
      → IsConsistent l
      → fill.position_id ≡ none
      → lookup id l.positions ≡ none
      → find_open_position fill.symbol fill.strategy_id l ≡ some p
      → find_open_position symbol strategy (on_buy_fill id fill l) ≡ (
          if p.symbol == symbol && p.strategy_id == strategy
          then some (with_buy fill p)
          else find_open_position symbol strategy l)
  unfolding with_buy
  rebuy-view id symbol strategy fill l p h unnamed fresh e =
      let held = find_open-held fill.symbol fill.strategy_id l p h e in
      let open_ : is_open (with_buy fill p) ≡ true = unfold is_open in held.1 in
      let v =
        view-put l (on_buy_fill id fill l) p.position_id symbol strategy (with_buy fill p) h
          (buy-IsConsistent id fill l h (unnamed-NamesOpen fill l unnamed) fresh)
          (λ i. rebuy-put id i fill l p unnamed e) (λ q f. ground (arith, held.0))
          (λ i r f live sy st. h.unique i p.position_id r p f held.0 live held.1 sy st) in
      ground (arith, v, open_)

  -- A consistent ledger refines a map from symbol and strategy to the open position: a buy that
  -- names no position, with a fresh id, opens one with its quantity and price, or adds its quantity
  -- to the open one at the mean price by quantity, at its own symbol and strategy, and
  -- leaves the open position of every other symbol or strategy as it is.
  pub buy-view :
      (id symbol strategy : ℕ) (fill : FillEvent F) (l : PositionLedger F)
      → IsConsistent l
      → fill.position_id ≡ none
      → lookup id l.positions ≡ none
      → find_open_position symbol strategy (on_buy_fill id fill l) ≡ (
          if fill.symbol == symbol && fill.strategy_id == strategy
          then after_buy id fill (find_open_position symbol strategy l)
          else find_open_position symbol strategy l)
  unfolding after_buy with_buy new_position
  buy-view id symbol strategy fill l h unnamed fresh =
      elim (Option-cases (find_open_position fill.symbol fill.strategy_id l)) [
        | inl nobody ↦
            ground (arith, nobody, new-view id symbol strategy fill l h unnamed fresh nobody)
        | inr (p, e) ↦
            let held = find_open-held fill.symbol fill.strategy_id l p h e in
            ground
              (arith, e, held.2, held.3, rebuy-view id symbol strategy fill l p h unnamed fresh e)
      ]

  -- The entry after a sell, with its status
  abbrev sold : FillEvent F → PositionLedgerEntry F → PositionLedgerEntry F
  sold fill p =
      if is_spent (sub p.quantity fill.filled_quantity)
      then record (with_sell fill p) { quantity = fzero; status = closed }
      else record (with_sell fill p) { status = partial_closed }

  sell-put :
      (i : ℕ) (fill : FillEvent F) (l : PositionLedger F) (p : PositionLedgerEntry F)
      → fill.position_id ≡ none
      → find_open_position fill.symbol fill.strategy_id l ≡ some p
      → lookup i (on_sell_fill fill l).positions
        ≡ (if p.position_id == i then some (sold fill p) else lookup i l.positions)
  unfolding on_sell_fill target named close_position add_fill_history with_sell remove_from_index
  sell-put i fill l p unnamed e =
      ground (arith, lookup-put p.position_id i (sold fill p) l.positions)

  sold-terms :
      (fill : FillEvent F) (p : PositionLedgerEntry F)
      → ((sold fill p).symbol ≡ p.symbol)
        × ((sold fill p).strategy_id ≡ p.strategy_id)
        × ((if is_open (sold fill p) then some (sold fill p) else none) ≡ after_sell fill (some p))
  unfolding with_sell is_open after_sell
  sold-terms fill p = ground arith

  resell-view :
      (symbol strategy : ℕ) (fill : FillEvent F) (l : PositionLedger F) (p : PositionLedgerEntry F)
      → IsConsistent l
      → fill.position_id ≡ none
      → find_open_position fill.symbol fill.strategy_id l ≡ some p
      → find_open_position symbol strategy (on_sell_fill fill l) ≡ (
          if p.symbol == symbol && p.strategy_id == strategy
          then after_sell fill (some p)
          else find_open_position symbol strategy l)
  resell-view symbol strategy fill l p h unnamed e =
      let held = find_open-held fill.symbol fill.strategy_id l p h e in
      let terms = sold-terms fill p in
      let v =
        view-put l (on_sell_fill fill l) p.position_id symbol strategy (sold fill p) h
          (sell-IsConsistent fill l h (unnamed-NamesOpen fill l unnamed))
          (λ i. sell-put i fill l p unnamed e) (λ q f. ground (arith, held.0, terms.0, terms.1))
          (λ i r f live sy st.
            h.unique i p.position_id r p f held.0 live held.1 (sy ∙ terms.0) (st ∙ terms.1)) in
      ground (arith, v, terms.0, terms.1, terms.2)

  sell_nobody :
      (fill : FillEvent F) (l : PositionLedger F)
      → fill.position_id ≡ none
      → find_open_position fill.symbol fill.strategy_id l ≡ none
      → on_sell_fill fill l ≡ l
  unfolding on_sell_fill target named
  sell_nobody fill l unnamed e = ground arith

  -- A consistent ledger refines a map from symbol and strategy to the open position: a sell that
  -- names no position takes its quantity from the one of its own symbol and strategy, or closes it
  -- where at most 0.0001 would be left, does nothing where there is none, and leaves the open
  -- position of every other symbol or strategy as it is.
  pub sell-view :
      (symbol strategy : ℕ) (fill : FillEvent F) (l : PositionLedger F)
      → IsConsistent l
      → fill.position_id ≡ none
      → find_open_position symbol strategy (on_sell_fill fill l) ≡ (
          if fill.symbol == symbol && fill.strategy_id == strategy
          then after_sell fill (find_open_position symbol strategy l)
          else find_open_position symbol strategy l)
  unfolding after_sell
  sell-view symbol strategy fill l h unnamed =
      elim (Option-cases (find_open_position fill.symbol fill.strategy_id l)) [
        | inl nobody ↦ ground (arith, nobody, sell_nobody fill l unnamed nobody)
        | inr (p, e) ↦
            let held = find_open-held fill.symbol fill.strategy_id l p h e in
            ground (arith, e, held.2, held.3, resell-view symbol strategy fill l p h unnamed e)
      ]
