-- ===== src/Positions/Fills.antt =====
-- server/src/portfolio/position_ledger.py: what changes the ledger. A method gets the id that
-- `uuid4` makes; an entry that Python changes in place is put back under its id.
use stock_test.Base.{
  ℕ, ◌+◌, Bool, ◌&&◌, Option, none, some, List, [], ◌∷◌, ◌++◌, ◌==◌, if◌then◌else◌, get_or,
  take_last,
}
use stock_test.Float.{FloatOps, of_dec, fzero, add, sub, mul, div, fabs, flt, fle}
use stock_test.Dict.{Dict, lookup, put}
use stock_test.Positions.{
  PositionLedgerEntry, PositionLedger, FillEvent, opened, partial_closed, closed, long, is_open,
}
use stock_test.Positions.Ids.{has_id, remove_id}

-- The ids under a key, `[]` where the key is missing
abbrev pub ids_of : ℕ → Dict (List ℕ) → List ℕ
ids_of key d = get_or (lookup key d) []

-- One of the two indices with an id added, or removed if it is there.
unfoldable pub add_id : ℕ → ℕ → Dict (List ℕ) → Dict (List ℕ)
add_id key id d =
    let ids = ids_of key d in put key (if has_id id ids then ids else ids ++ id ∷ []) d

unfoldable pub drop_id : ℕ → ℕ → Dict (List ℕ) → Dict (List ℕ)
drop_id key id d =
    let ids = ids_of key d in if has_id id ids then put key (remove_id id ids) d else d

module _ {F : Type 0} ⦃fl : FloatOps F⦄ where
  unfoldable pub add_to_index : PositionLedgerEntry F → PositionLedger F → PositionLedger F
  add_to_index p l = record l {
    symbol_positions = add_id p.symbol p.position_id l.symbol_positions;
    strategy_positions = add_id p.strategy_id p.position_id l.strategy_positions;
  }

  unfoldable pub remove_from_index : PositionLedgerEntry F → PositionLedger F → PositionLedger F
  remove_from_index p l = record l {
    symbol_positions = drop_id p.symbol p.position_id l.symbol_positions;
    strategy_positions = drop_id p.strategy_id p.position_id l.strategy_positions;
  }

  -- An entry that has changed in place
  abbrev pub store : PositionLedgerEntry F → PositionLedger F → PositionLedger F
  store p l = record l { positions = put p.position_id p l.positions }

  -- `_add_fill_history`: the last 100
  unfoldable pub add_fill_history : FillEvent F → PositionLedger F → PositionLedger F
  add_fill_history fill l = record l { fill_history = take_last 100 (l.fill_history ++ fill ∷ []) }

  -- The first open position of a strategy among ids
  unfoldable pub find_among :
      ℕ → List ℕ → Dict (PositionLedgerEntry F) → Option (PositionLedgerEntry F)
  find_among strategy [] d = none
  find_among strategy (id ∷ ids) d =
      let rest = find_among strategy ids d in
      elim (lookup id d) [
        | none ↦ rest
        | some p ↦ if is_open p && p.strategy_id == strategy then some p else rest
      ]

  unfoldable pub find_open_position : ℕ → ℕ → PositionLedger F → Option (PositionLedgerEntry F)
  find_open_position symbol strategy l =
      find_among strategy (ids_of symbol l.symbol_positions) l.positions

  -- The entry of `_create_new_position`
  unfoldable pub new_position : ℕ → FillEvent F → PositionLedgerEntry F
  new_position id fill = record {
    position_id = id;
    strategy_id = fill.strategy_id;
    symbol = fill.symbol;
    side = long;
    quantity = fill.filled_quantity;
    avg_entry_price = fill.fill_price;
    realized_pnl = fzero;
    unrealized_pnl = fzero;
    total_fees = fill.fee;
    status = opened;
    entry_time = fill.timestamp;
    last_fill_time = fill.timestamp;
    fill_count = 1;
    stop_price = fill.initial_stop_price;
    take_profit_price = none;
    initial_stop_distance = elim fill.initial_stop_price [
      | none ↦ fzero
      | some stop ↦ fabs (sub fill.fill_price stop)
    ];
  }

  unfoldable pub create_new_position : ℕ → FillEvent F → PositionLedger F → PositionLedger F
  unfolding new_position
  create_new_position id fill l =
      let p = new_position id fill in add_fill_history fill (add_to_index p (store p l))

  -- The entry after a further buy: `_add_to_position`
  unfoldable pub with_buy : FillEvent F → PositionLedgerEntry F → PositionLedgerEntry F
  with_buy fill p =
      let cost =
        add (mul p.quantity p.avg_entry_price) (mul fill.filled_quantity fill.fill_price) in
      let total = add p.quantity fill.filled_quantity in
      record p {
        quantity = total;
        avg_entry_price = if flt fzero total then div cost total else fzero;
        total_fees = add p.total_fees fill.fee;
        last_fill_time = fill.timestamp;
        fill_count = p.fill_count + 1;
      }

  unfoldable pub add_to_position :
      PositionLedgerEntry F → FillEvent F → PositionLedger F → PositionLedger F
  add_to_position p fill l = add_fill_history fill (store (with_buy fill p) l)

  -- The entry after a sell, before its status is set: `_close_position`
  unfoldable pub with_sell : FillEvent F → PositionLedgerEntry F → PositionLedgerEntry F
  with_sell fill p = record p {
    realized_pnl =
        add p.realized_pnl (mul (sub fill.fill_price p.avg_entry_price) fill.filled_quantity);
    total_fees = add p.total_fees fill.fee;
    quantity = sub p.quantity fill.filled_quantity;
    last_fill_time = fill.timestamp;
    fill_count = p.fill_count + 1;
  }

  -- What counts as nothing left, `quantity <= 0.0001`
  abbrev pub is_spent : F → Bool
  is_spent quantity = fle quantity (of_dec 1 4)

  unfoldable pub close_position :
      PositionLedgerEntry F → FillEvent F → PositionLedger F → PositionLedger F
  close_position p fill l =
      let sold = with_sell fill p in
      let l' = add_fill_history fill l in
      if is_spent sold.quantity
      then (let q = record sold { quantity = fzero; status = closed } in
          remove_from_index q (store q l'))
      else store (record sold { status = partial_closed }) l'

  -- The position that a fill names, if the ledger has it
  unfoldable pub named : FillEvent F → PositionLedger F → Option (PositionLedgerEntry F)
  named fill l = elim fill.position_id [ none ↦ none | some id ↦ lookup id l.positions ]

  -- The position that a fill is for: the one that it names, or an open one of its symbol and
  -- strategy.
  unfoldable pub target : FillEvent F → PositionLedger F → Option (PositionLedgerEntry F)
  target fill l = elim (named fill l) [
    | none ↦ find_open_position fill.symbol fill.strategy_id l
    | some p ↦ some p
  ]

  unfoldable pub on_buy_fill : ℕ → FillEvent F → PositionLedger F → PositionLedger F
  on_buy_fill new_id fill l = elim (target fill l) [
    | none ↦ create_new_position new_id fill l
    | some p ↦ add_to_position p fill l
  ]

  unfoldable pub on_sell_fill : FillEvent F → PositionLedger F → PositionLedger F
  on_sell_fill fill l = elim (target fill l) [ none ↦ l | some p ↦ close_position p fill l ]

  unfoldable pub force_sync_quantity : ℕ → ℕ → F → PositionLedger F → PositionLedger F
  force_sync_quantity symbol strategy quantity l = elim (find_open_position symbol strategy l) [
    | none ↦ l
    | some p ↦
        if is_spent quantity
        then (let q = record p { quantity = quantity; status = closed } in
            remove_from_index q (store q l))
        else store (record p { quantity = quantity }) l
  ]

  unfoldable pub update_stop_price : ℕ → F → PositionLedger F → PositionLedger F
  update_stop_price id price l = elim (lookup id l.positions) [
    | none ↦ l
    | some p ↦ record l { positions = put id (record p { stop_price = some price }) l.positions }
  ]

  unfoldable pub update_take_profit_price : ℕ → F → PositionLedger F → PositionLedger F
  update_take_profit_price id price l = elim (lookup id l.positions) [
    | none ↦ l
    | some p ↦ record l {
      positions = put id (record p { take_profit_price = some price }) l.positions;
    }
  ]
