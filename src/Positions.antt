-- ===== src/Positions.antt =====
-- server/src/portfolio/position_ledger.py: the entries, the ledger, its queries and the fills that
-- enter it. `Fills` has what changes the ledger, `Reconcile` its comparison with the exchange. Ids,
-- strategies and symbols are only compared, so numbers stand for them.
pub mod Ids
pub mod Fills
pub mod Reconcile
pub mod Index
pub mod Invariant
pub mod Calls
pub mod Found
pub mod View
pub mod Hidden
mod Tests
use stock_test.Base.{ℕ, Bool, true, false, Option, none, some, List, [], ◌∷◌, if◌then◌else◌, get_or}
use stock_test.Float.{FloatOps, fzero, add, sub, mul, div, neg, fle}
use stock_test.Dict.{Dict, lookup}

pub data PositionStatus : Type 0 where
  opened partial_closed closed : PositionStatus

-- `side`, LONG or SHORT
pub data Direction : Type 0 where
  long short : Direction

-- `PositionLedgerEntry`, without its metadata
pub record PositionLedgerEntry (F : Type 0) : Type 0 where
  pub position_id : ℕ
  pub strategy_id : ℕ
  pub symbol : ℕ
  pub side : Direction
  pub quantity : F
  pub avg_entry_price : F
  pub realized_pnl : F
  pub unrealized_pnl : F
  pub total_fees : F
  pub status : PositionStatus
  pub entry_time : ℕ
  pub last_fill_time : ℕ
  pub fill_count : ℕ
  pub stop_price : Option F
  pub take_profit_price : Option F
  pub initial_stop_distance : F

-- `FillEvent`, without the fields that only describe the execution. No `position_id` is `none`, as
-- the empty text is; so is no `initial_stop_price`, and 0.
pub record FillEvent (F : Type 0) : Type 0 where
  pub order_id : ℕ
  pub position_id : Option ℕ
  pub symbol : ℕ
  pub strategy_id : ℕ
  pub filled_quantity : F
  pub fill_price : F
  pub fee : F
  pub timestamp : ℕ
  pub requested_price : F
  pub initial_stop_price : Option F

-- The positions by id, the ids by symbol and by strategy, and the last fills
pub record PositionLedger (F : Type 0) : Type 0 where
  pub positions : Dict (PositionLedgerEntry F)
  pub symbol_positions : Dict (List ℕ)
  pub strategy_positions : Dict (List ℕ)
  pub fill_history : List (FillEvent F)

module _ {F : Type 0} ⦃fl : FloatOps F⦄ where
  unfoldable pub is_open : PositionLedgerEntry F → Bool
  is_open p = elim p.status [ opened ↦ true | partial_closed ↦ true | closed ↦ false ]

  unfoldable pub notional_value : PositionLedgerEntry F → F
  notional_value p = mul p.quantity p.avg_entry_price

  unfoldable pub calc_unrealized_pnl : PositionLedgerEntry F → F → F
  calc_unrealized_pnl p price = elim p.side [
    | long ↦ mul (sub price p.avg_entry_price) p.quantity
    | short ↦ mul (sub p.avg_entry_price price) p.quantity
  ]

  unfoldable pub calc_r_pnl : PositionLedgerEntry F → F → F
  calc_r_pnl p price =
      let gain = sub price p.avg_entry_price in
      if fle p.initial_stop_distance fzero
      then fzero
      else div (elim p.side [ long ↦ gain | short ↦ neg gain ]) p.initial_stop_distance

  -- The open ones among the positions of a list of ids
  unfoldable pub open_of : List ℕ → Dict (PositionLedgerEntry F) → List (PositionLedgerEntry F)
  open_of [] d = []
  open_of (id ∷ ids) d =
      let rest = open_of ids d in
      elim (lookup id d) [ none ↦ rest | some p ↦ if is_open p then p ∷ rest else rest ]

  unfoldable pub get_open_positions : Dict (PositionLedgerEntry F) → List (PositionLedgerEntry F)
  get_open_positions [] = []
  get_open_positions (e ∷ d) =
      let rest = get_open_positions d in if is_open e.1 then e.1 ∷ rest else rest

  -- `total += pos.notional_value`, in order
  unfoldable pub add_notional : F → List (PositionLedgerEntry F) → F
  add_notional total [] = total
  add_notional total (p ∷ ps) = add_notional (add total (notional_value p)) ps

  unfoldable pub get_positions_by_strategy : ℕ → PositionLedger F → List (PositionLedgerEntry F)
  get_positions_by_strategy strategy l =
      open_of (get_or (lookup strategy l.strategy_positions) []) l.positions

  unfoldable pub get_total_exposure : PositionLedger F → F
  get_total_exposure l = add_notional fzero (get_open_positions l.positions)

  unfoldable pub get_symbol_exposure : ℕ → PositionLedger F → F
  get_symbol_exposure symbol l =
      add_notional fzero (open_of (get_or (lookup symbol l.symbol_positions) []) l.positions)

  unfoldable pub get_strategy_exposure : ℕ → PositionLedger F → F
  get_strategy_exposure strategy l =
      add_notional fzero (open_of (get_or (lookup strategy l.strategy_positions) []) l.positions)
