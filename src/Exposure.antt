-- ===== src/Exposure.antt =====
-- server/src/risk/exposure_manager.py: whether a new position may be opened, and for how much.
pub mod Limits
mod Tests
use stock_test.Base.{
  ℕ, Bool, true, false, ◌||◌, List, [], ◌∷◌, ◌++◌, if◌then◌else◌, leb, get_or, length,
}
use stock_test.Float.{FloatOps, fzero, of_ℕ, sub, mul, flt, fle, fmin, fmax}
use stock_test.Dict.{Dict, lookup}
use stock_test.Positions.{
  PositionLedger, get_open_positions, get_positions_by_strategy, get_total_exposure,
  get_symbol_exposure, get_strategy_exposure,
}

pub record ExposureConfig (F : Type 0) : Type 0 where
  pub max_positions : ℕ
  pub max_total_exposure_pct : F
  pub max_symbol_exposure_pct : F
  pub max_strategy_exposure_pct : F
  pub min_cash_reserve_pct : F
  pub max_single_order_pct : F
  pub max_positions_per_strategy : Dict ℕ

-- What an amount may be cut for
pub data Cut : Type 0 where
  total_exposure strategy_exposure symbol_exposure cash_reserve single_order_limit : Cut

-- The texts of `reason`
pub data CheckReason : Type 0 where
  max_positions_reached max_strategy_positions max_total max_strategy max_symbol : CheckReason
  cash_reserve_required amount_too_small ok : CheckReason
  adjusted_for : List Cut → CheckReason

pub record ExposureCheckResult (F : Type 0) : Type 0 where
  pub allowed : Bool
  pub reason : CheckReason
  pub adjusted_amount : F
  pub current_exposure : F
  pub available_exposure : F
  pub position_count : ℕ

-- The arguments of `can_open_position`
pub record Entry (F : Type 0) : Type 0 where
  pub symbol : ℕ
  pub strategy_id : ℕ
  pub order_amount : F
  pub total_equity : F
  pub available_cash : F

abbrev pub note_cut : Bool → Cut → List Cut
note_cut b c = if b then c ∷ [] else []

module _ {F : Type 0} ⦃fl : FloatOps F⦄ where
  unfoldable pub strategy_max : ExposureConfig F → ℕ → ℕ
  strategy_max cfg strategy = get_or (lookup strategy cfg.max_positions_per_strategy) 2

  abbrev pub room_total : ExposureConfig F → PositionLedger F → F → F
  room_total cfg l equity = sub (mul equity cfg.max_total_exposure_pct) (get_total_exposure l)

  abbrev pub room_strategy : ExposureConfig F → PositionLedger F → F → ℕ → F
  room_strategy cfg l equity strategy =
      sub (mul equity cfg.max_strategy_exposure_pct) (get_strategy_exposure strategy l)

  abbrev pub room_symbol : ExposureConfig F → PositionLedger F → F → ℕ → F
  room_symbol cfg l equity symbol =
      sub (mul equity cfg.max_symbol_exposure_pct) (get_symbol_exposure symbol l)

  abbrev pub spare_cash : ExposureConfig F → F → F → F
  spare_cash cfg equity cash = sub cash (mul equity cfg.min_cash_reserve_pct)

  abbrev pub single_order : ExposureConfig F → F → F
  single_order cfg equity = mul equity cfg.max_single_order_pct

  -- Step 9 of `can_open_position`: the least of the order amount and what the limits leave
  unfoldable pub adjusted_amount_of : ExposureConfig F → PositionLedger F → Entry F → F
  adjusted_amount_of cfg l e =
      fmin
        (fmin
          (fmin
            (fmin (fmin e.order_amount (room_total cfg l e.total_equity))
              (room_strategy cfg l e.total_equity e.strategy_id))
            (room_symbol cfg l e.total_equity e.symbol))
          (spare_cash cfg e.total_equity e.available_cash))
        (single_order cfg e.total_equity)

  -- The reason of an allowed entry
  unfoldable pub adjustment_reason : ExposureConfig F → PositionLedger F → Entry F → F → CheckReason
  adjustment_reason cfg l e amount =
      if flt amount e.order_amount
      then adjusted_for (
          note_cut (flt (room_total cfg l e.total_equity) e.order_amount) total_exposure
          ++ note_cut (flt (room_strategy cfg l e.total_equity e.strategy_id) e.order_amount)
              strategy_exposure
          ++ note_cut (flt (room_symbol cfg l e.total_equity e.symbol) e.order_amount)
              symbol_exposure
          ++ note_cut (flt (spare_cash cfg e.total_equity e.available_cash) e.order_amount)
              cash_reserve
          ++ note_cut (flt (single_order cfg e.total_equity) e.order_amount) single_order_limit)
      else ok

  -- A refusal
  abbrev pub refuse : PositionLedger F → CheckReason → F → ExposureCheckResult F
  refuse l why available = record {
    allowed = false;
    reason = why;
    adjusted_amount = fzero;
    current_exposure = get_total_exposure l;
    available_exposure = available;
    position_count = length (get_open_positions l.positions);
  }

  unfoldable pub can_open_position :
      ExposureConfig F → PositionLedger F → Entry F → ExposureCheckResult F
  can_open_position cfg l e =
      let equity = e.total_equity in
      let room = room_total cfg l equity in
      let amount = adjusted_amount_of cfg l e in
      if leb cfg.max_positions (length (get_open_positions l.positions))
      then refuse l max_positions_reached fzero
      else if leb (strategy_max cfg e.strategy_id)
          (length (get_positions_by_strategy e.strategy_id l))
      then refuse l max_strategy_positions fzero
      else if fle (mul equity cfg.max_total_exposure_pct) (get_total_exposure l)
      then refuse l max_total fzero
      else if fle (mul equity cfg.max_strategy_exposure_pct) (get_strategy_exposure e.strategy_id l)
      then refuse l max_strategy room
      else if fle (mul equity cfg.max_symbol_exposure_pct) (get_symbol_exposure e.symbol l)
      then refuse l max_symbol room
      else if fle (spare_cash cfg equity e.available_cash) fzero
      then refuse l cash_reserve_required room
      else if flt amount (of_ℕ 5000)
      then refuse l amount_too_small room
      else record {
        allowed = true;
        reason = adjustment_reason cfg l e amount;
        adjusted_amount = amount;
        current_exposure = get_total_exposure l;
        available_exposure = room;
        position_count = length (get_open_positions l.positions);
      }

  unfoldable pub get_available_for_entry : ExposureConfig F → PositionLedger F → ℕ → F → F → F
  get_available_for_entry cfg l strategy equity cash =
      if leb cfg.max_positions (length (get_open_positions l.positions))
      then fzero
      else if leb (strategy_max cfg strategy) (length (get_positions_by_strategy strategy l))
      then fzero
      else fmax fzero (
          fmin
            (fmin (fmin (room_total cfg l equity) (room_strategy cfg l equity strategy))
              (spare_cash cfg equity cash))
            (single_order cfg equity))
