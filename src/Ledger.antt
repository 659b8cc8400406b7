-- ===== src/Ledger.antt =====
-- server/src/portfolio/ledger.py: trades, equity and the statistics of each day. A day
-- (`date.today()`, the local date) is a number, the key of the statistics; a time is one too. Ids,
-- symbols and assets are only compared, so numbers stand for them.
pub mod Days
pub mod Totals
mod Tests
use Prim.Native.String.{String}
use text.Mathlib.Text.{◌==◌ as ◌=str◌}
use stock_test.Base.{
  ℕ, ◌+◌, Bool, Option, none, some, List, [], ◌∷◌, ◌++◌, ◌==◌, if◌then◌else◌, get_or, take_last,
  filter,
}
use stock_test.Float.{FloatOps, fzero, add, sub, div, feq, flt}
use stock_test.Dict.{Dict, lookup, put}
use stock_test.Order.{
  OrderSide, StrategyType, volatile_oversold_bounce, crash_recovery, triple_bearish_reversal,
}

pub record Trade (F : Type 0) : Type 0 where
  pub trade_id : ℕ
  pub order_id : ℕ
  pub symbol : ℕ
  pub strategy : StrategyType
  pub side : OrderSide
  pub quantity : F
  pub price : F
  pub fee : F
  pub fee_asset : ℕ
  pub realized_pnl : F
  pub executed_at : ℕ

pub record DailyStats (F : Type 0) : Type 0 where
  pub date : ℕ
  pub starting_equity : F
  pub current_equity : F
  pub pnl : F
  pub core_pnl : F
  pub satellite_pnl : F
  pub fees : F
  pub trades_count : ℕ
  pub max_equity : F
  pub min_equity : F

pub record Ledger (F : Type 0) : Type 0 where
  pub trades : List (Trade F)
  pub daily_stats : Dict (DailyStats F)
  pub starting_equity : F
  pub current_equity : F

-- The `AttributeError` of a member that an enumeration does not have
pub data LedgerError : Type 0 where
  attribute_error : String → LedgerError

-- The names of the members of `StrategyType`, as attributes of the class.
abbrev pub strategy_members : List (String × StrategyType)
strategy_members =
    ("VOLATILE_OVERSOLD_BOUNCE", volatile_oversold_bounce)
    ∷ ("CRASH_RECOVERY", crash_recovery)
    ∷ ("TRIPLE_BEARISH_REVERSAL", triple_bearish_reversal)
    ∷ []

-- `StrategyType.name`, none where the attribute is missing
unfoldable pub strategy_named : String → List (String × StrategyType) → Option StrategyType
strategy_named name [] = none
strategy_named name (e ∷ ms) = if e.0 =str name then some e.1 else strategy_named name ms

abbrev pub strategy_code : StrategyType → ℕ
strategy_code volatile_oversold_bounce = 0
strategy_code crash_recovery = 1
strategy_code triple_bearish_reversal = 2

-- `trades[-limit:]`, where a limit of 0 is a slice from the start
abbrev pub last_trades {ℓ} : {A : Type ℓ} → ℕ → List A → List A
last_trades limit ts = take_last limit ts

module _ {F : Type 0} ⦃fl : FloatOps F⦄ where
  -- `DailyStats(...)` for a day that starts with an equity
  unfoldable pub fresh_stats : ℕ → F → DailyStats F
  fresh_stats day equity = record {
    date = day;
    starting_equity = equity;
    current_equity = equity;
    pnl = fzero;
    core_pnl = fzero;
    satellite_pnl = fzero;
    fees = fzero;
    trades_count = 0;
    max_equity = equity;
    min_equity = equity;
  }

  unfoldable pub pnl_pct : DailyStats F → F
  pnl_pct s = if feq s.starting_equity fzero then fzero else div s.pnl s.starting_equity

  unfoldable pub drawdown : DailyStats F → F
  drawdown s =
      if feq s.max_equity fzero then fzero else div (sub s.current_equity s.max_equity) s.max_equity

  -- The constructor, on a day
  unfoldable pub init : ℕ → F → Ledger F
  init today equity = record {
    trades = [];
    daily_stats = put today (fresh_stats today equity) [];
    starting_equity = equity;
    current_equity = equity;
  }

  -- `today_stats`: the statistics of the day, new ones if there are none
  unfoldable pub today_stats : ℕ → Ledger F → DailyStats F
  today_stats today l = get_or (lookup today l.daily_stats) (fresh_stats today l.current_equity)

  -- The statistics of the day are changed in place, in the dictionary.
  unfoldable pub with_stats : ℕ → (DailyStats F → DailyStats F) → Ledger F → Ledger F
  with_stats today change l = record l {
    daily_stats = put today (change (today_stats today l)) l.daily_stats;
  }

  -- What `record_trade` has counted before it looks at the strategy.
  unfoldable pub count_trade : Trade F → DailyStats F → DailyStats F
  count_trade t s = record s {
    trades_count = s.trades_count + 1;
    fees = add s.fees t.fee;
    pnl = add s.pnl t.realized_pnl;
  }

  -- The split of the result between the core strategy and the others
  unfoldable pub split_pnl : StrategyType → Trade F → DailyStats F → DailyStats F
  split_pnl core t s =
      if strategy_code t.strategy == strategy_code core
      then record s { core_pnl = add s.core_pnl t.realized_pnl }
      else record s { satellite_pnl = add s.satellite_pnl t.realized_pnl }

  -- `record_trade`: the ledger, and the error that is raised, if any. The trade has the arguments
  -- of the call, and gets its time.
  unfoldable pub record_trade : ℕ → ℕ → Trade F → Ledger F → Ledger F × Option LedgerError
  record_trade now today t l =
      let trade : Trade F = record t { executed_at = now } in
      let appended : Ledger F = record l { trades = l.trades ++ trade ∷ [] } in
      let counted = with_stats today (count_trade trade) appended in
      elim (strategy_named "CORE" strategy_members) [
        | none ↦ (counted, some (attribute_error "CORE"))
        | some core ↦ (with_stats today (split_pnl core trade) counted, none)
      ]

  -- What `update_equity` writes in the statistics of the day.
  unfoldable pub follow_equity : F → DailyStats F → DailyStats F
  follow_equity equity s = record s {
    current_equity = equity;
    pnl = sub equity s.starting_equity;
    max_equity = if flt s.max_equity equity then equity else s.max_equity;
    min_equity = if flt equity s.min_equity then equity else s.min_equity;
  }

  unfoldable pub update_equity : ℕ → F → Ledger F → Ledger F
  update_equity today equity l =
      with_stats today (follow_equity equity) (record l { current_equity = equity })

  unfoldable pub new_day : ℕ → Option F → Ledger F → Ledger F
  new_day today equity l = record l {
    daily_stats = put today (fresh_stats today (get_or equity l.current_equity)) l.daily_stats;
  }

  -- `get_trades`, where no symbol or strategy is no filter
  unfoldable pub get_trades : Option ℕ → Option StrategyType → ℕ → Ledger F → List (Trade F)
  get_trades symbol strategy limit l =
      let of_symbol : List (Trade F) = elim symbol [
        | none ↦ l.trades
        | some x ↦ filter (λ (t : Trade F). t.symbol == x) l.trades
      ] in
      last_trades limit (elim strategy [
        | none ↦ of_symbol
        | some y ↦ filter (λ (t : Trade F). strategy_code t.strategy == strategy_code y) of_symbol
      ])
