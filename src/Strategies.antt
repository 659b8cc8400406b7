-- ===== src/Strategies.antt =====
-- server/src/strategies/v3_live.py: the strategies that the engine trades by, the signals that they
-- give and the exits of their positions. `buffer` is the 5-minute buffer of the candle manager
-- (server/src/data/candle_manager.py) for a symbol. Times are microseconds; numbers stand for symbols
-- and names, and the indicators that are only shown are left out.
pub mod Scan
pub mod Exits
pub mod Signals
mod Tests
use stock_test.Base.{
  ℕ, zero, suc, ◌+◌, ◌-◌, ◌*◌, ◌≤◌, Bool, true, false, not, ◌&&◌, ◌||◌, Option, none, some, List,
  [], ◌∷◌, ◌++◌, ltb, leb, ◌==◌, if◌then◌else◌, length, map, reverse, take, take_last, get_or, any,
}
use stock_test.Float.{
  FloatOps, of_dec, of_ℕ, fzero, add, sub, mul, div, feq, flt, fle, fmin, fmax, fabs, neg,
}
use stock_test.Dict.{Dict, lookup, put, remove}
use stock_test.ExecHealth.{sum}
use stock_test.Candles.{Candle, CandleBuffer, get_latest, get_closes}
use stock_test.Kmvi.{true_ranges}

pub data StrategyKind : Type 0 where
  volatile_oversold_bounce crash_recovery triple_bearish_reversal : StrategyKind

pub data ExitType : Type 0 where
  stop_loss take_profit trailing time_stop : ExitType

-- `V3Signal`
pub record V3Signal (F : Type 0) : Type 0 where
  pub symbol : ℕ
  pub strategy : ℕ
  pub score : F
  pub entry_price : F
  pub position_pct : F

-- `V3Position`
pub record V3Position (F : Type 0) : Type 0 where
  pub symbol : ℕ
  pub strategy : ℕ
  pub entry_price : F
  pub quantity : F
  pub entry_time : ℕ
  pub stop_loss_pct : F
  pub take_profit_pct : F
  pub trail_trigger_pct : F
  pub trail_stop_pct : F
  pub time_stop_minutes : ℕ
  pub highest_price : F
  pub trailing_active : Bool

-- `V3BaseStrategy`, with the constants of its class
pub record V3Strategy (F : Type 0) : Type 0 where
  pub kind : StrategyKind
  pub name : ℕ
  pub cooldown_minutes : ℕ
  pub sl_pct : F
  pub tp_pct : F
  pub trail_trigger : F
  pub trail_stop : F
  pub time_stop_min : ℕ
  pub position_pct : F
  pub last_entry : Dict ℕ
  pub positions : Dict (V3Position F)

-- What the engine knows of a symbol, as far as it is read here
pub record MarketData (F : Type 0) : Type 0 where
  pub price : F
  pub volume_24h : F
  pub rvol : F

abbrev pub minutes : ℕ → ℕ
minutes n = n * 60000000

module _ {F : Type 0} where
  -- `_check_cooldown`: whether an entry is possible
  unfoldable pub check_cooldown : ℕ → ℕ → V3Strategy F → Bool
  check_cooldown symbol now s = elim (lookup symbol s.last_entry) [
    | none ↦ true
    | some t ↦ leb (t + minutes s.cooldown_minutes) now
  ]

  unfoldable pub record_entry : ℕ → ℕ → V3Strategy F → V3Strategy F
  record_entry symbol now s = record s { last_entry = put symbol now s.last_entry }

  unfoldable pub track_position : V3Position F → V3Strategy F → V3Strategy F
  track_position p s = record s { positions = put p.symbol p s.positions }

  unfoldable pub get_position : ℕ → V3Strategy F → Option (V3Position F)
  get_position symbol s = lookup symbol s.positions

  unfoldable pub close_position : ℕ → V3Strategy F → V3Strategy F
  close_position symbol s = record s { positions = remove symbol s.positions }

module _ {F : Type 0} ⦃fl : FloatOps F⦄ where
  -- The result of the position at a price, as a share of its entry
  abbrev pub pnl_of : F → V3Position F → F
  pnl_of price p = div (sub price p.entry_price) p.entry_price

  abbrev pub stopped : F → V3Position F → Bool
  stopped price p = fle (pnl_of price p) p.stop_loss_pct

  abbrev pub won : F → V3Position F → Bool
  won price p = fle p.take_profit_pct (pnl_of price p)

  -- The position after a price: its highest price, and the trailing stop that a price may start
  unfoldable pub follow_price : F → V3Position F → V3Position F
  follow_price price p = record p {
    highest_price = if flt p.highest_price price then price else p.highest_price;
    trailing_active =
        if stopped price p || won price p
        then p.trailing_active
        else if fle p.trail_trigger_pct (pnl_of price p)
        then true
        else p.trailing_active;
  }

  -- Whether the price has fallen far enough from the highest one
  unfoldable pub trailed : F → V3Position F → Bool
  trailed price p =
      p.trailing_active
      && (flt fzero p.highest_price
          && fle p.trail_stop_pct (div (sub p.highest_price price) p.highest_price))

  -- The exit of a position that has followed the price
  unfoldable pub exit_of : F → ℕ → V3Position F → Option ExitType
  exit_of price now p =
      if stopped price p
      then some stop_loss
      else if won price p
      then some take_profit
      else if trailed price p
      then some trailing
      else if leb (p.entry_time + minutes p.time_stop_minutes) now
      then some time_stop
      else none

  unfoldable pub check_exit : ℕ → F → ℕ → V3Strategy F → Option ExitType × V3Strategy F
  check_exit symbol price now s = elim (lookup symbol s.positions) [
    | none ↦ (none, s)
    | some p ↦ if fle p.entry_price fzero then (none, s) else (
      exit_of price now (follow_price price p),
      record s { positions = put symbol (follow_price price p) s.positions },
    )
  ]

  -- The changes from each number to the next
  unfoldable pub changes : List F → List F
  changes [] = []
  changes (x ∷ []) = []
  changes (x ∷ y ∷ ys) = sub y x ∷ changes (y ∷ ys)

  unfoldable pub calc_rsi : ℕ → List F → Option F
  calc_rsi period closes =
      let ds = changes (take_last (period + 1) closes) in
      let gain = div (sum fzero (map (λ d. fmax d fzero) ds)) (of_ℕ period) in
      let loss = div (sum fzero (map (λ d. fmax (neg d) fzero) ds)) (of_ℕ period) in
      let hundred = of_ℕ 100 in
      if ltb (length closes) (period + 1)
      then none
      else if feq loss fzero
      then some (if flt fzero gain then hundred else of_ℕ 50)
      else some (sub hundred (div hundred (add (of_ℕ 1) (div gain loss))))

  -- `calc_atr` and `calc_atr_percent` of the candle manager; the latter is a share of the price.
  unfoldable pub calc_atr : ℕ → CandleBuffer F → Option F
  calc_atr period b =
      let cs = get_latest (period + 1) b in
      let trs = true_ranges cs in
      let n = if ltb period (length trs) then period else length trs in
      if ltb (length cs) (period + 1)
      then none
      else if length trs == 0
      then none
      else some (div (sum fzero (take_last period trs)) (of_ℕ n))

  abbrev pub ratio : F → List (Candle F) → Option F
  ratio atr [] = none
  ratio atr (c ∷ cs) = if fle c.close fzero then none else some (div atr c.close)

  unfoldable pub calc_atr_percent : ℕ → CandleBuffer F → Option F
  calc_atr_percent period b = elim (calc_atr period b) [
    | none ↦ none
    | some atr ↦ ratio atr (get_latest 1 b)
  ]

  -- Whether the last candle has risen, and whether the three before it have fallen
  unfoldable pub risen : List (Candle F) → Bool
  risen [] = false
  risen (c ∷ cs) = not (fle c.close c.opening)

  unfoldable pub fallen : ℕ → List (Candle F) → ℕ
  fallen zero cs = 0
  fallen (suc n) [] = 0
  fallen (suc n) (c ∷ cs) =
      let rest = fallen n cs in if flt c.close c.opening then suc rest else rest

  abbrev pub skip_one : List (Candle F) → List (Candle F)
  skip_one [] = []
  skip_one (x ∷ xs) = xs

  -- `closes[-7]`, from the prices with the latest first
  unfoldable pub item_back : ℕ → List F → F
  item_back n [] = fzero
  item_back zero (x ∷ xs) = x
  item_back (suc n) (x ∷ xs) = item_back n xs
