-- ===== src/Trading.antt =====
-- The trading part of server/src/engine/core.py: the choice of symbols, the entries by the signals of
-- the strategies and their exits, as a client of the modules Strategies, Overlay and UserMode. The
-- exchange and the clock are outside; `Market` says what they answer, for a state `X` of
-- theirs. The events and orders that the engine keeps for the dashboard, and the log, are left out.
pub mod Entries
pub mod Exits
pub mod Slots
pub mod Rounds
mod Sales
mod Tests
use stock_test.Base.{
  ℕ, zero, suc, ◌+◌, ◌*◌, Bool, true, false, not, ◌&&◌, ◌||◌, Option, none, some, List, [], ◌∷◌,
  ltb, leb, ◌==◌, if◌then◌else◌, length, map, take, any, get_or,
}
use stock_test.Float.{FloatOps, of_dec, of_ℕ, fzero, add, sub, mul, div, feq, flt, fle, fabs, neg}
use stock_test.Dict.{Dict, lookup}
use stock_test.Overlay.{RiskOverlay}
use stock_test.UserMode.{UserModeManager}
use stock_test.Executor.{OrderResult, Result}
use stock_test.Strategies.{V3Strategy, MarketData}

-- What the exchange says of an asset
pub record Balance (F : Type 0) : Type 0 where
  pub asset : ℕ
  pub free : F
  pub total : F

pub record Market (F X : Type 0) : Type 0 where
  pub now : X → ℕ × X
  pub get_balance : ℕ → X → Result (Option (Balance F)) × X
  pub get_all_balances : X → Result (List (Balance F)) × X
  -- A market order: whether it buys, the symbol and the quantity
  pub place_order : Bool → ℕ → F → X → Result (OrderResult F) × X

-- Which number stands for the symbol of an asset and for the asset of a symbol, which stands for KRW,
-- and which assets are stable coins
pub record Names : Type 0 where
  pub krw : ℕ
  pub symbol_of : ℕ → ℕ
  pub base_of : ℕ → ℕ
  pub stablecoins : List ℕ

-- The fields of `TradingEngine` that trading reads and writes; `exchange` and the position ledger,
-- which no call of these methods reaches, are not among them.
pub record TradingEngine (F : Type 0) : Type 0 where
  pub v3_enabled : Bool
  pub v3_max_positions : ℕ
  pub v3_strategies : List (V3Strategy F)
  pub risk_overlay : RiskOverlay F
  pub mode_manager : UserModeManager F
  pub market_data : Dict (MarketData F)

pub data Regime : Type 0 where
  bullish bearish volatile neutral : Regime

module _ {F : Type 0} ⦃fl : FloatOps F⦄ where
  -- The regime of BTC in `_update_market_data`, by its change in percent
  unfoldable pub btc_regime : F → Regime
  btc_regime change =
      if flt (of_ℕ 3) change
      then bullish
      else if flt change (neg (of_ℕ 3))
      then bearish
      else if flt (of_ℕ 5) (fabs change)
      then volatile
      else neutral

  -- The symbols with enough volume and price, and their volumes
  unfoldable pub liquid : Names → Dict (MarketData F) → List (ℕ × F)
  liquid n [] = []
  liquid n ((s, md) ∷ rest) =
      let others = liquid n rest in
      if any (λ b. b == n.base_of s) n.stablecoins
      then others
      else if flt md.volume_24h (of_ℕ 1000000000)
      then others
      else if flt md.price (of_ℕ 100)
      then others
      else (s, md.volume_24h) ∷ others

  -- The sort by a number, the largest first, which keeps the order of equals
  unfoldable pub insert : {A : Type 0} → (A → F) → A → List A → List A
  insert key x [] = x ∷ []
  insert key x (y ∷ ys) =
      let rest = insert key x ys in if flt (key x) (key y) then y ∷ rest else x ∷ y ∷ ys

  unfoldable pub sort_descending : {A : Type 0} → (A → F) → List A → List A
  sort_descending key [] = []
  sort_descending key (x ∷ xs) = insert key x (sort_descending key xs)

  unfoldable pub prefilter_symbols_for_v3 : Names → Dict (MarketData F) → List ℕ
  prefilter_symbols_for_v3 n md =
      map (λ e. e.0) (take 30 (sort_descending (λ e. e.1) (liquid n md)))

  -- The worth of the assets, from that of the KRW balance on
  unfoldable pub worth : Names → Dict (MarketData F) → F → List (Balance F) → F
  worth n md total [] = total
  worth n md total (b ∷ bs) =
      let price : F = elim (lookup (n.symbol_of b.asset) md) [ none ↦ fzero | some m ↦ m.price ] in
      worth n md
        (if not (b.asset == n.krw) && flt fzero b.total
          then (if flt fzero price then add total (mul b.total price) else total)
          else total)
        bs

-- The positions of all strategies
unfoldable pub total_positions : {F : Type 0} → List (V3Strategy F) → ℕ
total_positions [] = 0
total_positions (s ∷ ss) = length s.positions + total_positions ss
