-- ===== src/Watchdog/State.antt =====
-- The data of server/src/risk/stop_watchdog.py, and the methods that keep the positions and the prices.
-- Symbols and position ids are numbers.
use stock_test.Base.{
  ℕ, ◌*◌, Bool, true, false, Option, none, some, List, [], ◌∷◌, ◌++◌, if◌then◌else◌, take_last, not,
}
use stock_test.Dict.{Dict, lookup, put, remove, has_key}

-- `StopType`
pub data StopType : Type 0 where
  hard_stop trailing_stop time_stop fast_crash : StopType

abbrev pub is_trailing : StopType → Bool
is_trailing trailing_stop = true
is_trailing _ = false

-- `WatchedPosition`
pub record WatchedPosition (F : Type 0) : Type 0 where
  pub symbol : ℕ
  pub entry_price : F
  pub quantity : F
  pub stop_price : F
  pub stop_type : StopType
  pub highest_price : F
  pub trailing_distance : F
  pub entry_time : ℕ
  pub time_stop_minutes : ℕ
  pub position_id : ℕ

-- `PriceSnapshot`
pub record PriceSnapshot (F : Type 0) : Type 0 where
  pub price : F
  pub timestamp : ℕ

-- `StopEvent`
pub record StopEvent (F : Type 0) : Type 0 where
  pub symbol : ℕ
  pub position_id : ℕ
  pub stop_type : StopType
  pub trigger_price : F
  pub stop_price : F
  pub entry_price : F
  pub quantity : F
  pub pnl_pct : F

-- `_stats`
pub record Stats : Type 0 where
  pub loops : ℕ
  pub stops_triggered : ℕ
  pub fast_crashes_detected : ℕ
  pub ws_fallbacks : ℕ

-- `StopWatchdog`
pub record StopWatchdog (F : Type 0) : Type 0 where
  pub enabled : Bool
  pub running : Bool
  pub ws_timeout_sec : ℕ
  pub fast_crash_pct : F
  pub fast_crash_window_sec : ℕ
  pub positions : Dict (WatchedPosition F)
  pub price_history : Dict (List (PriceSnapshot F))
  pub last_prices : Dict F
  pub price_update_time : Dict ℕ
  pub stats : Stats

-- What the check of one position is answered: the time, and the price from the exchange, if there
-- is an exchange and it answers with one.
pub record Reading (F : Type 0) : Type 0 where
  pub now : ℕ
  pub rest_price : Option F

-- The outcome of the check of one position; `raised` is a division by an entry price of 0.
pub data Verdict : Type 0 where
  hold raised : Verdict
  trigger : StopType → Verdict

-- An entry of `stops_to_trigger`
pub record Stop (F : Type 0) : Type 0 where
  pub position : WatchedPosition F
  pub price : F
  pub stop_type : StopType

abbrev pub microseconds : ℕ → ℕ
microseconds s = s * 1000000

module _ {F : Type 0} where
  unfoldable pub add_position : WatchedPosition F → StopWatchdog F → StopWatchdog F
  add_position p w = record w {
    positions = put p.position_id p w.positions;
    price_history =
        if has_key p.symbol w.price_history
        then w.price_history
        else put p.symbol [] w.price_history;
  }

  unfoldable pub remove_position : ℕ → StopWatchdog F → StopWatchdog F
  remove_position id w = record w { positions = remove id w.positions }

  -- The watchdog, and whether the position was there.
  unfoldable pub update_stop_price :
      ℕ → F → Option StopType → StopWatchdog F → StopWatchdog F × Bool
  update_stop_price id new_stop ty w = elim (lookup id w.positions) [
    | none ↦ (w, false)
    | some p ↦ (
      record w {
        positions =
            put id
              (record p {
                stop_price = new_stop;
                stop_type = elim ty [ none ↦ p.stop_type | some t ↦ t ];
              })
              w.positions;
      },
      true,
    )
  ]

  -- An append to a `deque(maxlen=50)`
  unfoldable pub push_snapshot : PriceSnapshot F → List (PriceSnapshot F) → List (PriceSnapshot F)
  push_snapshot s h = take_last 50 (h ++ s ∷ [])

  unfoldable pub update_price : ℕ → ℕ → F → StopWatchdog F → StopWatchdog F
  unfolding push_snapshot
  update_price now symbol price w = record w {
    last_prices = put symbol price w.last_prices;
    price_update_time = put symbol now w.price_update_time;
    price_history = elim (lookup symbol w.price_history) [
      | none ↦ w.price_history
      | some h ↦
          put symbol (push_snapshot (record { price = price; timestamp = now }) h) w.price_history
    ];
  }

  -- `start`, without the task that it creates
  unfoldable pub start : StopWatchdog F → StopWatchdog F
  start w = if not w.enabled then w else if w.running then w else record w { running = true }

  -- `stop`
  unfoldable pub stop : StopWatchdog F → StopWatchdog F
  stop w = record w { running = false }
