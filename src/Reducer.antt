-- ===== src/Reducer.antt =====
-- server/src/risk/position_reducer.py: the orders that shrink the positions in a bad market, and
-- the time after them in which no position may grow. `now` is the one reading of the clock that a
-- call makes; the texts of the answers are left out.
pub mod Escalation
pub mod Orders
mod Tests
use stock_test.Base.{
  ℕ, ◌+◌, ◌*◌, Bool, true, false, not, ◌&&◌, Option, none, some, List, [], ◌∷◌, ◌++◌, ltb, leb,
  ◌==◌, if◌then◌else◌, get_or, filter,
}
use stock_test.Float.{FloatOps, of_dec, of_ℕ, fzero, add, sub, mul, flt, fle}
use stock_test.Dict.{Dict, lookup}

pub data ReduceTrigger : Type 0 where
  risk_off corr_shock dd_soft dd_hard dd_hard_phase2 dd_hard_phase3 manual : ReduceTrigger

pub record ReduceOrder (F : Type 0) : Type 0 where
  pub symbol : ℕ
  pub reduce_qty : F
  pub reduce_pct : F
  pub trigger : ReduceTrigger
  pub created_at : ℕ
  pub executed : Bool
  pub executed_at : Option ℕ

pub record ReduceState (F : Type 0) : Type 0 where
  pub is_reducing : Bool
  pub trigger : Option ReduceTrigger
  pub reduce_pct : F
  pub started_at : Option ℕ
  pub stay_until : Option ℕ
  pub pending_orders : List (ReduceOrder F)

-- The settings of `RiskConfig` that are read here
pub record ReduceConfig (F : Type 0) : Type 0 where
  pub reduce_rate_risk_off : F
  pub reduce_rate_corr_shock_min : F
  pub reduce_rate_corr_shock_max : F
  pub hard_dd_gradual_close_enabled : Bool
  pub hard_dd_phase1_reduce_pct : F
  pub reduce_stay_duration_minutes : ℕ

pub record PositionReducer (F : Type 0) : Type 0 where
  pub config : ReduceConfig F
  pub state : ReduceState F
  pub history : List (ReduceOrder F)

-- `timedelta(minutes=n)`, in microseconds
abbrev pub minutes : ℕ → ℕ
minutes n = n * 60000000

module _ {F : Type 0} where
  -- The first order of the symbol that is not executed is, and is what the history gets.
  unfoldable pub mark_first :
      ℕ → ℕ → List (ReduceOrder F) → List (ReduceOrder F) × List (ReduceOrder F)
  mark_first now symbol [] = ([], [])
  mark_first now symbol (o ∷ os) =
      let (rest, marked) = mark_first now symbol os in
      let o' : ReduceOrder F = record o { executed = true; executed_at = some now } in
      if o.symbol == symbol && not o.executed then (o' ∷ os, o' ∷ []) else (o ∷ rest, marked)

  unfoldable pub mark_executed : ℕ → ℕ → PositionReducer F → PositionReducer F
  mark_executed now symbol r =
      let (orders, marked) = mark_first now symbol r.state.pending_orders in
      record r { state = record r.state { pending_orders = orders }; history = r.history ++ marked }

  unfoldable pub get_pending_orders : PositionReducer F → List (ReduceOrder F)
  get_pending_orders r = filter (λ o. not o.executed) r.state.pending_orders

  -- `check_stay_period`: the stay is over when its time has come.
  unfoldable pub check_stay_period : ℕ → PositionReducer F → Bool × PositionReducer F
  check_stay_period now r =
      if r.state.is_reducing
      then elim r.state.stay_until [
        | none ↦ (false, r)
        | some t ↦
            if leb t now
            then (false, record r { state = record r.state { is_reducing = false } })
            else (true, r)
      ]
      else (false, r)

  unfoldable pub can_expand_position : ℕ → PositionReducer F → Bool × PositionReducer F
  can_expand_position now r = let (staying, r') = check_stay_period now r in (not staying, r')

module _ {F : Type 0} ⦃fl : FloatOps F⦄ where
  abbrev pub fresh_state : ReduceState F
  fresh_state = record {
    is_reducing = false;
    trigger = none;
    reduce_pct = fzero;
    started_at = none;
    stay_until = none;
    pending_orders = [];
  }

  unfoldable pub reset : PositionReducer F → PositionReducer F
  reset r = record r { state = fresh_state }

  unfoldable pub get_reduce_pct : ReduceConfig F → ReduceTrigger → F → F
  get_reduce_pct c risk_off severity = c.reduce_rate_risk_off
  get_reduce_pct c corr_shock severity =
      add c.reduce_rate_corr_shock_min
        (mul (sub c.reduce_rate_corr_shock_max c.reduce_rate_corr_shock_min) severity)
  get_reduce_pct c dd_soft severity = of_dec 50 2
  get_reduce_pct c dd_hard severity =
      if c.hard_dd_gradual_close_enabled then c.hard_dd_phase1_reduce_pct else of_ℕ 1
  get_reduce_pct c dd_hard_phase2 severity = of_dec 30 2
  get_reduce_pct c dd_hard_phase3 severity = of_ℕ 1
  get_reduce_pct c manual severity = fzero

  unfoldable pub new_order : ℕ → ReduceTrigger → F → ℕ → F → ReduceOrder F
  new_order now trigger pct symbol qty = record {
    symbol = symbol;
    reduce_qty = qty;
    reduce_pct = pct;
    trigger = trigger;
    created_at = now;
    executed = false;
    executed_at = none;
  }

  -- An order for each position with a quantity above 0, of `part` of it
  unfoldable pub orders_of : ℕ → ReduceTrigger → F → (F → F) → Dict F → List (ReduceOrder F)
  orders_of now trigger pct part [] = []
  orders_of now trigger pct part ((symbol, qty) ∷ positions) =
      let rest = orders_of now trigger pct part positions in
      if fle qty fzero then rest else new_order now trigger pct symbol (part qty) ∷ rest

  abbrev pub reducing :
      ℕ
      → ReduceTrigger
      → F
      → Option ℕ
      → List (ReduceOrder F)
      → PositionReducer F
      → PositionReducer F
  reducing now trigger pct until orders r = record r {
    state = record {
      is_reducing = true;
      trigger = some trigger;
      reduce_pct = pct;
      started_at = some now;
      stay_until = until;
      pending_orders = orders;
    };
  }

  unfoldable pub trigger_reduce :
      ℕ → ReduceTrigger → Dict F → F → PositionReducer F → List (ReduceOrder F) × PositionReducer F
  trigger_reduce now trigger positions severity r =
      let pct = get_reduce_pct r.config trigger severity in
      let orders = orders_of now trigger pct (λ qty. mul qty pct) positions in
      let until = some (now + minutes r.config.reduce_stay_duration_minutes) in
      if fle pct fzero
      then ([], r)
      else if r.state.is_reducing && fle pct r.state.reduce_pct
      then ([], r)
      else (orders, reducing now trigger pct until orders r)

  -- `force_close_all`, with the trigger that its reason is mapped to
  unfoldable pub force_close_all :
      ℕ → ReduceTrigger → Dict F → PositionReducer F → List (ReduceOrder F) × PositionReducer F
  force_close_all now trigger positions r =
      let orders = orders_of now trigger (of_ℕ 1) (λ qty. qty) positions in
      (orders, reducing now trigger (of_ℕ 1) none orders r)

  -- `losing_positions`, with the profit or loss of each
  unfoldable pub losing_positions : Dict F → Dict F → List (F × ℕ × F)
  losing_positions pnls [] = []
  losing_positions pnls ((symbol, qty) ∷ positions) =
      let rest = losing_positions pnls positions in
      let pnl = get_or (lookup symbol pnls) fzero in
      if flt pnl fzero && flt fzero qty then (pnl, symbol, qty) ∷ rest else rest

  -- The sort by the profit or loss keeps the order of equals.
  unfoldable pub insert : F × ℕ × F → List (F × ℕ × F) → List (F × ℕ × F)
  insert x [] = x ∷ []
  insert x (y ∷ ys) = let rest = insert x ys in if flt y.0 x.0 then y ∷ rest else x ∷ y ∷ ys

  unfoldable pub sort_losses : List (F × ℕ × F) → List (F × ℕ × F)
  sort_losses [] = []
  sort_losses (x ∷ xs) = insert x (sort_losses xs)

  unfoldable pub loss_orders : ℕ → F → List (F × ℕ × F) → List (ReduceOrder F)
  loss_orders now pct [] = []
  loss_orders now pct ((pnl, symbol, qty) ∷ losses) =
      new_order now dd_hard pct symbol (mul qty pct) ∷ loss_orders now pct losses

  -- The orders of a phase; no other phase makes any.
  unfoldable pub phase_orders : ℕ → ReduceConfig F → Dict F → Dict F → ℕ → List (ReduceOrder F)
  phase_orders now c positions pnls phase =
      if phase == 1
      then loss_orders now c.hard_dd_phase1_reduce_pct
          (sort_losses (losing_positions pnls positions))
      else if phase == 2
      then orders_of now dd_hard_phase2 (of_dec 30 2) (λ qty. mul qty (of_dec 30 2)) positions
      else []

  unfoldable pub gradual_hard_dd_close :
      ℕ → Dict F → Dict F → ℕ → PositionReducer F → List (ReduceOrder F) × PositionReducer F
  gradual_hard_dd_close now positions pnls phase r =
      let orders = phase_orders now r.config positions pnls phase in
      let trigger =
        if phase == 1 then dd_hard else if phase == 2 then dd_hard_phase2 else dd_hard_phase3 in
      if not r.config.hard_dd_gradual_close_enabled
      then force_close_all now dd_hard positions r
      else if phase == 3
      then force_close_all now dd_hard_phase3 positions r
      else (
        orders,
        reducing now trigger (get_reduce_pct r.config trigger (of_ℕ 1)) (some (now + minutes 30))
            orders r,
      )
