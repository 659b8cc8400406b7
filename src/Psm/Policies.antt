-- ===== src/Psm/Policies.antt =====
-- server/src/position/policies.py: what each state of a position orders. The market data may be
-- missing, and a 0 counts as missing, as in the source's tests.
use stock_test.Base.{
  ℕ, Bool, true, false, not, Option, none, some, [], ◌∷◌, ◌++◌, ◌&&◌, leb, ◌==◌, if◌then◌else◌,
}
use stock_test.Float.{FloatOps, of_dec, of_ℕ, fzero, fmax, fmin, add, sub, mul, div, feq, flt, fle}
use stock_test.Clock.{total_seconds}
use stock_test.Psm.State.{
  PositionState, weak, normal, strong, extreme, long, short, ManagedPosition, IntentReason,
  weak_time_stop, normal_time_stop, weak_reduction, extreme_exit, normal_tp1, normal_tp2,
  strong_tp1, strong_tp2, extreme_tp, OrderIntent, PsmConfig, calc_r_pnl,
}

-- What `get_action` is given beside the position and the price.
pub record Market (F : Type 0) : Type 0 where
  pub vwap : Option F
  pub atr : Option F
  pub swing_low : Option F

module _ {F : Type 0} ⦃fl : FloatOps F⦄ where
  -- Two data of the market, if both are there and not 0.
  unfoldable pub both : Option F → Option F → Option (F × F)
  both none b = none
  both (some a) none = none
  both (some a) (some b) = if feq a fzero then none else if feq b fzero then none else some (a, b)

  -- `time_in_trade_minutes`, at the given time
  abbrev pub time_in_trade_minutes : ℕ → ManagedPosition F → F
  time_in_trade_minutes now p = div (total_seconds now p.entry_time) (of_ℕ 60)

  -- `_calc_stop_from_swing`
  unfoldable pub calc_stop_from_swing : ManagedPosition F → F → F → F → F
  calc_stop_from_swing p swing atr multiplier = elim p.side [
    | long ↦ fmax p.current_stop (sub swing (mul atr multiplier))
    | short ↦ fmin p.current_stop (add swing (mul atr multiplier))
  ]

  -- The intent with a stop that is taken only if it is tighter than the current one.
  unfoldable pub tighten : ManagedPosition F → F → OrderIntent F → OrderIntent F
  tighten p new_stop i =
      let tighter : Bool = elim p.side [
        | long ↦ flt p.current_stop new_stop
        | short ↦ flt new_stop p.current_stop
      ] in
      if tighter then record i { desired_stop_price = new_stop } else i

  -- The intent that each policy starts from.
  abbrev pub hold : ManagedPosition F → Bool → OrderIntent F
  hold p reduce = record {
    symbol = p.symbol;
    desired_stop_price = p.current_stop;
    take_profit_orders = [];
    exit_now = false;
    reduce_only = reduce;
    cooldown_minutes = 0;
    reason = none;
  }

  -- One take-profit order at the current price, with its reason.
  abbrev pub take_profit : F → F → IntentReason F → OrderIntent F → OrderIntent F
  take_profit pct price why i = record i {
    take_profit_orders = i.take_profit_orders ++ record { pct = pct; price = price } ∷ [];
    reason = some why;
  }

  -- A trailing stop from the swing, where there are both data.
  unfoldable pub trail : ManagedPosition F → Market F → F → OrderIntent F → OrderIntent F
  trail p m multiplier i = elim (both m.swing_low m.atr) [
    | none ↦ i
    | some (swing, atr) ↦ tighten p (calc_stop_from_swing p swing atr multiplier) i
  ]

  -- `WeakPolicy.get_action`
  unfoldable pub weak_action : PsmConfig F → ℕ → ManagedPosition F → F → Market F → OrderIntent F
  weak_action cfg now p price m =
      let r_pnl = calc_r_pnl p price in
      if fle {F = F} (of_ℕ cfg.psm_weak_time_stop_min) (time_in_trade_minutes now p)
        && flt r_pnl cfg.psm_weak_min_r
      then record (hold p true) { exit_now = true; reason = some weak_time_stop }
      else (let i =
            (if leb 2 p.consecutive_weak_count
              then take_profit (of_dec 50 2) price weak_reduction (hold p true)
              else hold p true) in
          let j : OrderIntent F = (elim (both m.vwap m.atr) [
            | none ↦ i
            | some (vwap, atr) ↦
                let distance = mul atr cfg.psm_weak_stop_atr in
                tighten p (elim p.side [ long ↦ sub vwap distance | short ↦ add vwap distance ]) i
          ]) in
          record j { cooldown_minutes = 30 })

  -- The two partial take-profits that NORMAL and STRONG share, each at its level of R.
  unfoldable pub partial_profits :
      F
      → F
      → F
      → F
      → IntentReason F
      → IntentReason F
      → ManagedPosition F
      → F
      → OrderIntent F
      → OrderIntent F
  partial_profits level₁ pct₁ level₂ pct₂ why₁ why₂ p price i =
      let r_pnl = calc_r_pnl p price in
      let i₁ =
        (if fle level₁ r_pnl && not p.tp_30_triggered then take_profit pct₁ price why₁ i else i) in
      if fle level₂ r_pnl && not p.tp_60_triggered then take_profit pct₂ price why₂ i₁ else i₁

  -- `NormalPolicy.get_action`
  unfoldable pub normal_action : PsmConfig F → ℕ → ManagedPosition F → F → Market F → OrderIntent F
  normal_action cfg now p price m =
      let r_pnl = calc_r_pnl p price in
      if fle {F = F} (of_ℕ cfg.psm_normal_time_stop_min) (time_in_trade_minutes now p)
        && flt r_pnl cfg.psm_normal_min_r
      then record (hold p false) { exit_now = true; reason = some normal_time_stop }
      else trail p m cfg.psm_normal_trailing_atr (
          partial_profits cfg.psm_tp1_r cfg.psm_tp1_pct_normal cfg.psm_tp2_r cfg.psm_tp2_pct
            normal_tp1 normal_tp2 p price (hold p false))

  -- `StrongPolicy.get_action`
  unfoldable pub strong_action : PsmConfig F → ManagedPosition F → F → Market F → OrderIntent F
  strong_action cfg p price m = trail p m cfg.psm_strong_trailing_atr (
      partial_profits cfg.psm_tp1_r cfg.psm_tp1_pct_strong cfg.psm_tp2_strong_r cfg.psm_tp2_pct
        strong_tp1 strong_tp2 p price (hold p false))

  -- `ExtremePolicy.get_action`
  unfoldable pub extreme_action : PsmConfig F → ManagedPosition F → F → Market F → OrderIntent F
  extreme_action cfg p price m =
      if leb 2 p.consecutive_extreme_count
      then record (hold p true) { exit_now = true; reason = some extreme_exit }
      else (let pct =
            if p.consecutive_extreme_count == 1 then of_dec 70 2 else cfg.psm_extreme_tp_pct in
          let i = record (take_profit pct price (extreme_tp pct) (hold p true)) {
            cooldown_minutes = cfg.psm_extreme_cooldown_min;
          } in
          elim (both m.vwap m.atr) [
            | none ↦ i
            | some (vwap, atr) ↦
                let distance = mul atr cfg.psm_extreme_stop_atr in
                tighten p (elim p.side [ long ↦ add vwap distance | short ↦ sub vwap distance ]) i
          ])

  -- `get_policy(state).get_action(…)`
  unfoldable pub get_action :
      PsmConfig F → PositionState → ℕ → ManagedPosition F → F → Market F → OrderIntent F
  get_action cfg weak now p price m = weak_action cfg now p price m
  get_action cfg normal now p price m = normal_action cfg now p price m
  get_action cfg strong now p price m = strong_action cfg p price m
  get_action cfg extreme now p price m = extreme_action cfg p price m
