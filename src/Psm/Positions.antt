-- ===== src/Psm/Positions.antt =====
-- server/src/position/state_machine.py: the dictionary of the positions, and the queries on the
-- drawdown.
use stock_test.Base.{ℕ, Bool, true, false, not, Option, none, some, ◌&&◌, ◌||◌, leb, if◌then◌else◌}
use stock_test.Float.{FloatOps, of_dec, of_ℕ, mul, fle}
use stock_test.Dict.{Dict, lookup, put, remove}
use stock_test.Psm.State.{ManagedPosition, OrderIntent, PsmConfig}
use stock_test.Psm.Answers.{Decision, Adjustment, is_adjusted, Answers}
use stock_test.Psm.Machine.{evaluate_position}

module _ {F : Type 0} ⦃fl : FloatOps F⦄ where
  unfoldable pub evaluate :
      PsmConfig F
      → Answers F
      → ℕ
      → F
      → Dict (ManagedPosition F)
      → Option (OrderIntent F) × Dict (ManagedPosition F)
  evaluate cfg a symbol price ps = elim (lookup symbol ps) [
    | none ↦ (none, ps)
    | some p ↦ let (p', intent) = evaluate_position cfg a price p in (some intent, put symbol p' ps)
  ]

  unfoldable pub close_position : ℕ → Dict (ManagedPosition F) → Dict (ManagedPosition F)
  close_position symbol ps = remove symbol ps

  unfoldable pub update_tp_status :
      ℕ → Bool → Bool → Dict (ManagedPosition F) → Dict (ManagedPosition F)
  update_tp_status symbol tp_30 tp_60 ps = elim (lookup symbol ps) [
    | none ↦ ps
    | some p ↦
        put symbol
          (record p {
            tp_30_triggered = if tp_30 then true else p.tp_30_triggered;
            tp_60_triggered = if tp_60 then true else p.tp_60_triggered;
          })
          ps
  ]

  unfoldable pub update_quantity : ℕ → F → Dict (ManagedPosition F) → Dict (ManagedPosition F)
  update_quantity symbol qty ps = elim (lookup symbol ps) [
    | none ↦ ps
    | some p ↦ put symbol (record p { quantity = qty }) ps
  ]

  -- `should_force_close`
  unfoldable pub should_force_close : Option (Decision F) → Bool
  should_force_close none = false
  should_force_close (some d) = d.is_hard_dd || (d.is_reducing && fle (of_ℕ 1) d.reduce_pct)

  unfoldable pub get_dd_adjusted_threshold : Option (Decision F) → F → Adjustment → F
  get_dd_adjusted_threshold none base kind = base
  get_dd_adjusted_threshold (some d) base kind =
      if not (is_adjusted kind)
      then base
      else if leb 5 d.dd_tier
      then mul base (of_dec 5 1)
      else if leb 4 d.dd_tier
      then mul base (of_dec 7 1)
      else if leb 3 d.dd_tier
      then mul base (of_dec 85 2)
      else base
