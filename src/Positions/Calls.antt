-- ===== src/Positions/Calls.antt =====
-- The calls of the position ledger, and what every one of them keeps.
use stock_test.Base.{
  ℕ, ◌≡◌, refl, sym, true, none, some, List, [], ◌∷◌, arith, Option-cases, Bool-cases, inl, inr,
}
use stock_test.Float.{FloatOps, fzero, sub}
use stock_test.Dict.{lookup}
use stock_test.Positions.{
  PositionLedgerEntry, PositionLedger, FillEvent, is_open, closed, partial_closed,
}
use stock_test.Positions.Fills.{
  find_open_position, named, target, on_buy_fill, on_sell_fill, force_sync_quantity,
  update_stop_price, update_take_profit_price, add_to_position, with_buy, close_position, with_sell,
  add_fill_history, store, is_spent,
}
use stock_test.Positions.Invariant.{
  IsConsistent, changed-IsConsistent, closed-IsConsistent, find_open-held, new-IsConsistent,
  history-IsConsistent,
}

-- A call of the ledger; a buy has the id that `uuid4` makes in it.
pub data Call (F : Type 0) : Type 0 where
  buy : ℕ → FillEvent F → Call F
  sell : FillEvent F → Call F
  sync : ℕ → ℕ → F → Call F
  set_stop : ℕ → F → Call F
  set_take_profit : ℕ → F → Call F

module _ {F : Type 0} ⦃fl : FloatOps F⦄ where
  -- A fill that names a position of the ledger names an open one.
  abbrev pub NamesOpen : FillEvent F → PositionLedger F → Type 0
  NamesOpen fill l = (p : PositionLedgerEntry F) → named fill l ≡ some p → is_open p ≡ true

  target-held :
      (fill : FillEvent F) (l : PositionLedger F) (p : PositionLedgerEntry F)
      → IsConsistent l
      → NamesOpen fill l
      → target fill l ≡ some p
      → (lookup p.position_id l.positions ≡ some p) × (is_open p ≡ true)
  unfolding target named
  target-held fill l p h proper e = elim (Option-cases fill.position_id) [
    | inl nobody ↦
        let held = find_open-held fill.symbol fill.strategy_id l p h (ground arith) in
        (held.0, held.1)
    | inr (id, names) ↦ elim (Option-cases (lookup id l.positions)) [
      | inl gone ↦
          let held = find_open-held fill.symbol fill.strategy_id l p h (ground arith) in
          (held.0, held.1)
      | inr (q, at) ↦ ground (arith, h.keyed id q at, proper q)
    ]
  ]

  target-none :
      (fill : FillEvent F) (l : PositionLedger F)
      → target fill l ≡ none
      → find_open_position fill.symbol fill.strategy_id l ≡ none
  unfolding target
  target-none fill l e = ground arith

  bought-IsConsistent :
      (fill : FillEvent F) (l : PositionLedger F) (p : PositionLedgerEntry F)
      → lookup p.position_id l.positions ≡ some p
      → IsConsistent l
      → IsConsistent (add_to_position p fill l)
  unfolding add_to_position with_buy is_open
  bought-IsConsistent fill l p at h =
      history-IsConsistent fill (store (with_buy fill p) l)
        (changed-IsConsistent l p.position_id p (with_buy fill p) at refl refl refl refl h)

  pub buy-IsConsistent :
      (id : ℕ) (fill : FillEvent F) (l : PositionLedger F)
      → IsConsistent l
      → NamesOpen fill l
      → lookup id l.positions ≡ none
      → IsConsistent (on_buy_fill id fill l)
  unfolding on_buy_fill
  buy-IsConsistent id fill l h proper fresh = elim (Option-cases (target fill l)) [
    | inl nobody ↦
        rw (nobody, on_buy_fill) (new-IsConsistent l id fill fresh (target-none fill l nobody) h)
    | inr (p, e) ↦
        rw (e, on_buy_fill) (bought-IsConsistent fill l p (target-held fill l p h proper e).0 h)
  ]

  sold-IsConsistent :
      (fill : FillEvent F) (l : PositionLedger F) (p : PositionLedgerEntry F)
      → lookup p.position_id l.positions ≡ some p
      → is_open p ≡ true
      → IsConsistent l
      → IsConsistent (close_position p fill l)
  unfolding close_position with_sell is_open add_fill_history
  sold-IsConsistent fill l p at was h =
      let l' = add_fill_history fill l in
      let h' = history-IsConsistent fill l h in
      let sold = with_sell fill p in
      elim (Bool-cases (is_spent (sub p.quantity fill.filled_quantity))) [
        | inl spent ↦
            rw (spent, close_position)
              (closed-IsConsistent l' p.position_id p
                (record sold { quantity = fzero; status = closed }) at refl refl refl was refl h')
        | inr left ↦
            rw (left, close_position)
              (changed-IsConsistent l' p.position_id p (record sold { status = partial_closed }) at
                refl refl refl (sym was) h')
      ]

  pub sell-IsConsistent :
      (fill : FillEvent F) (l : PositionLedger F)
      → IsConsistent l
      → NamesOpen fill l
      → IsConsistent (on_sell_fill fill l)
  unfolding on_sell_fill
  sell-IsConsistent fill l h proper = elim (Option-cases (target fill l)) [
    | inl nobody ↦ rw (nobody, on_sell_fill) h
    | inr (p, e) ↦
        let held = target-held fill l p h proper e in
        rw (e, on_sell_fill) (sold-IsConsistent fill l p held.0 held.1 h)
  ]

  sync-IsConsistent :
      (symbol strategy : ℕ) (quantity : F) (l : PositionLedger F)
      → IsConsistent l
      → IsConsistent (force_sync_quantity symbol strategy quantity l)
  unfolding force_sync_quantity is_open
  sync-IsConsistent symbol strategy quantity l h =
      elim (Option-cases (find_open_position symbol strategy l)) [
        | inl nobody ↦ rw (nobody, force_sync_quantity) h
        | inr (p, e) ↦
            let held = find_open-held symbol strategy l p h e in
            elim (Bool-cases (is_spent quantity)) [
              | inl spent ↦
                  rw (e, spent, force_sync_quantity)
                    (closed-IsConsistent l p.position_id p
                      (record p { quantity = quantity; status = closed }) held.0 refl refl refl
                      held.1 refl h)
              | inr left ↦
                  rw (e, left, force_sync_quantity)
                    (changed-IsConsistent l p.position_id p (record p { quantity = quantity })
                      held.0 refl refl refl refl h)
            ]
      ]

  stop-IsConsistent :
      (id : ℕ) (price : F) (l : PositionLedger F)
      → IsConsistent l
      → IsConsistent (update_stop_price id price l)
        × IsConsistent (update_take_profit_price id price l)
  unfolding update_stop_price update_take_profit_price is_open
  stop-IsConsistent id price l h = elim (Option-cases (lookup id l.positions)) [
    | inl gone ↦ (rw (gone, update_stop_price) h, rw (gone, update_take_profit_price) h)
    | inr (p, e) ↦ (
      rw (e, update_stop_price)
          (changed-IsConsistent l id p (record p { stop_price = some price }) e refl refl refl refl
            h),
      rw (e, update_take_profit_price)
          (changed-IsConsistent l id p (record p { take_profit_price = some price }) e refl refl
            refl refl h),
    )
  ]

  unfoldable pub apply : Call F → PositionLedger F → PositionLedger F
  apply (buy new_id fill) l = on_buy_fill new_id fill l
  apply (sell fill) l = on_sell_fill fill l
  apply (sync symbol strategy quantity) l = force_sync_quantity symbol strategy quantity l
  apply (set_stop id price) l = update_stop_price id price l
  apply (set_take_profit id price) l = update_take_profit_price id price l

  unfoldable pub run : List (Call F) → PositionLedger F → PositionLedger F
  run [] l = l
  run (c ∷ cs) l = run cs (apply c l)

  -- What the ledger is owed: a fresh id from `uuid4`, and fills that name no closed position.
  abbrev pub IsProper : Call F → PositionLedger F → Type 0
  IsProper (buy new_id fill) l = NamesOpen fill l × (lookup new_id l.positions ≡ none)
  IsProper (sell fill) l = NamesOpen fill l
  IsProper (sync symbol strategy quantity) l = Unit
  IsProper (set_stop id price) l = Unit
  IsProper (set_take_profit id price) l = Unit

  abbrev pub AllProper : List (Call F) → PositionLedger F → Type 0
  AllProper [] l = Unit
  AllProper (c ∷ cs) l = IsProper c l × AllProper cs (apply c l)

  apply-IsConsistent :
      (c : Call F) (l : PositionLedger F) → IsProper c l → IsConsistent l → IsConsistent (apply c l)
  unfolding apply
  apply-IsConsistent (buy new_id fill) l ok h = buy-IsConsistent new_id fill l h ok.0 ok.1
  apply-IsConsistent (sell fill) l ok h = sell-IsConsistent fill l h ok
  apply-IsConsistent (sync symbol strategy quantity) l ok h =
      sync-IsConsistent symbol strategy quantity l h
  apply-IsConsistent (set_stop id price) l ok h = (stop-IsConsistent id price l h).0
  apply-IsConsistent (set_take_profit id price) l ok h = (stop-IsConsistent id price l h).1

  -- After any calls on a consistent ledger, where each new id is fresh and no fill names a closed
  -- position: each open position stands exactly once under its symbol and once under its strategy,
  -- nothing else stands there, and a symbol has at most one open position of each strategy.
  pub run-IsConsistent :
      (cs : List (Call F)) (l : PositionLedger F)
      → AllProper cs l
      → IsConsistent l
      → IsConsistent (run cs l)
  unfolding run
  run-IsConsistent [] l ok h = h
  run-IsConsistent (c ∷ cs) l ok h =
      run-IsConsistent cs (apply c l) ok.1 (apply-IsConsistent c l ok.0 h)
