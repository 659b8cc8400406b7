-- ===== src/Positions/Hidden.antt =====
-- What a buy does that names a position which is already closed.
use stock_test.Base.{ℕ, ◌≡◌, ap, sym, false, some, [], ◌∷◌, arith}
use mathlib.Core.Path.{subst}
use stock_test.Float.{FloatOps, fzero}
use stock_test.Dict.{Dict, lookup, put, lookup-put}
use stock_test.Positions.{
  PositionLedgerEntry, PositionLedger, FillEvent, is_open, get_open_positions, get_total_exposure,
  add_notional,
}
use stock_test.Positions.Fills.{
  on_buy_fill, target, named, add_to_position, add_fill_history, with_buy,
}

module _ {F : Type 0} ⦃fl : FloatOps F⦄ where
  open-put :
      (id : ℕ) (p q : PositionLedgerEntry F) (d : Dict (PositionLedgerEntry F))
      → lookup id d ≡ some p
      → is_open p ≡ false
      → is_open q ≡ false
      → get_open_positions (put id q d) ≡ get_open_positions d
  unfolding get_open_positions
  open-put id p q [] e was now = cc
  open-put id p q (x ∷ d) e was now = ground (arith, open-put id p q d)

  buy_named :
      (new_id id : ℕ) (fill : FillEvent F) (l : PositionLedger F) (p : PositionLedgerEntry F)
      → fill.position_id ≡ some id
      → lookup id l.positions ≡ some p
      → on_buy_fill new_id fill l ≡ add_to_position p fill l
  unfolding on_buy_fill target named
  buy_named new_id id fill l p names at = ground arith

  added_closed :
      (fill : FillEvent F) (l : PositionLedger F) (p : PositionLedgerEntry F)
      → lookup p.position_id l.positions ≡ some p
      → is_open p ≡ false
      → (lookup p.position_id (add_to_position p fill l).positions ≡ some (with_buy fill p))
        × (is_open (with_buy fill p) ≡ false)
        × (get_total_exposure (add_to_position p fill l) ≡ get_total_exposure l)
  unfolding add_to_position add_fill_history with_buy is_open get_total_exposure
  added_closed fill l p at was =
      let q = with_buy fill p in
      (
        ground (arith, lookup-put p.position_id p.position_id q l.positions),
        was,
        ap (add_notional fzero) (open-put p.position_id p q l.positions at was was),
      )

  -- A buy that names a closed position adds its quantity there and leaves the position closed: no
  -- exposure of the ledger counts what was bought.
  pub closed_buy_hidden :
      (new_id id : ℕ) (fill : FillEvent F) (l : PositionLedger F) (p : PositionLedgerEntry F)
      → fill.position_id ≡ some id
      → lookup id l.positions ≡ some p
      → p.position_id ≡ id
      → is_open p ≡ false
      → let l' = on_buy_fill new_id fill l in
        (lookup id l'.positions ≡ some (with_buy fill p))
        × (is_open (with_buy fill p) ≡ false)
        × (get_total_exposure l' ≡ get_total_exposure l)
  closed_buy_hidden new_id id fill l p names at keyed was =
      let at' = subst (λ n. lookup n l.positions ≡ some p) (sym keyed) at in
      let (there, shut, same) = added_closed fill l p at' was in
      rw (buy_named new_id id fill l p names at) (
        subst (λ n. lookup n (add_to_position p fill l).positions ≡ some (with_buy fill p)) keyed
            there,
        shut,
        same,
      )
