-- ===== src/Exposure/Limits.antt =====
-- What an allowed entry keeps to.
use stock_test.Base.{◌<◌, ◌≡◌, true, false, arith, length, leb, sym}
use mathlib.Core.Path.{subst}
use stock_test.Float.{FloatOps, FloatOrder, fzero, of_ℕ, flt, fle, fmin, fmax}
use stock_test.Float.Order.{fmin-le}
use stock_test.Positions.{PositionLedger, get_open_positions, get_positions_by_strategy}
use stock_test.Exposure.{
  ExposureConfig, Entry, strategy_max, room_total, room_strategy, room_symbol, spare_cash,
  single_order, adjusted_amount_of, can_open_position, get_available_for_entry,
}

module _ {F : Type 0} ⦃fl : FloatOps F⦄ where
  -- A bound of both is one of the lesser.
  le-fmin : (a b c : F) → fle c a ≡ true → fle c b ≡ true → fle c (fmin a b) ≡ true
  le-fmin a b c h k = ground arith

  fmax-le : (o : FloatOrder F) (a b : F) → fle b (fmax a b) ≡ true
  fmax-le o a b = ground (arith, o.leb_refl b, o.ltb-not-leb a b)

  -- The amount is no more than the order and what each limit leaves.
  pub record Within (cfg : ExposureConfig F) (l : PositionLedger F) (e : Entry F) (amount : F)
      : Type 0 where
    pub order : fle amount e.order_amount ≡ true
    pub in_total : fle amount (room_total cfg l e.total_equity) ≡ true
    pub in_strategy : fle amount (room_strategy cfg l e.total_equity e.strategy_id) ≡ true
    pub in_symbol : fle amount (room_symbol cfg l e.total_equity e.symbol) ≡ true
    pub in_cash : fle amount (spare_cash cfg e.total_equity e.available_cash) ≡ true
    pub in_single : fle amount (single_order cfg e.total_equity) ≡ true

  adjusted_amount-Within :
      (o : FloatOrder F) (cfg : ExposureConfig F) (l : PositionLedger F) (e : Entry F)
      → Within cfg l e (adjusted_amount_of cfg l e)
  unfolding adjusted_amount_of
  adjusted_amount-Within o cfg l e =
      let m₁ = fmin e.order_amount (room_total cfg l e.total_equity) in
      let m₂ = fmin m₁ (room_strategy cfg l e.total_equity e.strategy_id) in
      let m₃ = fmin m₂ (room_symbol cfg l e.total_equity e.symbol) in
      let m₄ = fmin m₃ (spare_cash cfg e.total_equity e.available_cash) in
      let m₅ = fmin m₄ (single_order cfg e.total_equity) in
      let c₁ = fmin-le o e.order_amount (room_total cfg l e.total_equity) in
      let c₂ = fmin-le o m₁ (room_strategy cfg l e.total_equity e.strategy_id) in
      let c₃ = fmin-le o m₂ (room_symbol cfg l e.total_equity e.symbol) in
      let c₄ = fmin-le o m₃ (spare_cash cfg e.total_equity e.available_cash) in
      let c₅ = fmin-le o m₄ (single_order cfg e.total_equity) in
      let to₃ = o.leb_trans m₅ m₄ m₃ c₅.0 c₄.0 in
      let to₂ = o.leb_trans m₅ m₃ m₂ to₃ c₃.0 in
      let to₁ = o.leb_trans m₅ m₂ m₁ to₂ c₂.0 in
      record {
        order = o.leb_trans m₅ m₁ e.order_amount to₁ c₁.0;
        in_total = o.leb_trans m₅ m₁ (room_total cfg l e.total_equity) to₁ c₁.1;
        in_strategy = o.leb_trans m₅ m₂ (room_strategy cfg l e.total_equity e.strategy_id) to₂ c₂.1;
        in_symbol = o.leb_trans m₅ m₃ (room_symbol cfg l e.total_equity e.symbol) to₃ c₃.1;
        in_cash = o.leb_trans m₅ m₄ (spare_cash cfg e.total_equity e.available_cash) c₅.0 c₄.1;
        in_single = c₅.1;
      }

  -- What an allowed entry has passed, and its amount.
  allowed_gates :
      (cfg : ExposureConfig F) (l : PositionLedger F) (e : Entry F)
      → (can_open_position cfg l e).allowed ≡ true
      → (leb cfg.max_positions (length (get_open_positions l.positions)) ≡ false)
        × (leb (strategy_max cfg e.strategy_id) (length (get_positions_by_strategy e.strategy_id l))
            ≡ false)
        × (flt (adjusted_amount_of cfg l e) (of_ℕ 5000) ≡ false)
        × ((can_open_position cfg l e).adjusted_amount ≡ adjusted_amount_of cfg l e)
  unfolding can_open_position
  allowed_gates cfg l e h = ground arith

  -- An entry is allowed only for an amount of at least 5000 that is no more than the order, than
  -- what the limits on the total, the strategy and the symbol leave, than the cash above the reserve
  -- and than the largest single order, and only where one more position exceeds neither the limit
  -- on all positions nor that of the strategy. (Numbers in a total order.)
  pub allowed-Within :
      (o : FloatOrder F) (cfg : ExposureConfig F) (l : PositionLedger F) (e : Entry F)
      → (can_open_position cfg l e).allowed ≡ true
      → Within cfg l e (can_open_position cfg l e).adjusted_amount
        × (flt (can_open_position cfg l e).adjusted_amount (of_ℕ 5000) ≡ false)
        × (length (get_open_positions l.positions) < cfg.max_positions)
        × (length (get_positions_by_strategy e.strategy_id l) < strategy_max cfg e.strategy_id)
  allowed-Within o cfg l e h =
      let (all, strategy, least, same) = allowed_gates cfg l e h in
      (
        subst (λ (x : F). Within cfg l e x) (sym same) (adjusted_amount-Within o cfg l e),
        subst (λ (x : F). flt x (of_ℕ 5000) ≡ false) (sym same) least,
        ground (arith, all),
        ground (arith, strategy),
      )

  -- The amount of an allowed entry is no more than `get_available_for_entry` says for its
  -- strategy. (Numbers in a total order.)
  pub allowed_available :
      (o : FloatOrder F) (cfg : ExposureConfig F) (l : PositionLedger F) (e : Entry F)
      → (can_open_position cfg l e).allowed ≡ true
      → fle
          (can_open_position cfg l e).adjusted_amount
          (get_available_for_entry cfg l e.strategy_id e.total_equity e.available_cash)
        ≡ true
  unfolding get_available_for_entry
  allowed_available o cfg l e h =
      let (all, strategy, least, same) = allowed_gates cfg l e h in
      let w = adjusted_amount-Within o cfg l e in
      let amount = adjusted_amount_of cfg l e in
      let total = room_total cfg l e.total_equity in
      let of_strategy = room_strategy cfg l e.total_equity e.strategy_id in
      let cash = spare_cash cfg e.total_equity e.available_cash in
      let single = single_order cfg e.total_equity in
      let least_room = fmin (fmin (fmin total of_strategy) cash) single in
      let below =
        le-fmin (fmin (fmin total of_strategy) cash) single amount
          (le-fmin (fmin total of_strategy) cash amount
            (le-fmin total of_strategy amount w.in_total w.in_strategy) w.in_cash)
          w.in_single in
      rw (same, all, strategy)
        (o.leb_trans amount least_room (fmax fzero least_room) below (fmax-le o fzero least_room))
