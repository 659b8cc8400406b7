-- ===== src/Positions/Found.antt =====
-- The open position that is found by its symbol and strategy.
use stock_test.Base.{
  ℕ, ◌≡◌, ◌≢◌, true, none, some, arith, ◌&&◌, ◌==◌, if◌then◌else◌, Option-cases, Bool-cases, inl,
  inr,
}
use stock_test.Float.{FloatOps}
use stock_test.Dict.{lookup}
use stock_test.Positions.{PositionLedgerEntry, PositionLedger, is_open}
use stock_test.Positions.Fills.{find_open_position}
use stock_test.Positions.Invariant.{IsConsistent, find_open-held, find_open-none}

module _ {F : Type 0} ⦃fl : FloatOps F⦄ where
  -- An open position is the one that is found by its symbol and strategy.
  pub find_unique :
      (l : PositionLedger F) (id symbol strategy : ℕ) (p : PositionLedgerEntry F)
      → IsConsistent l
      → lookup id l.positions ≡ some p
      → is_open p ≡ true
      → p.symbol ≡ symbol
      → p.strategy_id ≡ strategy
      → find_open_position symbol strategy l ≡ some p
  find_unique l id symbol strategy p h at open_ sy st =
      elim (Option-cases (find_open_position symbol strategy l)) [
        | inl nobody ↦ absurd (find_open-none symbol strategy l h nobody id p at open_ sy st)
        | inr (q, e) ↦
            let held = find_open-held symbol strategy l q h e in
            ground (arith, h.unique id q.position_id p q)
      ]

  -- Where no open position has the symbol and the strategy, none is found.
  pub find-absent :
      (l : PositionLedger F) (symbol strategy : ℕ)
      → IsConsistent l
      → ((id : ℕ) (p : PositionLedgerEntry F)
          → lookup id l.positions ≡ some p
          → is_open p ≡ true
          → p.symbol ≡ symbol
          → p.strategy_id ≢ strategy)
      → find_open_position symbol strategy l ≡ none
  find-absent l symbol strategy h missing =
      elim (Option-cases (find_open_position symbol strategy l)) [
        | inl nobody ↦ nobody
        | inr (q, e) ↦
            let held = find_open-held symbol strategy l q h e in
            absurd (missing q.position_id q held.0 held.1 held.2 held.3)
      ]

  -- One entry is replaced, or added, in a ledger; the map changes at its symbol and strategy alone.
  pub view-put :
      (l l' : PositionLedger F) (id symbol strategy : ℕ) (q : PositionLedgerEntry F)
      → IsConsistent l
      → IsConsistent l'
      → ((i : ℕ) → lookup i l'.positions ≡ (if id == i then some q else lookup i l.positions))
      → ((p : PositionLedgerEntry F)
          → lookup id l.positions ≡ some p
          → (p.symbol ≡ q.symbol) × (p.strategy_id ≡ q.strategy_id))
      → ((i : ℕ) (r : PositionLedgerEntry F)
          → lookup i l.positions ≡ some r
          → is_open r ≡ true
          → r.symbol ≡ q.symbol
          → r.strategy_id ≡ q.strategy_id
          → i ≡ id)
      → find_open_position symbol strategy l' ≡ (
          if q.symbol == symbol && q.strategy_id == strategy
          then (if is_open q then some q else none)
          else find_open_position symbol strategy l)
  view-put l l' id symbol strategy q h h' at same only =
      elim (Bool-cases (q.symbol == symbol && q.strategy_id == strategy)) [
        | inl fits ↦ elim (Bool-cases (is_open q)) [
          | inl open_ ↦
              rw (fits, open_)
                (find_unique l' id symbol strategy q h' (ground (arith, at id)) open_ (ground arith)
                  (ground arith))
          | inr shut ↦
              rw (fits, shut)
                (find-absent l' symbol strategy h'
                  λ i r here open_ sy st. ground (arith, at i, only i r))
        ]
        | inr other ↦ elim (Option-cases (find_open_position symbol strategy l)) [
          | inl nobody ↦
              rw (other, nobody)
                (find-absent l' symbol strategy h' λ i r here open_ sy st.
                  ground (arith, at i, find_open-none symbol strategy l h nobody i r))
          | inr (r, e) ↦
              let held = find_open-held symbol strategy l r h e in
              rw (other, e)
                (find_unique l' r.position_id symbol strategy r h'
                  (ground (arith, at r.position_id, same r)) held.1 held.2 held.3)
        ]
      ]
