-- ===== src/Positions/Invariant.antt =====
-- What every call of the position ledger keeps: the indices are right, and a symbol has at most one
-- open position of each strategy.
use stock_test.Base.{
  ℕ, ◌<◌, ◌≡◌, ◌≢◌, refl, sym, ◌∙◌, true, false, ◌&&◌, none, some, List, [], ◌∷◌, arith, ◌==◌,
  Option-cases, Bool-cases, inl, inr,
}
use mathlib.Core.Path.{subst}
use stock_test.Float.{FloatOps}
use stock_test.Dict.{Dict, lookup, put, lookup-put}
use stock_test.Positions.{PositionLedgerEntry, PositionLedger, FillEvent, is_open}
use stock_test.Positions.Ids.{count}
use stock_test.Positions.Fills.{
  ids_of, drop_id, find_among, find_open_position, create_new_position, new_position, add_to_index,
  remove_from_index, add_fill_history,
}
use stock_test.Positions.Index.{Indexes, new-Indexes, kept-Indexes, closed-Indexes}

module _ {F : Type 0} ⦃fl : FloatOps F⦄ where
  pub record IsConsistent (l : PositionLedger F) : Type 0 where
    pub keyed :
        (id : ℕ) (p : PositionLedgerEntry F) → lookup id l.positions ≡ some p → p.position_id ≡ id
    pub symbols : Indexes (λ p. p.symbol) l.symbol_positions l.positions
    pub strategies : Indexes (λ p. p.strategy_id) l.strategy_positions l.positions
    pub unique :
        (i j : ℕ) (p q : PositionLedgerEntry F)
        → lookup i l.positions ≡ some p
        → lookup j l.positions ≡ some q
        → is_open p ≡ true
        → is_open q ≡ true
        → p.symbol ≡ q.symbol
        → p.strategy_id ≡ q.strategy_id
        → i ≡ j

  pub find_among-none :
      (strategy id : ℕ) (ids : List ℕ) (d : Dict (PositionLedgerEntry F))
      (p : PositionLedgerEntry F)
      → find_among strategy ids d ≡ none
      → 0 < count id ids
      → lookup id d ≡ some p
      → is_open p ≡ true
      → p.strategy_id ≢ strategy
  unfolding find_among
  find_among-none strategy id [] d p h c e o = absurd (omega arith)
  find_among-none strategy id (x ∷ ids) d p h c e o = elim (Option-cases (lookup x d)) [
    | inl gone ↦ ground (arith, find_among-none strategy id ids d p)
    | inr (q, at) ↦ ground (arith, find_among-none strategy id ids d p)
  ]

  -- What is found is open, in the dictionary and under one of the ids.
  pub find_among-some :
      (strategy : ℕ) (ids : List ℕ) (d : Dict (PositionLedgerEntry F)) (p : PositionLedgerEntry F)
      → find_among strategy ids d ≡ some p
      → (id : ℕ) × (lookup id d ≡ some p)
        × (is_open p ≡ true)
        × (p.strategy_id ≡ strategy)
        × (0 < count id ids)
  unfolding find_among
  find_among-some strategy [] d p h = cc
  find_among-some strategy (x ∷ ids) d p h = elim (Option-cases (lookup x d)) [
    | inl gone ↦
        let (id, at, open_, fits, inside) = find_among-some strategy ids d p (ground arith) in
        (id, at, open_, fits, omega (arith, inside))
    | inr (q, e) ↦ elim (Bool-cases (is_open q && q.strategy_id == strategy)) [
      | inl fits ↦ (x, ground arith, ground arith, ground arith, ground arith)
      | inr other ↦
          let (id, at, open_, fits, inside) = find_among-some strategy ids d p (ground arith) in
          (id, at, open_, fits, omega (arith, inside))
    ]
  ]

  -- What leaves symbol, strategy and status of an entry as they are keeps the ledger consistent.
  pub changed-IsConsistent :
      (l : PositionLedger F) (id : ℕ) (p q : PositionLedgerEntry F)
      → lookup id l.positions ≡ some p
      → q.position_id ≡ p.position_id
      → q.symbol ≡ p.symbol
      → q.strategy_id ≡ p.strategy_id
      → is_open q ≡ is_open p
      → IsConsistent l
      → IsConsistent (record l { positions = put id q l.positions })
  changed-IsConsistent l id p q e same_id same_symbol same_strategy same_status h = record {
    keyed = λ i r at. ground (arith, lookup-put id i q l.positions, h.keyed i r, h.keyed id p);
    symbols =
        kept-Indexes (λ r. r.symbol) l.symbol_positions l.positions id p q e same_status same_symbol
          h.symbols;
    strategies =
        kept-Indexes (λ r. r.strategy_id) l.strategy_positions l.positions id p q e same_status
          same_strategy h.strategies;
    unique = λ i j r s at_i at_j open_r open_s sy st. ground (
      arith,
      lookup-put id i q l.positions,
      lookup-put id j q l.positions,
      h.unique i j r s,
      h.unique id j p s,
      h.unique i id r p,
    );
  }

  pub closed-IsConsistent :
      (l : PositionLedger F) (id : ℕ) (p q : PositionLedgerEntry F)
      → lookup id l.positions ≡ some p
      → q.position_id ≡ p.position_id
      → q.symbol ≡ p.symbol
      → q.strategy_id ≡ p.strategy_id
      → is_open p ≡ true
      → is_open q ≡ false
      → IsConsistent l
      → IsConsistent (remove_from_index q (record l { positions = put id q l.positions }))
  unfolding remove_from_index
  closed-IsConsistent l id p q e same_id same_symbol same_strategy was now h =
      let key : q.position_id ≡ id = same_id ∙ h.keyed id p e in
      record {
        keyed = λ i r at. ground (arith, lookup-put id i q l.positions, h.keyed i r, h.keyed id p);
        symbols =
            subst
              (λ n.
                Indexes (λ r. r.symbol) (drop_id q.symbol n l.symbol_positions)
                  (put id q l.positions))
              (sym key)
              (closed-Indexes (λ r. r.symbol) l.symbol_positions l.positions id p q e was now
                same_symbol h.symbols);
        strategies =
            subst
              (λ n.
                Indexes (λ r. r.strategy_id) (drop_id q.strategy_id n l.strategy_positions)
                  (put id q l.positions))
              (sym key)
              (closed-Indexes (λ r. r.strategy_id) l.strategy_positions l.positions id p q e was now
                same_strategy h.strategies);
        unique = λ i j r s at_i at_j open_r open_s sy st.
            ground (
              arith,
              lookup-put id i q l.positions,
              lookup-put id j q l.positions,
              h.unique i j r s,
            );
      }

  -- A position found by symbol and strategy stands under its id, is open, and has them.
  pub find_open-held :
      (symbol strategy : ℕ) (l : PositionLedger F) (p : PositionLedgerEntry F)
      → IsConsistent l
      → find_open_position symbol strategy l ≡ some p
      → (lookup p.position_id l.positions ≡ some p)
        × (is_open p ≡ true)
        × (p.symbol ≡ symbol)
        × (p.strategy_id ≡ strategy)
  unfolding find_open_position
  find_open-held symbol strategy l p h e =
      let (id, at, open_, fits, inside) =
        find_among-some strategy (ids_of symbol l.symbol_positions) l.positions p e in
      (
        subst (λ n. lookup n l.positions ≡ some p) (sym (h.keyed id p at)) at,
        open_,
        ground (arith, h.symbols symbol id),
        fits,
      )

  -- A position that is not found by symbol and strategy is not there.
  pub find_open-none :
      (symbol strategy : ℕ) (l : PositionLedger F)
      → IsConsistent l
      → find_open_position symbol strategy l ≡ none
      → (id : ℕ) (p : PositionLedgerEntry F) → lookup id l.positions ≡ some p
      → is_open p ≡ true
      → p.symbol ≡ symbol
      → p.strategy_id ≢ strategy
  unfolding find_open_position
  find_open-none symbol strategy l h e id p at open_ same =
      find_among-none strategy id (ids_of symbol l.symbol_positions) l.positions p e
        (ground (arith, h.symbols symbol id)) at open_

  pub new-IsConsistent :
      (l : PositionLedger F) (id : ℕ) (fill : FillEvent F)
      → lookup id l.positions ≡ none
      → find_open_position fill.symbol fill.strategy_id l ≡ none
      → IsConsistent l
      → IsConsistent (create_new_position id fill l)
  unfolding create_new_position add_to_index add_fill_history is_open new_position
  new-IsConsistent l id fill fresh none_open h =
      let p = new_position id fill in
      record {
        keyed = λ i r at. ground (arith, lookup-put id i p l.positions, h.keyed i r);
        symbols =
            new-Indexes (λ r. r.symbol) l.symbol_positions l.positions id p refl fresh h.symbols;
        strategies =
            new-Indexes (λ r. r.strategy_id) l.strategy_positions l.positions id p refl fresh
              h.strategies;
        unique = λ i j r s at_i at_j open_r open_s sy st. ground (
          arith,
          lookup-put id i p l.positions,
          lookup-put id j p l.positions,
          h.unique i j r s,
          find_open-none fill.symbol fill.strategy_id l h none_open i r,
          find_open-none fill.symbol fill.strategy_id l h none_open j s,
        );
      }

  pub history-IsConsistent :
      (fill : FillEvent F) (l : PositionLedger F)
      → IsConsistent l
      → IsConsistent (add_fill_history fill l)
  unfolding add_fill_history
  history-IsConsistent fill l h = record {
    keyed = h.keyed;
    symbols = h.symbols;
    strategies = h.strategies;
    unique = h.unique;
  }
