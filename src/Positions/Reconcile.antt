-- ===== src/Positions/Reconcile.antt =====
-- server/src/portfolio/position_ledger.py: `reconcile_with_exchange`, and what a match means.
use stock_test.Base.{
  ℕ, ◌≡◌, ◌↔◌, refl, Bool, true, false, not, ◌&&◌, ◌||◌, List, [], ◌∷◌, ◌++◌, All, All-imp, arith,
  ◌==◌, if◌then◌else◌, get_or, Bool-cases, inl, inr,
}
use mathlib.Core.List.{Memᴰ}
use stock_test.Float.{FloatOps, of_dec, of_ℕ, fzero, sub, mul, div, fabs, fmax, flt}
use stock_test.Dict.{Dict, lookup}
use stock_test.Positions.{PositionLedgerEntry, PositionLedger, is_open}

pub data Discrepancy (F : Type 0) : Type 0 where
  mismatch :
      (symbol position_id strategy : ℕ) (ledger_qty exchange_qty diff diff_pct : F) → Discrepancy F
  orphan_balance : (symbol : ℕ) (exchange_qty : F) → Discrepancy F

-- `ReconcileResult`; no action is ever taken.
pub record ReconcileResult (F : Type 0) : Type 0 where
  pub is_matched : Bool
  pub discrepancies : List (Discrepancy F)

abbrev pub is_empty {ℓ} : {A : Type ℓ} → List A → Bool
is_empty [] = true
is_empty (x ∷ xs) = false

is_empty-append {ℓ} :
    {A : Type ℓ} (xs ys : List A) → (is_empty (xs ++ ys) ≡ true) ↔ ((xs ≡ []) × (ys ≡ []))
is_empty-append [] [] = ground arith
is_empty-append [] (y ∷ ys) = ground arith
is_empty-append (x ∷ xs) ys = ground arith

module _ {F : Type 0} ⦃fl : FloatOps F⦄ where
  -- Whether a quantity is further from the balance than 0.1 %, or 0.0001 if that is more.
  unfoldable pub is_off : F → F → Bool
  is_off ledger_qty exchange_qty =
      flt (fmax (mul ledger_qty (of_dec 1 3)) (of_dec 1 4)) (fabs (sub ledger_qty exchange_qty))

  abbrev pub balance_of : ℕ → Dict F → F
  balance_of symbol balances = get_or (lookup symbol balances) fzero

  -- The discrepancy of a position
  unfoldable pub describe : Dict F → PositionLedgerEntry F → Discrepancy F
  describe balances p =
      let there = balance_of p.symbol balances in
      let diff = sub there p.quantity in
      let pct = if flt fzero p.quantity then mul (div diff p.quantity) (of_ℕ 100) else fzero in
      mismatch p.symbol p.position_id p.strategy_id p.quantity there diff pct

  -- The first loop: the positions against the balances
  unfoldable pub check_positions : Dict F → Dict (PositionLedgerEntry F) → List (Discrepancy F)
  check_positions balances [] = []
  check_positions balances (e ∷ d) =
      let rest = check_positions balances d in
      if is_open e.1 && is_off e.1.quantity (balance_of e.1.symbol balances)
      then describe balances e.1 ∷ rest
      else rest

  -- `symbol in ledger_symbols`
  unfoldable pub has_symbol : ℕ → Dict (PositionLedgerEntry F) → Bool
  has_symbol symbol [] = false
  has_symbol symbol (e ∷ d) = (is_open e.1 && e.1.symbol == symbol) || has_symbol symbol d

  -- The second loop: the balances that no open position accounts for
  unfoldable pub check_balances : Dict F → Dict (PositionLedgerEntry F) → List (Discrepancy F)
  check_balances [] d = []
  check_balances (b ∷ balances) d =
      let rest = check_balances balances d in
      if flt (of_dec 1 4) b.1 && not (has_symbol b.0 d) then orphan_balance b.0 b.1 ∷ rest else rest

  unfoldable pub reconcile_with_exchange : Dict F → PositionLedger F → ReconcileResult F
  reconcile_with_exchange balances l =
      let found = check_positions balances l.positions ++ check_balances balances l.positions in
      record { is_matched = is_empty found; discrepancies = found }

  -- The quantity of every open position is near the whole balance of its symbol.
  abbrev pub Agree : Dict F → Dict (PositionLedgerEntry F) → Type 0
  Agree balances d =
      All
        (λ (e : ℕ × PositionLedgerEntry F).
          is_open e.1 ≡ true → is_off e.1.quantity (balance_of e.1.symbol balances) ≡ false)
        d

  -- A balance above 0.0001 has an open position of its symbol.
  abbrev pub IsCovered : Dict (PositionLedgerEntry F) → ℕ × F → Type 0
  IsCovered d b =
      flt (of_dec 1 4) b.1 ≡ true
      → (e : ℕ × PositionLedgerEntry F) × Memᴰ e d × (is_open e.1 ≡ true) × (e.1.symbol ≡ b.0)

  abbrev pub Covered : Dict F → Dict (PositionLedgerEntry F) → Type 0
  Covered balances d = All (IsCovered d) balances

  check_positions_iff :
      (balances : Dict F) (d : Dict (PositionLedgerEntry F))
      → (check_positions balances d ≡ []) ↔ Agree balances d
  unfolding check_positions
  check_positions_iff balances [] = ground arith
  check_positions_iff balances (e ∷ d) = ground (arith, check_positions_iff balances d)

  has_symbol-mem :
      (symbol : ℕ) (d : Dict (PositionLedgerEntry F))
      → has_symbol symbol d ≡ true
      → (e : ℕ × PositionLedgerEntry F) × Memᴰ e d × (is_open e.1 ≡ true) × (e.1.symbol ≡ symbol)
  unfolding has_symbol
  has_symbol-mem symbol [] h = cc
  has_symbol-mem symbol (e ∷ d) h = elim (Bool-cases (is_open e.1 && e.1.symbol == symbol)) [
    | inl fits ↦ (e, Memᴰ.head refl, ground arith, ground arith)
    | inr other ↦
        let (q, m, open_, same) = has_symbol-mem symbol d (ground arith) in
        (q, Memᴰ.tail m, open_, same)
  ]

  mem-has_symbol :
      (symbol : ℕ) (e : ℕ × PositionLedgerEntry F) (d : Dict (PositionLedgerEntry F))
      → Memᴰ e d
      → is_open e.1 ≡ true
      → e.1.symbol ≡ symbol
      → has_symbol symbol d ≡ true
  unfolding has_symbol
  mem-has_symbol symbol e [] m o s = elim m [ ]
  mem-has_symbol symbol e (x ∷ d) (Memᴰ.head same) o s = ground (arith, same)
  mem-has_symbol symbol e (x ∷ d) (Memᴰ.tail m) o s =
      ground (arith, mem-has_symbol symbol e d m o s)

  has_symbol_iff :
      (symbol : ℕ) (d : Dict (PositionLedgerEntry F))
      → (has_symbol symbol d ≡ true) ↔ (
          (e : ℕ × PositionLedgerEntry F) × Memᴰ e d × (is_open e.1 ≡ true) × (e.1.symbol ≡ symbol))
  has_symbol_iff symbol d = (has_symbol-mem symbol d, λ h. mem-has_symbol symbol h.0 d h.1 h.2 h.3)

  check_balances_iff :
      (balances : Dict F) (d : Dict (PositionLedgerEntry F))
      → (check_balances balances d ≡ [])
        ↔ All (λ (b : ℕ × F). flt (of_dec 1 4) b.1 ≡ true → has_symbol b.0 d ≡ true) balances
  unfolding check_balances
  check_balances_iff [] d = ground arith
  check_balances_iff (b ∷ balances) d = ground (arith, check_balances_iff balances d)

  Covered-iff :
      (balances : Dict F) (d : Dict (PositionLedgerEntry F))
      → (check_balances balances d ≡ []) ↔ Covered balances d
  Covered-iff balances d = (
    λ h.
        All-imp (λ (b : ℕ × F). flt (of_dec 1 4) b.1 ≡ true → has_symbol b.0 d ≡ true) (IsCovered d)
          balances (λ b f t. (has_symbol_iff b.0 d).0 (f t)) ((check_balances_iff balances d).0 h),
    λ h. (check_balances_iff balances d).1 (
        All-imp (IsCovered d) (λ (b : ℕ × F). flt (of_dec 1 4) b.1 ≡ true → has_symbol b.0 d ≡ true)
          balances (λ b f t. (has_symbol_iff b.0 d).1 (f t)) h),
  )

  -- A reconciliation matches exactly when the quantity of every open position is within tolerance
  -- of the whole balance of its symbol, whatever other positions the symbol has, and every balance
  -- above 0.0001 is of a symbol that has an open position.
  pub reconcile_iff :
      (balances : Dict F) (l : PositionLedger F)
      → ((reconcile_with_exchange balances l).is_matched ≡ true)
        ↔ (Agree balances l.positions × Covered balances l.positions)
  unfolding reconcile_with_exchange
  reconcile_iff balances l =
      let d = l.positions in
      let split = is_empty-append (check_positions balances d) (check_balances balances d) in
      (
        λ h. (
          (check_positions_iff balances d).0 (split.0 h).0,
          (Covered-iff balances d).0 (split.0 h).1,
        ),
        λ h. split.1 ((check_positions_iff balances d).1 h.0, (Covered-iff balances d).1 h.1),
      )
