-- ===== src/Reducer/Orders.antt =====
-- The orders of a reduction: how much each takes, and how they come to be executed.
use stock_test.Base.{
  ℕ, suc, some, ◌+◌, ◌≡◌, refl, sym, ap, ◌∙◌, true, false, not, List, [], ◌∷◌, ◌++◌, arith, length,
  map, filter, if◌then◌else◌, Bool-cases, inl, inr, length-append,
}
use mathlib.Core.Path.{subst}
use mathlib.Core.List.{append-nil, append_assoc}
use stock_test.Reducer.{ReduceOrder, PositionReducer, mark_executed, mark_first, get_pending_orders}

module _ {F : Type 0} where
  abbrev pub unexecuted : List (ReduceOrder F) → List (ReduceOrder F)
  unexecuted os = filter (λ o. not o.executed) os

  -- The symbols of the orders that are not executed
  abbrev pub open_symbols : List (ReduceOrder F) → List ℕ
  open_symbols os = map (λ o. o.symbol) (unexecuted os)

  -- One call of `mark_executed` for each symbol
  unfoldable pub mark_all : ℕ → List ℕ → PositionReducer F → PositionReducer F
  mark_all now [] r = r
  mark_all now (symbol ∷ symbols) r = mark_all now symbols (mark_executed now symbol r)

  -- Their effect on a list of orders, and the orders that they mark
  abbrev marks : ℕ → List ℕ → List (ReduceOrder F) → List (ReduceOrder F) × List (ReduceOrder F)
  marks now [] os = (os, [])
  marks now (symbol ∷ symbols) os =
      let (os', marked) = mark_first now symbol os in
      let (os'', more) = marks now symbols os' in (os'', marked ++ more)

  mark_all-marks :
      (now : ℕ) (symbols : List ℕ) (r : PositionReducer F)
      → let (os, marked) = marks now symbols r.state.pending_orders in
        ((mark_all now symbols r).state.pending_orders ≡ os)
        × ((mark_all now symbols r).history ≡ r.history ++ marked)
  unfolding mark_all mark_executed
  mark_all-marks now [] r = (refl, sym (append-nil r.history))
  mark_all-marks now (symbol ∷ symbols) r =
      let (orders, history) = mark_all-marks now symbols (mark_executed now symbol r) in
      let marked = (mark_first now symbol r.state.pending_orders).1 in
      (orders, history ∙ append_assoc r.history marked _)

  abbrev executed_at_now : ℕ → ReduceOrder F → ReduceOrder F
  executed_at_now now o = record o { executed = true; executed_at = some now }

  first-skip :
      (now symbol : ℕ) (o : ReduceOrder F) (os : List (ReduceOrder F))
      → o.executed ≡ true
      → mark_first now symbol (o ∷ os)
        ≡ (o ∷ (mark_first now symbol os).0, (mark_first now symbol os).1)
  unfolding mark_first
  first-skip now symbol o os e = ground (arith, e)

  first-hit :
      (now : ℕ) (o : ReduceOrder F) (os : List (ReduceOrder F))
      → o.executed ≡ false
      → mark_first now o.symbol (o ∷ os) ≡ (executed_at_now now o ∷ os, executed_at_now now o ∷ [])
  unfolding mark_first
  first-hit now o os e = ground (arith, e)

  -- An executed order in front stays as it is.
  marks-skip :
      (now : ℕ) (symbols : List ℕ) (o : ReduceOrder F) (os : List (ReduceOrder F))
      → o.executed ≡ true
      → marks now symbols (o ∷ os) ≡ (o ∷ (marks now symbols os).0, (marks now symbols os).1)
  marks-skip now [] o os e = refl
  marks-skip now (symbol ∷ symbols) o os e =
      let os' = (mark_first now symbol os).0 in
      let marked = (mark_first now symbol os).1 in
      let Marks : Type 0 = List (ReduceOrder F) × List (ReduceOrder F) in
      let go : Marks → Marks = λ p. ((marks now symbols p.0).0, p.1 ++ (marks now symbols p.0).1) in
      let join : Marks → Marks = λ p. (p.0, marked ++ p.1) in
      ap go (first-skip now symbol o os e) ∙ ap join (marks-skip now symbols o os' e)

  unexecuted-done :
      (o : ReduceOrder F) (os : List (ReduceOrder F))
      → o.executed ≡ true
      → unexecuted (o ∷ os) ≡ unexecuted os
  unexecuted-done o os e = ap (λ b. if not b then o ∷ unexecuted os else unexecuted os) e

  unexecuted-open :
      (o : ReduceOrder F) (os : List (ReduceOrder F))
      → o.executed ≡ false
      → unexecuted (o ∷ os) ≡ o ∷ unexecuted os
  unexecuted-open o os e = ap (λ b. if not b then o ∷ unexecuted os else unexecuted os) e

  -- After the first order is marked, the marks go on behind it.
  marks-hit :
      (now : ℕ) (symbols : List ℕ) (o : ReduceOrder F) (os : List (ReduceOrder F))
      → o.executed ≡ false
      → marks now (o.symbol ∷ symbols) (o ∷ os) ≡ (
        executed_at_now now o ∷ (marks now symbols os).0,
        executed_at_now now o ∷ (marks now symbols os).1,
      )
  marks-hit now symbols o os e =
      let Marks : Type 0 = List (ReduceOrder F) × List (ReduceOrder F) in
      let o' = executed_at_now now o in
      let go : Marks → Marks = λ p. ((marks now symbols p.0).0, p.1 ++ (marks now symbols p.0).1) in
      let join : Marks → Marks = λ p. (p.0, o' ∷ p.1) in
      ap go (first-hit now o os e) ∙ ap join (marks-skip now symbols o' os refl)

  abbrev AllMarked : List (ReduceOrder F) → List (ReduceOrder F) × List (ReduceOrder F) → Type 0
  AllMarked os (os', marked) = (unexecuted os' ≡ []) × (length marked ≡ length (unexecuted os))

  marks-open : (now : ℕ) (os : List (ReduceOrder F)) → AllMarked os (marks now (open_symbols os) os)
  marks-open now [] = (refl, refl)
  marks-open now (o ∷ os) =
      let (none_left, counted) = marks-open now os in
      let symbols = open_symbols os in
      let names : List (ReduceOrder F) → List ℕ = λ l. map (λ x. x.symbol) l in
      elim (Bool-cases o.executed) [
        | inl e ↦
            let skip = unexecuted-done o os e in
            subst (λ p. AllMarked (o ∷ os) p)
              (sym (ap (λ l. marks now (names l) (o ∷ os)) skip ∙ marks-skip now symbols o os e))
              (
                unexecuted-done o (marks now symbols os).0 e ∙ none_left,
                counted ∙ ap (λ l. length l) (sym skip),
              )
        | inr e ↦
            let keep = unexecuted-open o os e in
            subst (λ p. AllMarked (o ∷ os) p)
              (sym (ap (λ l. marks now (names l) (o ∷ os)) keep ∙ marks-hit now symbols o os e))
              (none_left, ap (λ n. suc n) counted ∙ ap (λ l. length l) (sym keep))
      ]

  -- When each order of a reduction that is not executed yet has been reported by its symbol, no
  -- order is left to execute, and the history has grown by one entry for each of them.
  pub marked-finished :
      (now : ℕ) (r : PositionReducer F)
      → let after = mark_all now (open_symbols r.state.pending_orders) r in
        (get_pending_orders after ≡ [])
        × (length after.history ≡ length r.history + length (get_pending_orders r))
  unfolding get_pending_orders
  marked-finished now r =
      let os = r.state.pending_orders in
      let (left, counted) = marks-open now os in
      let (orders, history) = mark_all-marks now (open_symbols os) r in
      (
        ap (λ l. unexecuted l) orders ∙ left,
        ap (λ l. length l) history
            ∙ (length-append r.history _ ∙ ap (λ n. length r.history + n) counted),
      )
