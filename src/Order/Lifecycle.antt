-- ===== src/Order/Lifecycle.antt =====
-- What holds of an order over every sequence of method calls, those that raise included.
use Prim.Native.String.{String}
use stock_test.Base.{
  if◌then◌else◌, ℕ, ◌+◌, ◌≤◌, ◌≡◌, refl, sym, ◌⊎◌, inl, inr, true, false, Option, some, List, [],
  ◌∷◌, ◌++◌, arith, is_some, get_or,
}
use mathlib.Core.Path.{subst, ◌∙◌}
use stock_test.Float.{FloatOps, add}
use stock_test.Order.{
  status_eq, OrderStatus, new, sent, ack, partial, filled, canceled, rejected, OrderSide, OrderType,
  StrategyType, status_in, valid_transitions, OrderStateError, Order, Outcome, is_terminal,
  transition_to, mark_sent, mark_acked, mark_canceled, mark_rejected, mark_partial_fill,
  mark_filled, create,
}

-- The calls by which the engine drives an order, each with the times that it reads.
pub data Call (F : Type 0) : Type 0 where
  call_sent : ℕ → String → Call F
  call_acked call_canceled call_rejected : ℕ → Call F
  call_partial_fill : ℕ → ℕ → F → F → F → Call F
  call_filled : ℕ → Option F → Option F → F → Call F
  call_transition : ℕ → OrderStatus → Call F

module _ {F : Type 0} ⦃fl : FloatOps F⦄ where
  unfoldable pub apply : Call F → Order F → Outcome F
  apply (call_sent now xid) = mark_sent now xid
  apply (call_acked now) = mark_acked now
  apply (call_canceled now) = mark_canceled now
  apply (call_rejected now) = mark_rejected now
  apply (call_partial_fill now now' qty pr charge) = mark_partial_fill now now' qty pr charge
  apply (call_filled now qty pr charge) = mark_filled now qty pr charge
  apply (call_transition now next) = transition_to now next

  -- A caller that catches every `OrderStateError` and goes on.
  unfoldable pub run : List (Call F) → Order F → Order F
  run [] o = o
  run (c ∷ cs) o = run cs (apply c o).0

-- The entries lead from one status to another by valid transitions.
abbrev pub Leads : OrderStatus → List (OrderStatus × ℕ) → OrderStatus → Type 0
Leads s [] t = s ≡ t
Leads s ((u, _) ∷ h) t = (status_in u (valid_transitions s) ≡ true) × Leads u h t

Leads-append :
    (s : OrderStatus) (h : List (OrderStatus × ℕ)) (t u : OrderStatus) (now : ℕ)
    → Leads s h t
    → status_in u (valid_transitions t) ≡ true
    → Leads s (h ++ (u, now) ∷ []) u
Leads-append s [] t u now e v =
    (subst (λ r. status_in u (valid_transitions r) ≡ true) (sym e) v, refl)
Leads-append s (x ∷ h) t u now e v = (e.0, Leads-append x.0 h t u now e.1 v)

-- How many entries other than for partial fills lead to a status.
abbrev pub rank : OrderStatus → ℕ
rank new = 1
rank sent = 2
rank ack = 3
rank partial = 3
rank filled = 4
rank canceled = 4
rank rejected = 4
rank _ = 0

-- The entries of a history other than for partial fills
abbrev pub weight : OrderStatus → ℕ
weight s = if status_eq s partial then 0 else 1

abbrev pub steps : List (OrderStatus × ℕ) → ℕ
steps [] = 0
steps (e ∷ h) = weight e.0 + steps h

steps-append :
    (h : List (OrderStatus × ℕ)) (e : OrderStatus × ℕ) → steps (h ++ e ∷ []) ≡ steps h + weight e.0
steps-append [] e = omega arith
steps-append (x ∷ h) e = omega (arith, steps-append h e)

module _ {F : Type 0} where
  -- The status and what is recorded of it are as before.
  abbrev Kept : Order F → Order F → Type 0
  Kept o o' =
      (o'.status ≡ o.status)
      × (o'.history ≡ o.history)
      × (o'.sent_at ≡ o.sent_at)
      × (o'.acked_at ≡ o.acked_at)
      × (o'.filled_at ≡ o.filled_at)

  -- One entry of the table was taken at the given time, and recorded.
  abbrev Entered : ℕ → Order F → Order F → Type 0
  Entered now o o' =
      (status_in o'.status (valid_transitions o.status) ≡ true)
      × (o'.history ≡ o.history ++ (o'.status, now) ∷ [])
      × (rank o.status + weight o'.status ≤ rank o'.status)

  abbrev call_time : Call F → ℕ
  call_time (call_sent now _) = now
  call_time (call_acked now) = now
  call_time (call_canceled now) = now
  call_time (call_rejected now) = now
  call_time (call_partial_fill now _ _ _ _) = now
  call_time (call_filled now _ _ _) = now
  call_time (call_transition now _) = now

  -- A record of timestamps that fits the status.
  abbrev pub IsStamped : Order F → Type 0
  IsStamped o =
      (o.status ≡ sent → is_some o.sent_at ≡ true)
      × (o.status ≡ ack → is_some o.acked_at ≡ true)
      × (o.status ≡ filled → is_some o.filled_at ≡ true)

module _ {F : Type 0} ⦃fl : FloatOps F⦄ where
  apply-Moves :
      (c : Call F) (o : Order F) → Kept o (apply c o).0 ⊎ Entered (call_time c) o (apply c o).0
  unfolding apply transition_to mark_sent mark_acked mark_canceled mark_rejected mark_partial_fill
      mark_filled
  apply-Moves (call_sent now xid) o = ground arith
  apply-Moves (call_acked now) o = ground arith
  apply-Moves (call_canceled now) o = ground arith
  apply-Moves (call_rejected now) o = ground arith
  apply-Moves (call_partial_fill now now' qty pr charge) o = ground arith
  apply-Moves (call_filled now qty pr charge) o = ground arith
  apply-Moves (call_transition now next) o = ground arith

  apply-IsStamped : (c : Call F) (o : Order F) → IsStamped o → IsStamped (apply c o).0
  unfolding apply transition_to mark_sent mark_acked mark_canceled mark_rejected mark_partial_fill
      mark_filled
  apply-IsStamped (call_sent now xid) o h = ground arith
  apply-IsStamped (call_acked now) o h = ground arith
  apply-IsStamped (call_canceled now) o h = ground arith
  apply-IsStamped (call_rejected now) o h = ground arith
  apply-IsStamped (call_partial_fill now now' qty pr charge) o h = ground arith
  apply-IsStamped (call_filled now qty pr charge) o h = ground arith
  apply-IsStamped (call_transition now next) o h = ground arith

-- The history begins with `new`, and its entries lead to the given status.
abbrev pub Follows : List (OrderStatus × ℕ) → OrderStatus → Type 0
Follows [] t = ⊥
Follows ((s, _) ∷ h) t = (s ≡ new) × Leads new h t

Follows-append :
    (h : List (OrderStatus × ℕ)) (t u : OrderStatus) (now : ℕ)
    → Follows h t
    → status_in u (valid_transitions t) ≡ true
    → Follows (h ++ (u, now) ∷ []) u
Follows-append [] t u now f v = absurd f
Follows-append (x ∷ h) t u now f v = (f.0, Leads-append new h t u now f.1 v)

-- What holds of every order: its history is a walk through the table that ends in its status, has,
-- but for partial fills, no more entries than lead there, and the status has its timestamp.
pub record IsTraced {F : Type 0} (o : Order F) : Type 0 where
  pub follows : Follows o.history o.status
  pub short : steps o.history ≤ rank o.status
  pub stamped : IsStamped o

module _ {F : Type 0} ⦃fl : FloatOps F⦄ where
  apply-IsTraced : (c : Call F) (o : Order F) → IsTraced o → IsTraced (apply c o).0
  apply-IsTraced c o t = elim (apply-Moves c o) [
    | inl kept ↦ record {
      follows =
          subst (λ h. Follows h (apply c o).0.status) (sym kept.1)
            (subst (Follows o.history) (sym kept.0) t.follows);
      short = rw (kept.0, kept.1) t.short;
      stamped = apply-IsStamped c o t.stamped;
    }
    | inr moved ↦ record {
      follows =
          subst (λ h. Follows h (apply c o).0.status) (sym moved.1)
            (Follows-append o.history o.status (apply c o).0.status (call_time c) t.follows
              moved.0);
      short = rw moved.1 (
          omega
            (arith, steps-append o.history ((apply c o).0.status, call_time c), t.short, moved.2));
      stamped = apply-IsStamped c o t.stamped;
    }
  ]

  run-IsTraced : (cs : List (Call F)) (o : Order F) → IsTraced o → IsTraced (run cs o)
  unfolding run
  run-IsTraced [] o t = t
  run-IsTraced (c ∷ cs) o t = run-IsTraced cs (apply c o).0 (apply-IsTraced c o t)

  create-IsTraced :
      (id sym : String) (strat : StrategyType) (sd : OrderSide) (ty : OrderType) (qty : F)
      (pr : Option F) (now now' : ℕ)
      → IsTraced (create id sym strat sd ty qty pr now now')
  unfolding create
  create-IsTraced id sym strat sd ty qty pr now now' = record {
    follows = (refl, refl);
    short = omega arith;
    stamped = ground arith;
  }

  -- An order that is created and then driven by any sequence of method calls, `transition_to` and
  -- those that raise included, has a history that is a walk through the table of valid transitions
  -- from `new` to its status, with at most four entries that are not partial fills; in `sent`, `ack`
  -- and `filled` it has their timestamp.
  pub create-run-IsTraced :
      (id sym : String) (strat : StrategyType) (sd : OrderSide) (ty : OrderType) (qty : F)
      (pr : Option F) (now now' : ℕ) (cs : List (Call F))
      → IsTraced (run cs (create id sym strat sd ty qty pr now now'))
  create-run-IsTraced id sym strat sd ty qty pr now now' cs =
      run-IsTraced cs (create id sym strat sd ty qty pr now now')
        (create-IsTraced id sym strat sd ty qty pr now now')

  terminal_apply :
      (c : Call F) (o : Order F)
      → is_terminal o.status ≡ true
      → Kept o (apply c o).0 × (is_some (apply c o).1 ≡ true)
  unfolding apply transition_to mark_sent mark_acked mark_canceled mark_rejected mark_partial_fill
      mark_filled
  terminal_apply (call_sent now xid) o h = ground arith
  terminal_apply (call_acked now) o h = ground arith
  terminal_apply (call_canceled now) o h = ground arith
  terminal_apply (call_rejected now) o h = ground arith
  terminal_apply (call_partial_fill now now' qty pr charge) o h = ground arith
  terminal_apply (call_filled now qty pr charge) o h = ground arith
  terminal_apply (call_transition now next) o h = ground arith

  -- A filled, canceled or rejected order keeps its status, history and timestamps under every
  -- sequence of calls.
  pub terminal_absorbs :
      (cs : List (Call F)) (o : Order F)
      → is_terminal o.status ≡ true
      → ((run cs o).status ≡ o.status)
        × ((run cs o).history ≡ o.history)
        × ((run cs o).sent_at ≡ o.sent_at)
        × ((run cs o).acked_at ≡ o.acked_at)
        × ((run cs o).filled_at ≡ o.filled_at)
  unfolding run
  terminal_absorbs [] o h = (refl, refl, refl, refl, refl)
  terminal_absorbs (c ∷ cs) o h =
      let t = terminal_apply c o h in
      let r = terminal_absorbs cs (apply c o).0 (rw t.0.0 h) in
      (r.0 ∙ t.0.0, r.1 ∙ t.0.1, r.2 ∙ t.0.2, r.3 ∙ t.0.3, r.4 ∙ t.0.4)

  -- Unless the order is acknowledged or partially filled, `mark_filled` raises, and yet the order
  -- comes back with its filled quantity overwritten and the fee added; status and history stay.
  pub mark_filled_raised :
      (now : ℕ) (qty : Option F) (pr : Option F) (charge : F) (o : Order F)
      → status_in o.status (ack ∷ partial ∷ []) ≡ false
      → ((mark_filled now qty pr charge o).1
          ≡ some (OrderStateError.invalid_transition o.status filled))
        × ((mark_filled now qty pr charge o).0.filled_quantity ≡ get_or qty o.quantity)
        × ((mark_filled now qty pr charge o).0.fee ≡ add o.fee charge)
        × ((mark_filled now qty pr charge o).0.status ≡ o.status)
        × ((mark_filled now qty pr charge o).0.history ≡ o.history)
  unfolding mark_filled transition_to
  mark_filled_raised now qty pr charge o h = ground arith
