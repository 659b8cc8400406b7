-- ===== src/Order.antt =====
-- server/src/execution/order_state.py: the order state machine, and the enums of
-- server/src/models/schemas.py that it uses. A method returns the order and `some e` where Python
-- raises `e`; the order comes back then too, since what was assigned stays assigned. A time is a
-- number of ticks, an argument of each call that asks the clock.
pub mod Lifecycle
mod Tests
use Prim.Native.String.{String}
use stock_test.Base.{
  ℕ, Bool, not, Option, none, some, List, [], ◌∷◌, ◌++◌, ◌==◌, if◌then◌else◌, any, get_or,
}
use stock_test.Float.{FloatOps, fzero, add, sub, mul, div, feq, flt}

-- `OrderStatus`
pub data OrderStatus : Type 0 where
  new pending sent ack partial filled canceled rejected synced : OrderStatus

-- `OrderSide`
pub data OrderSide : Type 0 where
  buy sell : OrderSide

-- `OrderType`
pub data OrderType : Type 0 where
  market limit : OrderType

-- `StrategyType`
pub data StrategyType : Type 0 where
  volatile_oversold_bounce crash_recovery triple_bearish_reversal : StrategyType

-- The place of a status in its enum, by which two are compared.
abbrev pub status_code : OrderStatus → ℕ
status_code new = 0
status_code pending = 1
status_code sent = 2
status_code ack = 3
status_code partial = 4
status_code filled = 5
status_code canceled = 6
status_code rejected = 7
status_code synced = 8

abbrev pub status_eq : OrderStatus → OrderStatus → Bool
status_eq s t = status_code s == status_code t

-- `s in {…}`
abbrev pub status_in : OrderStatus → List OrderStatus → Bool
status_in s = any (status_eq s)

-- `VALID_TRANSITIONS.get(s, set())`
unfoldable pub valid_transitions : OrderStatus → List OrderStatus
valid_transitions new = sent ∷ canceled ∷ []
valid_transitions sent = ack ∷ rejected ∷ canceled ∷ []
valid_transitions ack = partial ∷ filled ∷ canceled ∷ []
valid_transitions partial = partial ∷ filled ∷ canceled ∷ []
valid_transitions _ = []

-- `OrderStateError`, by the place that raises it
pub data OrderStateError : Type 0 where
  invalid_transition : OrderStatus → OrderStatus → OrderStateError
  cannot_partial_fill cannot_cancel cannot_reject : OrderStatus → OrderStateError

-- `OrderStateMachine`
pub record Order (F : Type 0) : Type 0 where
  pub order_id : String
  pub exchange_order_id : Option String
  pub symbol : String
  pub strategy : StrategyType
  pub side : OrderSide
  pub order_type : OrderType
  pub quantity : F
  pub price : Option F
  pub status : OrderStatus
  pub filled_quantity : F
  pub avg_fill_price : Option F
  pub fee : F
  pub created_at : ℕ
  pub updated_at : ℕ
  pub sent_at : Option ℕ
  pub acked_at : Option ℕ
  pub filled_at : Option ℕ
  pub history : List (OrderStatus × ℕ)

-- What a method call has left: the order, and the error if one was raised.
abbrev pub Outcome : Type 0 → Type 0
Outcome F = Order F × Option OrderStateError

-- `is_terminal`, by the status
unfoldable pub is_terminal : OrderStatus → Bool
is_terminal s = status_in s (filled ∷ canceled ∷ rejected ∷ [])

-- `is_active`, by the status
unfoldable pub is_active : OrderStatus → Bool
unfolding is_terminal
is_active s = not (is_terminal s)

-- The timestamps that `transition_to` records for certain states.
stamp_entry : {F : Type 0} → OrderStatus → ℕ → Order F → Order F
stamp_entry sent now o = record o { sent_at = some now }
stamp_entry ack now o = record o { acked_at = some now }
stamp_entry filled now o = record o { filled_at = some now }
stamp_entry _ now o = o

unfoldable pub transition_to : {F : Type 0} → ℕ → OrderStatus → Order F → Outcome F
unfolding stamp_entry valid_transitions
transition_to now next o =
    if status_in next (valid_transitions o.status)
    then (
      stamp_entry next now
          (record o { status = next; updated_at = now; history = o.history ++ (next, now) ∷ [] }),
      none,
    )
    else (o, some (invalid_transition o.status next))

unfoldable pub mark_sent : {F : Type 0} → ℕ → String → Order F → Outcome F
mark_sent now xid o = transition_to now sent (record o { exchange_order_id = some xid })

unfoldable pub mark_acked : {F : Type 0} → ℕ → Order F → Outcome F
mark_acked now o = transition_to now ack o

unfoldable pub mark_canceled : {F : Type 0} → ℕ → Order F → Outcome F
unfolding is_terminal
mark_canceled now o =
    if is_terminal o.status
    then (o, some (cannot_cancel o.status))
    else transition_to now canceled o

unfoldable pub mark_rejected : {F : Type 0} → ℕ → Order F → Outcome F
mark_rejected now o =
    if status_eq o.status sent
    then transition_to now rejected o
    else (o, some (cannot_reject o.status))

module _ {F : Type 0} ⦃fl : FloatOps F⦄ where
  -- The constructor
  unfoldable pub create :
      String → String → StrategyType → OrderSide → OrderType → F → Option F → ℕ → ℕ → Order F
  create id sym strat sd ty qty pr now now' = record {
    order_id = id;
    exchange_order_id = none;
    symbol = sym;
    strategy = strat;
    side = sd;
    order_type = ty;
    quantity = qty;
    price = pr;
    status = new;
    filled_quantity = fzero;
    avg_fill_price = none;
    fee = fzero;
    created_at = now;
    updated_at = now';
    sent_at = none;
    acked_at = none;
    filled_at = none;
    history = (new, now) ∷ [];
  }

  unfoldable pub remaining_quantity : Order F → F
  remaining_quantity o = sub o.quantity o.filled_quantity

  unfoldable pub fill_ratio : Order F → F
  fill_ratio o = if feq o.quantity fzero then fzero else div o.filled_quantity o.quantity

  -- The assignments of `mark_partial_fill` to the fill: quantity, average price and fee.
  unfoldable pub add_fill : F → F → F → Order F → Order F
  add_fill qty pr charge o =
      let total_value = add (mul o.filled_quantity (get_or o.avg_fill_price fzero)) (mul qty pr) in
      let filled_qty = add o.filled_quantity qty in
      record o {
        filled_quantity = filled_qty;
        avg_fill_price = some (if flt fzero filled_qty then div total_value filled_qty else fzero);
        fee = add o.fee charge;
      }

  -- `now` is the time of the transition, `now'` that of the last assignment.
  unfoldable pub mark_partial_fill : ℕ → ℕ → F → F → F → Order F → Outcome F
  unfolding add_fill
  mark_partial_fill now now' qty pr charge o =
      if status_in o.status (ack ∷ partial ∷ [])
      then (let o₁ = add_fill qty pr charge o in
          let (o₂, e) =
            (if status_eq o.status partial then (o₁, none) else transition_to now partial o₁) in
          elim e [ none ↦ (record o₂ { updated_at = now' }, none) | some x ↦ (o₂, some x) ])
      else (o, some (cannot_partial_fill o.status))

  -- The fill is written before `transition_to` looks at the state.
  unfoldable pub mark_filled : ℕ → Option F → Option F → F → Order F → Outcome F
  mark_filled now qty pr charge o = transition_to now filled (record o {
    filled_quantity = get_or qty o.quantity;
    avg_fill_price = elim pr [ none ↦ o.avg_fill_price | some p ↦ some p ];
    fee = add o.fee charge;
  })
