-- ===== src/TradingMode.antt =====
-- server/src/risk/modes.py: the trading mode manager, with `TradingMode` of
-- server/src/models/schemas.py. The lock makes each method one step. A listener is code of a client:
-- calling one is the parameter `call`, which says whether it raised and what it left of the world.
pub mod Escalation
mod Tests
use Prim.Native.String.{String}
use stock_test.Base.{ℕ, Bool, true, false, not, List, [], ◌∷◌, ◌++◌, ◌||◌, ◌==◌, if◌then◌else◌}

-- `TradingMode`
pub data TradingMode : Type 0 where
  normal safe halt : TradingMode

-- The place of a mode in the order of escalation.
abbrev pub severity : TradingMode → ℕ
severity normal = 0
severity safe = 1
severity halt = 2

abbrev pub mode_eq : TradingMode → TradingMode → Bool
mode_eq a b = severity a == severity b

-- `ModeManager`
pub record ModeManager (L : Type 0) : Type 0 where
  pub mode : TradingMode
  pub reason : String
  pub changed_at : ℕ
  pub listeners : List L

module _ {L : Type 0} where
  -- The constructor
  unfoldable pub init : ℕ → ModeManager L
  init now = record {
    mode = normal;
    reason = "System initialized";
    changed_at = now;
    listeners = [];
  }

  unfoldable pub can_open_new_position : ModeManager L → Bool
  can_open_new_position m = mode_eq m.mode normal

  unfoldable pub can_close_position : ModeManager L → Bool
  can_close_position m = not (mode_eq m.mode halt) || mode_eq m.mode halt

  unfoldable pub add_listener : L → ModeManager L → ModeManager L
  add_listener l m = record m { listeners = m.listeners ++ l ∷ [] }

module _ {L W : Type 0} (call : L → TradingMode → String → W → Bool × W) where
  -- An exception of a listener is logged, and the next one is called.
  unfoldable pub notify_listeners : List L → TradingMode → String → W → W
  notify_listeners [] mode reason w = w
  notify_listeners (l ∷ ls) mode reason w =
      let (raised, w') = call l mode reason w in notify_listeners ls mode reason w'

  -- What the four methods do once their guards have passed.
  unfoldable pub enter : TradingMode → String → ℕ → ModeManager L → W → Bool × ModeManager L × W
  enter next reason now m w =
      let m' = record m { mode = next; reason = reason; changed_at = now } in
      (true, m', notify_listeners m'.listeners next reason w)

  unfoldable pub to_safe : String → ℕ → ModeManager L → W → Bool × ModeManager L × W
  unfolding enter
  to_safe reason now m w =
      if mode_eq m.mode halt
      then (false, m, w)
      else if mode_eq m.mode safe
      then (false, m, w)
      else enter safe reason now m w

  unfoldable pub to_halt : String → ℕ → ModeManager L → W → Bool × ModeManager L × W
  unfolding enter
  to_halt reason now m w = if mode_eq m.mode halt then (false, m, w) else enter halt reason now m w

  unfoldable pub to_normal : String → ℕ → ModeManager L → W → Bool × ModeManager L × W
  unfolding enter
  to_normal reason now m w =
      if mode_eq m.mode halt
      then (false, m, w)
      else if mode_eq m.mode normal
      then (false, m, w)
      else enter normal reason now m w

  unfoldable pub safe_to_normal_from_halt :
      String → ℕ → ModeManager L → W → Bool × ModeManager L × W
  unfolding enter
  safe_to_normal_from_halt reason now m w =
      if not (mode_eq m.mode halt) then (false, m, w) else enter safe reason now m w
