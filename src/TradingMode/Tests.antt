-- ===== src/TradingMode/Tests.antt =====
-- Runs of the mode manager with a listener that writes a log, and the theorems at them.
use Prim.Native.String.{String}
use stock_test.Base.{ℕ, ◌≡◌, refl, Bool, true, List, [], ◌∷◌, ◌==◌}
use stock_test.TradingMode.{
  TradingMode, normal, safe, halt, ModeManager, init, notify_listeners, add_listener, to_safe,
  to_halt, to_normal, safe_to_normal_from_halt,
}
use stock_test.TradingMode.Escalation.{
  Call, method_safe, method_halt, method_normal, method_recover, apply, run, has_recovery,
  normal_needs_recovery,
}

-- Listener 0 raises, and all write their number and the mode to the log.
abbrev log_call : ℕ → TradingMode → String → List (ℕ × TradingMode) → Bool × List (ℕ × TradingMode)
log_call l mode reason w = (l == 0, (l, mode) ∷ w)

abbrev manager : ModeManager ℕ
manager = add_listener 1 (add_listener 0 (init 0))

abbrev crisis : List Call
crisis =
    record { method = method_safe; why = "DD 2%"; time = 1 }
    ∷ record { method = method_halt; why = "DD 5%"; time = 2 }
    ∷ []

abbrev recovery : List Call
recovery =
    record { method = method_normal; why = "too early"; time = 3 }
    ∷ record { method = method_recover; why = "checked"; time = 4 }
    ∷ record { method = method_normal; why = "resume"; time = 5 }
    ∷ []

abbrev halted : ModeManager ℕ
halted = record { mode = halt; reason = "DD 5%"; changed_at = 2; listeners = 0 ∷ 1 ∷ [] }

crisis-run :
    run log_call crisis manager [] ≡ (halted, (1, halt) ∷ (0, halt) ∷ (1, safe) ∷ (0, safe) ∷ [])
unfolding run apply to_safe to_halt notify_listeners add_listener init
crisis-run = refl

recovered : (run log_call recovery halted []).0.mode ≡ normal
unfolding run apply to_normal safe_to_normal_from_halt
recovered = refl

normal_needs_recovery_example : has_recovery recovery ≡ true
normal_needs_recovery_example = normal_needs_recovery log_call recovery halted [] refl recovered
