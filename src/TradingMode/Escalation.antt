-- ===== src/TradingMode/Escalation.antt =====
-- What any sequence of calls of the mode manager does to the mode.
use Prim.Native.String.{String}
use stock_test.Base.{
  ℕ, ◌≤◌, ◌≡◌, refl, ◌⊎◌, inl, inr, Bool, true, false, List, [], ◌∷◌, ◌||◌, arith, if◌then◌else◌,
  any, Bool-cases,
}
use stock_test.TradingMode.{
  TradingMode, normal, safe, halt, severity, mode_eq, ModeManager, notify_listeners, to_safe,
  to_halt, to_normal, safe_to_normal_from_halt,
}

-- The four methods.
pub data Method : Type 0 where
  method_safe method_halt method_normal method_recover : Method

-- A call: the method, its reason, and the time.
pub record Call : Type 0 where
  pub method : Method
  pub why : String
  pub time : ℕ

-- The transitions of the mode.
infix 40 ◌⟶◌
pub data ◌⟶◌ : TradingMode → TradingMode → Type 0 where
  caution : normal ⟶ safe
  stop : normal ⟶ halt
  escalate : safe ⟶ halt
  resume : safe ⟶ normal
  recover : halt ⟶ safe

abbrev pub is_recover : Method → Bool
is_recover method_recover = true
is_recover _ = false

abbrev pub is_normal : Method → Bool
is_normal method_normal = true
is_normal _ = false

-- Some call recovers from the halt, and a later one resumes.
abbrev pub has_recovery : List Call → Bool
has_recovery [] = false
has_recovery (c ∷ cs) =
    let rest = has_recovery cs in
    if is_recover c.method then any (λ d. is_normal d.method) cs || rest else rest

module _ {L W : Type 0} (call : L → TradingMode → String → W → Bool × W) where
  dispatch : Method → String → ℕ → ModeManager L → W → Bool × ModeManager L × W
  dispatch method_safe = to_safe call
  dispatch method_halt = to_halt call
  dispatch method_normal = to_normal call
  dispatch method_recover = safe_to_normal_from_halt call

  unfoldable pub apply : Call → ModeManager L → W → Bool × ModeManager L × W
  unfolding dispatch
  apply c m w = dispatch c.method c.why c.time m w

  unfoldable pub run : List Call → ModeManager L → W → ModeManager L × W
  run [] m w = (m, w)
  run (c ∷ cs) m w = let (r, m', w') = apply c m w in run cs m' w'

  -- A call that returns False changes nothing and calls no listener. A call that returns True has
  -- taken a transition of the diagram, has stored its reason and time, and has called every
  -- listener, in order, with the new mode.
  pub apply_result :
      (c : Call) (m : ModeManager L) (w : W)
      → (apply c m w ≡ (false, m, w))
        ⊎ (((apply c m w).0 ≡ true)
            × (m.mode ⟶ (apply c m w).1.mode)
            × ((apply c m w).1.reason ≡ c.why)
            × ((apply c m w).1.changed_at ≡ c.time)
            × ((apply c m w).1.listeners ≡ m.listeners)
            × ((apply c m w).2 ≡ notify_listeners call m.listeners (apply c m w).1.mode c.why w))
  unfolding apply to_safe to_halt to_normal safe_to_normal_from_halt
  apply_result c m w = grind (arith, caution, stop, escalate, resume, recover)

  step_halt :
      (c : Call) (m : ModeManager L) (w : W)
      → m.mode ≡ halt
      → is_recover c.method ≡ false
      → apply c m w ≡ (false, m, w)
  unfolding apply to_safe to_halt to_normal safe_to_normal_from_halt
  step_halt c m w h k = ground arith

  step_halt_run :
      (c : Call) (cs : List Call) (m : ModeManager L) (w : W)
      → m.mode ≡ halt
      → is_recover c.method ≡ false
      → run (c ∷ cs) m w ≡ run cs m w
  unfolding run
  step_halt_run c cs m w h k = rw (step_halt c m w h k)

  -- Once halted, the manager stays as it is, and calls no listener, under every sequence of calls
  -- in which `safe_to_normal_from_halt` does not occur.
  pub halt_stays :
      (cs : List Call) (m : ModeManager L) (w : W)
      → m.mode ≡ halt
      → any (λ c. is_recover c.method) cs ≡ false
      → run cs m w ≡ (m, w)
  unfolding run
  halt_stays [] m w h k = refl
  halt_stays (c ∷ cs) m w h k =
      rw (step_halt c m w h (ground arith)) (halt_stays cs m w h (ground arith))

  step_severity :
      (c : Call) (m : ModeManager L) (w : W)
      → is_recover c.method ≡ false
      → is_normal c.method ≡ false
      → severity m.mode ≤ severity (apply c m w).1.mode
  unfolding apply to_safe to_halt to_normal safe_to_normal_from_halt
  step_severity c m w h k = ground arith

  -- Without `to_normal` and `safe_to_normal_from_halt` the mode only escalates.
  pub run_escalates :
      (cs : List Call) (m : ModeManager L) (w : W)
      → any (λ c. is_recover c.method) cs ≡ false
      → any (λ c. is_normal c.method) cs ≡ false
      → severity m.mode ≤ severity (run cs m w).0.mode
  unfolding run
  run_escalates [] m w h k = omega arith
  run_escalates (c ∷ cs) m w h k =
      let r = apply c m w in
      omega (
        arith,
        step_severity c m w (ground arith) (ground arith),
        run_escalates cs r.1 r.2 (ground arith) (ground arith),
      )

  step_normal :
      (c : Call) (m : ModeManager L) (w : W)
      → mode_eq m.mode normal ≡ false
      → is_normal c.method ≡ false
      → mode_eq (apply c m w).1.mode normal ≡ false
  unfolding apply to_safe to_halt to_normal safe_to_normal_from_halt
  step_normal c m w h k = ground arith

  normal_needs_call :
      (cs : List Call) (m : ModeManager L) (w : W)
      → mode_eq m.mode normal ≡ false
      → (run cs m w).0.mode ≡ normal
      → any (λ c. is_normal c.method) cs ≡ true
  unfolding run
  normal_needs_call [] m w h e = ground arith
  normal_needs_call (c ∷ cs) m w h e = elim (Bool-cases (is_normal c.method)) [
    | inl p ↦ rw p
    | inr p ↦
        let r = apply c m w in
        ground (arith, normal_needs_call cs r.1 r.2 (step_normal c m w h p) e)
  ]

  step_recover :
      (c : Call) (m : ModeManager L) (w : W)
      → m.mode ≡ halt
      → is_recover c.method ≡ true
      → mode_eq (apply c m w).1.mode normal ≡ false
  unfolding apply to_safe to_halt to_normal safe_to_normal_from_halt
  step_recover c m w h k = ground arith

  -- A halted manager is back to normal only after a call of `safe_to_normal_from_halt` and a later
  -- call of `to_normal`.
  pub normal_needs_recovery :
      (cs : List Call) (m : ModeManager L) (w : W)
      → m.mode ≡ halt
      → (run cs m w).0.mode ≡ normal
      → has_recovery cs ≡ true
  unfolding run
  normal_needs_recovery [] m w h e = ground arith
  normal_needs_recovery (c ∷ cs) m w h e =
      let r = apply c m w in
      elim (Bool-cases (is_recover c.method)) [
        | inl p ↦ rw (p, normal_needs_call cs r.1 r.2 (step_recover c m w h p) e)
        | inr p ↦ rw p (normal_needs_recovery cs m w h (rw (← step_halt_run c cs m w h p) e))
      ]
