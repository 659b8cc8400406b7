-- ===== src/Psm/Stops.antt =====
-- No policy loosens the stop of a position.
use stock_test.Base.{
  ℕ, ◌≡◌, Bool, true, false, not, ◌&&◌, leb, Option, none, some, arith, if◌then◌else◌,
}
use stock_test.Float.{FloatOps, FloatOrder, of_dec, add, sub, mul, flt, fle}
use stock_test.Psm.State.{
  PositionState, weak, normal, strong, extreme, Side, long, short, ManagedPosition, OrderIntent,
  IntentReason, weak_reduction, PsmConfig, calc_r_pnl,
}
use stock_test.Psm.Policies.{
  Market, both, hold, take_profit, calc_stop_from_swing, tighten, trail, partial_profits,
  weak_action, normal_action, strong_action, extreme_action, get_action,
}

module _ {F : Type 0} ⦃fl : FloatOps F⦄ where
  -- A stop that protects the position no less than a given one.
  abbrev pub Protects : Side → F → F → Type 0
  Protects long current next = fle current next ≡ true
  Protects short current next = fle next current ≡ true

  module _ (o : FloatOrder F) where
    pub lt-le : (a b : F) → flt a b ≡ true → fle a b ≡ true
    lt-le a b h = ground (arith, o.ltb-not-leb a b, o.leb_total a b)

    Protects-self : (s : Side) (a : F) → Protects s a a
    Protects-self long a = o.leb_refl a
    Protects-self short a = o.leb_refl a

    tighten-Protects :
        (s : Side) (p : ManagedPosition F) (n : F) (i : OrderIntent F)
        → p.side ≡ s
        → Protects s p.current_stop i.desired_stop_price
        → Protects s p.current_stop (tighten p n i).desired_stop_price
    unfolding tighten
    tighten-Protects long p n i e h = ground (arith, lt-le p.current_stop n)
    tighten-Protects short p n i e h = ground (arith, lt-le n p.current_stop)

    -- The stop of the intent protects the position no less than its current stop.
    abbrev Keeps : Side → ManagedPosition F → OrderIntent F → Type 0
    Keeps s p i = Protects s p.current_stop i.desired_stop_price

    if_Keeps :
        (s : Side) (p : ManagedPosition F) (b : Bool) (i j : OrderIntent F)
        → Keeps s p i
        → Keeps s p j
        → Keeps s p (if b then i else j)
    if_Keeps s p true i j h k = h
    if_Keeps s p false i j h k = k

    option-Keeps :
        {A : Type 0} (s : Side) (p : ManagedPosition F) (a : Option A) (i : OrderIntent F)
        (f : A → OrderIntent F)
        → Keeps s p i
        → ((x : A) → Keeps s p (f x))
        → Keeps s p (elim a [ none ↦ i | some x ↦ f x ])
    option-Keeps s p none i f h k = h
    option-Keeps s p (some x) i f h k = k x

    trail-Keeps :
        (s : Side) (p : ManagedPosition F) (m : Market F) (k : F) (i : OrderIntent F)
        → p.side ≡ s
        → Keeps s p i
        → Keeps s p (trail p m k i)
    unfolding trail
    trail-Keeps s p m k i e h =
        option-Keeps s p (both m.swing_low m.atr) i
          (λ x. tighten p (calc_stop_from_swing p x.0 x.1 k) i) h
          (λ x. tighten-Protects s p (calc_stop_from_swing p x.0 x.1 k) i e h)

    profits_keep :
        (s : Side) (p : ManagedPosition F) (l₁ c₁ l₂ c₂ : F) (w₁ w₂ : IntentReason F) (price : F)
        (i : OrderIntent F)
        → Keeps s p i
        → Keeps s p (partial_profits l₁ c₁ l₂ c₂ w₁ w₂ p price i)
    unfolding partial_profits
    profits_keep s p l₁ c₁ l₂ c₂ w₁ w₂ price i h =
        let first = fle l₁ (calc_r_pnl p price) && not p.tp_30_triggered in
        let second = fle l₂ (calc_r_pnl p price) && not p.tp_60_triggered in
        let i₁ = if first then take_profit c₁ price w₁ i else i in
        let h₁ = if_Keeps s p first (take_profit c₁ price w₁ i) i h h in
        if_Keeps s p second (take_profit c₂ price w₂ i₁) i₁ h₁ h₁

    weak-Keeps :
        (s : Side) (cfg : PsmConfig F) (now : ℕ) (p : ManagedPosition F) (price : F) (m : Market F)
        → p.side ≡ s
        → Keeps s p (weak_action cfg now p price m)
    unfolding weak_action
    weak-Keeps s cfg now p price m e =
        let own = Protects-self s p.current_stop in
        let twice = leb 2 p.consecutive_weak_count in
        let reduced = take_profit (of_dec 50 2) price weak_reduction (hold p true) in
        let i = if twice then reduced else hold p true in
        let h = if_Keeps s p twice reduced (hold p true) own own in
        let stop = λ (x : F × F). elim p.side as (λ _. F) [
          | long ↦ sub x.0 (mul x.1 cfg.psm_weak_stop_atr)
          | short ↦ add x.0 (mul x.1 cfg.psm_weak_stop_atr)
        ] in
        if_Keeps s p _ _ _ own (
          option-Keeps s p (both m.vwap m.atr) i (λ x. tighten p (stop x) i) h
            (λ x. tighten-Protects s p (stop x) i e h))

    extreme-Keeps :
        (s : Side) (cfg : PsmConfig F) (p : ManagedPosition F) (price : F) (m : Market F)
        → p.side ≡ s
        → Keeps s p (extreme_action cfg p price m)
    unfolding extreme_action
    extreme-Keeps s cfg p price m e =
        let own = Protects-self s p.current_stop in
        if_Keeps s p _ _ _ own
          (option-Keeps s p (both m.vwap m.atr) _ _ own (λ x. tighten-Protects s p _ _ e own))

    normal-Keeps :
        (s : Side) (cfg : PsmConfig F) (now : ℕ) (p : ManagedPosition F) (price : F) (m : Market F)
        → p.side ≡ s
        → Keeps s p (normal_action cfg now p price m)
    unfolding normal_action
    normal-Keeps s cfg now p price m e =
        let own = Protects-self s p.current_stop in
        if_Keeps s p _ _ _ own (
          trail-Keeps s p m cfg.psm_normal_trailing_atr _ e
            (profits_keep s p _ _ _ _ _ _ price (hold p false) own))

    strong-Keeps :
        (s : Side) (cfg : PsmConfig F) (p : ManagedPosition F) (price : F) (m : Market F)
        → p.side ≡ s
        → Keeps s p (strong_action cfg p price m)
    unfolding strong_action
    strong-Keeps s cfg p price m e =
        trail-Keeps s p m cfg.psm_strong_trailing_atr _ e
          (profits_keep s p _ _ _ _ _ _ price (hold p false) (Protects-self s p.current_stop))

    -- In every state the stop that is ordered protects the position no less than its current stop:
    -- it is not below it for a long position, and not above it for a short one.
    pub get_action-Protects :
        (s : Side) (cfg : PsmConfig F) (state : PositionState) (now : ℕ) (p : ManagedPosition F)
        (price : F) (m : Market F)
        → p.side ≡ s
        → Protects s p.current_stop (get_action cfg state now p price m).desired_stop_price
    unfolding get_action
    get_action-Protects s cfg weak now p price m e = weak-Keeps s cfg now p price m e
    get_action-Protects s cfg normal now p price m e = normal-Keeps s cfg now p price m e
    get_action-Protects s cfg strong now p price m e = strong-Keeps s cfg p price m e
    get_action-Protects s cfg extreme now p price m e = extreme-Keeps s cfg p price m e
