-- ===== src/ExecHealth.antt =====
-- server/src/risk/exec_health.py: the latencies and the order results of a rolling window, and
-- whether they are too bad to trade. `now` is the reading of the clock that a call makes; the texts
-- and the log are left out, a reason is its kind.
pub mod Window
mod Tests
use stock_test.Base.{
  ℕ, Bool, true, false, not, ◌&&◌, Option, none, some, List, [], ◌∷◌, ◌++◌, if◌then◌else◌, length,
  map, filter, keep_last,
}
use stock_test.Float.{FloatOps, of_ℕ, fzero, add, div, fle, fabs}

pub data HealthReason : Type 0 where
  ws_latency order_failure_rate reconcile_drift : HealthReason

-- `ExecHealth`
pub record ExecHealth (F : Type 0) : Type 0 where
  pub ws_latency_ms : F
  pub order_ack_latency_ms : F
  pub order_failure_rate : F
  pub last_reconcile_drift : F
  pub is_healthy : Bool
  pub warning_reasons : List HealthReason
  pub safe_reasons : List HealthReason

-- `OrderRecord`
pub record OrderRecord (F : Type 0) : Type 0 where
  pub success : Bool
  pub latency_ms : F
  pub timestamp : ℕ

-- The settings of `RiskOverlayConfig` that are read here
pub record HealthLimits (F : Type 0) : Type 0 where
  pub exec_ws_latency_warn_ms : F
  pub exec_ws_latency_safe_ms : F
  pub exec_order_failure_rate_max : F
  pub exec_reconcile_drift_max : F
  pub exec_health_window : ℕ

-- `ExecHealthMonitor`
pub record ExecHealthMonitor (F : Type 0) : Type 0 where
  pub config : HealthLimits F
  pub ws_latencies : List F
  pub order_records : List (OrderRecord F)
  pub last_drift : F
  pub last_reconcile_time : Option ℕ
  pub last_health : Option (ExecHealth F)

-- `deque(maxlen=n)`: an append drops the oldest beyond it.
abbrev pub push {ℓ} : {A : Type ℓ} → ℕ → A → List A → List A
push n x xs = keep_last n (xs ++ x ∷ [])

abbrev pub is_empty {ℓ} : {A : Type ℓ} → List A → Bool
is_empty [] = true
is_empty (x ∷ xs) = false

module _ {F : Type 0} where
  unfoldable pub record_ws_latency : F → ExecHealthMonitor F → ExecHealthMonitor F
  record_ws_latency latency m = record m {
    ws_latencies = push m.config.exec_health_window latency m.ws_latencies;
  }

  unfoldable pub record_order_result : ℕ → Bool → F → ExecHealthMonitor F → ExecHealthMonitor F
  record_order_result now success latency m = record m {
    order_records =
        push m.config.exec_health_window
          (record { success = success; latency_ms = latency; timestamp = now }) m.order_records;
  }

  unfoldable pub record_reconcile_drift : ℕ → F → ExecHealthMonitor F → ExecHealthMonitor F
  record_reconcile_drift now drift m = record m {
    last_drift = drift;
    last_reconcile_time = some now;
  }

module _ {F : Type 0} ⦃fl : FloatOps F⦄ where
  -- The constructor
  unfoldable pub init : HealthLimits F → ExecHealthMonitor F
  init limits = record {
    config = limits;
    ws_latencies = [];
    order_records = [];
    last_drift = fzero;
    last_reconcile_time = none;
    last_health = none;
  }

  -- `sum(xs)`, from what has been summed
  unfoldable pub sum : F → List F → F
  sum total [] = total
  sum total (x ∷ xs) = sum (add total x) xs

  -- `sum(xs) / len(xs) if xs else 0.0`
  unfoldable pub mean_or_zero : List F → F
  mean_or_zero [] = fzero
  mean_or_zero (x ∷ xs) = div (sum fzero (x ∷ xs)) (of_ℕ (length (x ∷ xs)))

  unfoldable pub failure_rate : List (OrderRecord F) → F
  failure_rate [] = fzero
  failure_rate (r ∷ rs) =
      div (of_ℕ (length (filter (λ q. not q.success) (r ∷ rs)))) (of_ℕ (length (r ∷ rs)))

  -- What `get_health` answers.
  unfoldable pub health_of : ExecHealthMonitor F → ExecHealth F
  health_of m =
      let c = m.config in
      let latency = mean_or_zero m.ws_latencies in
      let rate = failure_rate m.order_records in
      let critical = fle c.exec_ws_latency_safe_ms latency in
      let reasons =
        (if critical then ws_latency ∷ [] else [])
        ++ ((if fle c.exec_order_failure_rate_max rate then order_failure_rate ∷ [] else [])
            ++ (if fle c.exec_reconcile_drift_max (fabs m.last_drift)
                then reconcile_drift ∷ []
                else [])) in
      record {
        ws_latency_ms = latency;
        order_ack_latency_ms = mean_or_zero (map (λ r. r.latency_ms) m.order_records);
        order_failure_rate = rate;
        last_reconcile_drift = m.last_drift;
        is_healthy = is_empty reasons;
        warning_reasons =
            if critical
            then []
            else if fle c.exec_ws_latency_warn_ms latency
            then ws_latency ∷ []
            else [];
        safe_reasons = reasons;
      }

  unfoldable pub get_health : ExecHealthMonitor F → ExecHealth F × ExecHealthMonitor F
  get_health m = (health_of m, record m { last_health = some (health_of m) })

  -- `should_enter_safe`, with the reasons that its text joins
  unfoldable pub should_enter_safe :
      ExecHealthMonitor F → (Bool × List HealthReason) × ExecHealthMonitor F
  should_enter_safe m =
      let (health, m') = get_health m in
      if not health.is_healthy && not (is_empty health.safe_reasons)
      then ((true, health.safe_reasons), m')
      else ((false, []), m')
