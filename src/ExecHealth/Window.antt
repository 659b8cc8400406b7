-- ===== src/ExecHealth/Window.antt =====
-- Theorems on server/src/risk/exec_health.py: the rolling windows and the way into SAFE.
use stock_test.Base.{
  ℕ, ◌+◌, ◌-◌, ◌≤◌, suc, zero, ◌≡◌, refl, sym, ◌∙◌, ap, Bool, ◌||◌, List, [], ◌∷◌, ◌++◌, arith,
  length, drop, keep_last, length-append, length-drop,
}
use mathlib.Core.List.{append-nil, append_assoc}
use native.Mathlib.Decide.{dec_le}
use stock_test.Float.{FloatOps, fle, fabs, fzero}
use stock_test.ExecHealth.{
  ExecHealthMonitor, HealthLimits, OrderRecord, push, init, mean_or_zero, failure_rate, health_of,
  get_health, should_enter_safe, record_ws_latency, record_order_result, record_reconcile_drift,
}

-- The calls that record something
pub data Call (F : Type 0) : Type 0 where
  heard : F → Call F
  ordered : ℕ → Bool → F → Call F
  reconciled : ℕ → F → Call F
  asked : Call F

module _ {ℓ} {A : Type ℓ} where
  -- Equal counts drop the same.
  drop_at : {m n : ℕ} (xs : List A) → m ≡ n → drop m xs ≡ drop n xs
  drop_at xs e = ap (λ k. drop k xs) e

  drop_nil : (n : ℕ) → drop {A = A} n [] ≡ []
  drop_nil zero = refl
  drop_nil (suc n) = refl

  drop-append_le : (n : ℕ) (xs ys : List A) → n ≤ length xs → drop n (xs ++ ys) ≡ drop n xs ++ ys
  drop-append_le zero xs ys h = refl
  drop-append_le (suc n) [] ys h = absurd (omega arith)
  drop-append_le (suc n) (x ∷ xs) ys h = drop-append_le n xs ys (omega arith)

  drop-drop : (m n : ℕ) (xs : List A) → drop m (drop n xs) ≡ drop (n + m) xs
  drop-drop m zero xs = drop_at {m = m} {n = 0 + m} xs (omega arith)
  drop-drop zero (suc n) [] = drop_at {m = suc n} {n = suc n + 0} [] (omega arith)
  drop-drop (suc m) (suc n) [] = sym (drop_nil (suc n + suc m))
  drop-drop m (suc n) (x ∷ xs) =
      drop-drop m n xs ∙ drop_at {m = suc (n + m)} {n = suc n + m} (x ∷ xs) (omega arith)

  -- A window that is filled one by one holds the last entries of all.
  push-keep_last :
      (n : ℕ) (x : A) (xs : List A) → push n x (keep_last n xs) ≡ keep_last n (xs ++ x ∷ [])
  push-keep_last n x xs = elim (dec_le n (length xs)) [
    | yes h ↦
        let k = length xs - n in
        let e : length (keep_last n xs ++ x ∷ []) - n ≡ 1 =
          omega (arith, length-append (keep_last n xs) (x ∷ []), length-drop (length xs - n) xs) in
        let f : k + 1 ≡ length (xs ++ x ∷ []) - n = omega (arith, length-append xs (x ∷ [])) in
        drop_at (keep_last n xs ++ x ∷ []) e
        ∙ (ap (drop 1) (sym (drop-append_le k xs (x ∷ []) (omega arith)))
            ∙ (drop-drop 1 k (xs ++ x ∷ []) ∙ drop_at (xs ++ x ∷ []) f))
    | no h ↦ let e : length xs - n ≡ 0 = omega arith in ap (push n x) (drop_at xs e)
  ]

  push_kept :
      {n : ℕ} {old : List A} (k : ℕ) (x : A) (xs : List A)
      → n ≡ k
      → old ≡ keep_last k xs
      → push n x old ≡ keep_last k (xs ++ x ∷ [])
  push_kept k x xs e f = rw (e, f) (push-keep_last k x xs)

module _ {F : Type 0} where
  unfoldable pub latencies_of : List (Call F) → List F
  latencies_of [] = []
  latencies_of (heard l ∷ cs) = l ∷ latencies_of cs
  latencies_of (_ ∷ cs) = latencies_of cs

  unfoldable pub results_of : List (Call F) → List (OrderRecord F)
  results_of [] = []
  results_of (ordered now success l ∷ cs) =
      record { success = success; latency_ms = l; timestamp = now } ∷ results_of cs
  results_of (_ ∷ cs) = results_of cs

  unfoldable pub drift_of : F → List (Call F) → F
  drift_of drift [] = drift
  drift_of drift (reconciled now d ∷ cs) = drift_of d cs
  drift_of drift (_ ∷ cs) = drift_of drift cs

module _ {F : Type 0} ⦃fl : FloatOps F⦄ where
  unfoldable pub step : Call F → ExecHealthMonitor F → ExecHealthMonitor F
  step (heard l) m = record_ws_latency l m
  step (ordered now success l) m = record_order_result now success l m
  step (reconciled now d) m = record_reconcile_drift now d m
  step asked m = (should_enter_safe m).1

  unfoldable pub run : List (Call F) → ExecHealthMonitor F → ExecHealthMonitor F
  run [] m = m
  run (c ∷ cs) m = run cs (step c m)

  -- What the monitor holds, from what has been recorded.
  record Tells (limits : HealthLimits F) (ls : List F) (rs : List (OrderRecord F)) (d : F)
      (m : ExecHealthMonitor F) : Type 0 where
    config_kept : m.config ≡ limits
    latencies_kept : m.ws_latencies ≡ keep_last limits.exec_health_window ls
    records_kept : m.order_records ≡ keep_last limits.exec_health_window rs
    drift_kept : m.last_drift ≡ d

  run-Tells :
      (cs : List (Call F)) (limits : HealthLimits F) (ls : List F) (rs : List (OrderRecord F))
      (d : F) (m : ExecHealthMonitor F)
      → Tells limits ls rs d m
      → Tells limits (ls ++ latencies_of cs) (rs ++ results_of cs) (drift_of d cs) (run cs m)
  unfolding run step latencies_of results_of drift_of record_ws_latency record_order_result
      record_reconcile_drift should_enter_safe get_health
  run-Tells [] limits ls rs d m t = rw (append-nil ls, append-nil rs) t
  run-Tells (heard l ∷ cs) limits ls rs d m t = rw (← append_assoc ls (l ∷ []) (latencies_of cs)) (
      run-Tells cs limits (ls ++ l ∷ []) rs d (record_ws_latency l m) record {
        config_kept = t.config_kept;
        latencies_kept =
            push_kept limits.exec_health_window l ls (ap (λ c. c.exec_health_window) t.config_kept)
              t.latencies_kept;
        records_kept = t.records_kept;
        drift_kept = t.drift_kept;
      })
  run-Tells (ordered now success l ∷ cs) limits ls rs d m t =
      let r : OrderRecord F = record { success = success; latency_ms = l; timestamp = now } in
      rw (← append_assoc rs (r ∷ []) (results_of cs)) (
        run-Tells cs limits ls (rs ++ r ∷ []) d (record_order_result now success l m) record {
          config_kept = t.config_kept;
          latencies_kept = t.latencies_kept;
          records_kept =
              push_kept limits.exec_health_window r rs
                (ap (λ c. c.exec_health_window) t.config_kept) t.records_kept;
          drift_kept = t.drift_kept;
        })
  run-Tells (reconciled now e ∷ cs) limits ls rs d m t =
      run-Tells cs limits ls rs e (record_reconcile_drift now e m) record {
        config_kept = t.config_kept;
        latencies_kept = t.latencies_kept;
        records_kept = t.records_kept;
        drift_kept = refl;
      }
  run-Tells (asked ∷ cs) limits ls rs d m t =
      run-Tells cs limits ls rs d ((should_enter_safe m).1) record {
        config_kept = ground (arith, t.config_kept);
        latencies_kept = ground (arith, t.latencies_kept);
        records_kept = ground (arith, t.records_kept);
        drift_kept = ground (arith, t.drift_kept);
      }

  enters_iff :
      (limits : HealthLimits F) (ls : List F) (rs : List (OrderRecord F)) (d : F)
      (m : ExecHealthMonitor F)
      → Tells limits ls rs d m
      → (should_enter_safe m).0.0 ≡ (
          fle limits.exec_ws_latency_safe_ms (mean_or_zero (keep_last limits.exec_health_window ls))
          || (fle limits.exec_order_failure_rate_max
                (failure_rate (keep_last limits.exec_health_window rs))
              || fle limits.exec_reconcile_drift_max (fabs d)))
  unfolding should_enter_safe get_health health_of
  enters_iff limits ls rs d m t =
      rw (t.config_kept, t.latencies_kept, t.records_kept, t.drift_kept) (ground arith)

  -- After any calls on a new monitor, the answer is SAFE exactly if the mean of the last latencies,
  -- the share of failures among the last orders or the size of the last drift is at its limit or
  -- above; the last ones are as many as the window, whatever was recorded before them.
  pub run-enters_safe :
      (cs : List (Call F)) (limits : HealthLimits F)
      → (should_enter_safe (run cs (init limits))).0.0 ≡ (
          fle limits.exec_ws_latency_safe_ms
            (mean_or_zero (keep_last limits.exec_health_window (latencies_of cs)))
          || (fle limits.exec_order_failure_rate_max
                (failure_rate (keep_last limits.exec_health_window (results_of cs)))
              || fle limits.exec_reconcile_drift_max (fabs (drift_of fzero cs))))
  unfolding init
  run-enters_safe cs limits =
      enters_iff limits (latencies_of cs) (results_of cs) (drift_of fzero cs) (run cs (init limits))
        (run-Tells cs limits [] [] fzero (init limits) record {
          config_kept = refl;
          latencies_kept = sym (drop_nil (0 - limits.exec_health_window));
          records_kept = sym (drop_nil (0 - limits.exec_health_window));
          drift_kept = refl;
        })
