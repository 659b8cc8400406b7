-- ===== src/Hysteresis/Switch.antt =====
-- When the profile of the capital switches, what keeps it from switching back, and what becomes of
-- a forced mode.
use Prim.Native.String.{String}
use mathlib.Core.Path.{subst}
use stock_test.Base.{
  ℕ, zero, suc, ◌+◌, ◌≤◌, ◌<◌, ◌≡◌, refl, ◌↔◌, Bool, true, false, List, [], ◌∷◌, All, arith, length,
  take, reverse,
}
use stock_test.Float.{FloatOps, FloatOrder, flt}
use stock_test.Hysteresis.{
  CapitalMode, growth, preserve, DailyEquityRecord, HysteresisState, Limits, has_date, put_record,
  streak, check_transition, force_mode, daily_record, record_daily_equity,
}
use stock_test.Hysteresis.Streaks.{LastAll, streak_iff, kept, put_record-reverse, streak-take}

first_passes {ℓ} :
    {A : Type ℓ} (n : ℕ) (p : A → Bool) (x : A) (xs : List A)
    → 0 < n
    → All (λ a. p a ≡ true) (take n (x ∷ xs))
    → p x ≡ true
first_passes zero p x xs h a = absurd (omega arith)
first_passes (suc n) p x xs h a = a.0

module _ {F : Type 0} ⦃fl : FloatOps F⦄ where
  -- The history that a call of `record_daily_equity` leaves.
  abbrev pub next_history : Limits F → F → ℕ → HysteresisState F → List (DailyEquityRecord F)
  next_history l equity date s = put_record (daily_record l equity date s.current_mode) s.history

  -- What a history calls for: from growth, that the last `preserve_days` records all reach the
  -- threshold, and from preserve, that the last `growth_days` records are all at or below the lower
  -- one.
  abbrev pub IsDue : Limits F → CapitalMode → List (DailyEquityRecord F) → Type 0
  IsDue l growth h = LastAll l.preserve_days (λ r. r.meets_preserve_threshold) h
  IsDue l preserve h = LastAll l.growth_days (λ r. r.meets_growth_threshold) h

  -- From growth, a history that calls for the switch is what leads to preserve.
  pub preserve_iff :
      (l : Limits F) (equity : F) (date : ℕ) (s : HysteresisState F)
      → s.current_mode ≡ growth
      → ((record_daily_equity l equity date s).0.current_mode ≡ preserve)
        ↔ IsDue l growth (next_history l equity date s)
  unfolding record_daily_equity check_transition
  preserve_iff l equity date s g =
      let h = next_history l equity date s in
      let p = λ (r : DailyEquityRecord F). r.meets_preserve_threshold in
      ground (arith, g, streak_iff l.preserve_days p (reverse h))

  -- Records in turn: the equity and its date.
  unfoldable pub run : Limits F → List (F × ℕ) → HysteresisState F → HysteresisState F
  run l [] s = s
  run l ((equity, date) ∷ es) s = run l es (record_daily_equity l equity date s).0

  -- No date of the records is in the history when its record is made.
  abbrev pub AllNew : Limits F → List (F × ℕ) → HysteresisState F → Type 0
  AllNew l [] s = Unit
  AllNew l ((equity, date) ∷ es) s =
      (has_date date s.history ≡ false) × AllNew l es (record_daily_equity l equity date s).0

  abbrev growth_streak : HysteresisState F → ℕ
  growth_streak s = streak (λ r. r.meets_growth_threshold) (reverse s.history)

  history_after :
      (l : Limits F) (equity : F) (date : ℕ) (s : HysteresisState F)
      → (record_daily_equity l equity date s).0.history ≡ next_history l equity date s
  unfolding record_daily_equity check_transition
  history_after l equity date s = ground arith

  growth_streak_step :
      (l : Limits F) (equity : F) (date : ℕ) (s : HysteresisState F)
      → has_date date s.history ≡ false
      → growth_streak (record_daily_equity l equity date s).0 ≤ growth_streak s + 1
  unfolding streak daily_record
  growth_streak_step l equity date s new =
      let r = daily_record l equity date s.current_mode in
      rw (history_after l equity date s, put_record-reverse r s.history new)
        (ground (
          arith,
          streak-take (λ (r : DailyEquityRecord F). r.meets_growth_threshold) (kept s.history)
              (reverse s.history),
        ))

  preserve_step :
      (l : Limits F) (equity : F) (date : ℕ) (s : HysteresisState F)
      → s.current_mode ≡ preserve
      → growth_streak (record_daily_equity l equity date s).0 < l.growth_days
      → (record_daily_equity l equity date s).0.current_mode ≡ preserve
  unfolding record_daily_equity check_transition
  preserve_step l equity date s p h = ground arith

  preserve_lasts :
      (l : Limits F) (es : List (F × ℕ)) (s : HysteresisState F)
      → s.current_mode ≡ preserve
      → AllNew l es s
      → growth_streak s + length es < l.growth_days
      → (run l es s).current_mode ≡ preserve
  unfolding run
  preserve_lasts l [] s p new h = p
  preserve_lasts l ((equity, date) ∷ es) s p new h =
      let s' = (record_daily_equity l equity date s).0 in
      let g = growth_streak_step l equity date s new.0 in
      preserve_lasts l es s' (preserve_step l equity date s p (omega (arith, g))) new.1
        (omega (arith, g))

  -- The record that switches to preserve ends every run of low days.
  switch_resets :
      (o : FloatOrder F) (l : Limits F) (equity : F) (date : ℕ) (s : HysteresisState F)
      → 0 < l.preserve_days
      → flt l.lower_threshold_krw l.threshold_krw ≡ true
      → has_date date s.history ≡ false
      → s.current_mode ≡ growth
      → (record_daily_equity l equity date s).0.current_mode ≡ preserve
      → growth_streak (record_daily_equity l equity date s).0 ≡ 0
  unfolding streak daily_record
  switch_resets o l equity date s days apart new g p =
      let r = daily_record l equity date s.current_mode in
      let e = put_record-reverse r s.history new in
      let all = (preserve_iff l equity date s g).0 p in
      let high =
        first_passes l.preserve_days (λ r. r.meets_preserve_threshold) r
          (take (kept s.history) (reverse s.history)) days
          (subst
            (λ xs.
              All (λ (q : DailyEquityRecord F). q.meets_preserve_threshold ≡ true)
                (take l.preserve_days xs))
            e all.1) in
      let below = o.leb_trans l.threshold_krw equity l.lower_threshold_krw high in
      rw (history_after l equity date s, e)
        (ground (arith, below, o.ltb-not-leb l.lower_threshold_krw l.threshold_krw))

  -- Where the lower threshold is below the upper one and `preserve_days` is not 0: a switch from
  -- growth to preserve, by a record on a new date, is not undone by the next records on new dates, whatever their equities, as
  -- long as they are fewer than `growth_days`. (Numbers in a total order.)
  pub no_flip_back :
      (o : FloatOrder F) (l : Limits F) (equity : F) (date : ℕ) (es : List (F × ℕ))
      (s : HysteresisState F)
      → 0 < l.preserve_days
      → flt l.lower_threshold_krw l.threshold_krw ≡ true
      → AllNew l ((equity, date) ∷ es) s
      → s.current_mode ≡ growth
      → (record_daily_equity l equity date s).0.current_mode ≡ preserve
      → length es < l.growth_days
      → (run l ((equity, date) ∷ es) s).current_mode ≡ preserve
  unfolding run
  no_flip_back o l equity date es s days apart new g p short =
      let zero_streak = switch_resets o l equity date s days apart new.0 g p in
      preserve_lasts l es (record_daily_equity l equity date s).0 p new.1
        (omega (arith, zero_streak))

  counts_ignore_force :
      (l : Limits F) (equity : F) (date today : ℕ) (mode : CapitalMode) (why : String)
      (s : HysteresisState F)
      → has_date date s.history ≡ false
      → streak
          (λ r. r.meets_preserve_threshold)
          (reverse (next_history l equity date (force_mode today mode why s)))
        ≡ streak (λ r. r.meets_preserve_threshold) (reverse (next_history l equity date s))
  unfolding force_mode streak daily_record
  counts_ignore_force l equity date today mode why s new = rw (
    put_record-reverse (daily_record l equity date mode) s.history new,
    put_record-reverse (daily_record l equity date s.current_mode) s.history new,
  )

  -- A forced return to growth is undone by the next record on a new date, if with it the last
  -- `preserve_days` records reach the threshold: the counters that `force_mode` sets to 0 are
  -- counted anew from the history, which it keeps.
  pub force_undone :
      (l : Limits F) (equity : F) (date today : ℕ) (why : String) (s : HysteresisState F)
      → has_date date s.history ≡ false
      → LastAll l.preserve_days (λ r. r.meets_preserve_threshold) (next_history l equity date s)
      → (record_daily_equity l equity date (force_mode today growth why s)).0.current_mode
        ≡ preserve
  unfolding force_mode
  force_undone l equity date today why s new all =
      let p = λ (r : DailyEquityRecord F). r.meets_preserve_threshold in
      let f = force_mode today growth why s in
      let enough = (streak_iff l.preserve_days p (reverse (next_history l equity date s))).1 all in
      (preserve_iff l equity date f refl).1 (
        (streak_iff l.preserve_days p (reverse (next_history l equity date f))).0
          (rw (counts_ignore_force l equity date today growth why s new) enough))
