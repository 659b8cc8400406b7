-- ===== src/Watchdog/Pass.antt =====
-- A pass over the positions, of server/src/risk/stop_watchdog.py, as one step: what the clock and the
-- exchange answer for each position during it is the parameter `read`, `start` is the time that it
-- starts at, and no other coroutine runs
-- between its awaits. The events that it returns are those handed to the callback, where one is set.
use stock_test.Base.{
  ℕ, ◌+◌, Bool, true, false, Option, none, some, List, [], ◌∷◌, ◌++◌, if◌then◌else◌,
}
use stock_test.Float.{FloatOps, fzero, sub, div, feq}
use stock_test.Dict.{Dict, put, remove}
use stock_test.Watchdog.State.{
  WatchedPosition, StopEvent, Stats, StopWatchdog, Reading, Verdict, hold, raised, trigger, Stop,
}
use stock_test.Watchdog.Checks.{get_current_price, detect_fast_crash, judge}

-- What the loop of `_check_all_positions` has so far: the watchdog, the stops to trigger, and
-- whether an exception has ended it.
abbrev pub Progress : Type 0 → Type 0
Progress F = StopWatchdog F × List (Stop F) × Bool

abbrev pub count_crash : Bool → Stats → Stats
count_crash crash st =
    if crash then record st { fast_crashes_detected = st.fast_crashes_detected + 1 } else st

module _ {F : Type 0} ⦃fl : FloatOps F⦄ where
  -- One round of the loop, on the watchdog.
  unfoldable pub check_position :
      ℕ
      → Reading F
      → ℕ
      → WatchedPosition F
      → StopWatchdog F
      → Option (WatchedPosition F × F × Verdict) × StopWatchdog F
  check_position start r id p w =
      let (price?, w₁) = get_current_price r p.symbol w in
      elim price? [
        | none ↦ (none, w₁)
        | some price ↦
            let crash = detect_fast_crash r.now p.symbol price w₁ in
            let (p', verdict) = judge start price crash p in
            (
              some (p', price, verdict),
              record w₁ { positions = put id p' w₁.positions; stats = count_crash crash w₁.stats },
            )
      ]

  -- The loop. Where a check raises, the stops found before are lost with it.
  unfoldable pub check_loop :
      ℕ → (ℕ → Reading F) → Dict (WatchedPosition F) → Progress F → Progress F
  check_loop start read [] s = s
  check_loop start read (e ∷ ps) (w, stops, broken) =
      let (found, w') = check_position start (read e.0) e.0 e.1 w in
      elim found [
        | none ↦ check_loop start read ps (w', stops, broken)
        | some (p', price, verdict) ↦ elim verdict [
          | hold ↦ check_loop start read ps (w', stops, broken)
          | trigger ty ↦
              check_loop start read ps
                (w', stops ++ record { position = p'; price = price; stop_type = ty } ∷ [], broken)
          | raised ↦ (w', [], true)
        ]
      ]

  -- `_execute_stop`: the event, or none where the division by the entry price raises
  unfoldable pub execute_stop : Stop F → StopWatchdog F → Option (StopEvent F) × StopWatchdog F
  execute_stop s w =
      let p = s.position in
      if feq p.entry_price fzero then (none, w) else (
        some (record {
          symbol = p.symbol;
          position_id = p.position_id;
          stop_type = s.stop_type;
          trigger_price = s.price;
          stop_price = p.stop_price;
          entry_price = p.entry_price;
          quantity = p.quantity;
          pnl_pct = div (sub s.price p.entry_price) p.entry_price;
        }),
        record w {
          positions = remove p.position_id w.positions;
          stats = record (w.stats) { stops_triggered = w.stats.stops_triggered + 1 };
        },
      )

  -- The stops are executed in turn, up to the first that raises; with the events, the watchdog and
  -- whether one has raised.
  unfoldable pub execute_stops :
      List (Stop F) → StopWatchdog F → List (StopEvent F) × StopWatchdog F × Bool
  execute_stops [] w = ([], w, false)
  execute_stops (s ∷ ss) w =
      let (event, w') = execute_stop s w in
      let (events, w'', broken) = execute_stops ss w' in
      elim event [ none ↦ ([], w', true) | some e ↦ (e ∷ events, w'', broken) ]

  -- `_check_all_positions`
  unfoldable pub check_all_positions :
      ℕ → (ℕ → Reading F) → StopWatchdog F → List (StopEvent F) × StopWatchdog F × Bool
  check_all_positions start read w =
      let (w', stops, broken) = check_loop start read w.positions (w, [], false) in
      if broken then ([], w', true) else execute_stops stops w'

  -- One round of `_run_loop`, which logs an exception of the pass and goes on.
  unfoldable pub loop_once :
      ℕ → (ℕ → Reading F) → StopWatchdog F → List (StopEvent F) × StopWatchdog F
  unfolding check_all_positions
  loop_once start read w =
      let (events, w', broken) = check_all_positions start read w in
      (
        events,
        if broken
            then w'
            else record w' { stats = record (w'.stats) { loops = w'.stats.loops + 1 } },
      )
