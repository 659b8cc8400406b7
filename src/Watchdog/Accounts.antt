-- ===== src/Watchdog/Accounts.antt =====
-- What a pass does to the set of watched positions and to the counters, and the bound on the price
-- histories.
use stock_test.Base.{
  ℕ, ◌+◌, ◌≤◌, ◌≡◌, refl, ◌∙◌, Bool, true, false, not, List, [], ◌∷◌, ◌++◌, ◌&&◌, ◌==◌, All, any,
  arith, Bool-cases, Option-cases, length, length-take_last, inl, inr,
}
use stock_test.Float.{FloatOps}
use stock_test.Dict.{All-put, Dict, lookup, has_key, lookup-put, lookup-remove}
use stock_test.Watchdog.State.{
  WatchedPosition, PriceSnapshot, StopEvent, StopWatchdog, Reading, Stop, hold, raised, trigger,
  add_position, push_snapshot, update_price,
}
use stock_test.Watchdog.Checks.{get_current_price, detect_fast_crash, judge}
use stock_test.Watchdog.Pass.{
  check_position, check_loop, execute_stop, execute_stops, check_all_positions,
}

-- A key that is there is equal to no key that is not.
same_key :
    {V : Type 0} (id j : ℕ) (d : Dict V)
    → has_key id d ≡ true
    → (id == j) ≡ true
    → has_key j d ≡ true
same_key id j d h e = ground arith

module _ {V : Type 0} where
  -- Every key of the list is in the dictionary.
  abbrev Within : Dict V → Dict V → Type 0
  Within ps d = All (λ (e : ℕ × V). has_key e.0 d ≡ true) ps

  Within-cons : (ps d : Dict V) (x : ℕ × V) → Within ps d → Within ps (x ∷ d)
  Within-cons [] d x h = tt
  Within-cons (e ∷ ps) d x h = (ground (arith, h.0), Within-cons ps d x h.1)

  Within-self : (d : Dict V) → Within d d
  Within-self [] = tt
  Within-self (e ∷ d) = (ground arith, Within-cons d d e (Within-self d))

  Within-same :
      (ps d d' : Dict V) → ((j : ℕ) → has_key j d' ≡ has_key j d) → Within ps d → Within ps d'
  Within-same [] d d' same h = tt
  Within-same (e ∷ ps) d d' same h = (same e.0 ∙ h.0, Within-same ps d d' same h.1)

module _ {F : Type 0} ⦃fl : FloatOps F⦄ where
  -- Whether some event is about the position.
  abbrev pub stopped : ℕ → List (StopEvent F) → Bool
  stopped id = any (λ e. e.position_id == id)

  price_keeps :
      (r : Reading F) (symbol : ℕ) (w : StopWatchdog F)
      → let w' = (get_current_price r symbol w).1 in
        (w'.positions ≡ w.positions) × (w'.stats.stops_triggered ≡ w.stats.stops_triggered)
  unfolding get_current_price
  price_keeps r symbol w = ground arith

  check_keeps :
      (start : ℕ) (r : Reading F) (id j : ℕ) (p : WatchedPosition F) (w : StopWatchdog F)
      → has_key id w.positions ≡ true
      → let w' = (check_position start r id p w).1 in
        (has_key j w'.positions ≡ has_key j w.positions)
        × (w'.stats.stops_triggered ≡ w.stats.stops_triggered)
  unfolding check_position
  check_keeps start r id j p w h =
      let w₁ = (get_current_price r p.symbol w).1 in
      let kept = price_keeps r p.symbol w in
      elim (Option-cases (get_current_price r p.symbol w).0) [
        | inl unknown ↦ ground (arith, kept)
        | inr (price, e) ↦
            let crash = detect_fast_crash r.now p.symbol price w₁ in
            ground (
              arith,
              kept,
              same_key id j w.positions h,
              lookup-put id j (judge start price crash p).0 w₁.positions,
            )
      ]

  execute_accounts :
      (ss : List (Stop F)) (w : StopWatchdog F) (j : ℕ)
      → let (events, w', broken) = execute_stops ss w in
        (has_key j w'.positions ≡ (has_key j w.positions && not (stopped j events)))
        × (w'.stats.stops_triggered ≡ w.stats.stops_triggered + length events)
  unfolding execute_stops execute_stop
  execute_accounts [] w j = ground arith
  execute_accounts (s ∷ ss) w j = ground (
    arith,
    execute_accounts ss (execute_stop s w).1 j,
    lookup-remove s.position.position_id j w.positions,
  )

  loop_keeps :
      (start : ℕ) (read : ℕ → Reading F) (ps : Dict (WatchedPosition F)) (w : StopWatchdog F)
      (stops : List (Stop F)) (broken : Bool) (j : ℕ)
      → Within ps w.positions
      → let w' = (check_loop start read ps (w, stops, broken)).0 in
        (has_key j w'.positions ≡ has_key j w.positions)
        × (w'.stats.stops_triggered ≡ w.stats.stops_triggered)
  unfolding check_loop
  loop_keeps start read [] w stops broken j h = (refl, refl)
  loop_keeps start read (e ∷ ps) w stops broken j h =
      let r = check_position start (read e.0) e.0 e.1 w in
      let w' = r.1 in
      let keeps = λ (i : ℕ). check_keeps start (read e.0) e.0 i e.1 w h.0 in
      let inside = Within-same ps w.positions w'.positions (λ i. (keeps i).0) h.1 in
      let later = λ (ss : List (Stop F)). loop_keeps start read ps w' ss broken j inside in
      let here = keeps j in
      elim (Option-cases r.0) [
        | inl unknown ↦
            rw (unknown, check_loop) ((later stops).0 ∙ here.0, (later stops).1 ∙ here.1)
        | inr ((p', price, hold), e') ↦
            rw (e', check_loop) ((later stops).0 ∙ here.0, (later stops).1 ∙ here.1)
        | inr ((p', price, raised), e') ↦ rw (e', check_loop) here
        | inr ((p', price, trigger ty), e') ↦
            let ss = stops ++ record { position = p'; price = price; stop_type = ty } ∷ [] in
            rw (e', check_loop) ((later ss).0 ∙ here.0, (later ss).1 ∙ here.1)
      ]

  -- A pass over all positions removes from the watch exactly the positions that it hands an event
  -- for, adds none, and counts each event; so too where an exception cuts it short.
  pub pass_accounts :
      (start : ℕ) (read : ℕ → Reading F) (w : StopWatchdog F) (j : ℕ)
      → let (events, w', broken) = check_all_positions start read w in
        (has_key j w'.positions ≡ (has_key j w.positions && not (stopped j events)))
        × (w'.stats.stops_triggered ≡ w.stats.stops_triggered + length events)
  unfolding check_all_positions
  pass_accounts start read w j =
      let s = check_loop start read w.positions (w, [], false) in
      ground (
        arith,
        loop_keeps start read w.positions w [] false j (Within-self w.positions),
        execute_accounts s.1 s.0 j,
      )

  -- No symbol has more than 50 snapshots.
  abbrev pub IsBounded : StopWatchdog F → Type 0
  IsBounded w = All (λ (e : ℕ × List (PriceSnapshot F)). length e.1 ≤ 50) w.price_history

  -- With at most 50 snapshots of each symbol kept, adding a position or a price from the stream
  -- keeps at most 50.
  pub prices-IsBounded :
      (now symbol : ℕ) (price : F) (p : WatchedPosition F) (w : StopWatchdog F)
      → IsBounded w
      → IsBounded (update_price now symbol price w) × IsBounded (add_position p w)
  unfolding update_price add_position push_snapshot
  prices-IsBounded now symbol price p w b =
      let snapshot : PriceSnapshot F = record { price = price; timestamp = now } in
      let short : List (PriceSnapshot F) → Type 0 = λ h. length h ≤ 50 in
      (
        elim (Option-cases (lookup symbol w.price_history)) [
          | inl unknown ↦ rw (unknown, update_price) b
          | inr (h, e) ↦
              rw (e, update_price)
                (All-put short symbol (push_snapshot snapshot h) w.price_history
                  (length-take_last 50 (h ++ snapshot ∷ []) (omega arith)) b)
        ],
        elim (Bool-cases (has_key p.symbol w.price_history)) [
          | inl old ↦ rw (old, add_position) b
          | inr new ↦
              rw (new, add_position) (All-put short p.symbol [] w.price_history (omega arith) b)
        ],
      )
