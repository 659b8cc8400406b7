-- ===== src/Ledger/Days.antt =====
-- What holds of the statistics of every day, after any calls of the ledger.
use stock_test.Base.{ℕ, ◌≡◌, refl, true, Option, none, some, List, [], ◌∷◌, ◌++◌, All, arith}
use stock_test.Float.{FloatOps, FloatOrder, fzero, fle}
use stock_test.Dict.{All-put, All-lookup}
use stock_test.Ledger.{
  Trade, DailyStats, Ledger, fresh_stats, init, today_stats, with_stats, count_trade, record_trade,
  follow_equity, update_equity, new_day, strategy_named,
}

-- A call, with the day, and the time for a trade
pub data Call (F : Type 0) : Type 0 where
  record_call : ℕ → ℕ → Trade F → Call F
  equity_call : ℕ → F → Call F
  day_call : ℕ → Option F → Call F

module _ {F : Type 0} ⦃fl : FloatOps F⦄ where
  unfoldable pub apply : Call F → Ledger F → Ledger F
  apply (record_call now today t) l = (record_trade now today t l).0
  apply (equity_call today equity) l = update_equity today equity l
  apply (day_call today equity) l = new_day today equity l

  unfoldable pub run : List (Call F) → Ledger F → Ledger F
  run [] l = l
  run (c ∷ cs) l = run cs (apply c l)

  -- A property of the statistics of every day
  abbrev pub EachDay : (DailyStats F → Type 0) → Ledger F → Type 0
  EachDay P l = All (λ (e : ℕ × DailyStats F). P e.1) l.daily_stats

  -- What calls have to preserve, for a property of statistics to hold of each day.
  pub record Preserved (P : DailyStats F → Type 0) : Type 0 where
    pub fresh : (day : ℕ) (equity : F) → P (fresh_stats day equity)
    pub counts : (t : Trade F) (s : DailyStats F) → P s → P (count_trade t s)
    pub follows : (equity : F) (s : DailyStats F) → P s → P (follow_equity equity s)

  with_stats-EachDay :
      (P : DailyStats F → Type 0) (today : ℕ) (change : DailyStats F → DailyStats F) (l : Ledger F)
      → Preserved P
      → ((s : DailyStats F) → P s → P (change s))
      → EachDay P l
      → EachDay P (with_stats today change l)
  unfolding with_stats today_stats
  with_stats-EachDay P today change l k f all =
      let start = fresh_stats today l.current_equity in
      let held = All-lookup P today start l.daily_stats (k.fresh today l.current_equity) all in
      All-put P today (change (today_stats today l)) l.daily_stats (f (today_stats today l) held)
        all

  apply-EachDay :
      (P : DailyStats F → Type 0) (c : Call F) (l : Ledger F)
      → Preserved P
      → EachDay P l
      → EachDay P (apply c l)
  unfolding apply record_trade strategy_named update_equity new_day
  apply-EachDay P (record_call now today t) l k all =
      let trade : Trade F = record t { executed_at = now } in
      with_stats-EachDay P today (count_trade trade) (record l { trades = l.trades ++ trade ∷ [] })
        k (k.counts trade) all
  apply-EachDay P (equity_call today equity) l k all =
      with_stats-EachDay P today (follow_equity equity) (record l { current_equity = equity }) k
        (k.follows equity) all
  apply-EachDay P (day_call today none) l k all =
      All-put P today (fresh_stats today l.current_equity) l.daily_stats
        (k.fresh today l.current_equity) all
  apply-EachDay P (day_call today (some equity)) l k all =
      All-put P today (fresh_stats today equity) l.daily_stats (k.fresh today equity) all

  run-EachDay :
      (P : DailyStats F → Type 0) (cs : List (Call F)) (l : Ledger F)
      → Preserved P
      → EachDay P l
      → EachDay P (run cs l)
  unfolding run
  run-EachDay P [] l k all = all
  run-EachDay P (c ∷ cs) l k all = run-EachDay P cs (apply c l) k (apply-EachDay P c l k all)

  -- The result is not split.
  abbrev pub IsUnsplit : DailyStats F → Type 0
  IsUnsplit s = (s.core_pnl ≡ fzero) × (s.satellite_pnl ≡ fzero)

  IsUnsplit-Preserved : Preserved IsUnsplit
  unfolding fresh_stats count_trade follow_equity
  IsUnsplit-Preserved = record {
    fresh = λ day equity. (refl, refl);
    counts = λ t s h. h;
    follows = λ equity s h. h;
  }

  -- After any calls on a new ledger, those of `record_trade` included, the core and the satellite
  -- result of every day are 0.
  pub run-IsUnsplit :
      (today : ℕ) (equity : F) (cs : List (Call F)) → EachDay IsUnsplit (run cs (init today equity))
  unfolding init
  run-IsUnsplit today equity cs =
      run-EachDay IsUnsplit cs (init today equity) IsUnsplit-Preserved
        (IsUnsplit-Preserved.fresh today equity, tt)

  -- The equity of the day lies between its extremes, which enclose its start too.
  abbrev pub IsEnclosed : DailyStats F → Type 0
  IsEnclosed s =
      (fle s.min_equity s.current_equity ≡ true)
      × (fle s.current_equity s.max_equity ≡ true)
      × (fle s.min_equity s.starting_equity ≡ true)
      × (fle s.starting_equity s.max_equity ≡ true)

  follow-IsEnclosed :
      (o : FloatOrder F) (equity : F) (s : DailyStats F)
      → IsEnclosed s
      → IsEnclosed (follow_equity equity s)
  unfolding follow_equity
  follow-IsEnclosed o equity s h = ground (
    arith,
    h,
    o.leb_refl equity,
    o.ltb-not-leb s.max_equity equity,
    o.ltb-not-leb equity s.min_equity,
    o.leb_total s.max_equity equity,
    o.leb_total equity s.min_equity,
    o.leb_trans s.starting_equity s.max_equity equity h.3,
    o.leb_trans equity s.min_equity s.starting_equity,
  )

  -- After any calls on a new ledger the equity of every day, and its start, lie between the lowest
  -- and the highest equity of the day. (Numbers in a total order.)
  pub run-IsEnclosed :
      (o : FloatOrder F) (today : ℕ) (equity : F) (cs : List (Call F))
      → EachDay IsEnclosed (run cs (init today equity))
  unfolding init fresh_stats count_trade
  run-IsEnclosed o today equity cs =
      let at : (e : F) → IsEnclosed (fresh_stats 0 e) =
        λ e. (o.leb_refl e, o.leb_refl e, o.leb_refl e, o.leb_refl e) in
      run-EachDay IsEnclosed cs (init today equity)
        (record {
          fresh = λ day e. at e;
          counts = λ t s h. h;
          follows = λ e s h. follow-IsEnclosed o e s h;
        })
        (at equity, tt)
