-- ===== src/Hysteresis.antt =====
-- server/src/risk/hysteresis_tracker.py: the switch between the growth and the preserve profile of
-- the capital. A date is the number of its day, of which the source's ISO text is a spelling. The
-- state file holds the dictionary that is written to it, and its JSON text is a parameter; that the
-- writing succeeds is not modelled.
pub mod Streaks
pub mod Switch
mod Tests
use Prim.Native.String.{String}
use text.Mathlib.Text.{◌==◌ as ◌=str◌}
use stock_test.Base.{
  any, not, map, ℕ, ◌+◌, Bool, true, false, Option, none, some, List, [], ◌∷◌, ◌++◌, ltb, leb, ◌==◌,
  if◌then◌else◌, length, take_last, reverse, is_some, get_or,
}
use stock_test.Float.{FloatOps, fle}

-- `CapitalMode`
pub data CapitalMode : Type 0 where
  growth preserve : CapitalMode

-- `mode.value`, and `CapitalMode(text)`, none where it raises
unfoldable pub mode_value : CapitalMode → String
mode_value growth = "GROWTH"
mode_value preserve = "PRESERVE"

unfoldable pub parse_mode : String → Option CapitalMode
parse_mode t =
    if t =str "GROWTH" then some growth else if t =str "PRESERVE" then some preserve else none

-- `DailyEquityRecord`
pub record DailyEquityRecord (F : Type 0) : Type 0 where
  pub date : ℕ
  pub equity : F
  pub mode_at_day_end : String
  pub meets_preserve_threshold : Bool
  pub meets_growth_threshold : Bool

-- The text of a transition, by the place that writes it.
pub data Reason : Type 0 where
  above_threshold below_lower_threshold : Reason
  forced : String → Reason

-- `HysteresisState`; the oldest record comes first.
pub record HysteresisState (F : Type 0) : Type 0 where
  pub current_mode : CapitalMode
  pub consecutive_preserve_days : ℕ
  pub consecutive_growth_days : ℕ
  pub last_transition_date : Option ℕ
  pub last_transition_reason : Option Reason
  pub history : List (DailyEquityRecord F)

-- A value in the dictionary of a record, of the kinds that are written
pub data Field (F : Type 0) : Type 0 where
  day : ℕ → Field F
  number : F → Field F
  words : String → Field F
  flag : Bool → Field F

-- The dictionary of a record
abbrev pub Fields : Type 0 → Type 0
Fields F = List (String × Field F)

-- What is written to the file, where each entry may be missing when it is read.
pub record StateDict (F : Type 0) : Type 0 where
  pub current_mode : Option String
  pub consecutive_preserve_days : Option ℕ
  pub consecutive_growth_days : Option ℕ
  pub last_transition_date : Option ℕ
  pub last_transition_reason : Option Reason
  pub history : Option (List (Fields F))

-- The settings of `HysteresisTracker`
pub record Limits (F : Type 0) : Type 0 where
  pub threshold_krw : F
  pub lower_threshold_krw : F
  pub preserve_days : ℕ
  pub growth_days : ℕ

-- The arguments of the constructor of a record
abbrev pub field_names : List String
field_names =
    "date" ∷ "equity" ∷ "mode_at_day_end" ∷ "meets_preserve_threshold" ∷ "meets_growth_threshold"
    ∷ []

module _ {F : Type 0} where
  abbrev pub fresh_state : HysteresisState F
  fresh_state = record {
    current_mode = growth;
    consecutive_preserve_days = 0;
    consecutive_growth_days = 0;
    last_transition_date = none;
    last_transition_reason = none;
    history = [];
  }

  -- `asdict`
  unfoldable pub asdict : DailyEquityRecord F → Fields F
  asdict r =
      ("date", day r.date)
      ∷ ("equity", number r.equity)
      ∷ ("mode_at_day_end", words r.mode_at_day_end)
      ∷ ("meets_preserve_threshold", flag r.meets_preserve_threshold)
      ∷ ("meets_growth_threshold", flag r.meets_growth_threshold)
      ∷ []

  abbrev pub field : String → Fields F → Option (Field F)
  field name [] = none
  field name (e ∷ h) = if e.0 =str name then some e.1 else field name h

  -- Whether a key is no argument of the constructor
  abbrev pub has_unexpected : Fields F → Bool
  has_unexpected h = any (λ e. not (any (λ n. n =str e.0) field_names)) h

  abbrev pub build :
      Option (Field F)
      → Option (Field F)
      → Option (Field F)
      → Option (Field F)
      → Option (Field F)
      → Option (DailyEquityRecord F)
  build (some (day d)) (some (number x)) (some (words m)) (some (flag p)) (some (flag g)) =
      some record {
        date = d;
        equity = x;
        mode_at_day_end = m;
        meets_preserve_threshold = p;
        meets_growth_threshold = g;
      }
  build _ _ _ _ _ = none

  -- `DailyEquityRecord(**h)`, none where a key is missing or unexpected, which raises; a value of
  -- another kind, which is never written, counts as missing.
  unfoldable pub from_fields : Fields F → Option (DailyEquityRecord F)
  from_fields h =
      if has_unexpected h
      then none
      else build (field "date" h) (field "equity" h) (field "mode_at_day_end" h)
          (field "meets_preserve_threshold" h) (field "meets_growth_threshold" h)

  abbrev pub both :
      Option (DailyEquityRecord F)
      → Option (List (DailyEquityRecord F))
      → Option (List (DailyEquityRecord F))
  both (some r) (some rs) = some (r ∷ rs)
  both _ _ = none

  unfoldable pub from_all : List (Fields F) → Option (List (DailyEquityRecord F))
  from_all [] = some []
  from_all (h ∷ hs) = both (from_fields h) (from_all hs)

  unfoldable pub to_dict : HysteresisState F → StateDict F
  to_dict s = record {
    current_mode = some (mode_value s.current_mode);
    consecutive_preserve_days = some s.consecutive_preserve_days;
    consecutive_growth_days = some s.consecutive_growth_days;
    last_transition_date = s.last_transition_date;
    last_transition_reason = s.last_transition_reason;
    history = some (map asdict (take_last 30 s.history));
  }

  abbrev pub restored :
      StateDict F
      → Option (List (DailyEquityRecord F))
      → Option CapitalMode
      → Option (HysteresisState F)
  restored d (some rs) (some mode) = some record {
    current_mode = mode;
    consecutive_preserve_days = get_or d.consecutive_preserve_days 0;
    consecutive_growth_days = get_or d.consecutive_growth_days 0;
    last_transition_date = d.last_transition_date;
    last_transition_reason = d.last_transition_reason;
    history = rs;
  }
  restored d _ _ = none

  -- `from_dict`, none where it raises
  unfoldable pub from_dict : StateDict F → Option (HysteresisState F)
  from_dict d =
      restored d (from_all (get_or d.history [])) (parse_mode (get_or d.current_mode "GROWTH"))

  -- `_load_state`, from the content of the file, if there is one: what `json.load` makes of it is the
  -- parameter `parse`, and an exception leads to a fresh state.
  unfoldable pub load_state :
      {T : Type 0} → (T → Option (StateDict F)) → Option T → HysteresisState F
  load_state parse none = fresh_state
  load_state parse (some t) = elim (parse t) [
    | none ↦ fresh_state
    | some d ↦ get_or (from_dict d) fresh_state
  ]

  -- Whether some record has the date.
  unfoldable pub has_date : ℕ → List (DailyEquityRecord F) → Bool
  has_date d [] = false
  has_date d (r ∷ rs) = if r.date == d then true else has_date d rs

  -- The first record of the date is replaced.
  unfoldable pub replace_date :
      ℕ → DailyEquityRecord F → List (DailyEquityRecord F) → List (DailyEquityRecord F)
  replace_date d new [] = []
  replace_date d new (r ∷ rs) = if r.date == d then new ∷ rs else r ∷ replace_date d new rs

  -- The part of `record_daily_equity` that writes the history, with its limit of 30 records.
  unfoldable pub put_record :
      DailyEquityRecord F → List (DailyEquityRecord F) → List (DailyEquityRecord F)
  put_record new rs =
      let rs' = (if has_date new.date rs then replace_date new.date new rs else rs ++ new ∷ []) in
      if ltb 30 (length rs') then take_last 30 rs' else rs'

  -- How many records from the front pass the test, up to the first that does not.
  unfoldable pub streak : (DailyEquityRecord F → Bool) → List (DailyEquityRecord F) → ℕ
  streak p [] = 0
  streak p (r ∷ rs) = if p r then streak p rs + 1 else 0

  -- `_update_consecutive_days`
  unfoldable pub update_consecutive_days : HysteresisState F → HysteresisState F
  update_consecutive_days s = record s {
    consecutive_preserve_days = streak (λ r. r.meets_preserve_threshold) (reverse s.history);
    consecutive_growth_days = streak (λ r. r.meets_growth_threshold) (reverse s.history);
  }

  -- `_check_transition`: the new mode with its reason, if there is a transition
  unfoldable pub check_transition :
      Limits F → CapitalMode → HysteresisState F → Option (CapitalMode × Reason)
  check_transition l growth s =
      if leb l.preserve_days s.consecutive_preserve_days
      then some (preserve, above_threshold)
      else none
  check_transition l preserve s =
      if leb l.growth_days s.consecutive_growth_days
      then some (growth, below_lower_threshold)
      else none

  -- The end of `record_daily_equity`: the transition, if any, is stored.
  unfoldable pub settle : ℕ → Option (CapitalMode × Reason) → HysteresisState F → HysteresisState F
  settle date none s = s
  settle date (some (mode, why)) s = record s {
    current_mode = mode;
    last_transition_date = some date;
    last_transition_reason = some why;
  }

  -- `force_mode`, with today's date
  unfoldable pub force_mode : ℕ → CapitalMode → String → HysteresisState F → HysteresisState F
  force_mode today mode why s = record s {
    current_mode = mode;
    last_transition_date = some today;
    last_transition_reason = some (forced why);
    consecutive_preserve_days = 0;
    consecutive_growth_days = 0;
  }

module _ {F : Type 0} ⦃fl : FloatOps F⦄ where
  -- The record of `record_daily_equity`
  unfoldable pub daily_record : Limits F → F → ℕ → CapitalMode → DailyEquityRecord F
  daily_record l equity date mode = record {
    date = date;
    equity = equity;
    mode_at_day_end = mode_value mode;
    meets_preserve_threshold = fle l.threshold_krw equity;
    meets_growth_threshold = fle equity l.lower_threshold_krw;
  }

  -- `record_daily_equity`: the state after it, and whether there was a transition
  unfoldable pub record_daily_equity :
      Limits F → F → ℕ → HysteresisState F → HysteresisState F × Bool
  unfolding update_consecutive_days settle daily_record
  record_daily_equity l equity date s =
      let new = daily_record l equity date s.current_mode in
      let counted = update_consecutive_days (record s { history = put_record new s.history }) in
      let change = check_transition l counted.current_mode counted in
      (settle date change counted, is_some change)
