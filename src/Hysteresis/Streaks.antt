-- ===== src/Hysteresis/Streaks.antt =====
-- When the profile of the capital switches, and what keeps it from switching back.

use mathlib.Core.List.{reverse-append}
use stock_test.Base.{
  get_or, map, Option, ℕ, zero, suc, ◌+◌, ◌-◌, ◌≤◌, ◌≡◌, refl, sym, ap, ◌∙◌, ◌↔◌, inl, inr, Bool,
  true, false, some, List, [], ◌∷◌, ◌++◌, All, arith, Bool-cases, if◌then◌else◌, length, take,
  take_last, drop, reverse, reverse-drop, length-append, length-take_last, drop, ltb,
}
use stock_test.Hysteresis.{
  fresh_state, CapitalMode, growth, preserve, StateDict, mode_value, parse_mode, asdict,
  from_fields, from_all, DailyEquityRecord, HysteresisState, load_state, to_dict, from_dict,
  has_date, replace_date, put_record, streak,
}

parse_mode-value : (m : CapitalMode) → parse_mode (mode_value m) ≡ some m
unfolding parse_mode mode_value
parse_mode-value growth = refl
parse_mode-value preserve = refl

module _ {F : Type 0} where
  -- The last n records, of which there are as many, all pass the test.
  abbrev pub LastAll : ℕ → (DailyEquityRecord F → Bool) → List (DailyEquityRecord F) → Type 0
  LastAll n p h = (n ≤ length (reverse h)) × All (λ r. p r ≡ true) (take n (reverse h))

  pub streak_iff :
      (n : ℕ) (p : DailyEquityRecord F → Bool) (rs : List (DailyEquityRecord F))
      → (n ≤ streak p rs) ↔ ((n ≤ length rs) × All (λ r. p r ≡ true) (take n rs))
  unfolding streak
  streak_iff zero p rs = ((λ h. (omega arith, tt)), (λ h. omega arith))
  streak_iff (suc n) p [] = ground arith
  streak_iff (suc n) p (r ∷ rs) = ground (arith, streak_iff n p rs)

  length-replace_date :
      (d : ℕ) (new : DailyEquityRecord F) (rs : List (DailyEquityRecord F))
      → length (replace_date d new rs) ≡ length rs
  unfolding replace_date
  length-replace_date d new [] = refl
  length-replace_date d new (r ∷ rs) = ground (arith, length-replace_date d new rs)

  pub length-put_record :
      (new : DailyEquityRecord F) (rs : List (DailyEquityRecord F))
      → length (put_record new rs) ≤ 30
  unfolding put_record
  length-put_record new rs =
      let rs' = (if has_date new.date rs then replace_date new.date new rs else rs ++ new ∷ []) in
      elim (Bool-cases (ltb 30 (length rs'))) [
        | inl long ↦ rw long (length-take_last 30 rs' (omega arith))
        | inr short ↦ rw short (ground arith)
      ]

  take_last_all : (xs : List (DailyEquityRecord F)) → length xs ≤ 30 → take_last 30 xs ≡ xs
  take_last_all xs h = let e : length xs - 30 ≡ 0 = omega arith in ap (λ k. drop k xs) e

  trim :
      (xs : List (DailyEquityRecord F))
      → (if ltb 30 (length xs) then take_last 30 xs else xs) ≡ take_last 30 xs
  trim xs = elim (Bool-cases (ltb 30 (length xs))) [
    | inl long ↦ rw long
    | inr short ↦ rw short (sym (take_last_all xs (ground arith)))
  ]

  -- How many of the old records stay when one is added.
  pub kept : List (DailyEquityRecord F) → ℕ
  kept rs = (length rs + 1) - ((length rs + 1) - 30) - 1

  pub put_record-reverse :
      (new : DailyEquityRecord F) (rs : List (DailyEquityRecord F))
      → has_date new.date rs ≡ false
      → reverse (put_record new rs) ≡ new ∷ take (kept rs) (reverse rs)
  unfolding put_record kept
  put_record-reverse new rs h =
      let xs = rs ++ new ∷ [] in
      let n = length xs - (length xs - 30) in
      let e : n ≡ suc (kept rs) = omega (arith, length-append rs (new ∷ [])) in
      rw h (
        ap reverse (trim xs)
        ∙ (reverse-drop (length xs - 30) xs
            ∙ (ap (take n) (reverse-append rs (new ∷ [])) ∙ ap (λ k. take k (new ∷ reverse rs)) e)))

  pub streak-take :
      (p : DailyEquityRecord F → Bool) (n : ℕ) (rs : List (DailyEquityRecord F))
      → streak p (take n rs) ≤ streak p rs
  unfolding streak
  streak-take p zero rs = omega arith
  streak-take p (suc n) [] = omega arith
  streak-take p (suc n) (r ∷ rs) = ground (arith, streak-take p n rs)

  from_fields-asdict : (r : DailyEquityRecord F) → from_fields (asdict r) ≡ some r
  unfolding from_fields asdict
  from_fields-asdict r = refl

  from_all-asdict : (rs : List (DailyEquityRecord F)) → from_all (map asdict rs) ≡ some rs
  unfolding from_all
  from_all-asdict [] = refl
  from_all-asdict (r ∷ rs) = rw (from_fields-asdict r, from_all-asdict rs) refl

  from_dict-to_dict :
      (s : HysteresisState F) → length s.history ≤ 30 → from_dict (to_dict s) ≡ some s
  unfolding to_dict from_dict
  from_dict-to_dict s h =
      rw (take_last_all s.history h, from_all-asdict s.history, parse_mode-value s.current_mode)
        refl

  load_parsed :
      {T : Type 0} (parse : T → Option (StateDict F)) (t : T) (d : StateDict F)
      → parse t ≡ some d
      → load_state parse (some t) ≡ get_or (from_dict d) fresh_state
  unfolding load_state
  load_parsed parse t d e = ground (arith, e)

  -- A state with at most 30 records is the same after a restart that reads the file it has written:
  -- the texts of the modes are read back as the modes and the dictionaries of the records as the
  -- records. (What is parsed from a dumped dictionary is that dictionary.)
  pub load_state-to_dict :
      {T : Type 0} (dump : StateDict F → T) (parse : T → Option (StateDict F))
      (s : HysteresisState F)
      → ((d : StateDict F) → parse (dump d) ≡ some d)
      → length s.history ≤ 30
      → load_state parse (some (dump (to_dict s))) ≡ s
  load_state-to_dict dump parse s json h =
      load_parsed parse (dump (to_dict s)) (to_dict s) (json (to_dict s))
      ∙ ap (λ o. get_or o fresh_state) (from_dict-to_dict s h)
