-- ===== src/Drawdown/Peak.antt =====
-- The peak, the base of the day and the sign of the drawdown, over any sequence of updates.

use stock_test.Base.{
  ℕ, ◌≡◌, refl, ap, ◌∙◌, ◌⊎◌, inl, inr, true, false, Option, none, some, List, [], ◌∷◌, All, arith,
  Bool-cases, if◌then◌else◌,
}
use mathlib.Core.List.{Memᴰ}
use stock_test.Float.{FloatOps, FloatOrder, fzero, fle, flt, sub}
use stock_test.Clock.{date_of}
use stock_test.Drawdown.{DrawdownState, DrawdownTracker, change_from, update, is_new_day}

module _ {F : Type 0} ⦃fl : FloatOps F⦄ where
  -- Updates in turn, each with its time.
  unfoldable pub updates : List (ℕ × F) → DrawdownTracker F → DrawdownTracker F
  updates [] t = t
  updates ((now, equity) ∷ es) t = updates es (update now equity t)

  peak_of_update :
      (o : FloatOrder F) (now : ℕ) (equity : F) (t : DrawdownTracker F)
      → (fle equity (update now equity t).peak ≡ true)
        × (fle t.peak (update now equity t).peak ≡ true)
  unfolding update
  peak_of_update o now equity t = ground (
    arith,
    o.ltb-not-leb t.peak equity,
    o.leb_total t.peak equity,
    o.leb_refl equity,
    o.leb_refl t.peak,
  )

  -- After any updates the peak is at least the old peak and every equity that was reported.
  -- (Numbers in a total order.)
  pub peak_bounds :
      (o : FloatOrder F) (es : List (ℕ × F)) (t : DrawdownTracker F)
      → (fle t.peak (updates es t).peak ≡ true)
        × All (λ (e : ℕ × F). fle e.1 (updates es t).peak ≡ true) es
  unfolding updates
  peak_bounds o [] t = (o.leb_refl t.peak, tt)
  peak_bounds o ((now, equity) ∷ es) t =
      let t' = update now equity t in
      let (reported, kept) = peak_of_update o now equity t in
      let (later, all) = peak_bounds o es t' in
      let top = (updates es t').peak in
      (
        o.leb_trans t.peak t'.peak top kept later,
        (o.leb_trans equity t'.peak top reported later, all),
      )

  peak_up :
      (now : ℕ) (equity : F) (t : DrawdownTracker F)
      → flt t.peak equity ≡ true
      → (update now equity t).peak ≡ equity
  unfolding update
  peak_up now equity t h = rw h

  peak_flat :
      (now : ℕ) (equity : F) (t : DrawdownTracker F)
      → flt t.peak equity ≡ false
      → (update now equity t).peak ≡ t.peak
  unfolding update
  peak_flat now equity t h = rw h

  -- The peak after any updates is the old one or one of the equities.
  pub peak_attained :
      (es : List (ℕ × F)) (t : DrawdownTracker F)
      → ((updates es t).peak ≡ t.peak) ⊎ ((e : ℕ × F) × Memᴰ e es × ((updates es t).peak ≡ e.1))
  unfolding updates
  peak_attained [] t = inl refl
  peak_attained ((now, equity) ∷ es) t = elim (peak_attained es (update now equity t)) [
    | inl same ↦ elim (Bool-cases (flt t.peak equity)) [
      | inl up ↦ inr ((now, equity), Memᴰ.head refl, same ∙ peak_up now equity t up)
      | inr flat ↦ inl (same ∙ peak_flat now equity t flat)
    ]
    | inr (e, m, p) ↦ inr (e, Memᴰ.tail m, p)
  ]

  abbrev drawdown_of : Option (DrawdownState F) → F
  drawdown_of none = fzero
  drawdown_of (some s) = s.drawdown_abs

  change_from-nonneg :
      (o : FloatOrder F) (base change : F)
      → fle fzero change ≡ true
      → fle fzero (change_from base change).0 ≡ true
  unfolding change_from
  change_from-nonneg o base change h = ground (arith, o.leb_refl fzero)

  -- The drawdown that an update reports is not below 0. (Numbers in a total order.)
  pub drawdown_nonneg :
      (o : FloatOrder F) (now : ℕ) (equity : F) (t : DrawdownTracker F) (s : DrawdownState F)
      → (update now equity t).last_state ≡ some s
      → fle fzero s.drawdown_abs ≡ true
  unfolding update
  drawdown_nonneg o now equity t s e =
      let top = if flt t.peak equity then equity else t.peak in
      let q : (change_from top (sub top equity)).0 ≡ s.drawdown_abs = ap drawdown_of e in
      rw (← q) (
        change_from-nonneg o top (sub top equity)
          (o.sub_nonneg top equity (peak_of_update o now equity t).0))

  first_of_day :
      (now : ℕ) (equity : F) (t : DrawdownTracker F)
      → is_new_day now t.last_reset_date ≡ true
      → ((update now equity t).day_start_equity ≡ equity)
        × ((update now equity t).last_reset_date ≡ some now)
  unfolding update
  first_of_day now equity t h = (rw h, rw h)

  same_day_step :
      (now : ℕ) (equity : F) (t : DrawdownTracker F) (r : ℕ)
      → t.last_reset_date ≡ some r
      → date_of now ≡ date_of r
      → ((update now equity t).day_start_equity ≡ t.day_start_equity)
        × ((update now equity t).last_reset_date ≡ some r)
  unfolding update
  same_day_step now equity t r e d = ground arith

  same_day_keeps :
      (es : List (ℕ × F)) (t : DrawdownTracker F) (r : ℕ)
      → t.last_reset_date ≡ some r
      → All (λ (e : ℕ × F). date_of e.0 ≡ date_of r) es
      → (updates es t).day_start_equity ≡ t.day_start_equity
  unfolding updates
  same_day_keeps [] t r e d = refl
  same_day_keeps ((now, equity) ∷ es) t r e d =
      let (base, day) = same_day_step now equity t r e d.0 in
      same_day_keeps es (update now equity t) r day d.1 ∙ base

  -- An update on a new day sets the day's base to its equity, and the later updates of that day
  -- keep it.
  pub day_start_first :
      (now : ℕ) (equity : F) (es : List (ℕ × F)) (t : DrawdownTracker F)
      → is_new_day now t.last_reset_date ≡ true
      → All (λ (e : ℕ × F). date_of e.0 ≡ date_of now) es
      → (updates ((now, equity) ∷ es) t).day_start_equity ≡ equity
  unfolding updates
  day_start_first now equity es t h same =
      let t' = update now equity t in
      let (base, day) = first_of_day now equity t h in same_day_keeps es t' now day same ∙ base
