-- ===== src/Candles/Sorted.antt =====
-- Theorems on `CandleBuffer` of server/src/data/candle_manager.py: the order and the number of its
-- candles.
use stock_test.Base.{
  take_last, ℕ, zero, suc, ◌-◌, ◌≤◌, ◌<◌, ◌≡◌, refl, sym, ◌≢◌, false, List, [], ◌∷◌, ◌++◌, inl, inr,
  arith, ltb, ◌==◌, length, drop, All, All-imp, Bool-cases, length-take_last,
}
use mathlib.Core.Path.{subst}
use stock_test.Candles.{
  Candle, CandleBuffer, has_time, replace, insert, sort_candles, trim, add_candle,
}

module _ {F : Type 0} where
  -- Each candle opens before all that follow.
  abbrev pub IsAscending : List (Candle F) → Type 0
  IsAscending [] = Unit
  IsAscending (c ∷ cs) = All (λ e. c.open_time < e.open_time) cs × IsAscending cs

  pub record IsBuffer (b : CandleBuffer F) : Type 0 where
    pub ascending : IsAscending b.candles
    pub bounded : length b.candles ≤ b.max_size

  replace-All :
      (P : ℕ → Type 0) (c : Candle F) (cs : List (Candle F))
      → All (λ e. P e.open_time) cs
      → All (λ e. P e.open_time) (replace c cs)
  unfolding replace
  replace-All P c [] a = tt
  replace-All P c (e ∷ cs) a = elim (Bool-cases (e.open_time == c.open_time)) [
    | inl h ↦ let same : e.open_time ≡ c.open_time = ground arith in rw h (subst P (same) a.0, a.1)
    | inr h ↦ rw h (a.0, replace-All P c cs a.1)
  ]

  replace-IsAscending :
      (c : Candle F) (cs : List (Candle F)) → IsAscending cs → IsAscending (replace c cs)
  unfolding replace
  replace-IsAscending c [] a = tt
  replace-IsAscending c (e ∷ cs) a = elim (Bool-cases (e.open_time == c.open_time)) [
    | inl h ↦
        let same : e.open_time ≡ c.open_time = ground arith in
        rw h (subst (λ t. All (λ d. t < d.open_time) cs) (same) a.0, a.1)
    | inr h ↦ rw h (replace-All (λ t. e.open_time < t) c cs a.0, replace-IsAscending c cs a.1)
  ]

  insert-All :
      (P : Candle F → Type 0) (c : Candle F) (cs : List (Candle F))
      → P c
      → All P cs
      → All P (insert c cs)
  unfolding insert
  insert-All P c [] p a = (p, tt)
  insert-All P c (e ∷ cs) p a = elim (Bool-cases (ltb e.open_time c.open_time)) [
    | inl h ↦ rw h (a.0, insert-All P c cs p a.1)
    | inr h ↦ rw h (p, a)
  ]

  sort-All : (P : Candle F → Type 0) (cs : List (Candle F)) → All P cs → All P (sort_candles cs)
  unfolding sort_candles
  sort-All P [] a = tt
  sort-All P (c ∷ cs) a = insert-All P c (sort_candles cs) a.0 (sort-All P cs a.1)

  All-append :
      (P : Candle F → Type 0) (cs : List (Candle F)) (c : Candle F)
      → All P cs
      → P c
      → All P (cs ++ c ∷ [])
  All-append P [] c a p = (p, tt)
  All-append P (e ∷ cs) c a p = (a.0, All-append P cs c a.1 p)

  insert-IsAscending :
      (c : Candle F) (cs : List (Candle F))
      → IsAscending cs
      → All (λ e. e.open_time ≢ c.open_time) cs
      → IsAscending (insert c cs)
  unfolding insert
  insert-IsAscending c [] a n = (tt, tt)
  insert-IsAscending c (e ∷ cs) a n = elim (Bool-cases (ltb e.open_time c.open_time)) [
    | inl h ↦ rw h (
      insert-All (λ d. e.open_time < d.open_time) c cs (ground arith) a.0,
      insert-IsAscending c cs a.1 n.1,
    )
    | inr h ↦
        let first : c.open_time < e.open_time = ground (arith, n.0) in
        rw h (
          (
            first,
            All-imp (λ d. e.open_time < d.open_time) (λ d. c.open_time < d.open_time) cs
                (λ d p. omega (arith, first)) a.0,
          ),
          a,
        )
  ]

  sort-IsAscending :
      (cs : List (Candle F)) (c : Candle F)
      → IsAscending cs
      → All (λ e. e.open_time ≢ c.open_time) cs
      → IsAscending (sort_candles (cs ++ c ∷ []))
  unfolding sort_candles insert
  sort-IsAscending [] c a n = (tt, tt)
  sort-IsAscending (e ∷ cs) c a n =
      insert-IsAscending e (sort_candles (cs ++ c ∷ [])) (sort-IsAscending cs c a.1 n.1) (
        sort-All (λ d. d.open_time ≢ e.open_time) (cs ++ c ∷ [])
          (All-append (λ d. d.open_time ≢ e.open_time) cs c
            (All-imp (λ d. e.open_time < d.open_time) (λ d. d.open_time ≢ e.open_time) cs
              (λ d p q. omega arith) a.0)
            (λ q. n.0 (sym q))))

  drop-IsAscending : (n : ℕ) (cs : List (Candle F)) → IsAscending cs → IsAscending (drop n cs)
  drop-IsAscending zero cs a = a
  drop-IsAscending (suc n) [] a = a
  drop-IsAscending (suc n) (c ∷ cs) a = drop-IsAscending n cs a.1

  last-IsAscending : (n : ℕ) (cs : List (Candle F)) → IsAscending cs → IsAscending (take_last n cs)
  last-IsAscending zero cs a = a
  last-IsAscending (suc n) cs a = drop-IsAscending (length cs - suc n) cs a

  trim-IsAscending : (n : ℕ) (cs : List (Candle F)) → IsAscending cs → IsAscending (trim n cs)
  unfolding trim
  trim-IsAscending n cs a = elim (Bool-cases (ltb n (length cs))) [
    | inl h ↦ rw h (last-IsAscending n cs a)
    | inr h ↦ rw h a
  ]

  length-replace : (c : Candle F) (cs : List (Candle F)) → length (replace c cs) ≡ length cs
  unfolding replace
  length-replace c [] = refl
  length-replace c (e ∷ cs) = ground (arith, length-replace c cs)

  length-trim : (n : ℕ) (cs : List (Candle F)) → 1 ≤ n → length (trim n cs) ≤ n
  unfolding trim
  length-trim n cs h = ground (arith, length-take_last n cs h)

  fresh-All : (t : ℕ) (cs : List (Candle F)) → has_time t cs ≡ false → All (λ e. e.open_time ≢ t) cs
  unfolding has_time
  fresh-All t [] h = tt
  fresh-All t (c ∷ cs) h = (ground arith, fresh-All t cs (ground arith))

  -- A buffer of a size above 0 whose candles ascend strictly in time and are at most its size stays
  -- one, whether the
  -- new candle replaces one of its time, comes last or belongs between others.
  pub add_candle-IsBuffer :
      (c : Candle F) (b : CandleBuffer F) → 1 ≤ b.max_size → IsBuffer b → IsBuffer (add_candle c b)
  unfolding add_candle
  add_candle-IsBuffer c b size i = elim (Bool-cases (has_time c.open_time b.candles)) [
    | inl h ↦ record {
      ascending = rw h (replace-IsAscending c b.candles i.ascending);
      bounded = rw h (omega (arith, length-replace c b.candles, i.bounded));
    }
    | inr h ↦ record {
      ascending = rw h (
          trim-IsAscending b.max_size _
            (sort-IsAscending b.candles c i.ascending (fresh-All c.open_time b.candles h)));
      bounded = rw h (length-trim b.max_size _ size);
    }
  ]
