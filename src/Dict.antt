-- ===== src/Dict.antt =====
-- A Python `dict` whose keys are numbers, in insertion order; the text keys of the source are only
-- compared, so numbers stand for them.
use stock_test.Base.{
  ℕ, ◌≡◌, refl, Bool, Option, none, some, List, [], ◌∷◌, arith, ◌==◌, if◌then◌else◌, is_some, All,
  ◌+◌, get_or,
}

abbrev pub Dict {ℓ} : Type ℓ → Type ℓ
Dict V = List (ℕ × V)

module _ {ℓ} {V : Type ℓ} where
  -- `d.get(k)`
  abbrev pub lookup : ℕ → Dict V → Option V
  lookup k [] = none
  lookup k (e ∷ d) = if e.0 == k then some e.1 else lookup k d

  -- `k in d`
  abbrev pub has_key : ℕ → Dict V → Bool
  has_key k d = is_some (lookup k d)

  -- `d[k] = v`
  abbrev pub put : ℕ → V → Dict V → Dict V
  put k v [] = (k, v) ∷ []
  put k v (e ∷ d) = if e.0 == k then (k, v) ∷ d else e ∷ put k v d

  -- `d.pop(k, None)`, for the dictionary that is left
  abbrev pub remove : ℕ → Dict V → Dict V
  remove k [] = []
  remove k (e ∷ d) = let rest = remove k d in if e.0 == k then rest else e ∷ rest

  pub lookup-put :
      (k j : ℕ) (v : V) (d : Dict V)
      → lookup j (put k v d) ≡ (if k == j then some v else lookup j d)
  lookup-put k j v [] = refl
  lookup-put k j v (e ∷ d) = ground (arith, lookup-put k j v d)

  pub lookup-remove :
      (k j : ℕ) (d : Dict V) → lookup j (remove k d) ≡ (if k == j then none else lookup j d)
  lookup-remove k j [] = ground arith
  lookup-remove k j (e ∷ d) = ground (arith, lookup-remove k j d)

  pub All-put {κ} :
      (P : V → Type κ) (k : ℕ) (v : V) (d : Dict V)
      → P v
      → All (λ (e : ℕ × V). P e.1) d
      → All (λ (e : ℕ × V). P e.1) (put k v d)
  All-put P k v [] h all = (h, tt)
  All-put P k v (e ∷ d) h all = ground (arith, All-put P k v d h all.1)

  pub All-lookup {κ} :
      (P : V → Type κ) (k : ℕ) (v : V) (d : Dict V)
      → P v
      → All (λ (e : ℕ × V). P e.1) d
      → P (get_or (lookup k d) v)
  All-lookup P k v [] h all = h
  All-lookup P k v (e ∷ d) h all = ground (arith, All-lookup P k v d h all.1)

  -- A total over all values
  abbrev pub total : (V → ℕ) → Dict V → ℕ
  total f [] = 0
  total f (e ∷ d) = f e.1 + total f d

  pub total-put :
      (f : V → ℕ) (k : ℕ) (v v₀ : V) (d : Dict V)
      → f v₀ ≡ 0
      → total f (put k v d) + f (get_or (lookup k d) v₀) ≡ total f d + f v
  total-put f k v v₀ [] z = ground arith
  total-put f k v v₀ (e ∷ d) z = ground (arith, total-put f k v v₀ d z)
