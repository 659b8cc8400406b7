-- ===== src/CommandQueue/Store.antt =====
-- The objects of the commands, after a put and after a completion.
use stock_test.Base.{
  ℕ, ◌≡◌, sym, Bool, true, false, Option, none, some, arith, ◌==◌, if◌then◌else◌, Bool-cases,
  Option-cases, inl, inr, ◌∙◌,
}
use mathlib.Core.Path.{subst}
use stock_test.Dict.{Dict, lookup, has_key, put, lookup-put}
use stock_test.CommandQueue.{Command, Outcome, done}

module _ {V : Type 0} where
  abbrev pub is_done : Option (Command V) → Bool
  is_done none = false
  is_done (some c) = c.completed

  pub is_done-put :
      (id k : ℕ) (c : Command V) (d : Dict (Command V))
      → is_done (lookup id (put k c d)) ≡ (if k == id then c.completed else is_done (lookup id d))
  is_done-put id k c d = rw (lookup-put k id c d) (ground arith)

  pub has_key-put :
      (id k : ℕ) (c : Command V) (d : Dict (Command V))
      → has_key id (put k c d) ≡ (if k == id then true else has_key id d)
  has_key-put id k c d = rw (lookup-put k id c d) (ground arith)

  pub complete-is_done :
      (id k : ℕ) (o : Outcome V) (d : Dict (Command V))
      → has_key k d ≡ true
      → is_done (lookup id (elim (lookup k d) [ none ↦ d | some c ↦ put k (done o c) d ]))
        ≡ (if k == id then true else is_done (lookup id d))
  complete-is_done id k o d there = elim (Option-cases (lookup k d)) [
    | inl b ↦ absurd (ground (arith, there, b))
    | inr (c, b) ↦ rw b (is_done-put id k (done o c) d)
  ]

  pub complete-has_key :
      (id k : ℕ) (o : Outcome V) (d : Dict (Command V))
      → has_key k d ≡ true
      → has_key id (elim (lookup k d) [ none ↦ d | some c ↦ put k (done o c) d ])
        ≡ (if k == id then true else has_key id d)
  complete-has_key id k o d there = elim (Option-cases (lookup k d)) [
    | inl b ↦ absurd (ground (arith, there, b))
    | inr (c, b) ↦ rw b (has_key-put id k (done o c) d)
  ]

  pub put-owned :
      (id k : ℕ) (c : Command V) (d : Dict (Command V)) (x : Command V)
      → c.command_id ≡ k
      → ((i : ℕ) (y : Command V) → lookup i d ≡ some y → y.command_id ≡ i)
      → lookup id (put k c d) ≡ some x
      → x.command_id ≡ id
  put-owned id k c d x own all e =
      let f : (if k == id then some c else lookup id d) ≡ some x = sym (lookup-put k id c d) ∙ e in
      elim (Bool-cases (k == id)) [
        | inl same ↦
            ground (arith, subst (λ b. (if b then some c else lookup id d) ≡ some x) same f)
        | inr other ↦ all id x (subst (λ b. (if b then some c else lookup id d) ≡ some x) other f)
      ]

  pub complete-owned :
      (id k : ℕ) (o : Outcome V) (d : Dict (Command V)) (x : Command V)
      → ((i : ℕ) (y : Command V) → lookup i d ≡ some y → y.command_id ≡ i)
      → lookup id (elim (lookup k d) [ none ↦ d | some c ↦ put k (done o c) d ]) ≡ some x
      → x.command_id ≡ id
  complete-owned id k o d x all e =
      let after : Option (Command V) → Dict (Command V) =
        λ f. elim f [ none ↦ d | some c ↦ put k (done o c) d ] in
      elim (Option-cases (lookup k d)) [
        | inl b ↦ all id x (subst (λ f. lookup id (after f) ≡ some x) b e)
        | inr (c, b) ↦
            put-owned id k (done o c) d x (all k c b) all
              (subst (λ f. lookup id (after f) ≡ some x) b e)
      ]
