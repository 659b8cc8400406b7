-- ===== src/CommandQueue/Loop.antt =====
-- The engine's loop over the commands, and the wait of the web interface for a result.
use stock_test.Base.{
  ℕ, zero, suc, ◌+◌, ◌<◌, ◌⊎◌, ◌≡◌, refl, sym, ap, ◌∙◌, Bool, true, false, Option, none, some, List,
  [], ◌∷◌, arith, ◌==◌, length, if◌then◌else◌, Option-cases, inl, inr, ltb, any, is_some,
  Bool-cases,
}
use mathlib.Core.Path.{subst}
use stock_test.Dict.{Dict, lookup, put, lookup-put}
use stock_test.Positions.Ids.{has_id, count, has_id-count}
use stock_test.CommandQueue.{
  Command, CommandQueue, Outcome, Call, get_nowait, complete, process_commands, get_result, run,
  poll, done,
}
use stock_test.CommandQueue.Places.{
  IsAccounted, taken-IsAccounted, complete-IsAccounted, complete-store, count-add_key,
}

List-cases {ℓ} :
    {A : Type ℓ} (xs : List A) → (xs ≡ []) ⊎ ((x : A) × (rest : List A) × (xs ≡ x ∷ rest))
List-cases [] = inl refl
List-cases (x ∷ xs) = inr (x, xs, refl)

module _ {V : Type 0} where
  abbrev prepend : Option (Command V) → List (Command V) → List (Command V)
  prepend none cs = cs
  prepend (some c) cs = c ∷ cs

  -- The commands of the ids, in their order
  abbrev pub objects : List ℕ → Dict (Command V) → List (Command V)
  objects [] d = []
  objects (id ∷ ids) d = prepend (lookup id d) (objects ids d)

  objects-put :
      (k : ℕ) (c : Command V) (ids : List ℕ) (d : Dict (Command V))
      → count k ids ≡ 0
      → objects ids (put k c d) ≡ objects ids d
  objects-put k c [] d h = refl
  objects-put k c (id ∷ ids) d h =
      let other : (k == id) ≡ false = ground (arith, h) in
      let same : lookup id (put k c d) ≡ lookup id d =
        lookup-put k id c d ∙ ap (λ b. if b then some c else lookup id d) other in
      ap (λ f. prepend f (objects ids (put k c d))) same
      ∙ ap (λ l. prepend (lookup id d) l) (objects-put k c ids d (ground (arith, h)))

  objects-first :
      (id : ℕ) (rest : List ℕ) (q : CommandQueue V) (c : Command V)
      → q.queue ≡ id ∷ rest
      → lookup id q.store ≡ some c
      → objects q.queue q.store ≡ c ∷ objects rest q.store
  objects-first id rest q c e f =
      ap (λ l. objects l q.store) e ∙ ap (λ o. prepend o (objects rest q.store)) f

  objects-complete :
      (k : ℕ) (o : Outcome V) (ids : List ℕ) (q : CommandQueue V)
      → has_id k q.pending ≡ true
      → count k ids ≡ 0
      → objects ids (complete k o q).store ≡ objects ids q.store
  objects-complete k o ids q p h =
      rw (complete-store k o q p) (elim (Option-cases (lookup k q.store)) [
        | inl b ↦ rw b refl
        | inr (c, b) ↦ rw b (objects-put k (done o c) ids q.store h)
      ])

  complete-rest :
      (k : ℕ) (o : Outcome V) (q : CommandQueue V)
      → has_id k q.pending ≡ true
      → count k q.results ≡ 0
      → ((complete k o q).queue ≡ q.queue)
        × ((complete k o q).putters ≡ q.putters)
        × ((id : ℕ)
            → count id (complete k o q).results ≡ count id q.results + (if k == id then 1 else 0))
  unfolding complete
  complete-rest k o q p none_ = rw p (refl, refl, λ id. count-add_key id k q.results none_)

module _ {V W : Type 0} (execute : Command V → W → W × Outcome V) where
  -- What is left of the world when the commands are executed one after the other
  abbrev pub execute_all : List (Command V) → W → W
  execute_all [] w = w
  execute_all (c ∷ cs) w = execute_all cs (execute c w).0

  abbrev pub Ends : W → CommandQueue V → W × CommandQueue V × Bool → Type 0
  Ends w q (w', q', ended) =
      (ended ≡ true)
      × (w' ≡ execute_all (objects q.queue q.store) w)
      × (q'.queue ≡ [])
      × ((id : ℕ) → count id q'.results ≡ count id q.results + count id q.queue)
      × ((id : ℕ) → count id q'.pending ≡ count id q.putters)

  loop_end :
      (fuel : ℕ) (w : W) (q : CommandQueue V)
      → q.queue ≡ []
      → process_commands execute (suc fuel) w q ≡ (w, q, true)
  unfolding process_commands get_nowait
  loop_end fuel w q e = rw e refl

  loop_round :
      (fuel : ℕ) (w : W) (q : CommandQueue V) (id : ℕ) (rest : List ℕ) (c : Command V)
      → q.queue ≡ id ∷ rest
      → lookup id q.store ≡ some c
      → process_commands execute (suc fuel) w q
        ≡ process_commands execute fuel
            (execute c w).0
            (complete c.command_id (execute c w).1 (record q { queue = rest }))
  unfolding process_commands get_nowait
  loop_round fuel w q id rest c e f = rw e (rw (f, process_commands) refl)

  Ends-round :
      (w : W) (q : CommandQueue V) (id : ℕ) (rest : List ℕ) (c : Command V)
      (r : W × CommandQueue V × Bool)
      → q.queue ≡ id ∷ rest
      → lookup id q.store ≡ some c
      → has_id id q.pending ≡ true
      → count id q.results ≡ 0
      → count id rest ≡ 0
      → Ends (execute c w).0 (complete id (execute c w).1 (record q { queue = rest })) r
      → Ends w q r
  Ends-round w q id rest c r e f p n m (ended, world, empty, results, pending) =
      let q₁ : CommandQueue V = record q { queue = rest } in
      let o = (execute c w).1 in
      let (queued, waiting, counts) = complete-rest id o q₁ p n in
      let left : objects (complete id o q₁).queue (complete id o q₁).store ≡ objects rest q.store =
        rw queued (objects-complete id o rest q₁ p m) in
      (
        ended,
        world
            ∙ (ap (λ l. execute_all l (execute c w).0) left
                ∙ sym (ap (λ l. execute_all l w) (objects-first id rest q c e f))),
        empty,
        λ i. omega (arith, results i, counts i, ap (λ l. count i l) queued, ap (λ l. count i l) e),
        λ i. pending i ∙ ap (λ l. count i l) waiting,
      )

  -- The engine's loop ends, given one more round than commands are queued: it has executed them in
  -- the order of the queue and left the queue empty, each has a result, and what is still pending
  -- waits for room. Nothing is being executed when the loop starts, and nothing else runs meanwhile.
  pub process_commands-Ends :
      (fuel : ℕ) (w : W) (q : CommandQueue V)
      → IsAccounted q none
      → length q.queue < fuel
      → Ends w q (process_commands execute fuel w q)
  process_commands-Ends zero w q h n = absurd (omega arith)
  process_commands-Ends (suc fuel) w q h n = elim (List-cases q.queue) [
    | inl e ↦
        subst (λ r. Ends w q r) (sym (loop_end fuel w q e))
          (
            refl,
            ap (λ l. execute_all (objects l q.store) w) (sym e),
            e,
            λ id. omega (arith, ap (λ l. count id l) e),
            λ id. omega (arith, h.placed id, ap (λ l. count id l) e),
          )
    | inr (id, rest, e) ↦
        let at_id = ap (λ l. count id l) e in
        let one : count id q.queue ≡ 1 + count id rest = ground (arith, at_id) in
        elim (Option-cases (lookup id q.store)) [
          | inl f ↦ absurd (omega (arith, one, h.placed id, h.known id (rw f refl)))
          | inr (c, f) ↦
              let q₁ : CommandQueue V = record q { queue = rest } in
              let o = (execute c w).1 in
              let h₂ = complete-IsAccounted id o q₁ (taken-IsAccounted id rest q e h) in
              let pending : count id q.pending ≡ 1 = omega (arith, h.placed id, h.once id, one) in
              let is_pending : has_id id q.pending ≡ true =
                ground (arith, has_id-count id q.pending, pending) in
              let unheld : count id q.results ≡ 0 = omega (arith, h.placed id, h.once id, one) in
              let last : count id rest ≡ 0 = omega (arith, h.placed id, h.once id, one) in
              let queued = (complete-rest id o q₁ is_pending unheld).0 in
              let go = λ (k : ℕ). process_commands execute fuel (execute c w).0 (complete k o q₁) in
              subst (λ r. Ends w q r)
                (sym (loop_round fuel w q id rest c e f ∙ ap go (h.owned id c f)))
                (Ends-round w q id rest c (go id) e f is_pending unheld last (
                  process_commands-Ends fuel (execute c w).0 (complete id o q₁) h₂
                    (omega (arith, ap (λ l. length l) queued, ap (λ l. length l) e))))
        ]
  ]

module _ {V : Type 0} where
  -- The wait for a result ends, with a command or the exception, once a look comes after the timeout.
  pub get_result_ends :
      (id timeout : ℕ) (looks : List (ℕ × List (Call V))) (q : CommandQueue V)
      → any (λ (look : ℕ × List (Call V)). ltb timeout look.0) looks ≡ true
      → is_some (get_result id timeout looks q).0 ≡ true
  unfolding get_result
  get_result_ends id timeout [] q late = absurd (ground (arith, late))
  get_result_ends id timeout ((elapsed, calls) ∷ looks) q late = ground (
    arith,
    late,
    Bool-cases (ltb timeout elapsed),
    get_result_ends id timeout looks (poll id (run calls q)).1,
  )
