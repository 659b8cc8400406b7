-- ===== src/CommandQueue/Turns.antt =====
-- The queue serves its commands in turn, whatever else is called in between.
use stock_test.Base.{
  ℕ, ◌+◌, ◌≡◌, refl, sym, ap, ◌∙◌, true, false, not, ◌&&◌, Option, none, some, List, [], ◌∷◌, ◌++◌,
  arith, ◌<◌, ◌==◌, length, Bool-cases, Option-cases, ◌⊎◌, inl, inr,
}
use mathlib.Core.Path.{subst}
use mathlib.Core.List.{append_assoc, append-nil}
use stock_test.Dict.{Dict, lookup, put, lookup-put}
use stock_test.Positions.Ids.{has_id}
use stock_test.CommandQueue.{
  Command, CommandQueue, Call, putting, waking, getting, completing, polling, put_command, wake,
  get_nowait, complete, poll, apply, run, done, full, Outcome,
}

nonempty : (ids : List ℕ) → 0 < length ids → (x : ℕ) × (xs : List ℕ) × (ids ≡ x ∷ xs)
nonempty [] h = absurd (omega arith)
nonempty (x ∷ xs) h = (x, xs, refl)

module _ {V : Type 0} where
  abbrev is_getting : Call V → ℕ
  is_getting getting = 1
  is_getting _ = 0

  -- How many of the calls take a command
  abbrev pub gets : List (Call V) → ℕ
  gets [] = 0
  gets (c ∷ cs) = is_getting c + gets cs

  -- An object that is found under its own id
  abbrev pub Owned : ℕ → Option (Command V) → Type 0
  Owned id none = true ≡ false
  Owned id (some c) = c.command_id ≡ id

  abbrev pub IsStored : ℕ → CommandQueue V → Type 0
  IsStored id q = Owned id (lookup id q.store)

  put-Owned :
      (id k : ℕ) (c : Command V) (d : Dict (Command V))
      → c.command_id ≡ k
      → Owned id (lookup id d)
      → Owned id (lookup id (put k c d))
  put-Owned id k c d e h =
      subst (λ o. Owned id o) (sym (lookup-put k id c d))
        (elim (Bool-cases (k == id)) [ inl b ↦ rw b (ground arith) | inr b ↦ rw b h ])

  complete-Owned :
      (id k : ℕ) (o : Outcome V) (d : Dict (Command V))
      → Owned id (lookup id d)
      → Owned id (lookup id (elim (lookup k d) [ none ↦ d | some c ↦ put k (done o c) d ]))
  complete-Owned id k o d h = elim (Option-cases (lookup k d)) [
    | inl b ↦ rw b h
    | inr (c, b) ↦ rw b (
        subst (λ x. Owned id x) (sym (lookup-put k id (done o c) d))
          (elim (Bool-cases (k == id)) [
            | inl same ↦ rw same (
                let e : id ≡ k = ground arith in
                subst (λ x. Owned id x) (ap (λ n. lookup n d) e ∙ b) h)
            | inr other ↦ rw other h
          ]))
  ]

  pub apply-IsStored :
      (id : ℕ) (call : Call V) (q : CommandQueue V) → IsStored id q → IsStored id (apply call q)
  unfolding apply put_command wake get_nowait complete poll
  apply-IsStored id (putting c) q h = ground (arith, put-Owned id c.command_id c q.store refl h)
  apply-IsStored id (waking k) q h = ground arith
  apply-IsStored id getting q h = ground arith
  apply-IsStored id (completing k o) q h = ground (arith, complete-Owned id k o q.store h)
  apply-IsStored id (polling k) q h = ground arith

  -- A call other than a get keeps what stands in the queue, in its order.
  queue-apply :
      (call : Call V) (q : CommandQueue V)
      → is_getting call ≡ 0
      → (more : List ℕ) × ((apply call q).queue ≡ q.queue ++ more)
  unfolding apply put_command wake get_nowait complete poll
  queue-apply (putting c) q no_get = elim (Bool-cases (full q)) [
    | inl b ↦ ([], rw (b, append-nil q.queue) refl)
    | inr b ↦ (c.command_id ∷ [], rw b refl)
  ]
  queue-apply (waking id) q no_get = elim (Bool-cases (has_id id q.putters && not (full q))) [
    | inl b ↦ (id ∷ [], ground arith)
    | inr b ↦ ([], rw (append-nil q.queue) (ground arith))
  ]
  queue-apply getting q no_get = absurd (omega arith)
  queue-apply (completing id o) q no_get = ([], rw (append-nil q.queue) (ground arith))
  queue-apply (polling id) q no_get = ([], rw (append-nil q.queue) (ground arith))

  getting-cases : (call : Call V) → (call ≡ getting) ⊎ (is_getting call ≡ 0)
  getting-cases getting = inl refl
  getting-cases (putting c) = inr refl
  getting-cases (waking id) = inr refl
  getting-cases (completing id o) = inr refl
  getting-cases (polling id) = inr refl

  queue-get :
      (q : CommandQueue V) (id : ℕ) (rest : List ℕ)
      → q.queue ≡ id ∷ rest
      → (get_nowait q).1.queue ≡ rest
  unfolding get_nowait
  queue-get q id rest e = rw e refl

  front-run :
      (calls : List (Call V)) (q : CommandQueue V) (before : List ℕ) (id : ℕ) (after : List ℕ)
      → q.queue ≡ before ++ id ∷ after
      → gets calls ≡ length before
      → (more : List ℕ) × ((run calls q).queue ≡ id ∷ more)
  unfolding run apply
  front-run [] q [] id after e n = (after, e)
  front-run [] q (x ∷ xs) id after e n = absurd (omega arith)
  front-run (call ∷ calls) q before id after e n = elim (getting-cases call) [
    | inl g ↦
        let k : is_getting call ≡ 1 = ap (λ c. is_getting c) g in
        let (x, xs, s) = nonempty before (omega arith) in
        let m : length before ≡ length (x ∷ xs) = ap (λ l. length l) s in
        rw g (
          front-run calls (get_nowait q).1 xs id after
            (queue-get q x (xs ++ id ∷ after) (e ∙ ap (λ l. l ++ id ∷ after) s)) (omega arith))
    | inr no_get ↦
        let (added, e') = queue-apply call q no_get in
        front-run calls (apply call q) before id (after ++ added)
          (e' ∙ (ap (λ l. l ++ added) e ∙ append_assoc before (id ∷ after) added)) (omega arith)
  ]

  run-IsStored :
      (id : ℕ) (calls : List (Call V)) (q : CommandQueue V)
      → IsStored id q
      → IsStored id (run calls q)
  unfolding run
  run-IsStored id [] q h = h
  run-IsStored id (call ∷ calls) q h =
      run-IsStored id calls (apply call q) (apply-IsStored id call q h)

  first-Owned :
      (q : CommandQueue V) (id : ℕ) (rest : List ℕ)
      → q.queue ≡ id ∷ rest
      → IsStored id q
      → Owned id (get_nowait q).0
  unfolding get_nowait
  first-Owned q id rest e h = rw e h

  -- A queued command is what the next get returns, once as many gets as stand before it have been
  -- made, whatever commands have been put, completed or polled in between.
  pub served_in_turn :
      (calls : List (Call V)) (q : CommandQueue V) (before : List ℕ) (id : ℕ) (after : List ℕ)
      → q.queue ≡ before ++ id ∷ after
      → IsStored id q
      → gets calls ≡ length before
      → (c : Command V) × ((get_nowait (run calls q)).0 ≡ some c) × (c.command_id ≡ id)
  served_in_turn calls q before id after e h n =
      let (more, front) = front-run calls q before id after e n in
      let owned = first-Owned (run calls q) id more front (run-IsStored id calls q h) in
      elim (Option-cases (get_nowait (run calls q)).0) [
        | inl none_ ↦ absurd (ground (arith, subst (λ o. Owned id o) none_ owned))
        | inr (c, found) ↦ (c, found, subst (λ o. Owned id o) found owned)
      ]
