-- ===== src/CommandQueue/Places.antt =====
-- Where a command stands: the engine takes one command at a time and completes it.
use stock_test.Base.{
  ℕ, ◌+◌, ◌≤◌, ◌≡◌, refl, sym, ap, true, false, Option, none, some, List, ◌∷◌, arith, ◌==◌,
  if◌then◌else◌, ◌∙◌,
}
use mathlib.Core.Path.{subst}
use stock_test.Dict.{lookup, has_key, put}
use stock_test.Positions.Ids.{has_id, count, count-append, count-remove_id, has_id-count}
use stock_test.CommandQueue.{
  Command, CommandQueue, Outcome, init, put_command, wake, get_nowait, complete, poll, add_key,
  done,
}
use stock_test.CommandQueue.Steps.{
  System, Step, Steps, putting, waking, taking, completing, polling, stop, step, count_current,
}
use stock_test.CommandQueue.Store.{
  is_done, is_done-put, has_key-put, complete-is_done, complete-has_key, put-owned, complete-owned,
}

pub count-add_key :
    (id k : ℕ) (ids : List ℕ)
    → count k ids ≡ 0
    → count id (add_key k ids) ≡ count id ids + (if k == id then 1 else 0)
count-add_key id k ids absent = rw (has_id-count k ids) (rw absent (count-append id k ids))

module _ {V : Type 0} where
  -- A pending command stands in one place: it waits for room, is queued, or is being executed. It
  -- has no result, and has not been completed; a command with a result has been.
  pub record IsAccounted (q : CommandQueue V) (current : Option ℕ) : Type 0 where
    pub placed :
        (id : ℕ)
        → count id q.pending ≡ count id q.putters + count id q.queue + count_current id current
    pub once : (id : ℕ) → count id q.pending + count id q.results ≤ 1
    pub known : (id : ℕ) → has_key id q.store ≡ false → count id q.pending + count id q.results ≡ 0
    pub finished : (id : ℕ) → count id q.results ≡ 1 → is_done (lookup id q.store) ≡ true
    pub owned : (id : ℕ) (c : Command V) → lookup id q.store ≡ some c → c.command_id ≡ id
    pub unfinished : (id : ℕ) → count id q.pending ≡ 1 → is_done (lookup id q.store) ≡ false

  init-IsAccounted : (n : ℕ) → IsAccounted (init n) none
  unfolding init
  init-IsAccounted n = record {
    placed = λ id. refl;
    once = λ id. omega arith;
    known = λ id h. refl;
    finished = λ id h. absurd (omega arith);
    owned = λ id c e. absurd (ground (arith, e));
    unfinished = λ id h. absurd (omega arith);
  }

  put-IsAccounted :
      (c : Command V) (q : CommandQueue V) (current : Option ℕ)
      → has_key c.command_id q.store ≡ false
      → c.completed ≡ false
      → IsAccounted q current
      → IsAccounted (put_command c q) current
  unfolding put_command
  put-IsAccounted c q current fresh undone h =
      let k = c.command_id in
      let zero_ = h.known k fresh in
      let pending = λ (id : ℕ). count-add_key id k q.pending (omega arith) in
      record {
        placed = λ id. ground (
          arith,
          h.placed id,
          pending id,
          count-append id k q.putters,
          count-append id k q.queue,
        );
        once = λ id. ground (arith, h.once id, pending id, zero_);
        known = λ id e. ground (arith, h.known id, pending id, has_key-put id k c q.store);
        finished = λ id e. ground (arith, h.finished id, zero_, is_done-put id k c q.store);
        owned = λ id x e. put-owned id k c q.store x refl h.owned (ground (arith, e));
        unfinished =
            λ id e. ground (arith, h.unfinished id, pending id, is_done-put id k c q.store);
      }

  wake-IsAccounted :
      (k : ℕ) (q : CommandQueue V) (current : Option ℕ)
      → IsAccounted q current
      → IsAccounted (wake k q) current
  unfolding wake
  wake-IsAccounted k q current h = record {
    placed = λ id. ground (
      arith,
      h.placed id,
      h.once id,
      count-remove_id id k q.putters,
      count-append id k q.queue,
      has_id-count k q.putters,
    );
    once = λ id. ground (arith, h.once id);
    known = λ id e. ground (arith, h.known id);
    finished = λ id e. ground (arith, h.finished id);
    owned = λ id x e. h.owned id x (ground (arith, e));
    unfinished = λ id e. ground (arith, h.unfinished id);
  }

  taken :
      (k : ℕ) (rest : List ℕ) (q : CommandQueue V)
      → q.queue ≡ k ∷ rest
      → (get_nowait q).1 ≡ record q { queue = rest }
  unfolding get_nowait
  taken k rest q e = rw e refl

  pub taken-IsAccounted :
      (k : ℕ) (rest : List ℕ) (q : CommandQueue V)
      → q.queue ≡ k ∷ rest
      → IsAccounted q none
      → IsAccounted (record q { queue = rest }) (some k)
  taken-IsAccounted k rest q e h = record {
    placed = λ id. omega (arith, h.placed id, ap (λ l. count id l) e);
    once = h.once;
    known = h.known;
    finished = h.finished;
    owned = h.owned;
    unfinished = h.unfinished;
  }

  get-IsAccounted :
      (k : ℕ) (rest : List ℕ) (q : CommandQueue V)
      → q.queue ≡ k ∷ rest
      → IsAccounted q none
      → IsAccounted (get_nowait q).1 (some k)
  get-IsAccounted k rest q e h =
      subst (λ q'. IsAccounted q' (some k)) (sym (taken k rest q e))
        (taken-IsAccounted k rest q e h)

  pub complete-store :
      (k : ℕ) (o : Outcome V) (q : CommandQueue V)
      → has_id k q.pending ≡ true
      → (complete k o q).store
        ≡ elim (lookup k q.store) [ none ↦ q.store | some c ↦ put k (done o c) q.store ]
  unfolding complete
  complete-store k o q pending = rw pending refl

  pub complete-IsAccounted :
      (k : ℕ) (o : Outcome V) (q : CommandQueue V)
      → IsAccounted q (some k)
      → IsAccounted (complete k o q) none
  unfolding complete
  complete-IsAccounted k o q h =
      let pending : has_id k q.pending ≡ true =
        ground (arith, has_id-count k q.pending, h.placed k) in
      let there : has_key k q.store ≡ true = ground (arith, h.known k, h.placed k) in
      let results =
        λ (id : ℕ). count-add_key id k q.results (ground (arith, h.once k, h.placed k)) in
      record {
        placed = λ id. ground (arith, pending, h.placed id, count-remove_id id k q.pending);
        once = λ id.
            ground
              (arith, pending, h.once id, h.placed k, results id, count-remove_id id k q.pending);
        known = λ id e. ground (
          arith,
          pending,
          h.known id,
          results id,
          count-remove_id id k q.pending,
          complete-has_key id k o q.store there,
        );
        finished = λ id e.
            ground
              (arith, pending, h.finished id, results id, complete-is_done id k o q.store there);
        owned = λ id x e.
            complete-owned id k o q.store x h.owned
              (sym (ap (λ d. lookup id d) (complete-store k o q pending)) ∙ e);
        unfinished = λ id e. ground (
          arith,
          pending,
          h.unfinished id,
          h.once id,
          count-remove_id id k q.pending,
          complete-is_done id k o q.store there,
        );
      }

  poll-IsAccounted :
      (k : ℕ) (q : CommandQueue V) (current : Option ℕ)
      → IsAccounted q current
      → IsAccounted (poll k q).1 current
  unfolding poll
  poll-IsAccounted k q current h = record {
    placed = λ id. ground (arith, h.placed id);
    once = λ id. ground (arith, h.once id, count-remove_id id k q.results);
    known = λ id e. ground (arith, h.known id, count-remove_id id k q.results);
    finished = λ id e. ground (arith, h.finished id, h.once id, count-remove_id id k q.results);
    owned = λ id x e. h.owned id x (ground (arith, e));
    unfinished = λ id e. ground (arith, h.unfinished id);
  }

  Step-IsAccounted :
      (s t : System V)
      → Step s t
      → IsAccounted s.commands s.current
      → IsAccounted t.commands t.current
  Step-IsAccounted _ _ (putting c q current fresh undone) h =
      put-IsAccounted c q current fresh undone h
  Step-IsAccounted _ _ (waking id q current) h = wake-IsAccounted id q current h
  Step-IsAccounted _ _ (taking id rest q e) h = get-IsAccounted id rest q e h
  Step-IsAccounted _ _ (completing id o q) h = complete-IsAccounted id o q h
  Step-IsAccounted _ _ (polling id q current) h = poll-IsAccounted id q current h

  steps-IsAccounted :
      (s t : System V)
      → Steps s t
      → IsAccounted s.commands s.current
      → IsAccounted t.commands t.current
  steps-IsAccounted _ _ (stop s) h = h
  steps-IsAccounted _ _ (step first rest) h =
      steps-IsAccounted _ _ rest (Step-IsAccounted _ _ first h)

  -- After any steps from a new queue, where each put is of a new command that is not completed: a
  -- pending command waits for room, is queued or is being executed, in one of these places and once;
  -- no command has a result while it is pending; and a command with a result has been completed.
  pub reached-IsAccounted :
      (max_size : ℕ) (s : System V)
      → Steps (record { commands = init max_size; current = none }) s
      → IsAccounted s.commands s.current
  reached-IsAccounted max_size s run = steps-IsAccounted _ _ run (init-IsAccounted max_size)
