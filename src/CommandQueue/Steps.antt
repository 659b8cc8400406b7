-- ===== src/CommandQueue/Steps.antt =====
-- The steps of the web interface and the engine, in any order.
use stock_test.Base.{ℕ, ◌≡◌, false, Option, none, some, List, ◌∷◌, ◌==◌, if◌then◌else◌}
use stock_test.Dict.{has_key}
use stock_test.CommandQueue.{
  Command, CommandQueue, Outcome, put_command, wake, get_nowait, complete, poll,
}

-- The queue, and the id of the command that `_process_commands` is executing
pub record System (V : Type 0) : Type 0 where
  pub commands : CommandQueue V
  pub current : Option ℕ

abbrev pub count_current : ℕ → Option ℕ → ℕ
count_current id none = 0
count_current id (some k) = if k == id then 1 else 0

-- The steps of the web interface and of the engine, in any order: a put of a new command, a put
-- that goes on, the engine that takes a command or completes it, and a look for a result.
pub data Step {V : Type 0} : System V → System V → Type 0 where
  putting :
      (c : Command V) (q : CommandQueue V) (current : Option ℕ)
      → has_key c.command_id q.store ≡ false
      → c.completed ≡ false
      → Step
          (record { commands = q; current = current })
          (record { commands = put_command c q; current = current })
  waking :
      (id : ℕ) (q : CommandQueue V) (current : Option ℕ)
      → Step
          (record { commands = q; current = current })
          (record { commands = wake id q; current = current })
  taking :
      (id : ℕ) (rest : List ℕ) (q : CommandQueue V)
      → q.queue ≡ id ∷ rest
      → Step
          (record { commands = q; current = none })
          (record { commands = (get_nowait q).1; current = some id })
  completing :
      (id : ℕ) (o : Outcome V) (q : CommandQueue V)
      → Step
          (record { commands = q; current = some id })
          (record { commands = complete id o q; current = none })
  polling :
      (id : ℕ) (q : CommandQueue V) (current : Option ℕ)
      → Step
          (record { commands = q; current = current })
          (record { commands = (poll id q).1; current = current })

pub data Steps {V : Type 0} : System V → System V → Type 0 where
  stop : (s : System V) → Steps s s
  step : {s t u : System V} → Step s t → Steps t u → Steps s u
