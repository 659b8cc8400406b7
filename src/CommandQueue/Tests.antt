-- ===== src/CommandQueue/Tests.antt =====
-- Two commands in a queue with room for one, and the theorems at them.
use stock_test.Base.{ℕ, ◌+◌, ◌≡◌, refl, false, none, some, [], ◌∷◌, arith}
use stock_test.CommandQueue.{
  Command, CommandQueue, Outcome, pause, resume, getting, completing, put_command, get_nowait,
  process_commands, run, init,
}
use stock_test.CommandQueue.Steps.{Step, Steps, stop, step}
use stock_test.CommandQueue.Places.{IsAccounted, reached-IsAccounted}
use stock_test.CommandQueue.Turns.{served_in_turn}
use stock_test.CommandQueue.Loop.{Ends, process_commands-Ends}

abbrev pausing : Command ℕ
pausing = record {
  command_type = pause;
  params = 7;
  command_id = 1;
  created_at = 0;
  result = none;
  error = none;
  completed = false;
}

abbrev resuming : Command ℕ
resuming = record pausing { command_type = resume; params = 8; command_id = 2 }

abbrev one_waiting : CommandQueue ℕ
one_waiting = put_command resuming (put_command pausing (init 1))

abbrev both_queued : CommandQueue ℕ
both_queued = put_command resuming (put_command pausing (init 0))

-- The second put waits for room.
waits : one_waiting.putters ≡ 2 ∷ []
unfolding put_command init
waits = refl

abbrev ok : Outcome ℕ
ok = record { result = some 1; error = none }

served_in_turn_example :
    (c : Command ℕ) × ((get_nowait (run (getting ∷ completing 1 ok ∷ []) both_queued)).0 ≡ some c)
    × (c.command_id ≡ 2)
unfolding put_command init
served_in_turn_example =
    served_in_turn (getting ∷ completing 1 ok ∷ []) both_queued (1 ∷ []) 2 [] refl refl refl

two_puts :
    Steps {V = ℕ}
      (record { commands = init 1; current = none })
      (record { commands = one_waiting; current = none })
unfolding put_command init
two_puts =
    step (Step.putting pausing (init 1) none refl refl)
      (step (Step.putting resuming (put_command pausing (init 1)) none refl refl) (stop _))

reached-IsAccounted_example : IsAccounted one_waiting none
reached-IsAccounted_example =
    reached-IsAccounted 1 (record { commands = one_waiting; current = none }) two_puts

process_commands-Ends_example :
    Ends
      (λ (c : Command ℕ) (w : ℕ). (w + c.params, ok))
      0
      one_waiting
      (process_commands (λ (c : Command ℕ) (w : ℕ). (w + c.params, ok)) 2 0 one_waiting)
unfolding put_command init
process_commands-Ends_example =
    process_commands-Ends (λ (c : Command ℕ) (w : ℕ). (w + c.params, ok)) 2 0 one_waiting
      (reached-IsAccounted 1 (record { commands = one_waiting; current = none }) two_puts)
      (omega arith)
