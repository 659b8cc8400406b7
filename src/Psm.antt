-- ===== src/Psm.antt =====
-- server/src/position: the position state machine. `State` has the data of schemas.py and config.py,
-- `Policies` the orders of each state (policies.py), `Answers` what one evaluation is answered,
-- `Machine` the evaluation of a position and `Positions` the dictionary of them (state_machine.py).
pub mod State
pub mod Policies
pub mod Answers
pub mod Machine
pub mod Positions
pub mod Stops
pub mod Terms
pub mod Transitions
pub mod Climax
mod Tests
