-- ===== src/Watchdog.antt =====
-- server/src/risk/stop_watchdog.py: the stop watchdog, which watches the prices of the open positions
-- apart from the trading loop. `State` has its data and the methods that keep it, `Checks` the checks
-- of one position, and `Pass` a pass over all of them.
pub mod State
pub mod Checks
pub mod Pass
pub mod Trailing
pub mod Accounts
mod Tests
