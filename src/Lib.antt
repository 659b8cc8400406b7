-- ===== src/Lib.antt =====
-- The trading server of this repository, as models of its stateful classes and the theorems about
-- them. The server (server/src) is a bot for one exchange: an engine asks strategies for signals,
-- a layer of risk components decides whether and how much to trade, an executor drives each order
-- through its states, and for each open position a state machine and a watchdog order the stops
-- and the exits. Modelled are the components that hold the state of these decisions:
--
--   Order        server/src/execution/order_state.py: one order, its table of transitions,
--                timestamps and fills; a method that raises returns the order it leaves and the
--                error. Enumerations of server/src/models/schemas.py.
--   TradingMode  server/src/risk/modes.py: NORMAL, SAFE and HALT. A listener is a parameter that
--                transforms an abstract world, its exceptions being caught by the source.
--   Drawdown     server/src/risk/dd_tracker.py with its settings in server/src/risk/config.py:
--                peak, base of the day, tiers and triggers.
--   UserMode     server/src/services/mode_manager.py and server/src/models/user_mode.py: the mode
--                that the user asks for and the one that the drawdown tracker's state allows.
--   Hysteresis   server/src/risk/hysteresis_tracker.py: the capital mode, switched by streaks of
--                daily records. What is saved is `StateDict`, with the texts of the modes and the
--                fields of the records by name; its JSON text is a parameter.
--   Watchdog     server/src/risk/stop_watchdog.py: Watchdog/State is the class and its small
--                operations, Watchdog/Checks what is judged of one position, Watchdog/Pass one
--                pass over all of them, which starts at a time of its own, with the exception that
--                may cut it short.
--   Psm          server/src/position: Psm/State (schemas.py, config.py), Psm/Policies
--                (policies.py), Psm/Answers, Psm/Machine and Psm/Positions (state_machine.py).
--   Ledger       server/src/portfolio/ledger.py: trades, equity and the statistics of each day;
--                `StrategyType.CORE` is looked up among the members of the enumeration.
--   Positions    server/src/portfolio/position_ledger.py: Positions is the class and its queries,
--                Positions/Fills the fills, Positions/Reconcile the comparison with the balances.
--                Positions/View is its abstract view: a map from symbol and strategy to the open
--                position.
--   Exposure     server/src/risk/exposure_manager.py: whether a position may be opened, and the
--                amount.
--   CapitalProfile  server/src/risk/capital_profile.py: the risk of a trade and the attack levels
--                that the capital mode allows.
--   AttackGate   server/src/risk/attack_gate.py: whether an attack signal may be traded, and at
--                which level; of server/src/risk/pump_dump_filter.py its quick check.
--   CommandQueue  server/src/engine/command_queue.py and `_process_commands` of
--                server/src/engine/core.py: the commands of the web interface. Commands are objects in
--                a store, since the queue and the dictionaries share them. CommandQueue/Steps has the
--                steps of the web interface and the engine in any order, CommandQueue/Loop the loop.
--   RiskEngine   server/src/risk/risk_engine.py: the conditions that lead to SAFE or HALT
--                (RiskEngine), the check of all of them, the events that are counted and the manual
--                controls (RiskEngine/Actions).
--   PortfolioRisk  server/src/risk/portfolio_risk.py: the risk that the open positions take, and
--                the limits of it.
--   TimeStop     server/src/position/time_stop_policy.py: the close of a position for its age.
--   Reducer      server/src/risk/position_reducer.py: orders that shrink positions, and the stay
--                after them.
--
--   ExecHealth   server/src/risk/exec_health.py: the windows of latencies and order results.
--   Correlation  server/src/risk/correlation.py: the guard against coins that move together.
--   Candles      `CandleBuffer` of server/src/data/candle_manager.py.
--   Kmvi         server/src/risk/kmvi.py: the volatility of the market, from candle buffers.
--   Overlay      server/src/risk/risk_overlay.py: Overlay/Decision has the stages of a decision,
--                Overlay/Evaluate their composition, Overlay/Entries what is asked of a decision.
--   Executor     server/src/execution/executor.py: Executor/Place places one order, Executor/Submit
--                reports on it, Executor/Hedge drives pairs of orders, Executor/Book holds the orders.
--                The exchanges, the clock and new ids are the record `World`; a method is a function of
--                a state to a result and a state (Executor/Calls). `settings.name` is looked up among
--                the names that the class `Settings` of server/src/config.py defines.
--   Strategies   server/src/strategies/v3_live.py: signals, cooldowns, positions and exits; of
--                server/src/data/candle_manager.py the true range that they read.
--   Trading      `_execute_strategies`, `_execute_v3_signal`, `_manage_v3_exits` and the choice of
--                symbols of server/src/engine/core.py: Trading/Entries and Trading/Exits, and
--                Trading/Rounds for the rounds of the main loop, as far as they trade. The exchange
--                and the clock are the record `Market`. Both methods catch every exception; a fill
--                event is made there without an argument that it needs, which is such an exception.
--
-- UserMode reads the state of Drawdown, Exposure asks Positions, AttackGate asks CapitalProfile,
-- that the tracker of Hysteresis, RiskEngine asks Ledger and drives TradingMode, Executor drives
-- Order and tells RiskEngine and ExecHealth, Trading asks Strategies, Overlay and UserMode, and
-- Overlay asks Drawdown, ExecHealth, Correlation, Kmvi, PortfolioRisk and Reducer, as in the
-- source. What other components answer to Psm in one evaluation (features, candles, score, risk
-- engine, overlay) is the record `Answers`, and what the exchange answers to the watchdog is a
-- `Reading` of each symbol: both are parameters of the step, and the theorems hold for all of
-- them.
--
-- Numbers. A Python float is a type F with the operations of `FloatOps` (Float). Theorems that
-- need an order assume `FloatOrder`: a total order and that a - b is not below 0 where b ≤ a. That
-- is so of finite floats; rounding is not excluded. `FloatScale` adds that a factor between 0 and
-- 1 shrinks and that a mean lies between its parts. `FloatQuotient`: a number over a larger one
-- above 0 is below 1. Float/Fixed is an instance, integers in
-- millionths, on which the definitions run and at which the theorems are applied in the Tests of
-- each component. Counters and times (microseconds since a midnight, Clock) are natural numbers,
-- symbols and identifiers of positions are natural numbers too. A dictionary (Dict) is an
-- association list, in the order of insertion. The loops of the source run over a finite list, but
-- for the engine's loop over its commands, which has fuel: one more round than commands are queued
-- is enough. What executes a command is a parameter there. The wait for a fill has as many rounds as
-- the clock allows before the timeout, an argument.
--
-- Not modelled: logging, JSON and files, asyncio tasks and locks, the views for the dashboard, and
-- the components that are I/O or series of market data (the exchange client, web routes, database,
-- backtests, other strategies, the AI optimizer, the dashboard).
pub mod Base
pub mod Float
pub mod Order
pub mod TradingMode
pub mod Clock
pub mod Drawdown
pub mod UserMode
pub mod Hysteresis
pub mod Dict
pub mod Watchdog
pub mod Psm
pub mod Ledger
pub mod Positions
pub mod Exposure
pub mod CapitalProfile
pub mod AttackGate
pub mod CommandQueue
pub mod Reducer
pub mod RiskEngine
pub mod PortfolioRisk
pub mod TimeStop
pub mod ExecHealth
pub mod Correlation
pub mod Candles
pub mod Kmvi
pub mod Overlay
pub mod Executor
pub mod Strategies
pub mod Trading
