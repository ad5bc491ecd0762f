-- ===== src/Lib.antt =====
-- The Turtle execution engine: an append-only event store, and managers that keep their state in it.
--
-- Every manager records what it does as events of one shared store, and its constructor rebuilds its state by
-- replaying them; a key on each event makes a repeated request return the first outcome. The risk manager is a
-- pure decision on data of the others.
--
-- Parts:
--   Base                    shared types and lemmas: texts as lists of code points, JSON values, exceptions as
--                           `Outcome`, dictionaries, transition tables from a list of edges (Tables) and the
--                           sequences of their transitions (Runs), `Decimal` by value with 28 digits (Decimals)
--   EventStore              event_store/: types.py (Types), codec.py (Codec: `encode_record`, `decode_record`),
--                           the operating system's file (Platform), the writing half of store.py (Store:
--                           `append` and its checks) and the reading half (Log: `_scan_file`, `__init__`)
--   ExecutionStateMachine   execution_state_machine/: states.py, transitions.py, machine.py (Machine: `__init__`,
--                           `transition`)
--   EventSourcing           what the three managers share: appending an event and applying it, replay in the
--                           constructor (EventSourcing, Replaying), the agreement of a manager with the store
--                           (Soundness), several owners of one store (Sharing), invariants of events
--                           (Invariants), repeated requests (Repeats), the test for applied events (Tracked),
--                           recorded transitions (Lifecycles), methods with state that a restart loses (Live)
--   OrderManager            order_manager/: states.py (States, Transitions), snapshot.py, ids.py, and manager.py:
--                           `_apply_event` (Events, Effects), `_persist`, `_drive_execution_sm`, `_ingest_status`
--                           (Notices, Running, Status), the methods (Manager, Requests, Calls)
--   PositionManager         position_manager/: states.py, snapshot.py, pnl.py (Pnl), ids.py, and manager.py:
--                           `_apply_event` (Events, Effects), `_try_transition` (Notices), the methods (Running,
--                           Manager, Exits, Requests)
--   PortfolioManager        portfolio_manager/snapshot.py and manager.py: `_apply_event` (Ledger, Events), the
--                           methods (Manager), the range in which its sums are exact (Conservation)
--   RiskManager             risk_manager/models.py (Models) and manager.py (DataChecks, Rules, and Evaluate:
--                           `evaluate`)
--   ExchangeAdapter         exchange_adapter/: the types of models.py that these use (Models), the retry loop of
--                           retry.py (Retry), the mutating methods of adapter.py with idempotency.py and audit.py
--                           (Adapter)
--   Tests                   runs on concrete data
--
-- A method that changes state takes the state and returns it with its outcome. A method under a lock is one step.
-- A file is its content and the position of its descriptor. An argument says what each `os.write` and the
-- `os.fsync` of a call do, and whether the `os.ftruncate` and `os.fsync` of a rollback, or of the cut of a torn
-- tail, succeed. `json`, SHA-256, `str.lower` and
-- `datetime.fromisoformat` are parameters; what a theorem needs of them is one of its hypotheses: a digest has
-- 32 bytes, and `json` reads back the envelope that it wrote, the fields of every dict in the order of their
-- names (EventStore/Canonical), since `_canonical_json` sorts them.  `str` and `Decimal` on texts are the record
-- `Numerals`, whose law is that `Decimal` reads back what `str` wrote. The exchange adapter is a parameter of the
-- order manager: any reply to any call. Where the code reads a field of a payload as one JSON type, a field of
-- another type, which no method writes, raises TypeError in the model.
--
-- A manager's state has two parts: what its events determine, and what a restart loses (numbers that were issued
-- for events that failed to be stored, fills that were ignored as late, the execution state machine's object).
-- Recovery is about the first part; the second is the `Transient` record that the methods pass on.
--
-- The loop over a log has one unit of fuel more than the file has bytes; each round consumes at least one byte,
-- so the fuel is enough (Log.Fuel). The retry loop has one unit more than the attempts that its policy allows
-- (Retry.Bounded). All other recursion is structural, but for the digit count of Decimals, whose
-- fuel is the number itself.
--
-- Not modelled: operating-system locks, exchange transports, secrets, configuration files, the alpha engine, the
-- trading system's strategies and the application around the engine. Exponents of decimals are unbounded, NaN and
-- infinities are left out, and with them the calls of the risk manager that raise InvalidOperation or Overflow.
-- A manager's constructor is run on the open store, whose events are in memory; the events of a store that is
-- opened again differ from them in the order of the fields of their payloads.
pub mod Base
pub mod EventStore
pub mod EventSourcing
pub mod ExecutionStateMachine
pub mod OrderManager
pub mod PositionManager
pub mod ExchangeAdapter
pub mod PortfolioManager
pub mod RiskManager
pub mod Tests
