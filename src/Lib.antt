-- ===== src/Lib.antt =====
-- The paper day trader (src/daytrader): a process that receives ticks, evaluates the approved plans
-- of the day and trades them on paper, one position for each market, mirroring its orders as intents
-- that are recorded and never sent.
--
-- Parts and files:
-- - Prelude, Prelude/Lists, Prelude/Tests, Prelude/Dict, Prelude/Text, Prelude/Result: lists, tests on
--   numbers, a Python dict as an association list in insertion order, str.upper on ASCII letters, and
--   results or exceptions.
-- - Float: what the program does with float, as a parameter: a record of operations. Float/Laws has
--   the laws that a theorem may assume (of the doubles without NaN),
--   Float/Scaled a number type that meets them, in which the examples run.
-- - Models, Models/Rule: the enumerations and records of src/daytrader/models.py and CostConfig of
--   src/daytrader/config.py, as they are after validation. Models/Checks and Models/Quote have the
--   validators, with their proofs in Models/Nesting, Models/Prices and Engine/Context.
-- - Rules: src/daytrader/rules.py. evaluate_predicate and evaluate_group return their result with the
--   debounce states that the program updates in place; KeyError is a missing value. Rules/Debounce,
--   Rules/Cooldown, Rules/Group and Rules/Fired hold the proofs.
-- - Portfolio: PendingOrder, Position and Portfolio of src/daytrader/broker.py.
-- - MarketClock: src/daytrader/market_clock.py, over a calendar that is a record of functions.
-- - Validator: src/daytrader/validator.py, with exceptions as results. Validator/Contradictions has
--   _assert_no_contradictions, Validator the rest of validate_plan. Validator/Sound, Validator/Conflicts
--   and Validator/Contradicted prove what a contradiction is, Validator/Accepted what an accepted plan
--   is; Validator/Tests runs both.
-- - Repository: the tables of src/daytrader/repository.py, as lists with the newest row first; an
--   insertion that breaks a key answers false. Repository/Nonces has the one-time codes,
--   Repository/Plans the plans and approve_plan. A transaction that raises leaves the tables as they
--   were. Repository/Keys, Repository/Days, Repository/Codes, Repository/Issues, Repository/Ledger,
--   Repository/Arming and Repository/Approvals hold the proofs, Repository/Tests two approvals. SHA-256
--   and the JSON of a plan are functions given to the operations, and a code that is drawn is given.
-- - KisOrders: KISOrderIntentRecorder of src/daytrader/kis_orders.py, which writes intents.
-- - Broker: PaperBroker of src/daytrader/broker.py. A desk is the broker as one market sees it: its
--   portfolio, the stored row, the repository, and the number of ids drawn. Broker/Costs has _bps to
--   daily_risk_used; Broker/Sessions cancel_pending, _ensure_session and can_submit; Broker/Entries
--   submit_entry; Broker/Fills _allocate_targets, _apply_entry_fill and process_pending; Broker/Exits
--   close_quantity, _begin_exit, _process_exit_pending, force_close and reset_day; Broker/Ticks
--   on_tick; Broker/Report performance and view; Broker/Markets the two markets together,
--   expire_pending, and the calls as a step relation with the brokers reachable from a new one.
-- - Pullback: the state and the helpers of src/daytrader/pullback.py for one plan and symbol: the state
--   in memory, its stored row, and the repository with the events. Pullback/Evaluate has evaluate, one
--   function for each phase; Pullback/Moves and Pullback/Signal the proofs, Pullback/Tests a rebreak.
--   fmean of the module statistics and the date in the market's time zone are parameters.
-- - Engine: TradingEngine of src/daytrader/engine.py, which drives the broker and the strategy. Engine
--   has the state and the feed (_validate_feed, _update_feed_state, context), Engine/Ready
--   _indicators_ready and the gates of an entry, Engine/Entry _try_entry, Engine/Process process_tick
--   and what it is made of. Engine/Calls, Engine/Runs and Engine/Ticks prove that a tick is a run of the
--   broker, Engine/Feeds and Engine/Gates what is refused; Engine/Tests runs a tick. Pullback/Writes has
--   what the strategy leaves alone.
-- - Service: the requests of src/daytrader/api.py that change something: register_plan, issue_nonce and
--   ingest_tick with _bearer and _require. Service/Register has the proof, Service/Tests a request.
--   Validator/Sample is a calendar and a plan.
-- - Proofs of the broker: Broker/Slot (the slot of a market, with Submit, Fill, Close, Tick for each
--   operation and Reach for all calls), Broker/Quiet (what keeps keys and counts), Broker/Submissions,
--   Broker/Limit, Broker/Risk, Broker/Filling, Broker/Targets, Broker/Expiry, Broker/Flat,
--   Broker/Accounts, Broker/Fresh, Broker/Paused.
--   Broker/Sample is a setup in
--   whole units of money; Broker/Tests and Rules/Tests run the code on it and apply the theorems.
--
-- State is passed and returned. An object that Python shares, such as a position in the hands of a
-- caller and in the dict, is put back into the dict where it changes. Times are microseconds and dates
-- are days, both natural numbers; a difference of times that the program compares with a duration is
-- written as a sum. math.floor gives 0 for what is negative, which each caller refuses like 0;
-- math.ceil of quantity * pct / 100 is computed on natural numbers. uuid4 and the time zones are
-- functions given by the setup. There is no fuel: all loops are over lists.
--
-- The engine reads the clock once for a tick, where the program reads it again for each plan. An
-- exception out of evaluate ends the attempt at an entry here, and the whole tick in the program; the
-- gates ask for the indicators whose absence raises it.
--
-- Not modelled: the JSON of stored portfolios and their restoring (the stored row is the portfolio
-- itself, and a new broker starts with none); the payloads of events beyond what is read; the
-- ValueErrors of the order recorder (a fractional price in Korean won, an unknown exchange) and
-- its request previews; the metrics of a pullback decision but the volume ratio; an unknown stored
-- phase; SQLite, routing, views and notifications, websockets, clocks and calendars; the bounds of single
-- fields; the indicators from bars; the interleaving of threads.
pub mod Prelude
pub mod Float
pub mod Models
pub mod Rules
pub mod MarketClock
pub mod Validator
pub mod Portfolio
pub mod Repository
pub mod KisOrders
pub mod Broker
pub mod Pullback
pub mod Engine
pub mod Service
