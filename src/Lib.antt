-- ===== src/Lib.antt =====
-- A model of flumine, a framework that trades on a betting exchange, and of its simulation.
--
-- How the parts meet. A strategy creates trades and orders and asks a transaction of a market to
-- place, cancel, update or replace them. Controls may refuse; the others are stored in the market's
-- blotter, get a status, wait in lists and leave in packages for an execution. In a backtest the
-- exchange is the simulation: it answers the packages, and every market update then matches the
-- orders that rest. An order that reaches a closing status may complete its trade, which the
-- strategy's runner context then counts as live no more. Exposures are computed from the blotter
-- when a control or a strategy asks.
--
-- Streams, shared by the strategies that ask for the same data, bring market books and the reports of
-- orders, and workers poll the exchange for catalogues and settled orders: each puts events into the
-- queue of the framework, whose loop changes the registry of markets and the orders, and calls the
-- middleware and the strategies. A report finds its order by the reference that the order was sent
-- with, or an order is made for it.
--
-- Files, with the code that each models (paths under flumine/):
--   Book        the market books and runners that the streams deliver (an external library's)
--   Wap         utils.py `wap`
--   Order       order/order.py (fields, sizes, `complete`), order/ordertype.py, and the fields of
--               backtest/simulated.py
--   Trade       order/trade.py, and the statuses of order/order.py that reach the trade. `World` is
--               the object store: orders and trades by their ids, the runner contexts by key, and
--               the clock that `datetime.utcnow()` reads
--   Requests    `place`, `cancel`, `update` and `replace` of order/order.py, and
--               `process_current_order` of order/process.py
--   Strategy    strategy/runnercontext.py, `validate_order` of strategy/strategy.py
--   Ladder      the price table of utils.py, `get_nearest_price`, `price_ticks_away`
--   Simulated   backtest/simulated.py: `place`, `cancel`, `update`; Simulated/Tick `__call__` with
--               `_process_sp`
--   Exposure    the exposures of utils.py and of markets/blotter.py
--   Blotter     markets/blotter.py
--   Controls    controls/tradingcontrols.py; Controls/Hourly controls/clientcontrols.py
--   Package     order/orderpackage.py, `chunks` of utils.py, `_create_order_package` of
--               execution/transaction.py
--   Transaction execution/transaction.py; a control is a function, as the framework and its user
--               choose them
--   Execution   execution/simulatedexecution.py; `_order_logger` of execution/baseexecution.py. The
--               context of a trade is entered and left. Execution/Replacing replacements, `handler`
--   Settlement  `profit` of backtest/simulated.py
--   Creation    `create_order`, `create_order_replacement`, `create_order_from_current` of
--               order/trade.py
--   Markets     markets/markets.py, and the state of markets/market.py
--   Process     order/process.py `process_current_orders`, `create_order_from_current`
--   Analytics   `RunnerAnalytics` of markets/middleware.py; Middleware the rest of that file
--   Backtest    backtest/backtest.py: the muxing of streams, the queue of packages, the live orders;
--               Backtest/Run `_process_market_books` and `run`, with `_process_close_market` of
--               baseflumine.py. The strategies are functions, as they are the user's
--   BetfairExecution execution/betfairexecution.py; the answers of the exchange are an argument
--   Framework   flumine.py `run` and the handlers of baseflumine.py; Framework/Steps the loop with the
--               other threads, as a step relation
--   Requests/Lifecycle what happens to the orders of the store, as a step relation
--   Streams     streams/streams.py; Subscriptions its `__call__`, with `stream_ids` and `check_market`
--               of strategy/strategy.py
--   Historical  streams/historicalstream.py; the caches of betfairlightweight are an argument
--   HttpPool    the sessions of execution/baseexecution.py
--   Worker      worker.py; the answers of the exchange are an argument
--   References  `customer_order_ref` and `sep` of order/order.py, `create_cheap_hash` of utils.py,
--               `hashes` of strategy/strategy.py and the slices of order/process.py
--   PaperTrading streams/simulatedorderstream.py, with what order/process.py makes of its reports
--   Callbacks   the calls of the user's code in utils.py, with the loops of `_process_market_books`
--   Outputs     the output threads of streams/orderstream.py and streams/marketstream.py, and the
--               market count of streams/datastream.py
--   Clients     the accounts of clients/baseclient.py and clients/betfairclient.py
--   Tests       example data, and the theorems applied to it
--   Prelude     lists, dicts and numbers that the files share
--
-- Numbers. A price counts hundredths and a size, a liability or a profit counts ten-thousandths of
-- the currency, as a natural number and an integer; both are exact where the code has floats, and
-- `round(x, 2)` is the rounding of the exact value, ties to even. A product of a price and a size
-- counts millionths. Volume that the code halves is halved down to a ten-thousandth. Identifiers are
-- numbers. Times count microseconds, in the streams and the session pool milliseconds.
--
-- Loops are structural. Five use fuel: `arange_loop` gets the distance between its bounds, enough
-- as every step adds one or more; `chunks_loop` gets the length of its list, enough for a positive
-- size; `mux_loop` gets the number of batches, of which every round takes one; `execution_helper`
-- gets one call more than the package's most retries; `get_cleared_orders` gets one round more than
-- there are orders, enough where a page that announces more is not empty. The recursion between the
-- two methods that complete a trade, which `update_status_depth` bounds, ends after two calls.
--
-- Not modelled: the connection of the live streams and the sessions of the clients, which belong to
-- an external service and its library; the thread pools and what other threads do while an execution
-- runs; logging; instructions and texts that are only passed on; a starting price that is the text
-- NaN, which is no price here.
pub mod Prelude
pub mod Book
pub mod Wap
pub mod Worker
pub mod Order
pub mod Historical
pub mod HttpPool
pub mod Ladder
pub mod Simulated
pub mod Strategy
pub mod Trade
pub mod References
pub mod Requests
pub mod Exposure
pub mod Blotter
pub mod Callbacks
pub mod Clients
pub mod Controls
pub mod Outputs
pub mod Package
pub mod Transaction
pub mod Execution
pub mod Settlement
pub mod Creation
pub mod Markets
pub mod PaperTrading
pub mod Process
pub mod Analytics
pub mod Middleware
pub mod Backtest
pub mod BetfairExecution
pub mod Framework
pub mod Streams
pub mod Subscriptions
pub mod Tests
