-- ===== src/Lib.antt =====
-- finam-tradebot, a bot that trades futures of the Moscow exchange through the Finam Trade API.
--
-- The market data client reads the streams of the exchange and hands quotes, trades, bars and order
-- books to callbacks; changes of the book become book level events. A runner for each instrument
-- queues quotes, trades and book level events in a ring, drains it on one thread, and hands each
-- event to its strategy. The strategy enters when the imbalance of the order book, the flow of
-- trades and the breakout of the opening range agree, and leaves on a stop loss, a take profit or a
-- reversed flow. The runner passes each entry through the risk manager, which all runners share, and
-- sends the order to the order client. The client follows the stream of orders; its updates go to
-- every runner, which books a fill of its own instrument with the risk manager and passes it on to
-- the strategy. The main program joins the parts; the token manager supplies the account and the
-- token of each call, and the health server shows the state of the risk manager.
--
-- What is modelled where:
--   Core/Types             src/core/interfaces.hpp
--   Core/Contract          src/core/contract.hpp, with the day count of <chrono> in Core/Calendar
--   Core/SpscQueue         src/core/spsc_queue.hpp
--   Core/EventBus          src/core/event_bus.hpp, which no part of the program uses
--   Core/Backoff           src/core/backoff.hpp
--   Core/Maintenance       src/core/maintenance.hpp
--   Core/HealthServer      src/core/health_server.hpp, its loop in Core/HealthServer/Loop
--   Strategy/OfiTypes      src/strategy/ofi_types.hpp
--   Strategy/OrderBookState   src/strategy/order_book_state.hpp
--   Strategy/TradeFlow     src/strategy/trade_flow_analyzer.hpp
--   Strategy/SpoofFilter   src/strategy/spoof_filter.hpp
--   Strategy/SessionContext   src/strategy/session_context.hpp
--   Strategy/Confluence    src/strategy/confluence_strategy.hpp, its state in Strategy/ConfluenceState
--   Strategy/Runner        src/strategy/strategy_runner.hpp, its queue in Strategy/Runner/Queue,
--                          and what its thread does with one event, step by step, in
--                          Strategy/Runner/Task
--   Risk/RiskManager       src/risk/risk_manager.hpp and .cpp, its state in Risk/State
--   Order/OrderClient      src/order/order_client.hpp and .cpp, their messages in Order/Protocol
--   Order/OrderStream      src/order/order_client.cpp, run_order_stream
--   MarketData/Convert     src/market_data/market_data_client.cpp, the conversions
--   MarketData/Streams     the same file, the loop that all subscriptions share
--   MarketData/Subscription   the same file and its header, a subscription and its cancellation
--   MarketData/Quotes      the same file, quotes, trades, bars and the history of bars
--   MarketData/OrderBook   the same file, subscribe_order_book, with its maps in MarketData/PriceMap
--   MarketData/BookEvents  the same file, subscribe_book_events
--   Auth/TokenManager      src/auth/token_manager.hpp and .cpp
--   Main                   src/main.cpp, its beginning in Main/Startup, in Main/Bot the parts together,
--                          while they run, and in Main/Life from the first runner to the shutdown
--   Main/Executor          IOrderExecutor in src/core/interfaces.hpp with its two implementations
--   ConnectivityCheck      src/connectivity_check/main.cpp
--   Backtest               tests/backtest/backtest_runner.hpp and .cpp
-- A class is a record with its members, a method a function of the same name from the state to the
-- new state and the result. Files below a component's file prove things of it. Prelude has integers
-- over the native numbers, byte strings with the parsers that the code calls, and maps; Tests has the
-- runs at concrete inputs.
--
-- How things are modelled:
--   * A double is any type with the operations of Double.antt, and no law is assumed but where a
--     theorem asks for IsOrdered. Double/Fixed is one such type, on which the tests run.
--   * A time is a number of nanoseconds since 1970. Where the code subtracts two times and compares
--     the difference, the subtrahend is moved to the other side of the comparison.
--   * Signed integers are unbounded, but for the cast to int32_t in upsert; the 32-bit counters of the
--     spoof filter wrap.
--   * A std::unordered_map is an association list; its order stands for the order of iteration. A
--     std::map is a list that is kept in the order of its keys.
--   * A remote call is an argument that gives the answer or the message of a failure, and so is the
--     clock. Logging is left out.
--   * A stream is the list of the messages that it delivers, and a loop that opens it again runs over
--     the list of its sessions: what each delivers, and what the stop flag and the clock say then.
--   * A method that locks once is one step, and so is a push or a pop of the ring; Core/SpscQueue has
--     the two halves of a push as well, and Order/OrderClient those of an upsert. Pushes of the
--     callbacks and rounds of the strategy thread are a list of actions, in the order in which they
--     take effect; bars of the subscriptions come in outside the queue.
--   * Main/Bot does the same for all threads of the program: there a strategy thread takes an event,
--     makes one of the six checks of the risk manager, trips the breaker, or submits, with the updates
--     that the order client answers, in one step, and any other thread may take steps in between.
--     RiskManager.check, handle_signal and drain are the same code when nothing comes in between.
--     Main/Life adds what main itself does: a state is reached by its moves and by such steps, in any
--     order. A runner is a place in a list; main destroys the runners one after the other, each once
--     its thread has no task left, and a call of one that is destroyed is noted.
--     MarketData/Subscription has the thread of a subscription in steps of one test, one message or
--     one wait, so that its handle may be destroyed between any two.
--   * The descriptors of the health server are counted, and the readings of its stop flag, of select
--     and of accept are a list, on which a client that sends nothing ends all that follows.
--   * The order callback and the signals that are sent are results, in their order.
--   * The wait of the backoff runs on fuel, its delay in milliseconds, which is enough since each round
--     sleeps one at least: the code's tick is 50 ms. The printing of a number runs on the number
--     itself; every other loop is over a list or a bounded index.
--
-- Not modelled: gRPC and its metadata, addresses and ports, the creation of threads,
-- the signal handlers, logging; src/core/grpc_fmt.hpp, a formatter for logs; and the files that a
-- backtest reads and writes.
pub mod Prelude
pub mod Double
pub mod Core
pub mod Strategy
pub mod Risk
pub mod Order
pub mod MarketData
pub mod Auth
pub mod Main
pub mod ConnectivityCheck
pub mod Backtest
pub mod Tests
