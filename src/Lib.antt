-- ===== src/Lib.antt =====
-- Verification of the trading simulation: the matching engine and the parts around it.
--
-- The program reads orders from a FIX file (libs/fix_session) into the order book (libs/order-book),
-- whose executions go through a ring buffer (libs/utils) to the main thread, which keeps positions
-- (libs/position_manager), measures latencies (libs/utils) and reports risk (libs/risk_engine,
-- libs/volatility_surface); market data ticks go through a dispatcher (libs/market_data) and a second
-- ring buffer to the same thread (src/main.cpp). Instruments (libs/reference-data) and the surface are
-- loaded from files at the start, and a server (libs/metrics_server) sends snapshots to its clients.
--
-- The order book is modelled from the bottom up. `Word64` has the operations of `uint64_t`; `Bitset`
-- the occupancy bitset and its searches `highest_bid` and `lowest_ask`; `ObjectPool` the free stack
-- of libs/utils/include/object_pool.h; `PriceLevel` the linked queue of one price, its links in the
-- memory of orders; `SymbolBook` the two sides of a book; `OrderBook` `acceptNewOrder`, `matchOrders`,
-- `buildExecution`, `bestBid` and `bestAsk` of libs/order-book/src/order_book.cpp. `Order` has the
-- records of order.h and execution.h. `OrderBook.Priority` is the abstract matcher, on queues of orders
-- without slots, links and bits, that the order book is compared with. `SpscQueue` is libs/utils/include/spsc_queue.h, its calls as
-- functions and, in `SpscQueue.Threads`, its two threads as steps on the shared variables.
-- `FixSession` is `parseFixLine` and the loop of `start`, and `FixSession.Files` the opening and mapping of the file
-- in `start`, with its errors; `LatencyTracker` is the histogram as one thread uses it, with its text, and
-- `LatencyTracker.Threads` is `record` as any number of threads run it, one atomic operation a step, and
-- `LatencyTracker.Clock` the clocks of that file;
-- `PositionManager` `onExecution`; `Dispatcher` the routing of ticks; `RiskEngine` the risk engine.
--
-- `InstrumentStore` is libs/reference-data/src/instrument_store.cpp and `VolatilitySurface`
-- libs/volatility_surface/src/vol_surface.cpp, each with its loading from the bytes of a file; `Csv` is
-- the splitting that both do, `Result` how a loading ends: with a value, by an exception or by a read
-- outside a vector. `StringMap` is a map with strings for keys. `MetricsServer` is
-- libs/metrics_server/src/metrics_server.cpp: the text of a snapshot, and in `MetricsServer.Threads`
-- `start`, `stop`, the accept loop and the client threads as steps.
--
-- `Feed` is the receive loop of libs/market_data/src/udp_feed_subscriber.cpp, and `Feed.Threads` its `start`
-- and `stop` as steps of two threads. `OrderSimulator` is tools/fix_order_simulator.cpp, which writes the file
-- that `FixSession` reads, and `TickSimulator` tools/udp_tick_simulator.cpp, which sends the datagrams that
-- `Feed` receives.
--
-- src/main.cpp is in three files. `ColdPath` has the callbacks and a pass of the main loop, `Dashboard`
-- the snapshot and the reports, and `Trading` the program as a whole: its events are the datagrams, the
-- orders and the passes of the main loop, and a schedule is any list of them, so that the threads
-- interleave as they like between events. Inside an event the producer and the consumer of a queue
-- interleave by the steps of `SpscQueue.Threads`. `Trading.Schedule` compares a run with the order book
-- alone (`OrderBook.Serial`, `OrderBook.Frame`), and `Trading.Startup` has the loading of the files before the
-- run, and the waits for the threads and the report after it; whether such a wait ends is a parameter there,
-- and `Feed.Threads.Stop` and `MetricsServer.Threads.Stop` are about what two of the threads do then.
--
-- A pointer into the slab is the index of its slot and the slab is a function from slots to orders.
-- Vectors are functions from the index, of which only indices in range are used. The map of books is
-- a function from the key, other maps are lists of entries. A string is the list of its bytes. `double`
-- and the clock are parameters (`Double`), and so is what the program calls of the C and C++ libraries,
-- such as `atof`, `stod` and `sqrt`; what the accounts rely on of `double` is `PositionManager.Exact`.
-- Quantities are unbounded integers: the 32-bit overflow of signed quantities, which the language
-- leaves undefined, is outside the model; `OrderBook.Quantity` is the range that orders are to keep to.
--
-- The matching loop has fuel: `acceptNewOrder` gives it one round more than the pool has slots, and
-- every round that trades releases a slot, so that it never runs out. The parser has one round more
-- than the line has bytes, the loop over the lines one more than the file has, and a drain of a queue
-- as many as the queue has slots.
--
-- Not modelled: what the hardware clocks read, thread pinning, how numbers are printed, the MPMC queue, which no component uses, the tests and the benchmarks. What sockets and files
-- bring is a parameter or a choice between steps. That the closing of an acceptor ends an `accept` which
-- waits on another thread is taken from the comments of the server. Of the calls of the tracker only `record` is modelled as
-- threads interleave in it: a reset or a report between two steps of a `record` is not, and neither is a
-- drain between two steps of the producer.
pub mod Bitset
pub mod ColdPath
pub mod Csv
pub mod Dashboard
pub mod Dispatcher
pub mod Double
pub mod Feed
pub mod FixSession
pub mod InstrumentStore
pub mod LatencyTracker
pub mod MetricsServer
pub mod ObjectPool
pub mod Order
pub mod OrderBook
pub mod OrderSimulator
pub mod PositionManager
pub mod Prelude
pub mod PriceLevel
pub mod Result
pub mod RiskEngine
pub mod SpscQueue
pub mod StringMap
pub mod SymbolBook
pub mod Tests
pub mod TickSimulator
pub mod Trading
pub mod VolatilitySurface
pub mod Word64
