-- ===== src/Lib.antt =====
-- poly-asian-data collects market data of a prediction exchange, ranks markets by edge, and drives
-- paper trading from it. This library models its core: the worker pool on which the collectors run,
-- the paged reads of the HTTP APIs, the in-memory order books of the websocket listener, the paper
-- signals, the risk manager, the capital allocation and the simulation of paper trading, and the
-- registry of strategy versions.
--
-- The parts and their files:
-- - WorkerPool: internal/workerpool/workerpool.go. The record Pool holds the two channels, the
--   counters and the flags of a pool; Step is the relation by which its goroutines interleave: one
--   step of a worker (worker, processItem, sendResult), of a call (Submit, SubmitWait) or of the
--   stopping goroutine (Stop, StopNow). Ids models formatID, whose buffer of 20 bytes is enough for
--   a uint64.
-- - Fetch: internal/fetcher/paginate.go. fetch_paginated and fetch_paginated_keyset are the two loops,
--   on fuel: the HTTP client, the JSON decoder and the context are the record Server, by the number
--   of the request. With a threshold as many rounds as the threshold are enough; without one as many
--   as there are items and one more, or pages.
-- - Market: internal/ws/market. Book (book.go) applies an event to the book of its asset; Flush takes
--   batches for the database and marks them; Resolve (resolve_queue.go) keeps resolutions for a batch
--   write; Subscribe (subscribe.go) and Counters (stats.go) are the subscription changes and the
--   message counters. cmd/ws-listener calls Apply from one goroutine and the flushes from others.
-- - Risk: internal/risk. The parent is config.go; Rank is rank.go; Manager, Sizing and Accept are
--   manager.go: the state of a manager, the size of a position, and the decision on a signal. Halts
--   has the sequences of operations, with an offer that opens the position when it is accepted.
-- - Alloc: internal/alloc/alloc.go. run is Run: it screens a board, keeps the best name of each key,
--   ranks the rest with Risk.Rank and fills the slots in that order under the gross limit.
-- - Best: the loop that keeps the best item of each key, which Alloc and Sim share.
-- - Sim: internal/signaleval. Ledger has what the simulation holds open and the loops that close it,
--   Process a signal and a batch, Run is Simulate; the manager that it drives is Risk.Manager. Boards
--   replays published boards through Alloc, and Equity has the statistics of the equity curve. A result
--   leaves out the hash of the policy, and the score card of surface.go is not modelled.
-- - Signals: internal/signals, with Cost for internal/edge/cost.go. evaluate_with is evaluate, with its
--   flag applyGates; Select hands candidates to Alloc and takes its names back.
-- - Gap: internal/datagap. Prices and Books are FillPrices and FillBooks; Search is sort.Search of the
--   standard library, whose rounds halve the range, so that as many as there are elements are enough;
--   sort.Slice, which is not stable, is a parameter. The grid has as many times as the division of the
--   range by the step says.
-- - Edge: internal/edge. Fair is the chain of fair values, Families and Score are Score and RankByEdge, Board
--   is SelectBoard; Cost is a module of its own. math.Round and math.Log1p are the record Rounding.
-- - Edgescan: internal/edgescan. select_top_n is selectTopNByEdge, whose two loops are pick; Groups is
--   ExpandGroupCandidates, whose Go maps are walked in an order that is given; Stage2 has the features of
--   a candidate and, in Build, BuildEdgeBoard, which calls SelectBoard and then selectTopNByEdge. The calls
--   of other packages there, JSON and times among them, are the record Calls.
-- - Strategy: internal/db/strategy_versions.go and internal/strategyreg. Tables are the three tables;
--   activate and rollback are the transactions, Registry the operations in front of them.
-- - Base, Float and Sort are what the parts share: tests and lists over native numbers, Go maps,
--   float64 and the stable sort. Tests holds runs of each part.
--
-- How the code is read:
-- - A float64 is a value of a type F with the record Float64 of its operations; the laws IsOrdered are
--   those of the IEEE 754 comparisons and of short decimal literals, and HasSigns, which Gap.Between
--   uses, those of the signs of sums, differences and products; no other law of these is used. NaN is a
--   value, and a comparison with it is false, so that a bound is stated as the comparison that is false.
--   Float.FixedPoint is a type that meets the laws, for runs.
-- - A time is a number of nanoseconds since the zero time, which is 0; time.Now is an argument.
-- - An int is a natural number, where the code treats a negative one as 0. The counters of Market
--   wrap at 2^64; those of the pool are taken as unbounded, and so are the products of durations, such
--   as a number of seconds in nanoseconds, which in the code are an int64.
-- - A Go map is an association list. Its order stands for the order of an iteration, which Go leaves
--   open; what is stated holds for every list. The map of the open trades, which starts empty in
--   Simulate, is walked in the order of the record MapOrder, which visits each key once and is chosen anew
--   for each state of the simulation.
-- - sort.SliceStable is the stable insertion sort of Sort.
-- - A Snapshot of the pool's counters is read at one instant, where the code makes five atomic loads.
-- - Code under a mutex is one step. A pointer into a map is a read of the entry and a write back.
-- - A price's text (priceKey, parsePriceKey) and the text of a deduplication key are parameters.
-- - A SQL statement is the function on the tables that it says, and a transaction is one step; a
--   statement that fails, and NULL against the empty text, are not modelled. Retire and MarkCandidate
--   are one step too, which holds where no other call comes between their statements.
--
-- Not modelled: the commands, the schemas and migrations, logging, the database writers and readers
-- but for the strategy tables, and the HTTP and websocket clients, which are input and output; the first
-- stage and the cycle of the edge scan, which read the markets of the external API; and the catalog, the
-- tags, the pipeline's wiring and the backtest, which the size of the development leaves out.
pub mod Base
pub mod Float
pub mod Sort
pub mod Alloc
pub mod Best
pub mod Cost
pub mod Edge
pub mod Edgescan
pub mod Fetch
pub mod Gap
pub mod Market
pub mod Risk
pub mod Signals
pub mod Sim
pub mod Strategy
pub mod WorkerPool
pub mod Tests
