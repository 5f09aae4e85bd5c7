-- ===== src/Lib.antt =====
-- Verification of the runtime bridge, which keeps the workers of Phala Network in step with their
-- two chains. The program has four parts that run as processes: the data provider fetches blocks
-- of the parent chain and the para chain and groups them into ranges and windows; the lifecycle
-- runners send these to the workers and bring each worker through its states; the trade process
-- takes requests for transactions, batches them per pool and sends them to the chain; and the
-- point-to-point service answers queries between these processes.
--
-- Prelude: names of the libraries that all modules share, Boolean tests, lists over the native
--   numbers, options, and signed integers (block numbers, where -1 is a mark).
-- Iterate: utils/iterate.js, the retry loop over a generator, used for each loop of a runner.
-- Trade: src/trade.
--   Trade.Call: the calls that requests record and trader.js replays (apiProxy, formTx).
--   Trade.Preprocess: preprocess.js and preprocess_actions.js, from a request to its calls.
--   Trade.PoolQueue: class PoolQueue of bus.js. Batches lie on a heap of references, since the
--     queue, the current batch and a timer's closure share them. `run` is a sequence of events:
--     a request, a timer that fires, a turn of the dequeue loop.
--   Trade.Retry: the input queue's handler of bus.js, on the number of retries that are left.
--   Trade.Trader: sendTx of trader.js as a reaction to the signals of one transaction;
--     Trade.Trader.Process is the process around it (processBatch, doAddJob, poolNonces).
--   Trade.Manager: trader_manager.js, the manager of the trader process, and what may happen to it,
--     one event after another.
--   Trade.Verdict: how a batch's failed calls become the result of each of its jobs.
-- DataProvider: src/data_provider.
--   DataProvider.Store: keys, records and the encodings, which are a parameter with the law that
--     what is encoded decodes to itself.
--   DataProvider.Window: io/window.js, each operation a function of the database;
--     DataProvider.Window.Progress has the marks of progress and the ranges of para blocks.
--   DataProvider.Blob: blob.js. `walk_with` is walkBlock for the two blocks that it waited for;
--     DataProvider.Blob.Loop has its recursion and walkWindow. The blocks that the store holds are
--     a parameter, and `none` is a walk that waits or throws.
--   DataProvider.Fetch: block.js, io/block.js and iteratePara of fetch_block.ts, on the node's
--     answers to each attempt; DataProvider.Fetch.Parents has the parent blocks with their
--     justifications, and the loop up to the finalized one.
--   DataProvider.Server: the blob server of io/server.js.
--   DataProvider.Heights: ipc.ts and index.ts, the heights that its processes report.
-- Runner: src/lifecycle/runner.
--   Runner.StateMachine: state_machine.js, the table of states and events and the decisions of the
--     actions; what an action awaits is a parameter, and of startSyncMessage only the call is told.
--   Runner.Connection: the connection of ptp.ts to a blob server; Runner.Connection.Link joins it
--     to DataProvider.Server by the messages on their way. `run` is a schedule of both sides.
--   Runner.Providers: the manager of ptp.ts, with one connection for each data provider behind a
--     lock; Runner.Providers.Candidates has the peers that serve blobs and the choice of one.
--   Runner.Buffers: the open promises of blob.ts that calls at the same time share.
--   Runner.Workers: index.ts and worker.js, the contexts of the workers of a runner, by events;
--     Runner.Workers.Status is what it knows of the data providers' progress, and
--     Runner.Workers.Reports what it reports of its workers.
--   Runner.Sync: the variables that single_sync.js and separated_sync.js share and the `World`
--     that answers their awaits; Runner.Sync.Single is the loop of single_sync.js, run by Iterate;
--     Runner.Sync.Separated has the two loops of separated_sync.js as turns of a schedule.
--   Runner.Blob: blob.ts, from a key to what a worker is sent. A `Provider` answers each look; with
--     the database of DataProvider.Window as the provider, the two sides of a blob meet, in
--     Runner.Blob.EndToEnd for headers and in Runner.Blob.Ranges for para blocks.
--   Runner.Runtime: pruntime.js, the requests of initRuntime, the transactions of registerWorker and
--     the update loop.
--   Runner.Messages: message.js, the loop of messages, run by Iterate.
-- Lifecycle: src/lifecycle.
--   Lifecycle.Manager: runner_manager.ts, the groups of workers and what the runners report, and
--     ptp/lifecycle.ts, the requests of an operator that are sent on to the runners.
--   Lifecycle.Requests: ptp/db.ts, the requests that create and update pools and workers, over a
--     database client, which is a parameter; Lifecycle.Operator: local_db/pool_model.ts, the
--     operator's key in a pool's row.
--   Lifecycle.EndToEnd: the groups of workers, the reports of their runners and the requests joined.
--
-- Recursion on fuel: `walk_block` takes the number of parent blocks that it may read; a window of
-- k + 1 parent blocks needs k + 1. The loop of Runner.Sync.Single takes how often
-- doParaBlockDifferenceSync may be called for an item, and how many items there may be; a catching
-- up needs one call for each block that it may have to dispatch and one more, and `none` is a loop
-- that goes on. Waits for something that may never come (`wait_until_found`, `wait_and_add`,
-- `update_info_loop`, `iterate`) are on fuel, and `none` is a wait that goes on.
-- `process_job` takes the number of retries, as the code does.
--
-- Parameters: the chains' API and the events that it reports, Redis queues, the database client,
-- protocol buffers and SCALE, timers and the order in which they fire. Left out: log lines,
-- reports over IPC, throttling, the waits between polls, and the parts in TypeScript that start
-- processes and connect them.
pub mod DataProvider
pub mod Iterate
pub mod Lifecycle
pub mod Prelude
pub mod Runner
pub mod Trade
