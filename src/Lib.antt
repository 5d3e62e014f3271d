-- ===== src/Lib.antt =====
-- Verification of the Percolator keeper: the decisions of the off-chain node that cranks and
-- liquidates the markets of a Solana program.
--
-- The parts and how they interact. A service decides on a transaction (src/services/liquidation.ts,
-- which reads a market's bytes through src/lib/v17-risk.ts) and hands it to keeperSend
-- (src/lib/keeper-send.ts). keeperSend asks the leader lock for the node's role (src/lib/leader.ts),
-- asks the spend budget (src/lib/budget.ts) to admit the cost, sends, and settles the reservation.
-- Reads go through the RPC pool (src/lib/rpc-pool.ts), which routes by the health of its providers
-- (src/lib/rpc-health.ts).
--
-- Prelude: names of the libraries, Boolean tests, lists, integers, and a JavaScript number as an
--   integer, NaN or infinity.
-- Budget: src/lib/budget.ts. State has the configuration, the ledgers of an hour and of a day, the
--   window of results and the budget; Window the pruning and the cycle; Halting the halt, its file
--   and the constructor; Admission canSpend; Settlement recordTx and adjustForRealizedCost; Trace the
--   calls of the public methods as a sequence. The other modules are about these.
-- Send: src/lib/keeper-send.ts. keeperSend is keeper_send, split at its awaits: open_send and
--   ask_budget before the send, try_send and close_send for the try and its finally. Reconcile has
--   the reconciliation with the receipt.
-- Risk: src/lib/v17-risk.ts: the readers, targetEffectiveLagPenalty and parseV17RiskParams.
-- Liquidation: src/services/liquidation.ts: evaluateV17PortfolioHealth with its loop, the dust floor
--   and the margin ratio; Prices has detectOracleMode, resolveMarketPrice and resolveV17WrapperPrice.
--   Portfolios has scanV17Portfolios with its cursor and its ranking, Gate gatedLiquidate around the
--   call of liquidate, Submit the checks of liquidate before a transaction is sent, Legacy the v12
--   accounts of scanMarket, and Cycle
--   scanAndLiquidateAll with the timer of start and the scans that account updates trigger. Portfolios
--   and Submit use the same evaluateV17PortfolioHealth; Cycle takes the scan and the gate as arguments.
-- Crank: src/services/crank.ts: the state of a market and what the end of a crank, a failure and a
--   discovery do to it, the choice of the markets of a cycle and its counts, and the registration;
--   Watchdog has the interval of start.
-- Fees: src/lib/v17-fee-state.ts, the backing buckets, claims and mode gates; of
--   src/services/fee-crank.ts Legs has the four legs and what becomes of their work, Pass the reading
--   of the markets in chunks. crankAll hands the markets of selectFeeCrankMarkets to it.
-- PriorityFee: src/lib/priority-fee.ts, the estimate that keeperSend adds to its cost, with its cache.
-- Fraud: src/services/fraud-detector.ts, a cycle. Monitor: src/services/monitor.ts, the checks of one
--   market.
-- Leader: src/lib/leader.ts: a handler per callback of a node. Options has the constructor, Server
--   the interface of Redis and the renewal script, Cluster any number of nodes around one key as a
--   step relation; Transitions, Leases, Fence and Handling lead to Exclusion.
-- Rpc: src/lib/rpc-health.ts, and in Pooling src/lib/rpc-pool.ts.
-- Alerts: src/lib/alert-aggregator.ts, the buffer of the services' alerts.
-- Tests: the theorems at concrete inputs.
--
-- Conventions. A method is a function from the state to the state and its result. Date.now() is an
-- argument. A time below `now - age` is written `ts + age < now`, which is the same test where ℕ would
-- stop at 0. Amounts, times, slots and latencies are whole numbers; a BigInt of an unsigned field is
-- an ℕ, other amounts and sums are integers. Loops are structural recursion; a loop over batches takes
-- its rounds from the length of the list, which is enough for every batch.
-- Files, hooks and the answers of the network are state or arguments; so are the answers of the two
-- estimators in Send. The account layout, Redis and the sender are parameters, since their code is not
-- in the repository; Redis has the laws of GET, SET with NX and EX, PEXPIRE and DEL as its interface,
-- and Tests has an instance.
--
-- Not modelled: logging, metrics and HTTP; the parsing of environment variables; the oracle service;
-- the parsing of the market group's header; the retries of the discovery and the provisioning of
-- portfolios in the crank service; the reading of the price in the v12 branch of scanMarket; the
-- request for a priority fee; the streams and caches; the shutdown of the alert buffer; the
-- construction of transactions.
pub mod Alerts
pub mod Budget
pub mod Crank
pub mod Fees
pub mod Fraud
pub mod Leader
pub mod Liquidation
pub mod Monitor
pub mod Prelude
pub mod PriorityFee
pub mod Risk
pub mod Rpc
pub mod Send
pub mod Tests
