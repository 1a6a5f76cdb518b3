-- ===== src/Lib.antt =====
-- The programs around the SmartCup League contracts: the indexer that folds the contracts' messages
-- into tables, the voucher backend that pays the gas of the users, the rewards backend that grants
-- freebets, and the oracle server, which feeds the matches' results to the chain. Each keeps its own state; they meet in the
-- chain alone, whose events the indexer reads and to which the others send transactions. Action, which
-- the two backends share, is an asynchronous method: it changes the world and returns or throws.
--
-- The indexer (indexer/src), in Indexer and its children. Entities has the rows of model/entities.ts,
-- Events the chain's events with the tests of helpers/is.ts, Outcome the function scoreOutcome of
-- handlers/bolao.ts, State the batch-local maps of BolaoHandler with touchUser and onActivity, Handlers
-- the onXyz methods, Preload collectPreloadIds and the two queries before a batch, Accuracy
-- projectAccuracyForMatch, and Process handleEvent, process, save and the callback of main.ts. Store is
-- the interface to the database: its operations find and save are parameters, and so is the decoder of
-- sails-js. Of the database the theorems on user stats assume what StatLaws states, and Table is a
-- store in memory that keeps it. Stats, Batch and Matches hold the proofs about one message, about a
-- batch, and about the matches.
--
-- The voucher backend (voucher-backend/src/gasless), in Voucher and its children. Backend is what the
-- code is built on (the tables, the clock, the query runner and the Gear node), as operations on an
-- abstract world. Lock has
-- withAdvisoryLock of advisory-lock.ts, Chain the sends and retries of voucher.service.ts, Service the
-- methods of VoucherService, Gasless those of GaslessService with its three branches (a), (b) and (c),
-- Gasless/State the state that a client reads, and Task the sweep of voucher.task.ts.
--
-- The rewards backend (rewards-backend/src), in Rewards and its children. Text has reward-utils.ts and
-- the text functions of x.service.ts, Week its getUtcWeekKey, Backend the rows of the entities with the
-- operations of the tables, of X and of the node as parameters, Chain ChainService, XService the
-- verification of a task on X, Submissions and Referrals the methods of RewardsService with their
-- bodies in Service, and Requests the routes of RewardsController that change something. View states
-- what the theorems take of the tables and of the ledger: the rows and the grants sent are a view of the
-- world that queries leave alone and that an insert or a grant extends by its row or its grant, for sure
-- when it returns, perhaps when it throws. Requests are served one after the other; what happens when two
-- of them interleave between a look-up and a save is not modelled.
--
-- The oracle server (oracle-server/src), in Oracle: Result is result-mapping.ts, Finalization is
-- finalization-utils.ts, PriceFeed the cycle of price-feed.ts, in which the rounding of the price to
-- micro-USD is a parameter, and Server with its children server.ts. State has the maps that the server
-- keeps in memory, and the record Outside of what it calls: the two files, football-data.org, the clients
-- of the two contracts and the clock. Cache has the cached requests, Mapping the maps between the
-- matches' numbers with their files, their rebuilding and their repair, Feed the cycle runAutoFeed with
-- /oracle/feed-match and /wc/sync, Finalize the timers and the scan for proposals, Pending the derived
-- entries of /bolao/pending-finalization and /bolao/match-status, Register the registration of phases,
-- matches and whole tournaments, Admin the routes that check a request and send one call, Start the start
-- of the server, and Server itself /bolao/propose-result. Handlers run one at a time, from
-- start to end; a timer is a match with its delay.
--
-- Numbers. A decimal string of an integer, a bigint and a count are natural numbers; a time is in
-- milliseconds. Where the code takes a difference, the model writes out the test on its sign or uses
-- that it is cut off at zero by Math.max. Two reads of the clock with no call between them give the
-- same time. Letters change their case in ASCII only. Float amounts do
-- not occur, since the configuration checks that they are integers.
--
-- Maps are lists of entries in the order of first insertion, as a JavaScript Map keeps them. Log lines
-- are left out, and so are the parts of error messages that hold run-time values, except where the
-- code tests them.
--
-- Fuel. withAdvisoryLock loops until a deadline 30 000 ms ahead and sleeps 250 ms in each round; the
-- model gives it 121 rounds, one more than fit under a clock that does not run backwards. The search of
-- a timeline is structural recursion on the ten pages that the code allows. The batch of the feeder, the
-- challenge window and the safety buffer of the oracle server come from its environment: they are arguments.
--
-- Not modelled: the controllers, modules, DTOs and configuration of the voucher backend, and what
-- VoucherService.update leaves in the row object when its save fails; the routes of the oracle server that only
-- pass on a query or a response, and its generated clients; the indexer's API and start-up;
-- getReferralDashboard, the start-up and the generated ledger client of the rewards backend; the frontend, the Python api and the
-- Rust smart-programs.
pub mod Prelude
pub mod Action
pub mod Rewards
pub mod Oracle
pub mod Indexer
pub mod Voucher
