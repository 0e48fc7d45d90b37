-- ===== src/Lib.antt =====
-- Verification of the live-auction backend: the rules of an auction, the admission of bids, the Redis
-- engine that decides every bid, the relay of its decisions to Kafka, the worker that settles its
-- decisions in PostgreSQL, the scheduler that ends an auction, the host's operations on auctions, the
-- payment and expiry of orders, the outbox relay, and the fan-out of events to clients.
--
-- How the program works. A bid is decided by a Lua script that Redis runs atomically over the keys of
-- one auction (ledgerRunner and confirmLedgerRunner in backend/internal/redisengine/engine.go). The
-- script replays a known client bid id, seeds the state hash from a PostgreSQL snapshot where it is
-- missing, runs its guards, and then rejects the bid, holds it back for a confirmation, or accepts it.
-- Each decision takes the next engine_seq and goes to a log stream, to a pending hash and to an
-- idempotency record. The log is relayed to Kafka; the settlement worker takes one message at a time
-- and writes the row of the auction, the bid, the event with its outbox entry, the order and the jobs
-- (settlePayload and what it calls, in the same file). Nothing flows back from PostgreSQL to the hash
-- but the seed, a rebuild, and the fence of the scheduler, which pauses the hash before it ends the
-- auction in PostgreSQL. The relay pushes the committed events of an auction to the history that the
-- WebSocket hub fans out.
--
-- The modules.
--   * Common: Boolean tests and the conditional, lists and families of keys over the native numbers,
--     and `int64` with its wrap-around (Common/Int).
--   * Rules: ValidateRule, ClassifyBidAmount and CalculateExtension of
--     backend/internal/auction/rules.go.
--   * Engine: the two scripts. Engine/Data has the keys, arguments and results, Engine/State the seed
--     and the reading of the hash, Engine/Store what a decision writes, Engine/Place the bid script,
--     Engine/Confirm the confirm script. A script is a function from the keys to a reply and the keys;
--     `place` and `confirm` are the whole scripts. Engine/Effect specifies what one call may do, and
--     Engine/Run runs lists of calls, the order in which Redis runs them; all invariants of runs are
--     proved from that specification. Engine/Guards compares the guards with each other and with Rules.
--     Engine/Rebuild has loadSnapshot, loadSnapshotForRedisState and writeRedisStateSnapshot.
--   * Proxy: resolveHotMaxBids in the same file as the scripts. Proxy has the choice of the next bid,
--     Proxy/Intents the table max_bid_intents, Proxy/Resolve the loop. What others do during a round is
--     a part of the round. The loop is bounded by the 100 rounds of the code; Proxy/Settled shows that
--     three are enough while nobody else bids.
--   * Admission: the admission of bids before they reach the engine, bidAdmission of
--     backend/internal/gateway/bid_admission.go. Admission/Limits has the GCRA script and the limits,
--     Admission the replay, the permits, `admit` and `admit_confirm`. The time of a request at the
--     gateway and the time of its scripts at Redis are both in the request; a key expires by the
--     latter.
--   * Deposit: CalculateDeposit of backend/internal/auction/deposit.go.
--   * Settle: the settlement worker. Settle/Data has the rows, Settle/Rows one function for each
--     statement, Settle/Attempt recordSettlementAttempt and what it calls, Settle/Apply settleAccepted
--     and settleRejected, Settle/Worker settlePayload with its transaction. Settle/Log settles the
--     decisions of a run of the scripts, one after the other.
--   * Closing: the natural end of an auction, processEndAuction of
--     backend/internal/scheduler/scheduler.go with FenceAuctionForScheduler and FenceAuction of the
--     engine. The calls of the scripts that Redis runs between the commands of a fence are lists of
--     calls; Closing/Sealed composes the three.
--   * Hub: the fan-out to WebSocket clients, backend/internal/realtime/hub.go. Hub/Queue has one
--     subscription, Hub the rooms and Publish; Hub/Bounds runs the operations in any order.
--   * Ticket: the single-use WebSocket tickets, backend/internal/realtime/ticket.go.
--   * Payment: HandleProviderWebhook and the initiation of a payment, backend/internal/auction/bid.go,
--     and processExpireOrder of the scheduler. The check of the signature is a parameter.
--   * Outbox: the outbox relay, backend/internal/outbox/relay.go. Outbox/Data has the tables,
--     Outbox/Rows one function for each statement, Outbox the steps of ProcessOne and a run of any
--     number of workers. A statement or a transaction is one step, and a run is any list of steps of
--     the workers, so that a worker may stall between two of them or never come back. Outbox/Orderly
--     has the invariant.
--   * Lifecycle: the host's operations on an auction, backend/internal/auction/repository.go.
--     Lifecycle/Data has the rows, Lifecycle the transactions and runs of them; an operation is a
--     function from the locked row to what it writes or its error. Lifecycle/Sound and Lifecycle/Kept
--     have what the rows keep, Lifecycle/Room the unique indices of the table, Lifecycle/Frozen what
--     never changes.
--   * Relay: the relay of the decision log to Kafka, relayAuctionLogBatch in the same file as the
--     scripts, and the calls of waitKafkaAck. Each command of a pass is a step, and passes interleave
--     with each other and with the scripts. An entry's position in the log stands for its stream id.
--     A batch is sent in requests, which the writer repeats. Relay/Oldest is on lists that grow,
--     Relay/Prefix on one message, Relay/Requests on what requests add, Relay/Fits, Relay/Commands and
--     Relay/Ledger on what is in Kafka, Relay/Turn and Relay/Ordered on its order, Relay/Sent,
--     Relay/Unmarked, Relay/Acked and Relay/Told on what waiting calls are told, Relay/Live on
--     passes that do not fail; Relay/Settled composes the scripts, the relay and the settlement.
--   * The Tests modules run the definitions on a small auction and apply the theorems there.
--
-- Representation. Ids, hashes, tokens and times are natural numbers; a hash field that is missing is
-- `none`. Prices in the scripts are natural numbers: Redis and Lua keep them as doubles, exact below
-- 2^53, and Lua writes them as text exactly below 10^14, so that the scripts are those of prices, numbers
-- and times in these ranges. Rules and Deposit use `int64` with its wrap-around. A transaction is a function from rows to
-- rows, and a rollback returns the rows from before. Constraints of the tables are written out where a
-- modelled statement can meet them: the unique indices, the foreign key of payment_events, and the
-- deferred trigger on bids and auctions, which refuses the commit of a settlement that counted a bid
-- but could not insert it.
--
-- Not modelled. The keys of the scripts do not expire: a PEXPIRE is recorded as the key's ttl only, so
-- that the theorems on runs hold within the idempotency and state ttl. SQL and Redis failures (but for
-- an outage in Admission and a failed delivery in Outbox), the consumer of Kafka and a write that goes on
-- after AppendBatch has given up, the batched settlement,
-- HTTP handlers, the WebSocket server, the PostgreSQL bid lane, the rest of the scheduler,
-- reconciliation, the rest of the payments and the AI parts are left out, as is the text of error
-- messages in Settle. The outbox relay is without the trimming of the history, its snapshots and
-- epochs, the watermarks, the guard projection, and the gap notice that is
-- published after an event is given up; two claims that run at the same time are one after
-- the other. The SHA-256 of a payload is a parameter, `digest`. A checkpoint has its epoch, number and
-- offset, without the snapshot. Start in Lifecycle goes up to the automatic bid of waiting max bid
-- intents with which it ends (it may move the end or sell the auction), and the listings of auctions
-- are left out. The end of an auction by the scheduler is one step with the claim of its job, without
-- the job's states RUNNING, FAILED and DEAD. The pause fields that an identity conflict sets in
-- Redis are left out.
pub mod Common
pub mod Rules
pub mod Engine
pub mod Deposit
pub mod Settle
pub mod Hub
pub mod Ticket
pub mod Payment
pub mod Proxy
pub mod Outbox
pub mod Admission
pub mod Closing
pub mod Lifecycle
pub mod Relay
