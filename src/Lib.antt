-- ===== src/Lib.antt =====
-- The transaction pipeline of the simulator: a transfer is recorded as a transaction, submitted to a
-- chain, confirmed by a worker, and announced through an outbox; schedulers recover or expire what
-- is left behind; requests are idempotent; and the events of a chain are scanned in windows.
--
-- Parts, and the files that model them (paths from the repository's root):
--   Transaction, Transaction/StateMachine, Transaction/Expiration
--     prisma/schema.prisma `model Transaction` and src/domain/transaction
--   Schema      the other rows of prisma/schema.prisma, and the world that the processes share
--   Prisma      the database client and the job queue, which are parameters with laws
--   Effects     asynchronous methods: every awaited call is one step, before which other processes
--               may act and at which the call may be lost; Effects/Rely is the logic for them
--   TransactionRepository, TransferRepository, TokenEventCursorRepository
--     src/repositories, one function for each method; the children of TransactionRepository hold
--     what rows may become (Evolution), the invariant (Tracking), the conditional updates among
--     other processes (Transitions) and alone (Alone)
--   Outbox      src/services/outbox-event.service.ts and its repository
--   Blockchain  src/blockchain/blockchain-adapter.ts and its registry
--   ConfirmationProcessor
--     src/workers/confirmation.processor.ts, one function for each method and each `catch` block
--   ConfirmationQueue, ExpirationProcessor, SubmissionRecoveryProcessor, PendingRecoveryProcessor
--     src/queues/transaction.queue.ts and the processors of src/workers
--   Workers     the jobs of all of these, one after the other
--   Scheduler   the five schedulers of src/workers, over any lease and any processor
--   SchedulerLease
--     src/scheduling/postgres-scheduler-lease.ts, each statement a step on the table of leases
--   Idempotency src/api/middleware/idempotency.guard.ts, its service and its repository
--   LogWindows  src/blockchain/evm/log-windows.ts
--   Retry       src/utils/retry.ts
--   Rpc         src/blockchain/rpc.executor.ts over the retry loop, and rpc.classifier.ts
--   BalanceRepository, BalanceReconciliation, BalanceDriftProcessor
--     src/repositories/balance.repository.ts, src/services/balance-reconciliation.service.ts and
--     src/workers/balance-drift.processor.ts, whose batches check their rows one after the other;
--     the children of BalanceRepository hold the view that it refines (Latest, Refinement) and what
--     it keeps among other workers (Newer), those of BalanceDriftProcessor the verdict on a snapshot
--     (Verdict), the batches, the pages and the whole sweep
--   ApiKey      src/auth/api-key.service.ts and its repository, on a store of its own
--   WalletOwnership, WalletAddress
--     src/services/wallet-ownership.service.ts and src/blockchain/wallet-address.ts
--   TransferService
--     src/services/transfer.service.ts and src/services/ledger.service.ts; its children show what a
--     transfer records among the workers (Created, Recorded), what it refuses (Refused) and how it ends
--     among nobody else (Concluded)
--   DeploySafety src/blockchain/evm/deploy-safety.ts, the check before a deployment
--   Errors      src/common/errors/errors.ts, as far as the modelled code throws them
--   Examples    concrete worlds, runs of the model, and the theorems at them
--
-- How the code is read. Identifiers, hashes and messages are strings. A date is its number of
-- milliseconds and a bigint a natural number; that Number(bigint) may lose digits is not modelled.
-- The body of `$transaction` runs alone and is kept or dropped as a whole. The laws of the client say
-- that findUnique gives a row that passes if there is one, that updateMany updates and counts the
-- rows that pass, and that create adds one row. Unique constraints are used for the
-- idempotency keys, the snapshots, the API keys and the transactions: an update that would give two of
-- them one hash throws, and where transfers are created so does a second identifier, which is else
-- part of the invariant. Foreign keys are taken to name rows that are there. The queues take a job of
-- an identifier once. The range of a scan is at least one block, as the loader of its configuration
-- checks, and the numbers of a challenge are natural. A length of a text counts its characters.
--
-- Fuel: the scan has one round for each allowed window and each unit of the window's size, since a
-- round uses up a window or halves the size; the retry loop has one call more than the retries. The
-- sweep takes its fuel as an argument, since snapshots may be added while it runs; among nobody else,
-- one round more than there are snapshots is enough.
--
-- Not modelled: logs, traces, durations and most gauges; the clients of the chains; cryptography and
-- encodings, which are parameters; HTTP routing and validation; and, so far, the event listener,
-- minting, the creation of wallets, sessions and the parsing of configuration.
pub mod Scheduler
pub mod Idempotency
pub mod Retry
pub mod Rpc
pub mod DeploySafety
pub mod SchedulerLease
pub mod Workers
mod Prelude
pub mod Effects
pub mod Transaction
pub mod Schema
pub mod Prisma
pub mod TransactionRepository
pub mod Blockchain
pub mod Outbox
pub mod TransferRepository
pub mod TokenEventCursorRepository
pub mod ConfirmationQueue
pub mod ExpirationProcessor
pub mod SubmissionRecoveryProcessor
pub mod PendingRecoveryProcessor
pub mod ConfirmationProcessor
pub mod LogWindows
pub mod Errors
pub mod BalanceRepository
pub mod WalletAddress
pub mod BalanceReconciliation
pub mod BalanceDriftProcessor
pub mod ApiKey
pub mod WalletOwnership
pub mod Bytes
pub mod TransferService
mod Examples
