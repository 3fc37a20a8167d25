-- ===== src/Lib.antt =====
-- basitclaw: verification of the services of a workforce audit platform.
--
-- The program is a set of JavaScript services that record audits of a workforce for several tenants.
-- Each is a factory that returns an object of closures over mutable state or over files. Here the state
-- is a record or a list that every operation takes and returns, an operation that may throw returns
-- `Result`, and the clock, random ids, hashes and encryption are arguments. How the parts fit: a request
-- is counted by the rate limiter, its key is authenticated by the access controller, a protected
-- permission needs a grant of the privileged access registry, what is done is recorded in the
-- governance ledger, a tenant's state is written under a lease and its fencing token, and security
-- alerts wait in an outbox until they are delivered.
--
-- Common: lists, options, errors and texts that the parts share. Texts are native strings, or lists of
--   code points where the code works on characters.
-- AccessControl (src/security/accessControl.js): the roles. Credentials is `normalisePrincipals`,
--   Authentication is `authenticate`, `authorise`, `tenantIds` and `credentialHealth`. The scrypt check,
--   the form of a scrypt hash and the short hash of a hint are parameters.
-- RateLimit (src/security/rateLimiter.js): `consume` with its buckets and their pruning. Address is
--   `resolveClientAddress` and `classifyRequest`. The hash that makes a bucket's key is a parameter.
-- SharedRateLimit (src/security/sharedRateLimiter.js): `consume` on a directory of bucket files. Files has
--   its laws, and Agreement when it holds what the map of RateLimit holds.
-- PrivilegedAccess (src/security/privilegedAccessRegistry.js): the data. Checks has the checks on
--   principals and arguments, Events the event chain, Store the frame of every mutation (`expire`,
--   `prune`, `mutate`), Requests and Decisions the operations that write, Queries those that read, and
--   Calls runs of them. Outcomes and Additions say what a mutation stored, Induction carries a property
--   of snapshots through every run of calls. A detail of an event is a list of pairs beside the
--   event's own fields, and the digest is a function of the whole event. The principal is taken as
--   authentication makes it.
-- Ledger (src/services/governanceLedger.js): every operation on the list of events of all tenants. The
--   hash of an event is a parameter; Metadata is `sanitiseMetadata` on JSON values. Book is what the
--   operations promise: a chain for each tenant; Showing and Refinement relate the two.
-- AuditService (src/services/workforceAuditService.js): the audit plan and the findings of one tenant,
--   and Operations the operations that write, with `commitMutation` on top of the ledger. Dates carry the time
--   they parse to; persisting is a test on the world that is written.
-- Evidence (src/evidence/evidenceRegistry.js): one tenant's index, its chain of custody and the content files.
--   Custody, Holds and Disposal have the operations that write; an operation gives what is on disk
--   afterwards, also when it throws on its way. Items has the laws of finding items and contents, Calls runs of calls, and
--   Holding, Placing, Retaining, Adding and LegalHold are about legal holds, Chain and
--   Intact about the chain of custody.
-- FileMutex (src/security/fileMutex.js): the steps of the processes that take one lock, of which a run
--   interleaves any. Tokens says which tokens can come back, Exclusion which operations return, Takeover
--   what a process does alone. Random tokens are counted; `now` and the wall clock are one.
-- Backups (src/persistence/backupManager.js): one tenant's directory of backups. Listing and Deleting have
--   the laws of the list and of removals, Retention what `create` leaves.
-- Registry (src/services/workforceAuditRegistry.js): one tenant's service, the shared ledger, the snapshot on
--   disk and the backups. An operation takes the world and gives an outcome and the world that it leaves,
--   also when it throws. Recovery is `createTenantBackup` and `restoreTenantBackup`; Rules and Keeping
--   are on all operations, BackingUp and NewestBackup on making a backup, Restoring, AllOrNothing and
--   Restores on what a restore comes to. Replication is disabled, as it is by default.
-- AlertOutbox (src/security/securityAlertOutbox.js): the four directories. Files is a directory as a
--   list of files in the order of their names, Operations has the operations, Steps the changes of single
--   files that they are made of, Calls runs of them, Recovery the recovery of stale claims after a run.
--   An operation that throws gives no outbox: the files that a recovery or a claim moved before the throw
--   are not kept. The code throws there when a file cannot be read or its state is not its directory's.
-- Coordination (src/coordination): Lease is fileLeaseCoordinator.js for one tenant, each operation
--   undisturbed; Setup is the calls of the file system that acquire, takeover, heartbeat and release are made
--   of, as steps that interleave; Effects and Fencing are about those. Snapshots is fencedSnapshotStore.js on top of
--   an interface of the encrypted store.
--
-- Bounds and fuel: numbers are natural; JavaScript's largest safe integer is written out where the code
-- tests it. The only loop without a structural bound is that of `acquire`. It runs on a list of clock
-- readings, one for each turn, and a theorem says which lists are long enough. Times are milliseconds,
-- and an operation reads the clock once.
--
-- Not modelled: reading and writing of files and their encryption; locks inside one operation, so that
-- each operation on a store is one step, except on the mutex and on the lease; HTTP, configuration from
-- the environment, and the identity, archive and replica services; of the services around evidence, all
-- but the registry itself.
pub mod Common
pub mod Ledger
pub mod RateLimit
pub mod SharedRateLimit
pub mod AccessControl
pub mod PrivilegedAccess
pub mod AlertOutbox
pub mod Coordination
pub mod AuditService
pub mod Backups
pub mod Evidence
pub mod FileMutex
pub mod Registry
