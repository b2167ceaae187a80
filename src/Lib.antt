-- ===== src/Lib.antt =====
-- Verification of the backend's job records and their life cycle. Stenograma transcribes recordings and
-- writes protocols; each recording is a job, and the backend's utilities decide what may happen to it.
-- The parts and the files that model them:
--   Job*          backend/utils/jobStore/common.js: the record itself. `newJob` (Job/Create),
--                 `normalizeJob` (Job/Normalize), `applyPatch` (Job/Patch), `assertOwnerIdentity` and
--                 `matchesOwner` (Job/Owner), `kanoninisRezultatas` (Job/Kanonas) and
--                 `idempotentiskasAtsakymas` (Job/Idempotency).
--   JobPhase*     backend/utils/jobPhase.js: the state machine of phases and progress. Its events return
--                 patches, which the store applies with `applyPatch`.
--   JobStore*     backend/utils/jobStore/memoryStore.js: the in-memory store, the reference for the
--                 contract of all three back ends. JobStore/Runs has sequences of its operations.
--   Access*       backend/utils/ownerScope.js, jobAccessPolicy.js and permissions.js: whose request it is,
--                 and what it may do with a job that the store answered, refused or does not have.
--   Tombstones*   backend/utils/deletionTombstones/states.js and memoryStore.js: the marks that outlive an
--                 erased job, their allowlists and their store. Tombstones/Facade is index.js beside them
--                 with backend/services/erasureMarkService.js, Tombstones/Ledger the merge of an exported
--                 ledger (backend/utils/erasureExport.js, `sulieti` of drCoordinator.js) and its
--                 artefact, Tombstones/Replay the replay of its erasures (erasureReplay.js).
--   Backup*       backend/utils/artefactInventory.js, backupPolicy.js, backupManifest.js and
--                 backupEncryption.js: what a backup may hold, and its encryption. The artefact of the
--                 ledger is a backup; Backup/Ideal is a cipher that has the laws that are assumed.
--   Audit*        backend/utils/auditStore/memoryStore.js: audit rows, their barrier and their pages.
--   Retry*        backend/utils/deletionRetry.js: when a failed erasure is tried again.
--   Transcript*   backend/utils/mergeDiarization.js, transcriptDedup.js and filterHallucinations.js: the
--                 cleanup of a transcript.
--   Sessions*     backend/utils/sessionStore/memoryStore.js and common.js: login sessions, their two windows
--                 and their revocation.
--   Semaphore*    backend/utils/concurrencyLimiter.js: how many local transcriptions run at once.
--   Value*        the values of the language that those records hold, with its conversions.
--   Result        thrown errors as values.  Prelude*: numbers, texts, lists and maps.
-- A record is a function from property names to values, `none` where the object has no such property.
-- A store is an association list in insertion order, as a `Map` is iterated; an operation takes it and
-- returns it with its answer, and an operation that throws returns it as it was. Each operation of these
-- stores runs to its end with no interleaving (there is no `await` inside), so sequences of whole
-- operations are all its runs. A call of the facade of marks is one step too, though `claimForDeletion`
-- awaits between its two calls of the store.
-- Bounds: numbers are exact to six decimals, and arithmetic on versions is exact, since it stays below
-- 2 ^ 31; a version is a whole number from 1 to 2147483647. Recursion is structural but for the
-- loops of `purgeExpired`, `derivationChain`, the collapse of repetitions and a client that follows the
-- pages of the audit, which run on fuel; one turn more than marks, types, parts or rows is enough.
-- Instants are whole milliseconds. Texts are lists of UTF-16 code units, and the text that
-- `toISOString` writes of an instant is kept as that instant; other texts of dates have no time.
-- Arguments of the definitions: AES-256-GCM, base64, JSON, UTF-8 and SHA-256 where the ledger and the
-- backups use them, the collation of the platform, what the other parts answer to a replay or a
-- retry, the clock, the fresh identifiers and tokens, `TTL_MS`, the `API_KEY` of
-- the environment, the hash of tokens and the live users. An object's `toJSON` is given by the value
-- that it returns. The JSON text that results are compared by is a list of tokens. A record is restored
-- under an identifier that is a text.
-- The cipher is an ideal one: no tag is forged, which a real tag promises but for a chance too small to
-- meet. The answers to a replay are given for each job, so a ledger that names a job twice has them
-- twice. An array where a job's type or version is expected is refused, though the language would read one
-- with a single entry as that entry; and the dates of a manifest are within what `toISOString` writes.
-- Names that objects inherit from their prototypes are not looked up in the tables of roles and phases.
-- Not modelled: the PostgreSQL and Redis stores and the choice among the back ends, `verifyResultArtifacts`
-- (it changes nothing), the messages of errors, logging and metrics, the HTTP routes, queues, providers,
-- the dump of the database, the facade of the audit, and the other services, which are input and output
-- around these decisions.
pub mod Prelude
pub mod Value
pub mod Result
pub mod Job
pub mod Access
pub mod JobPhase
pub mod JobStore
pub mod Tombstones
pub mod Sessions
pub mod Semaphore
pub mod Backup
pub mod Retry
pub mod Audit
pub mod Transcript
