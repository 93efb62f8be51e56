-- ===== src/Lib.antt =====
-- react-native-nitro-sync: an offline-first synchronization library for React Native. A local write goes
-- into a queue of mutations and, at once, into the table of records; a sync claims the due mutations of a
-- table, sends them, settles each by the server's answer, and merges the pulled records and tombstones
-- into the local ones.
--
-- Parts and files:
--   * StateMachine (src/stateMachine.ts): transitionMutationState and isRetryableState.
--   * Settlement (src/mutationSettlement.ts): partitionSyncMutations, settleSyncMutations,
--     failSyncMutations. The handlers are functions on a state that is passed along, and may throw.
--   * Merge (src/merge.ts): recordIdFromPayload, timestampOf, mergeJsonValue, resolveConflict,
--     mergePulledRecords and the three parsers of serialized values.
--   * Protocol (src/protocol.ts): buildSyncRequestPayload in Protocol.Request, normalizeSyncResponse in
--     Protocol.Response, assertCompatibleSchemaVersion in Protocol itself.
--   * Storage (src/storage.ts): the adapter of createSyncStorage. Storage.Tables has the rows and the SQL
--     statements as functions on the two tables, Storage.Database the connection, Storage the operations
--     under the names of the source, Storage.Schema the migrations of initialize,
--     Storage.Metadata the cursors, versions and times kept under keys.
--     Storage.LocalWrite, Storage.Replace and Storage.Claim say what the transactions leave in the
--     tables, in terms of the rows alone; Storage.Transactions and Storage.Claimed are about the calls.
--   * TableWorkers (src/tableWorkers.ts): runSyncTableWorkers. A worker runs without interruption from one
--     await to the next; a schedule is the list of the workers that have their turns, so that a theorem
--     over all schedules covers every interleaving.
--   * Exec: code that changes a state and may throw, with rules for what such code keeps (Exec.Keeps) and
--     for what holds when it returns (Exec.Leads).
--   * Provider (src/provider.tsx): mutate in Provider itself, and a whole sync over a native engine or a
--     storage adapter, either of which is an argument. Provider.Backend has the callbacks around the two
--     stores, Provider.Batch the claimed mutations by table and the blocked ones, Provider.Session the
--     refs and collections of a run, Provider.Pull the tombstones, the merge and what is written of an
--     answer, Provider.Process the body of processTable, Provider.Sync the run around it.
--     Provider.Queue states what a sync needs of the queue; Provider.Adapter is the SQLite adapter of
--     Storage in that place, and Provider.Settled is about what becomes of the claimed mutations.
--     Provider.Pull.Stored states what a pull needs of the stored records, which Provider.Adapter.Records
--     has of the SQLite adapter.
--     Provider.Transport is the transport over HTTP, Provider.Access has ensureTable and the rejected
--     mutations.
--   * Hooks (src/hooks/useSyncCollection.ts): the writes of a collection.
--   * Types and Value (src/types.ts): mutations, records, tombstones, and the JSON values and numbers that
--     they are made of. Prelude has what all parts share: Boolean tests, lists, texts, dictionaries.
--
-- How values are modelled:
--   * A number is an IEEE double: NaN, an infinity, or a whole number (rounded down) with a fraction in
--     units of 2^-1074. No part adds numbers from outside; they are compared and tested for being finite,
--     zero or safe integers. Counters of the adapter are natural numbers.
--   * A JSON object is its list of members in insertion order. Keys that are array indexes (which
--     JavaScript lists first) and the key __proto__ are not told apart from others.
--   * A record is a JSON object; what the source reads without a test (a missing id) is written out where
--     it is read.
--   * Exceptions are values of Error, and a function that may throw returns a Result.
--   * JSON.parse, JSON.stringify, fetch, the transport, the addition of one to a time, Date.now,
--     createSyncId's random text, encodeURIComponent, and the printing and reading of numbers are
--     arguments.
--
-- How the database is modelled:
--   * A call of executeSync is one step on a Database. The list faults says which of the coming calls fail
--     by themselves (disk, lock), so that a theorem over all databases covers a failure at every point,
--     COMMIT and ROLLBACK included. A statement also fails where it breaks a constraint.
--   * A column of JSON text stands for the value that it denotes, and the time of the database's clock is
--     an argument. ORDER BY is a stable sort; SQLite promises no order for equal keys. A timestamp is
--     stored as it is given; SQLite takes NaN for NULL, which no caller passes (Date.now is finite, and
--     the protocol admits finite timestamps alone).
--   * Of the schema the model keeps user_version and the columns of sync_queue. Indexes and the other
--     PRAGMAs are left out. A migration that fails ends initialize with its error.
--
-- How a sync is modelled:
--   * A run changes a Session: the refs of the provider, unackedIds, the messages of the rejections, and
--     the store behind the callbacks. A call that throws keeps what it has changed.
--   * The tables of a run are processed one after the other, as runSyncTableWorkers does with one worker;
--     TableWorkers has the interleavings. Date.now gives the same time throughout a run. The store of
--     the metadata does not throw. A queued run starts when the one before it has ended.
--   * The native engine is an argument: nothing is assumed of it beyond what a theorem names.
--
-- All loops are structural recursion on a list or on a schedule; no definition runs on fuel.
--
-- Not modelled: the provider's wiring into React (src/provider.tsx: state, effects, timers, the chain of
-- runs), what the hooks only pass on, and the context; the native engines in cpp/, ios/ and android/ and the
-- bindings under nitrogen/; the benchmark, the example app and the scripts under tools/.
pub mod Prelude
pub mod Value
pub mod Types
pub mod Exec
pub mod TableWorkers
pub mod StateMachine
pub mod Settlement
pub mod Merge
pub mod Protocol
pub mod Storage
pub mod Provider
pub mod Hooks
