-- ===== src/Provider/Process.antt =====
-- `processTable`: the request for a table, and what becomes of its answer.
use Prim.Native.String.{◌++◌ as ◌<>◌}
use react_native_nitro_sync.Prelude.{
  not, ◌||◌, Option, none, some, String, List, [], ◌∷◌, ◌++◌, map, filter, find, contains, ◌==◌,
  string_eq, if◌then◌else◌,
}
use react_native_nitro_sync.Prelude.Dict.{lookup, insert}
use react_native_nitro_sync.Value.Number.{Number, num}
use react_native_nitro_sync.Value.Json.{Json, string, set}
use react_native_nitro_sync.Types.{
  MutationStatus, SyncMutation, SyncMutationRejection, SyncRecord, SyncSchemaMigration, string_id,
  Error, Result,
}
use react_native_nitro_sync.Protocol.{assert_compatible_schema_version}
use react_native_nitro_sync.Protocol.Response.{SyncTransportResponse, normalize_sync_response}
use react_native_nitro_sync.Settlement.{
  SyncMutationSettlement, partition_sync_mutations, SyncMutationSettlementHandlers,
  settle_sync_mutations, fail_sync_mutations, ids,
}
use react_native_nitro_sync.Exec.{Exec, ◌>>=◌, ◌>>◌, return, lift, gets, modify, when_, try_catch}
use react_native_nitro_sync.Provider.{is_delete, table_or_empty, has_record_id}
use react_native_nitro_sync.Provider.Backend.{Callbacks}
use react_native_nitro_sync.Provider.Session.{
  Session, SyncConfig, Metadata, on_store, acknowledge_id, show_table, or_default, known_or,
}
use react_native_nitro_sync.Provider.Pull.{is_given, pull_answer}

-- The arguments of `transport.pushAndPull`
pub record PullRequest : Type 0 where
  pub table_name : String
  pub mutations : List SyncMutation
  pub last_synced_at : Option Number
  pub server_cursor : Option String
  pub server_version : Option Number
  pub device_id : String
  pub schema_version : Option Number
  pub migration : Option (Option SyncSchemaMigration)

-- `record.id === fromId ? { ...record, id: toId } : record`
unfoldable pub rename_shown : String → String → List SyncRecord → List SyncRecord
rename_shown from to = map (λ r. if has_record_id from r then set "id" (string to) r else r)

-- The text of a rejection in the error that the user sees
abbrev pub rejection_message : SyncMutationRejection → String
rejection_message r = elim r.message [
  | none ↦ r.mutation_id <> (": " <> r.code)
  | some message ↦ r.mutation_id <> (": " <> (r.code <> (" (" <> (message <> ")"))))
]

-- `rejectionErrors`
unfoldable pub rejection_errors : SyncMutationSettlement → List SyncMutationRejection → List String
rejection_errors settlement rejections = map rejection_message (
    filter
      (λ r.
        contains (ids settlement.rejected) r.mutation_id
        || contains (ids settlement.unacknowledged) r.mutation_id)
      rejections)

module _ {S : Type 0} (cb : Callbacks S) (metadata : Metadata S) (add_one : Number → Number)
    (config : SyncConfig) where
  -- The first lines of `processTable`
  unfoldable pub ensure_shown : String → Exec (Session S) (Unit {0})
  ensure_shown table = do
    shown ← gets λ s. lookup table s.records
    when_ (not (is_given shown))
        (on_store (cb.load_records table) >>= λ rs. modify (show_table table rs))

  -- From there to the call of the transport
  unfoldable pub request_for : String → List SyncMutation → Session S → PullRequest
  request_for table batch s = record {
    table_name = table;
    mutations = batch;
    last_synced_at = s.last_synced_at;
    server_cursor = known_or (lookup table s.server_cursors) (metadata.read_cursor table s.store);
    server_version =
        known_or (lookup table s.server_versions) (metadata.read_version table s.store);
    device_id = config.device_id;
    schema_version = config.schema_version;
    migration = config.schema_migration;
  }

  -- The loop over `idMap`, with the records so far
  unfoldable pub remap_each :
      String → List (String × String) → List SyncRecord → Exec (Session S) (List SyncRecord)
  remap_each table [] rs = return rs
  remap_each table ((from, to) ∷ entries) rs =
      (if from == to
        then return rs
        else on_store (cb.remap table from to) >> return (rename_shown from to rs))
      >>= λ renamed. remap_each table entries renamed

  unfoldable pub apply_id_map :
      String → Option (List (String × String)) → Exec (Session S) (Unit {0})
  apply_id_map table none = return tt
  apply_id_map table (some entries) = do
    shown ← gets λ s. table_or_empty (lookup table s.records)
    remapped ← remap_each table entries shown
    modify (show_table table remapped)

  -- `if (mutation.operation === 'DELETE' && typeof mutation.payload.id === 'string')`
  unfoldable pub clear_removed : String → SyncMutation → Exec (Session S) (Unit {0})
  clear_removed table m = elim (string_id m.payload) [
    | none ↦ return tt
    | some id ↦ when_ (is_delete m.operation) (on_store (cb.clear table id m.timestamp))
  ]

  -- The three handlers of `settleSyncMutations`
  unfoldable pub on_acknowledge :
      String → SyncMutation → MutationStatus → Exec (Session S) (Unit {0})
  on_acknowledge table m status =
      on_store (cb.remove m.id) >> (clear_removed table m >> modify (acknowledge_id m.id))

  unfoldable pub on_retry : SyncMutation → MutationStatus → Exec (Session S) (Unit {0})
  on_retry m status = on_store (cb.fail m.id) >> modify (acknowledge_id m.id)

  abbrev pub code_of : Option SyncMutationRejection → String
  code_of none = "rejected"
  code_of (some r) = r.code

  abbrev pub message_of : Option SyncMutationRejection → String
  message_of none = ""
  message_of (some r) = or_default "" r.message

  unfoldable pub on_reject :
      List SyncMutationRejection → SyncMutation → MutationStatus → Exec (Session S) (Unit {0})
  on_reject rejections m status =
      let rejection = find (λ r. r.mutation_id == m.id) rejections in
      on_store (cb.reject m.id (code_of rejection) (message_of rejection))
      >> modify (acknowledge_id m.id)

  unfoldable pub handlers :
      String → List SyncMutationRejection → SyncMutationSettlementHandlers (Session S)
  handlers table rejections = record {
    acknowledge = on_acknowledge table;
    retry = on_retry;
    reject = on_reject rejections;
  }

  -- `if (response.serverCursor !== undefined || response.resetRequired === true)`
  unfoldable pub store_cursor : String → SyncTransportResponse → Session S → Session S
  store_cursor table response s =
      let next = or_default none response.server_cursor in
      if is_given response.server_cursor || response.reset_required
      then record s {
        server_cursors = insert table next s.server_cursors;
        store = metadata.write_cursor table next s.store;
      }
      else s

  unfoldable pub store_version : String → SyncTransportResponse → Session S → Session S
  store_version table response s =
      let next = or_default none response.server_version in
      if is_given response.server_version || response.reset_required
      then record s {
        server_versions = insert table next s.server_versions;
        store = metadata.write_version table next s.store;
      }
      else s

  abbrev pub add_messages : List String → Session S → Session S
  add_messages messages s = record s { rejection_messages = s.rejection_messages ++ messages }

  -- `unacked`
  abbrev pub unacked_of : List SyncMutation → SyncMutationSettlement → List SyncMutation
  unacked_of batch settlement =
      filter (λ m. not (contains (ids settlement.acknowledged) m.id)) batch

  -- From the settlement to the end of the `try`
  unfoldable pub settle_answer :
      String → List SyncMutation → SyncTransportResponse → Exec (Session S) (Unit {0})
  settle_answer table batch response =
      let settlement =
        partition_sync_mutations batch response.acknowledged_mutation_ids
          response.rejected_mutations in
      pull_answer cb add_one config table (unacked_of batch settlement) response
      >> (settle_sync_mutations settlement (handlers table response.rejected_mutations)
          >> (modify (store_cursor table response)
              >> (modify (store_version table response)
                  >> modify
                      (add_messages (rejection_errors settlement response.rejected_mutations)))))

  -- What follows the answer of the transport; `now` is the result of `Date.now()`.
  unfoldable pub take_answer :
      String → List SyncMutation → Result Json → Number → Exec (Session S) (Unit {0})
  take_answer table batch answer now = lift answer >>= λ raw.
      lift (normalize_sync_response raw now) >>= λ response.
      apply_id_map table response.id_map
      >> (lift (
            assert_compatible_schema_version (or_default (num 1) config.schema_version)
              response.minimum_schema_version)
          >> settle_answer table batch response)

  -- The mutations of a batch that are still in `unackedIds`
  abbrev pub still_unacked : List SyncMutation → Session S → List SyncMutation
  still_unacked batch s = filter (λ m. contains s.unacked_ids m.id) batch

  -- `markFailed`, as the handler of `failSyncMutations`
  abbrev pub on_failure : SyncMutation → MutationStatus → Exec (Session S) (Unit {0})
  on_failure m status = on_store (cb.fail m.id)

  -- The `catch` of `processTable`
  unfoldable pub fail_table : List SyncMutation → Error → Exec (Session S) (Option Error)
  fail_table batch e s =
      (fail_sync_mutations (still_unacked batch s) on_failure >> return (some e)) s

  -- From the request to the end of the `try`. The transport is an argument: its answer to each
  -- request, or its error.
  unfoldable pub push_table :
      (PullRequest → Result Json)
      → Number
      → String
      → List SyncMutation
      → Exec (Session S) (Option Error)
  push_table transport now table batch s =
      (take_answer table batch (transport (request_for table batch s)) now >> return none) s

  -- `processTable`
  unfoldable pub process_table :
      (PullRequest → Result Json)
      → Number
      → String
      → List SyncMutation
      → Exec (Session S) (Option Error)
  process_table transport now table batch =
      try_catch (ensure_shown table >> push_table transport now table batch) (fail_table batch)
