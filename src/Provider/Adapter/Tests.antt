-- ===== src/Provider/Adapter/Tests.antt =====
-- Syncs of a queue with two mutations, the second of which waits for the first.
use react_native_nitro_sync.Prelude.{
  ℕ, ◌≡◌, refl, false, none, some, String, List, [], ◌∷◌, string_eq, arith,
}
use react_native_nitro_sync.Prelude.Dict.{lookup, insert, values}
use react_native_nitro_sync.Value.Number.{
  Number, num, number_leb, is_finite, is_safe_integer, is_positive_safe_integer,
}
use react_native_nitro_sync.Value.Json.{Json, string, object, array, item, nil, field, end, get}
use react_native_nitro_sync.Types.{SyncMutation, update, syncing, thrown, Result, ok, err}
use react_native_nitro_sync.StateMachine.{transition_mutation_state}
use react_native_nitro_sync.Settlement.{
  acknowledged_ids, rejected_ids, partition_sync_mutations, handle_each, settle_sync_mutations,
}
use react_native_nitro_sync.Exec.{for_each}
use react_native_nitro_sync.Storage.{
  load_records, parsed_rows, load_tombstones, claim, claim_row, row_mutation,
  list_pending_mutations, mark_mutation_pending, remove_mutation,
}
use react_native_nitro_sync.Storage.Tables.{
  QueueRow, Tables, queue_row, is_due, due_rows, insert_by, order_by, update_queue, delete_queue,
}
use react_native_nitro_sync.Storage.Database.{
  Database, attempt, execute, execute_each, select, begin, commit, rollback, transaction,
}
use react_native_nitro_sync.Storage.LocalWrite.{idle}
use react_native_nitro_sync.Protocol.{assert_compatible_schema_version}
use react_native_nitro_sync.Protocol.Response.{
  guards, check_guards, response_of, normalize_sync_response,
}
use react_native_nitro_sync.Provider.Backend.{
  Callbacks, callbacks, claim_pending, load_stored_records, load_stored_tombstones, mark_pending,
  remove_queued,
}
use react_native_nitro_sync.Provider.Batch.{
  set_from, group_one, group_into, group_mutations_by_table, waits_for, waiting, blocked_ids,
  without_blocked, tables_to_sync,
}
use react_native_nitro_sync.Provider.Session.{Session, SyncConfig, Metadata}
use react_native_nitro_sync.Provider.Pull.{pull_answer, newest_tombstones}
use react_native_nitro_sync.Provider.Process.{
  PullRequest, ensure_shown, request_for, apply_id_map, clear_removed, on_acknowledge, handlers,
  store_cursor, store_version, rejection_errors, settle_answer, take_answer, push_table,
  process_table,
}
use react_native_nitro_sync.Provider.Sync.{
  synced, process_tables, release_blocked, finish_run, sync_grouped, sync_claimed, run_sync,
}
use react_native_nitro_sync.Provider.Sync.Returns.{Ends, claimed_ids, sync_returns}
use react_native_nitro_sync.Provider.Settled.Released.{sync_releases}
use react_native_nitro_sync.Provider.Queue.{QueueLaws}
use react_native_nitro_sync.Provider.Adapter.{adapter, adapter_callbacks}
use react_native_nitro_sync.Provider.Adapter.Queries.{syncing_in}
use react_native_nitro_sync.Provider.Adapter.Laws.{MetadataApart, adapter-QueueLaws}

abbrev mutation : String → ℕ → Json → SyncMutation
mutation id at waits = record {
  id = id;
  table_name = "todos";
  operation = update;
  payload = field "id" (string "a") end;
  timestamp = num at;
  schema_version = none;
  depends_on = some waits;
}

abbrev tables : Tables
tables = record {
  queue =
      queue_row (mutation "m1" 3 (array nil))
      ∷ queue_row (mutation "m2" 4 (array (item (string "m1") nil)))
      ∷ [];
  records = [];
}

-- A metadata store that forgets.
abbrev metadata : Metadata Database
metadata = record {
  read_cursor = λ table d. none;
  write_cursor = λ table cursor d. d;
  read_version = λ table d. none;
  write_version = λ table version d. d;
  write_last_synced_at = λ timestamp d. d;
}

metadata_apart : MetadataApart metadata
metadata_apart = record {
  cursor = λ table value d. refl;
  version = λ table value d. refl;
  last_synced_at = λ timestamp d. refl;
}

abbrev config : SyncConfig
config = record {
  schema_version = none;
  schema_migration = none;
  conflict_strategy = none;
  max_concurrent_tables = none;
  device_id = "d1";
}

abbrev session : Session Database
session = record {
  records = [];
  server_cursors = [];
  server_versions = [];
  last_synced_at = none;
  unacked_ids = [];
  rejection_messages = [];
  store = idle tables;
}

abbrev parse : String → Result Json
parse text = err (thrown "JSON.parse")

abbrev stringify : Json → String
stringify v = ""

-- Applied to no time here.
abbrev add_one : Number → Number
add_one n = n

-- A server that acknowledges the first mutation.
abbrev answer : PullRequest → Result Json
answer r = ok (object (field "acknowledgedMutationIds" (array (item (string "m1") nil)) end))

abbrev cb : ℕ → Callbacks Database
cb now = adapter_callbacks parse stringify now

adapter-QueueLaws_example : QueueLaws (adapter_callbacks parse stringify 9) metadata syncing_in
adapter-QueueLaws_example = adapter-QueueLaws parse stringify 9 metadata metadata_apart

abbrev asked : SyncMutation → SyncMutation
asked m = record m { schema_version = some (num 1) }

abbrev claimed : List SyncMutation
claimed =
    asked (mutation "m1" 3 (array nil))
    ∷ asked (mutation "m2" 4 (array (item (string "m1") nil)))
    ∷ []

abbrev marked : QueueRow → QueueRow
marked r = record r { status = syncing }

abbrev claimed_store : Database
claimed_store = idle (record tables {
  queue =
      marked (queue_row (mutation "m1" 3 (array nil)))
      ∷ marked (queue_row (mutation "m2" 4 (array (item (string "m1") nil))))
      ∷ [];
})

claims : (cb 9).claim none session.store ≡ (ok claimed, claimed_store)
unfolding adapter_callbacks adapter callbacks claim_pending list_pending_mutations claim claim_row
    row_mutation queue_row transaction begin commit rollback select execute execute_each attempt
    due_rows order_by insert_by is_due update_queue string_eq number_leb
claims = refl

idle_before : (y : String) → syncing_in y session.store ≡ false
unfolding queue_row
idle_before y = ground arith

-- The first mutation leaves the queue; the second is sent by the next sync.
synced_run : (run_sync (cb 9) metadata add_one config answer (num 9) none session).0 ≡ ok synced
unfolding adapter_callbacks adapter callbacks claim_pending list_pending_mutations claim claim_row
    row_mutation queue_row transaction begin commit rollback select execute execute_each attempt
    due_rows order_by insert_by is_due update_queue delete_queue string_eq number_leb load_records
    parsed_rows load_tombstones mark_mutation_pending remove_mutation load_stored_records
    load_stored_tombstones mark_pending remove_queued set_from group_one group_into
    group_mutations_by_table waits_for waiting blocked_ids without_blocked tables_to_sync
    ensure_shown request_for apply_id_map clear_removed on_acknowledge handlers store_cursor
    store_version rejection_errors settle_answer take_answer push_table process_table pull_answer
    newest_tombstones process_tables release_blocked finish_run sync_grouped sync_claimed run_sync
    assert_compatible_schema_version normalize_sync_response guards check_guards acknowledged_ids
    rejected_ids partition_sync_mutations handle_each settle_sync_mutations lookup insert values get
    is_finite is_safe_integer is_positive_safe_integer for_each transition_mutation_state
    response_of
synced_run = refl

sync_releases_example :
    syncing_in "m1" (run_sync (cb 9) metadata add_one config answer (num 9) none session).1.store
    ≡ false
sync_releases_example =
    sync_releases (adapter-QueueLaws parse stringify 9 metadata metadata_apart) add_one config
      answer (num 9) none session claimed claimed_store synced claims idle_before synced_run "m1"

-- No answer, as without a network.
abbrev no_answer : PullRequest → Result Json
no_answer r = err (thrown "fetch")

sync_returns_example :
    Ends
      (cb 9)
      (claimed_ids ((cb 9).claim none session.store).0)
      (run_sync (cb 9) metadata add_one config no_answer (num 9) none session).0
sync_returns_example = sync_returns (cb 9) metadata add_one config no_answer (num 9) none session
