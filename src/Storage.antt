-- ===== src/Storage.antt =====
-- src/storage.ts: the operations of the adapter that `createSyncStorage` returns. Each call of
-- `executeSync` is one `execute` or `select`.
pub mod Tables
pub mod Database
pub mod Atomic
pub mod Keeps
pub mod Writes
pub mod Upsert
pub mod Queue
pub mod Claim
pub mod Retry
pub mod LocalWrite
pub mod Replace
pub mod Transactions
pub mod Claimed
pub mod Schema
pub mod Metadata
mod Tests
use react_native_nitro_sync.Prelude.{
  ℕ, ◌≡◌, Bool, true, false, not, ◌&&◌, Option, none, some, String, List, [], ◌∷◌, map, filter,
  ◌==◌, string_eq, if◌then◌else◌,
}
use react_native_nitro_sync.Value.Number.{Number, num}
use react_native_nitro_sync.Value.Json.{object}
use react_native_nitro_sync.Types.{
  SyncMutation, SyncRecord, SyncTombstone, pending, syncing, rejected, Result, ok, err, record_id,
}
use react_native_nitro_sync.Merge.{record_of}
use Tables.{
  QueueRow, RecordRow, Statement, insert_mutation, upsert_record, upsert_tombstone, insert_row,
  delete_table, delete_tombstone, update_queue, delete_queue, order_by, due_rows, failed_row,
  has_id, is_syncing, is_rejected, rename_record, rename_queued, value_or, only_id,
}
use Database.{Query, ◌>>=◌, ◌>>◌, return, execute, execute_each, select, transaction}

abbrev Done : Type 0
Done = Query (Unit {0})

-- `loadRecords`
unfoldable pub parsed_rows : List RecordRow → List SyncRecord
parsed_rows [] = []
parsed_rows (r ∷ rs) = elim (record_of (object r.payload)) [
  | some o ↦ o ∷ parsed_rows rs
  | none ↦ parsed_rows rs
]

unfoldable pub load_records : String → Query (List SyncRecord)
load_records table = do
  rows ← select λ t.
      order_by (λ r. r.updated_at)
        (filter (λ r. (r.table_name == table) && not r.deleted) t.records)
  return (parsed_rows rows)

-- `loadTombstones`
unfoldable pub load_tombstones : String → Query (List SyncTombstone)
load_tombstones table = do
  rows ← select λ t.
      order_by (λ r. r.updated_at) (filter (λ r. (r.table_name == table) && r.deleted) t.records)
  return (map (λ r. record { id = r.record_id; timestamp = r.updated_at }) rows)

-- `clearTombstone`
unfoldable pub clear_tombstone : String → String → Number → Done
clear_tombstone table id through = execute (delete_tombstone table id through)

-- `saveMutation`
unfoldable pub save_mutation : SyncMutation → Done
save_mutation m = execute (insert_mutation m)

-- The second statement of `applyMutation`
unfoldable pub write_record : SyncMutation → SyncRecord → Bool → Statement
write_record m r true = upsert_tombstone m.table_name (record_id r) m.timestamp
write_record m r false = upsert_record m.table_name r m.timestamp

-- `applyMutation`
unfoldable pub apply_mutation : SyncMutation → SyncRecord → Bool → Done
apply_mutation m r deleted =
    transaction (execute (insert_mutation m) >> execute (write_record m r deleted))

-- The mutation that a row of the queue holds.
unfoldable pub row_mutation : QueueRow → SyncMutation
row_mutation r = record {
  id = r.id;
  table_name = r.table_name;
  operation = r.operation;
  payload = r.payload;
  timestamp = r.timestamp;
  schema_version = some r.schema_version;
  depends_on = some r.depends_on;
}

-- `UPDATE sync_queue SET status = 'SYNCING' WHERE id = ?`
unfoldable pub claim_row : SyncMutation → Statement
claim_row m = update_queue (has_id m.id) (λ r. record r { status = syncing })

-- The body of `listPendingMutations`
unfoldable pub claim : ℕ → Option String → ℕ → Query (List SyncMutation)
claim limit table now = do
  rows ← select (due_rows limit table now)
  execute_each claim_row (map row_mutation rows)
  return (map row_mutation rows)

-- `listPendingMutations`
unfoldable pub list_pending_mutations : ℕ → Option String → ℕ → Query (List SyncMutation)
list_pending_mutations limit table now = transaction (claim limit table now)

pub record RejectedSyncMutation : Type 0 where
  pub mutation : SyncMutation
  pub code : String
  pub message : String

unfoldable pub rejected_rows : List QueueRow → List RejectedSyncMutation
rejected_rows [] = []
rejected_rows (r ∷ rs) = elim (record_of (object r.payload)) [
  | some o ↦
      record {
        mutation = record (row_mutation r) { payload = o; depends_on = none };
        code = value_or r.rejection_code "unknown";
        message = value_or r.rejection_message "";
      }
      ∷ rejected_rows rs
  | none ↦ rejected_rows rs
]

-- `listRejectedMutations`
unfoldable pub list_rejected_mutations : String → Query (List RejectedSyncMutation)
list_rejected_mutations table = do
  rows ← select λ t.
      order_by (λ r. r.timestamp)
        (filter (λ r. is_rejected r.status && (r.table_name == table)) t.queue)
  return (rejected_rows rows)

-- `markMutationFailed`
unfoldable pub mark_mutation_failed : ℕ → String → Done
mark_mutation_failed now id = execute (update_queue (has_id id) (failed_row now))

-- The SET clause of `markMutationRejected`
unfoldable pub rejected_row : String → String → QueueRow → QueueRow
rejected_row code message r = record r {
  status = rejected;
  rejection_code = some code;
  rejection_message = some message;
}

-- `markMutationRejected`
unfoldable pub mark_mutation_rejected : String → String → String → Done
mark_mutation_rejected id code message =
    execute (update_queue (has_id id) (rejected_row code message))

-- The SET clause of `retryRejectedMutation`
unfoldable pub retried_row : QueueRow → QueueRow
retried_row r = record r {
  status = pending;
  retry_count = 0;
  next_retry_at = 0;
  rejection_code = none;
  rejection_message = none;
}

-- `retryRejectedMutation`
unfoldable pub retry_rejected_mutation : String → Done
retry_rejected_mutation id =
    execute (update_queue (λ r. has_id id r && is_rejected r.status) retried_row)

-- `discardRejectedMutation`
unfoldable pub discard_rejected_mutation : String → Done
discard_rejected_mutation id = execute (delete_queue (λ r. has_id id r && is_rejected r.status))

-- `markMutationPending`
unfoldable pub mark_mutation_pending : String → Done
mark_mutation_pending id =
    execute (update_queue (has_id id) (λ r. record r { status = pending; next_retry_at = 0 }))

-- `recoverStuckMutations`
unfoldable pub recover_stuck_mutations : Done
recover_stuck_mutations =
    execute (update_queue (λ r. is_syncing r.status) (λ r. record r { status = pending }))

-- `removeMutation`
unfoldable pub remove_mutation : String → Done
remove_mutation id = execute (delete_queue (has_id id))

-- `saveRecord`
unfoldable pub save_record : String → SyncRecord → Number → Done
save_record table r timestamp = execute (upsert_record table r timestamp)

-- `removeRecord`
unfoldable pub remove_record : String → String → Number → Done
remove_record table id timestamp = execute (upsert_tombstone table id timestamp)

-- `remapRecordId`
unfoldable pub remap_record_id : String → String → String → Done
remap_record_id table from to =
    if from == to
    then return tt
    else transaction
        (execute (rename_record table from to) >> execute (rename_queued table from to))

unfoldable pub insert_record : String → Number → SyncRecord → Statement
insert_record table timestamp r = insert_row (record {
  table_name = table;
  record_id = record_id r;
  payload = r;
  updated_at = timestamp;
  deleted = false;
})

unfoldable pub insert_tombstone : String → SyncTombstone → Statement
insert_tombstone table t = insert_row (record {
  table_name = table;
  record_id = t.id;
  payload = only_id t.id;
  updated_at = t.timestamp;
  deleted = true;
})

-- `replaceTable`
unfoldable pub replace_table : String → List SyncRecord → List SyncTombstone → Number → Done
replace_table table records tombstones timestamp = transaction (
    execute (delete_table table)
    >> (execute_each (insert_record table timestamp) records
        >> execute_each (insert_tombstone table) tombstones))
