-- ===== src/Provider/Adapter/Queries.antt =====
-- Which calls of the adapter leave a mutation SYNCING, and which free it, whatever fails.
use react_native_nitro_sync.Prelude.{
  ℕ, ◌≡◌, refl, inl, inr, true, false, some, String, List, arith, ◌==◌, string_eq, Bool-cases,
}
use react_native_nitro_sync.Value.Number.{Number}
use react_native_nitro_sync.Types.{SyncRecord, SyncTombstone, pending}
use react_native_nitro_sync.Exec.Keeps.{Keeps, Keeps-return, Keeps-bind, Keeps-then}
use react_native_nitro_sync.Storage.Tables.{
  QueueRow, Tables, Statement, has_id, update_queue, delete_queue, upsert_record, upsert_tombstone,
  delete_table, delete_tombstone, rename_record, rename_queued, failed_row,
}
use react_native_nitro_sync.Storage.Database.{
  Database, Query, ◌>>◌, return, execute, execute_each, select, transaction,
}
use react_native_nitro_sync.Storage.Atomic.{execute-Implements, stating_inverse}
use react_native_nitro_sync.Storage.Keeps.{
  Invariant, Keeps-execute, Keeps-select, Keeps-transaction, Within-execute, Within-each,
}
use react_native_nitro_sync.Storage.{
  load_records, load_tombstones, parsed_rows, clear_tombstone, mark_mutation_failed,
  mark_mutation_rejected, rejected_row, mark_mutation_pending, remove_mutation, save_record,
  remove_record, remap_record_id, replace_table, insert_record, insert_tombstone,
}
use react_native_nitro_sync.Provider.Queue.{Stuck, Calm, Frees}
use react_native_nitro_sync.Provider.Adapter.Statements.{
  is_stuck, Only, SameQueue, SameQueue-Invariant, upsert_record-SameQueue,
  upsert_tombstone-SameQueue, insert_row-SameQueue, delete_table-SameQueue,
  delete_tombstone-SameQueue, rename_record-SameQueue, update_queue-Invariant,
  delete_queue-Invariant, rename_queued-Invariant, update_queue_frees, delete_queue_frees,
}

-- SYNCING in the tables as the connection sees them
abbrev pub syncing_in : Stuck Database
syncing_in x d = is_stuck x d.tables

pub Calm-query :
    {A : Type 0} (q : Query A)
    → ((x : String) (B : Type 0) → Keeps (λ d. Only x B d.tables) q)
    → Calm syncing_in q
Calm-query q k s x h = (k x (is_stuck x s.tables ≡ true)).at s (λ e. e) h

Calm-execute :
    (st : Statement)
    → ((x : String) (B : Type 0) → Invariant (Only x B) st)
    → Calm syncing_in (execute st)
Calm-execute st k = Calm-query (execute st) (λ x B. Keeps-execute (Only x B) st (k x B))

Calm-records : (st : Statement) → SameQueue st → Calm syncing_in (execute st)
Calm-records st same = Calm-execute st (λ x B. SameQueue-Invariant x B st same)

Frees-execute :
    (x : String) (st : Statement)
    → ((t t' : Tables) → st t ≡ some t' → is_stuck x t' ≡ false)
    → Frees syncing_in x (execute st)
Frees-execute x st k s e =
    k s.tables (execute st s).1.tables
      (stating_inverse st s.tables (execute st s).1.tables tt ((execute-Implements st s).1 tt e))

pub load_records-Calm : (table : String) → Calm syncing_in (load_records table)
unfolding load_records
load_records-Calm table = Calm-query (load_records table) λ x B.
    Keeps-bind (select _) (λ rows. return (parsed_rows rows)) (Keeps-select (Only x B) _)
      (λ rows. Keeps-return (parsed_rows rows))

pub load_tombstones-Calm : (table : String) → Calm syncing_in (load_tombstones table)
unfolding load_tombstones
load_tombstones-Calm table =
    Calm-query (load_tombstones table)
      λ x B. Keeps-bind (select _) _ (Keeps-select (Only x B) _) (λ rows. Keeps-return _)

pub save_record-Calm :
    (table : String) (r : SyncRecord) (timestamp : Number)
    → Calm syncing_in (save_record table r timestamp)
unfolding save_record
save_record-Calm table r timestamp =
    Calm-records (upsert_record table r timestamp) (upsert_record-SameQueue table r timestamp)

pub remove_record-Calm :
    (table id : String) (timestamp : Number) → Calm syncing_in (remove_record table id timestamp)
unfolding remove_record
remove_record-Calm table id timestamp =
    Calm-records (upsert_tombstone table id timestamp)
      (upsert_tombstone-SameQueue table id timestamp)

pub clear_tombstone-Calm :
    (table id : String) (through : Number) → Calm syncing_in (clear_tombstone table id through)
unfolding clear_tombstone
clear_tombstone-Calm table id through =
    Calm-records (delete_tombstone table id through) (delete_tombstone-SameQueue table id through)

pub replace_table-Calm :
    (table : String) (rs : List SyncRecord) (ts : List SyncTombstone) (timestamp : Number)
    → Calm syncing_in (replace_table table rs ts timestamp)
unfolding replace_table insert_record insert_tombstone
replace_table-Calm table rs ts timestamp = Calm-query (replace_table table rs ts timestamp) λ x B.
    Keeps-transaction (Only x B) _ (
      Keeps-then (execute (delete_table table)) _
        (Within-execute (Only x B) (delete_table table)
          (SameQueue-Invariant x B (delete_table table) (delete_table-SameQueue table)))
        (Keeps-then (execute_each (insert_record table timestamp) rs) _
          (Within-each (Only x B) (insert_record table timestamp) rs
            (λ r. SameQueue-Invariant x B _ (insert_row-SameQueue _)))
          (Within-each (Only x B) (insert_tombstone table) ts
            (λ r. SameQueue-Invariant x B _ (insert_row-SameQueue _)))))

pub remap_record_id-Calm :
    (table from to : String) → Calm syncing_in (remap_record_id table from to)
unfolding remap_record_id
remap_record_id-Calm table from to = elim (Bool-cases (from == to)) [
  | inl e ↦ rw e (Calm-query (return tt) (λ x B. Keeps-return tt))
  | inr e ↦ rw e (
      Calm-query
        (transaction
          (execute (rename_record table from to) >> execute (rename_queued table from to)))
        λ x B. Keeps-transaction (Only x B) _ (
          Keeps-then _ _
            (Within-execute (Only x B) (rename_record table from to)
              (SameQueue-Invariant x B _ (rename_record-SameQueue table from to)))
            (Within-execute (Only x B) (rename_queued table from to)
              (rename_queued-Invariant x B table from to))))
]

module _ (now : ℕ) (id : String) where
  pub mark_failed-Calm : Calm syncing_in (mark_mutation_failed now id)
  unfolding mark_mutation_failed failed_row
  mark_failed-Calm =
      Calm-execute (update_queue (has_id id) (failed_row now))
        (λ x B. update_queue-Invariant x B (has_id id) (failed_row now) (λ y r h. ground arith))

  pub mark_failed-Frees : Frees syncing_in id (mark_mutation_failed now id)
  unfolding mark_mutation_failed failed_row
  mark_failed-Frees =
      Frees-execute id (update_queue (has_id id) (failed_row now))
        (λ t t' e. update_queue_frees id (failed_row now) t t' (λ r. refl) e)

module _ (id code message : String) where
  pub mark_rejected-Calm : Calm syncing_in (mark_mutation_rejected id code message)
  unfolding mark_mutation_rejected rejected_row
  mark_rejected-Calm = Calm-execute (update_queue (has_id id) (rejected_row code message)) (λ x B.
      update_queue-Invariant x B (has_id id) (rejected_row code message) (λ y r h. ground arith))

  pub mark_rejected-Frees : Frees syncing_in id (mark_mutation_rejected id code message)
  unfolding mark_mutation_rejected rejected_row
  mark_rejected-Frees =
      Frees-execute id (update_queue (has_id id) (rejected_row code message))
        (λ t t' e. update_queue_frees id (rejected_row code message) t t' (λ r. refl) e)

-- The SET clause of `markMutationPending`
abbrev reopened : QueueRow → QueueRow
reopened r = record r { status = pending; next_retry_at = 0 }

module _ (id : String) where
  pub mark_pending-Calm : Calm syncing_in (mark_mutation_pending id)
  unfolding mark_mutation_pending
  mark_pending-Calm =
      Calm-execute (update_queue (has_id id) reopened)
        (λ x B. update_queue-Invariant x B (has_id id) reopened (λ y r h. ground arith))

  pub mark_pending-Frees : Frees syncing_in id (mark_mutation_pending id)
  unfolding mark_mutation_pending
  mark_pending-Frees =
      Frees-execute id (update_queue (has_id id) reopened)
        (λ t t' e. update_queue_frees id reopened t t' (λ r. refl) e)

  pub remove_mutation-Calm : Calm syncing_in (remove_mutation id)
  unfolding remove_mutation
  remove_mutation-Calm =
      Calm-execute (delete_queue (has_id id)) (λ x B. delete_queue-Invariant x B (has_id id))

  pub remove_mutation-Frees : Frees syncing_in id (remove_mutation id)
  unfolding remove_mutation
  remove_mutation-Frees = Frees-execute id (delete_queue (has_id id)) (delete_queue_frees id)
