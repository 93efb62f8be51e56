-- ===== src/Storage/Writes.antt =====
-- The adapter's four transactions (src/storage.ts) as effects on the tables.
use react_native_nitro_sync.Prelude.{
  ◌≡◌, Bool, false, Option, none, some, String, List, ℕ, map, ◌==◌, string_eq,
}
use react_native_nitro_sync.Value.Number.{Number}
use react_native_nitro_sync.Types.{SyncMutation, SyncRecord, SyncTombstone}
use react_native_nitro_sync.Storage.Tables.{
  Statement, insert_mutation, delete_table, rename_record, rename_queued, due_rows,
}
use react_native_nitro_sync.Storage.Database.{Database, ◌>>◌, return, execute, execute_each, select}
use react_native_nitro_sync.Storage.{
  write_record, apply_mutation, row_mutation, claim_row, claim, list_pending_mutations,
  remap_record_id, insert_record, insert_tombstone, replace_table,
}
use react_native_nitro_sync.Storage.Atomic.{
  Effect, stating, then_effect, Implements, AllOrNothing, transaction_atomic, in_turn, each_in_turn,
  then-Performs, each-Performs, execute-Implements, select-Implements, return-Implements,
  bind-Implements,
}

-- The effects of the transactions.
abbrev pub write_effect : SyncMutation → SyncRecord → Bool → Statement
write_effect m r deleted = in_turn (insert_mutation m) (write_record m r deleted)

abbrev pub replace_effect : String → List SyncRecord → List SyncTombstone → Number → Statement
replace_effect table records tombstones timestamp = in_turn (delete_table table) (
    in_turn (each_in_turn (insert_record table timestamp) records)
      (each_in_turn (insert_tombstone table) tombstones))

abbrev pub remap_effect : String → String → String → Statement
remap_effect table from to = in_turn (rename_record table from to) (rename_queued table from to)

-- The claimed mutations, marked one after the other.
abbrev pub marked : List SyncMutation → Effect (List SyncMutation)
marked ms = then_effect (stating (each_in_turn claim_row ms)) (λ _ t. some (ms, t))

abbrev pub claim_effect : ℕ → Option String → ℕ → Effect (List SyncMutation)
claim_effect limit table now t = marked (map row_mutation (due_rows limit table now t)) t

pub apply_mutation-AllOrNothing :
    (m : SyncMutation) (r : SyncRecord) (deleted : Bool) (db : Database)
    → db.saved ≡ none
    → AllOrNothing (stating (write_effect m r deleted)) db (apply_mutation m r deleted db)
unfolding apply_mutation
apply_mutation-AllOrNothing m r deleted db closed =
    transaction_atomic (execute (insert_mutation m) >> execute (write_record m r deleted))
      (stating (write_effect m r deleted)) db
      (then-Performs (execute (insert_mutation m)) (execute (write_record m r deleted))
        (insert_mutation m) (write_record m r deleted) (execute-Implements (insert_mutation m))
        (execute-Implements (write_record m r deleted)))
      closed

pub replace_table-AllOrNothing :
    (table : String) (records : List SyncRecord) (tombstones : List SyncTombstone)
    (timestamp : Number) (db : Database)
    → db.saved ≡ none
    → AllOrNothing
        (stating (replace_effect table records tombstones timestamp))
        db
        (replace_table table records tombstones timestamp db)
unfolding replace_table
replace_table-AllOrNothing table records tombstones timestamp db closed =
    transaction_atomic
      (execute (delete_table table)
        >> (execute_each (insert_record table timestamp) records
            >> execute_each (insert_tombstone table) tombstones))
      (stating (replace_effect table records tombstones timestamp)) db
      (then-Performs (execute (delete_table table))
        (execute_each (insert_record table timestamp) records
          >> execute_each (insert_tombstone table) tombstones)
        (delete_table table)
        (in_turn (each_in_turn (insert_record table timestamp) records)
          (each_in_turn (insert_tombstone table) tombstones))
        (execute-Implements (delete_table table))
        (then-Performs (execute_each (insert_record table timestamp) records)
          (execute_each (insert_tombstone table) tombstones)
          (each_in_turn (insert_record table timestamp) records)
          (each_in_turn (insert_tombstone table) tombstones)
          (each-Performs (insert_record table timestamp) records)
          (each-Performs (insert_tombstone table) tombstones)))
      closed

pub remap_record_id-AllOrNothing :
    (table from to : String) (db : Database)
    → (from == to) ≡ false
    → db.saved ≡ none
    → AllOrNothing (stating (remap_effect table from to)) db (remap_record_id table from to db)
unfolding remap_record_id
remap_record_id-AllOrNothing table from to db differ closed = rw differ (
    transaction_atomic
      (execute (rename_record table from to) >> execute (rename_queued table from to))
      (stating (remap_effect table from to)) db
      (then-Performs (execute (rename_record table from to)) (execute (rename_queued table from to))
        (rename_record table from to) (rename_queued table from to)
        (execute-Implements (rename_record table from to))
        (execute-Implements (rename_queued table from to)))
      closed)

claim-Implements :
    (limit : ℕ) (table : Option String) (now : ℕ)
    → Implements (claim limit table now) (claim_effect limit table now)
unfolding claim
claim-Implements limit table now =
    bind-Implements (select (due_rows limit table now)) (λ t. some (due_rows limit table now t, t))
      (λ rows. execute_each claim_row (map row_mutation rows) >> return (map row_mutation rows))
      (λ rows. marked (map row_mutation rows)) (select-Implements (due_rows limit table now))
      λ rows.
        bind-Implements (execute_each claim_row (map row_mutation rows))
          (stating (each_in_turn claim_row (map row_mutation rows)))
          (λ _. return (map row_mutation rows)) (λ _ t. some (map row_mutation rows, t))
          (each-Performs claim_row (map row_mutation rows))
          (λ _. return-Implements (map row_mutation rows))

pub list_pending-AllOrNothing :
    (limit : ℕ) (table : Option String) (now : ℕ) (db : Database)
    → db.saved ≡ none
    → AllOrNothing (claim_effect limit table now) db (list_pending_mutations limit table now db)
unfolding list_pending_mutations
list_pending-AllOrNothing limit table now db closed =
    transaction_atomic (claim limit table now) (claim_effect limit table now) db
      (claim-Implements limit table now) closed
