-- ===== src/Storage/Tests.antt =====
-- A queue of three mutations and two rows, on a connection that fails at its third statement.
use mathlib.Core.List.{Perm}
use react_native_nitro_sync.Prelude.{
  ℕ, ◌≡◌, ◌≤◌, ◌+◌, ◌↔◌, ◌⊎◌, ◌++◌, refl, true, false, none, some, String, List, [], ◌∷◌, map,
  filter, string_eq, contains, length, arith,
}
use react_native_nitro_sync.Value.Number.{num, number_leb, is_finite}
use react_native_nitro_sync.Value.Json.{string, end, field, get}
use react_native_nitro_sync.Types.{
  SyncMutation, SyncRecord, update, syncing, rejected, claimed, reject, recovered, retry, fail, ok,
  err, Result, thrown, record_id,
}
use react_native_nitro_sync.StateMachine.{transition_mutation_state}
use react_native_nitro_sync.Settlement.{ids}
use react_native_nitro_sync.Storage.Tables.{
  QueueRow, Tables, insert_mutation, delete_table, insert_row, insert_by, order_by, is_due,
  due_rows, failed_row, queue_row, update_queue,
}
use react_native_nitro_sync.Storage.Database.{
  Database, attempt, select, execute, execute_each, begin, commit, rollback, transaction,
}
use react_native_nitro_sync.Storage.{
  apply_mutation, list_pending_mutations, remap_record_id, replace_table, row_mutation,
  rejected_row, retried_row, insert_record, claim, claim_row,
}
use react_native_nitro_sync.Storage.Writes.{claim_effect}
use react_native_nitro_sync.Storage.Transactions.{
  IsAtomic, replace_table-IsAtomic, remap_record_id-IsAtomic, list_pending-IsAtomic,
}
use react_native_nitro_sync.Storage.Replace.{replaced, renamed}
use react_native_nitro_sync.Storage.Claimed.{no_double_claim}
use react_native_nitro_sync.Storage.Upsert.{saves, removes, written, view, find_row, write_swap}
use react_native_nitro_sync.Storage.Queue.{IsOrdered}
use react_native_nitro_sync.Storage.Claim.{marked_queue, claim_lem}
use react_native_nitro_sync.Storage.Retry.{due_again, claim_follows}
use react_native_nitro_sync.Storage.LocalWrite.{idle}
use react_native_nitro_sync.Storage.Schema.{
  Schema, initialize, create_queue, add_column, rebuild, set_version, migrate_3, migrate_4,
  migrate_5, migrate_6, released,
}
use react_native_nitro_sync.Storage.Schema.Upgrade.{
  columns_at, stored_at, IsCurrent, initialize-IsCurrent,
}

abbrev payload : SyncRecord
payload = field "id" (string "a") (field "title" (string "x") end)

abbrev mutation : String → ℕ → SyncMutation
mutation id at = record {
  id = id;
  table_name = "todos";
  operation = update;
  payload = payload;
  timestamp = num at;
  schema_version = none;
  depends_on = none;
}

abbrev second : QueueRow
second = queue_row (mutation "m2" 4)

abbrev tables : Tables
tables = record {
  queue =
      second ∷ queue_row (mutation "m1" 3) ∷ record second { id = "m3"; status = rejected } ∷ [];
  records =
      record {
        table_name = "todos";
        record_id = "a";
        payload = payload;
        updated_at = num 3;
        deleted = false;
      }
      ∷ [];
}

-- BEGIN and the first statement of the transaction succeed, the second fails.
abbrev failing : Database
failing = record { tables = tables; saved = none; faults = false ∷ false ∷ true ∷ [] }

write_fails :
    apply_mutation (mutation "m4" 5) payload false failing
    ≡ (err (thrown "executeSync"), idle tables)
unfolding apply_mutation transaction begin commit rollback execute insert_mutation attempt string_eq
write_fails = refl

-- Two records with one id break the primary key; the delete before them is undone.
replace_fails :
    replace_table "todos" (payload ∷ payload ∷ []) [] (num 9) (idle tables)
    ≡ (err (thrown "constraint"), idle tables)
unfolding replace_table transaction begin commit rollback execute execute_each attempt delete_table
    insert_record insert_row string_eq get record_id
replace_fails = refl

replace_table-IsAtomic_example :
    IsAtomic
      (λ _ t t'.
        t'
        ≡ replaced "todos" (payload ∷ []) (record { id = "b"; timestamp = num 8 } ∷ []) (num 9) t)
      (idle tables)
      (replace_table "todos"
        (payload ∷ [])
        (record { id = "b"; timestamp = num 8 } ∷ [])
        (num 9)
        (idle tables))
replace_table-IsAtomic_example =
    replace_table-IsAtomic "todos" (payload ∷ []) (record { id = "b"; timestamp = num 8 } ∷ [])
      (num 9) (idle tables) refl

remap_record_id-IsAtomic_example :
    IsAtomic
      (λ _ t t'. t' ≡ renamed "todos" "a" "b" t)
      (idle tables)
      (remap_record_id "todos" "a" "b" (idle tables))
unfolding string_eq
remap_record_id-IsAtomic_example = remap_record_id-IsAtomic "todos" "a" "b" (idle tables) refl refl

list_pending-IsAtomic_example :
    IsAtomic
      (λ ms t t'.
        (ms ≡ map row_mutation (due_rows 1 (some "todos") 7 t)) × (t' ≡ marked_queue (ids ms) t))
      (idle tables)
      (list_pending_mutations 1 (some "todos") 7 (idle tables))
list_pending-IsAtomic_example = list_pending-IsAtomic 1 (some "todos") 7 (idle tables) refl

write_swap_example :
    view (
      find_row "todos" "a"
        (written
          (saves "todos" payload (num 6))
          (written (removes "todos" "a" (num 5)) tables)).records)
    ≡ view (
        find_row "todos" "a"
          (written
            (removes "todos" "a" (num 5))
            (written (saves "todos" payload (num 6)) tables)).records)
unfolding is_finite number_leb
write_swap_example =
    write_swap (removes "todos" "a" (num 5)) (saves "todos" payload (num 6)) tables "todos" "a" refl
      refl refl

oldest_claimed : ids (map row_mutation (due_rows 1 (some "todos") 7 tables)) ≡ "m1" ∷ []
unfolding due_rows order_by insert_by is_due queue_row row_mutation string_eq number_leb
oldest_claimed = refl

claim_lem_example :
    (rest : List QueueRow) × Perm
      (due_rows 1 (some "todos") 7 tables ++ rest)
      (filter (is_due 7 (some "todos")) tables.queue)
    × IsOrdered (due_rows 1 (some "todos") 7 tables ++ rest)
    × (length (due_rows 1 (some "todos") 7 tables) ≤ 1)
    × ((rest ≡ []) ⊎ (length (due_rows 1 (some "todos") 7 tables) ≡ 1))
    × (claim_effect 1 (some "todos") 7 tables
        ≡ some (
          map row_mutation (due_rows 1 (some "todos") 7 tables),
          marked_queue (ids (map row_mutation (due_rows 1 (some "todos") 7 tables))) tables,
        ))
unfolding is_finite queue_row
claim_lem_example = claim_lem 1 (some "todos") 7 tables (refl, (refl, (refl, tt)))

-- The oldest mutation is claimed first, and the other one that is due afterwards.
abbrev first_claim : Result (List SyncMutation) × Database
first_claim = list_pending_mutations 1 (some "todos") 7 (idle tables)

abbrev next_claim : Result (List SyncMutation) × Database
next_claim = list_pending_mutations 5 none 9 (idle first_claim.1.tables)

abbrev mutations_of : Result (List SyncMutation) → List SyncMutation
mutations_of (ok ms) = ms
mutations_of (err e) = []

no_double_claim_example : contains (ids (mutations_of next_claim.0)) "m1" ≡ false
unfolding list_pending_mutations claim claim_row update_queue transaction begin commit execute
    execute_each select attempt due_rows order_by insert_by is_due queue_row row_mutation string_eq
    number_leb
no_double_claim_example =
    no_double_claim 1 5 (some "todos") none 7 9 (idle tables) first_claim.1
      (idle first_claim.1.tables) next_claim.1 (mutations_of first_claim.0)
      (mutations_of next_claim.0) "m1" refl refl refl refl

due_again_example :
    ((is_due 8000 (some "todos") (failed_row 7000 second) ≡ true) ↔ (7000 + 1000 ≤ 8000))
    × (is_due 8000 (some "todos") (rejected_row "c" "m" second) ≡ false)
    × (is_due 8000 (some "todos") (retried_row second) ≡ true)
unfolding queue_row string_eq
due_again_example = due_again second (some "todos") 7000 8000 "c" "m" refl

claim_follows_example :
    (syncing ≡ transition_mutation_state second.status claimed)
    × ((failed_row 8000 (record second { status = syncing })).status
        ≡ transition_mutation_state syncing fail)
    × ((rejected_row "c" "m" (record second { status = syncing })).status
        ≡ transition_mutation_state syncing reject)
    × ((released (record second { status = syncing })).status
        ≡ transition_mutation_state syncing recovered)
unfolding queue_row is_due string_eq
claim_follows_example = claim_follows second 7000 8000 (some "todos") "c" "m" refl

-- A rejected row that is retried is due at once, while the state machine leaves REJECTED on RETRY.
retry_differs_here : is_due 0 none (retried_row (record second { status = rejected })) ≡ true
unfolding is_due retried_row queue_row
retry_differs_here = refl

retry_keeps_rejected : transition_mutation_state rejected retry ≡ rejected
unfolding transition_mutation_state
retry_keeps_rejected = refl

initialize-IsCurrent_example :
    (s : _) × (initialize (stored_at 4 tables.queue) ≡ ok s) × IsCurrent s
initialize-IsCurrent_example =
    initialize-IsCurrent 4 tables.queue (omega arith) (λ e. omega (arith, e))

-- A database of version 5 stays at version 5.
version_5_stays :
    initialize (stored_at 5 tables.queue)
    ≡ ok (record { user_version = 5; columns = some (columns_at 5); rows = tables.queue })
unfolding initialize create_queue queue_row
version_5_stays = refl

abbrev fresh : Schema
fresh = record { user_version = 0; columns = none; rows = [] }

-- A database that is created now reaches version 6.
fresh_initialized :
    initialize fresh ≡ ok (record { user_version = 6; columns = some (columns_at 6); rows = [] })
unfolding initialize create_queue add_column rebuild set_version migrate_3 migrate_4 migrate_5
    migrate_6 string_eq
fresh_initialized = refl
