-- ===== src/Storage/Schema.antt =====
-- `initialize` of the adapter: the columns of `sync_queue`, the version of the schema, and the rows.
pub mod Upgrade
use react_native_nitro_sync.Prelude.{
  ℕ, ◌≡◌, ◌≤◌, refl, Bool, true, false, not, ◌&&◌, Option, none, some, String, List, [], ◌∷◌, ◌++◌,
  map, all, contains, ltb, if◌then◌else◌, string_eq,
}
use react_native_nitro_sync.Value.Number.{num}
use react_native_nitro_sync.Value.Json.{array, nil}
use react_native_nitro_sync.Types.{
  pending, Error, newer_database, thrown, Result, ok, err, throw_if, ◌>>=◌, ◌>>◌,
}
use react_native_nitro_sync.Storage.Tables.{QueueRow, is_syncing}

-- `columns` is none before the table is created. A migration that fails is rolled back, and the error
-- ends `initialize`.
pub record Schema : Type 0 where
  pub user_version : ℕ
  pub columns : Option (List String)
  pub rows : List QueueRow

abbrev pub Step : Type 0
Step = Schema → Result Schema

abbrev pub first_columns : List String
first_columns =
    "id" ∷ "table_name" ∷ "operation" ∷ "payload" ∷ "timestamp" ∷ "status" ∷ "retry_count" ∷ []

-- `CREATE TABLE IF NOT EXISTS sync_queue`
unfoldable pub create_queue : Schema → Schema
create_queue s = elim s.columns [
  | none ↦ record s { columns = some (first_columns ++ "depends_on" ∷ []) }
  | some cs ↦ s
]

-- `ALTER TABLE sync_queue ADD COLUMN c …`, with what its default does to the rows
unfoldable pub add_column : String → (QueueRow → QueueRow) → Step
add_column c fill s = elim s.columns [
  | none ↦ err (thrown "no such table")
  | some cs ↦
      if contains cs c
      then err (thrown "duplicate column")
      else ok (record s { columns = some (cs ++ c ∷ []); rows = map fill s.rows })
]

-- The copy through `sync_queue_v3`, which keeps the first seven columns alone.
unfoldable pub rebuild : Step
rebuild s = elim s.columns [
  | none ↦ err (thrown "no such table")
  | some cs ↦
      if all (contains cs) first_columns
      then ok (record s { columns = some first_columns })
      else err (thrown "no such column")
]

-- `PRAGMA user_version = n`
unfoldable pub set_version : ℕ → Step
set_version n s = ok (record s { user_version = n })

-- `if (test) { … }`
abbrev pub when_ : Bool → Step → Step
when_ test step s = if test then step s else ok s

unfoldable pub migrate_3 : Step
migrate_3 s = rebuild s >>= set_version 3

unfoldable pub migrate_4 : Step
migrate_4 s =
    add_column "schema_version" (λ r. record r { schema_version = num 1 }) s >>= set_version 4

unfoldable pub migrate_5 : Step
migrate_5 s =
    add_column "next_retry_at" (λ r. record r { next_retry_at = 0 }) s
    >>= add_column "rejection_code" (λ r. record r { rejection_code = none })
    >>= add_column "rejection_message" (λ r. record r { rejection_message = none })
    >>= set_version 5

unfoldable pub migrate_6 : Step
migrate_6 s = add_column "depends_on" (λ r. record r { depends_on = array nil }) s >>= set_version 6

-- `UPDATE sync_queue SET status = 'PENDING' WHERE status = 'SYNCING'`
abbrev pub released : QueueRow → QueueRow
released r = if is_syncing r.status then record r { status = pending } else r

abbrev pub current_schema_version : ℕ
current_schema_version = 6

-- `initialize`; the step to version 6 stands inside the step to version 5, as in the source. The step
-- to version 2 adds an index, which is not part of the model.
unfoldable pub initialize : Step
initialize s =
    let stored = s.user_version in
    throw_if (ltb current_schema_version stored) (newer_database stored)
    >> (when_ (ltb stored 1) (set_version 1) (create_queue s)
        >>= when_ (ltb stored 2) (set_version 2)
        >>= when_ (ltb stored 3) migrate_3
        >>= when_ (ltb stored 4) migrate_4
        >>= when_ (ltb stored 5) (λ s₅. migrate_5 s₅ >>= when_ (ltb stored 6) migrate_6)
        >>= λ done. ok (record done { rows = map released done.rows }))
