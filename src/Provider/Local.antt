-- ===== src/Provider/Local.antt =====
-- A local write: what the provider shows, and that it agrees with the disk.
use react_native_nitro_sync.Prelude.{◌≡◌, ◌⊎◌, some, String, List, find, string_eq}
use react_native_nitro_sync.Prelude.Dict.{lookup}
use react_native_nitro_sync.Value.Number.{Number}
use react_native_nitro_sync.Value.Json.{string, Fields, set}
use react_native_nitro_sync.Types.{SyncMutation, SyncRecord, Error, Result, ok, err}
use react_native_nitro_sync.Merge.{record_id_from_payload}
use react_native_nitro_sync.Storage.Database.{Database, durable}
use react_native_nitro_sync.Storage.Tables.{Tables}
use react_native_nitro_sync.Provider.{
  MutationInput, Provider, table_or_empty, has_record_id, persisted_record, next_table,
  next_mutation,
}

-- The values that `mutate` computes.
module _ (input : MutationInput) (fresh : String) where
  abbrev pub local_id : String
  local_id = record_id_from_payload input.payload input.id fresh

  abbrev pub local_payload : Fields
  local_payload = set "id" (string local_id) input.payload

  module _ {S : Type 0} (p : Provider S) where
    abbrev pub local_table : List SyncRecord
    local_table = table_or_empty (lookup input.table_name p.records)

    abbrev pub local_record : SyncRecord
    local_record =
        persisted_record input.operation (find (has_record_id local_id) local_table) local_payload
          local_id

    abbrev pub shown_table : List SyncRecord
    shown_table = next_table input.operation local_table local_record local_id

    abbrev pub local_mutation : String → Number → Number → SyncMutation
    local_mutation mutation_id now schema_version =
        next_mutation input mutation_id now schema_version local_payload local_record

-- The write is shown and on disk as promised, or neither.
abbrev pub IsAgreed :
    (Tables → Tables → Type 0)
    → Provider Database
    → String
    → List SyncRecord
    → String
    → Result String × Provider Database
    → Type 0
IsAgreed promised p table next id (r, p') =
    ((r ≡ ok id)
      × (lookup table p'.records ≡ some next)
      × promised p.store.tables (durable p'.store))
    ⊎ ((e : Error) × (r ≡ err e) × (p'.records ≡ p.records) × (durable p'.store ≡ p.store.tables))
