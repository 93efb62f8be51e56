-- ===== src/Provider.antt =====
-- src/provider.tsx: the local write of the provider, over a native engine or a storage adapter.
pub mod Backend
pub mod Batch
pub mod Session
pub mod Pull
pub mod Process
pub mod Sync
pub mod Queue
pub mod Settled
pub mod Adapter
pub mod Transport
pub mod Access
pub mod Local
pub mod View
mod Tests
use react_native_nitro_sync.Prelude.{
  ℕ, suc, ◌≡◌, Bool, true, false, not, Option, none, some, String, List, [], ◌∷◌, ◌++◌, filter,
  find, ◌==◌, string_eq, if◌then◌else◌,
}
use react_native_nitro_sync.Prelude.Dict.{Dict, lookup, insert}
use react_native_nitro_sync.Value.Number.{Number, num, is_positive_safe_integer}
use react_native_nitro_sync.Value.Json.{Json, string, array, nil, Fields, end, field, set, spread}
use react_native_nitro_sync.Types.{
  MutationOperation, create, update, delete, SyncMutation, SyncRecord, record_id, no_queue,
  invalid_schema_version, Result, ok, err,
}
use react_native_nitro_sync.Merge.{record_id_from_payload}

-- A call that changes the store and may throw.
abbrev pub Call : Type 0 → Type 0
Call S = S → Result (Unit {0}) × S

-- `applyMutation` of the native engine: mutation id, table, operation, payload, timestamp, schema
-- version, record id, record, deleted, dependencies. Texts of JSON stand for their values.
abbrev pub NativeApply : Type 0 → Type 0
NativeApply S =
    String
    → String
    → MutationOperation
    → Fields
    → Number
    → Number
    → String
    → Fields
    → Bool
    → Json
    → Call S

-- `applyMutation` of the interface SyncStorage
abbrev pub StorageApply : Type 0 → Type 0
StorageApply S = SyncMutation → SyncRecord → Bool → Call S

-- The argument of `mutate`
pub record MutationInput : Type 0 where
  pub table_name : String
  pub operation : MutationOperation
  pub payload : Fields
  pub id : Option String
  pub depends_on : Option Json

-- `records` is `recordsRef.current`, which React's state of the same name follows.
pub record Provider (S : Type 0) : Type 0 where
  pub records : Dict (List SyncRecord)
  pub version : ℕ
  pub store : S

abbrev pub table_or_empty : Option (List SyncRecord) → List SyncRecord
table_or_empty none = []
table_or_empty (some rs) = rs

-- `{ ...previousRecord, … }`
abbrev pub fields_or_empty : Option SyncRecord → Fields
fields_or_empty none = end
fields_or_empty (some r) = r

abbrev pub is_delete : MutationOperation → Bool
is_delete delete = true
is_delete _ = false

abbrev pub number_or_one : Option Number → Number
number_or_one none = num 1
number_or_one (some n) = n

abbrev pub dependencies_or_empty : Option Json → Json
dependencies_or_empty none = array nil
dependencies_or_empty (some ds) = ds

abbrev pub has_record_id : String → SyncRecord → Bool
has_record_id id r = record_id r == id

-- `persistedRecord`
unfoldable pub persisted_record :
    MutationOperation → Option SyncRecord → Fields → String → SyncRecord
persisted_record update previous payload id =
    set "id" (string id) (spread (spread end (fields_or_empty previous)) payload)
persisted_record _ previous payload id = payload

-- `nextTable`
unfoldable pub next_table :
    MutationOperation → List SyncRecord → SyncRecord → String → List SyncRecord
next_table delete existing persisted id = filter (λ r. not (has_record_id id r)) existing
next_table _ existing persisted id =
    filter (λ r. not (has_record_id id r)) existing ++ persisted ∷ []

-- `nextMutation`
unfoldable pub next_mutation :
    MutationInput → String → Number → Number → Fields → SyncRecord → SyncMutation
next_mutation input mutation_id timestamp schema_version payload persisted = record {
  id = mutation_id;
  table_name = input.table_name;
  operation = input.operation;
  payload = if is_delete input.operation then payload else persisted;
  timestamp = timestamp;
  schema_version = some schema_version;
  depends_on = input.depends_on;
}

-- The last lines of `mutate`, after the write
unfoldable pub show_write :
    {S : Type 0}
    → Provider S
    → String
    → List SyncRecord
    → String
    → Result (Unit {0}) × S
    → Result String × Provider S
show_write p table next id (err e, store) = (err e, record p { store = store })
show_write p table next id (ok done, store) = (
  ok id,
  record p { records = insert table next p.records; version = suc p.version; store = store },
)

module _ {S : Type 0} (native : Option (NativeApply S)) (storage : Option (StorageApply S)) where
  -- The branch on `usesNative`
  unfoldable pub apply_write : SyncMutation → Number → String → SyncRecord → Call S
  apply_write m schema_version id persisted store = elim native [
    | some apply ↦
        apply m.id m.table_name m.operation m.payload m.timestamp schema_version id
          (if is_delete m.operation then field "id" (string id) end else persisted)
          (is_delete m.operation) (dependencies_or_empty m.depends_on) store
    | none ↦ elim storage [
      | some apply ↦ apply m persisted (is_delete m.operation) store
      | none ↦ (err no_queue, store)
    ]
  ]

  -- `mutate`. `configured` is `config.schemaVersions?.[tableName]`; the two random ids and the time are
  -- arguments.
  unfoldable pub mutate :
      Option Number
      → String
      → String
      → Number
      → MutationInput
      → Provider S
      → Result String × Provider S
  mutate configured fresh_mutation fresh_record now input p =
      let schema_version = number_or_one configured in
      if not (is_positive_safe_integer schema_version)
      then (err invalid_schema_version, p)
      else let id = record_id_from_payload input.payload input.id fresh_record in
        let payload = set "id" (string id) input.payload in
        let existing = table_or_empty (lookup input.table_name p.records) in
        let persisted =
          persisted_record input.operation (find (has_record_id id) existing) payload id in
        let m = next_mutation input fresh_mutation now schema_version payload persisted in
        show_write p input.table_name (next_table input.operation existing persisted id) id
          (apply_write m schema_version id persisted p.store)
