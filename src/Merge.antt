-- ===== src/Merge.antt =====
-- src/merge.ts
pub mod FieldMerge
pub mod Conflict
pub mod Loops
pub mod Pull
pub mod Guarantees
pub mod Total
mod Tests
use react_native_nitro_sync.Prelude.{
  ◌≡◌, refl, Bool, true, false, not, ◌&&◌, ◌||◌, Option, none, some, String, List, [], ◌∷◌, ◌==◌,
  string_eq, option_eq, contains, if◌then◌else◌,
}
use react_native_nitro_sync.Prelude.Dict.{Dict, lookup, insert, values}
use react_native_nitro_sync.Value.Number.{
  Number, num, number_leb, is_zero, is_positive_safe_integer,
}
use react_native_nitro_sync.Value.Json.{
  Json, null, string, number, array, object, Fields, end, field, get, set, as_string, as_number,
  from_items,
}
use react_native_nitro_sync.Types.{
  SyncRecord, SyncTombstone, SyncMutation, MutationOperation, create, update, delete, string_id,
  record_id, Error, changed_record_id, thrown, Result, ok, err, ◌>>=◌,
}

-- `typeof s === 'string' && s.length > 0`
abbrev pub non_empty : Option String → Option String
non_empty none = none
non_empty (some s) = if s == "" then none else some s

-- `createSyncId` is random: its result is the argument `fresh`.
-- `recordIdFromPayload`
unfoldable pub record_id_from_payload : Fields → Option String → String → String
record_id_from_payload payload fallback fresh = elim (non_empty (string_id payload)) [
  | some id ↦ id
  | none ↦ elim (non_empty fallback) [ some id ↦ id | none ↦ fresh ]
]

-- `timestampOf`
unfoldable pub timestamp_of : SyncRecord → Number
timestamp_of r = elim (as_number (get "updatedAt" r)) [
  | some t ↦ t
  | none ↦ elim (as_number (get "updated_at" r)) [ some t ↦ t | none ↦ num 0 ]
]

-- `mergeJsonValue`. `merge_entries l m r` is the loop over the entries of the remote object: `l` is
-- the local object and `m` the merged one so far.
unfoldable mutual
  pub merge_json_value : Json → Json → Json
  merge_json_value (object local) (object remote) = object (merge_entries local local remote)
  merge_json_value local remote = remote

  pub merge_entries : Fields → Fields → Fields → Fields
  merge_entries local merged end = merged
  merge_entries local merged (field key remote_value rest) =
      merge_entries local
        (set key
          (elim (get key local) [
            | none ↦ remote_value
            | some local_value ↦ merge_json_value local_value remote_value
          ])
          merged)
        rest

-- `SyncConflictStrategy | SyncConflictResolver`. A resolver is the application's, and may throw.
pub data SyncConflictStrategy : Type 0 where
  lww last_write_wins server_wins client_wins merge_fields : SyncConflictStrategy
  custom :
      (SyncRecord → SyncRecord → Option SyncMutation → Result SyncRecord) → SyncConflictStrategy

abbrev pub last_write : SyncRecord → SyncRecord → SyncRecord
last_write local remote =
    let remote_timestamp = timestamp_of remote in
    let local_timestamp = timestamp_of local in
    if is_zero remote_timestamp && is_zero local_timestamp
    then remote
    else if number_leb local_timestamp remote_timestamp
    then remote
    else local

-- `resolveConflict`
unfoldable pub resolve_conflict :
    SyncRecord → SyncRecord → SyncConflictStrategy → Option SyncMutation → Result SyncRecord
resolve_conflict local remote (custom resolver) mutation = resolver local remote mutation
resolve_conflict local remote server_wins mutation = ok remote
resolve_conflict local remote client_wins mutation = ok local
resolve_conflict local remote merge_fields mutation = ok (merge_entries local local remote)
resolve_conflict local remote lww mutation = ok (last_write local remote)
resolve_conflict local remote last_write_wins mutation = ok (last_write local remote)

-- `protectedIds`
unfoldable pub protected_ids : List SyncMutation → List String
protected_ids [] = []
protected_ids (m ∷ ms) = elim (string_id m.payload) [
  | some id ↦ id ∷ protected_ids ms
  | none ↦ protected_ids ms
]

-- `new Map(tombstones.map(({ id, timestamp }) => [id, timestamp]))`, from a map so far
unfoldable pub tombstone_timestamps : Dict Number → List SyncTombstone → Dict Number
tombstone_timestamps d [] = d
tombstone_timestamps d (t ∷ ts) = tombstone_timestamps (insert t.id t.timestamp d) ts

-- `tombstoneTimestamp !== undefined && timestampOf(record) <= tombstoneTimestamp`
unfoldable pub is_buried : Dict Number → SyncRecord → Bool
is_buried tombs r = elim (lookup (record_id r) tombs) [
  | none ↦ false
  | some t ↦ number_leb (timestamp_of r) t
]

module _ (protected : List String) (tombs : Dict Number) where
  -- the loop over `local`
  unfoldable pub add_local : Dict SyncRecord → List SyncRecord → Dict SyncRecord
  add_local merged [] = merged
  add_local merged (r ∷ rs) =
      add_local
        (if not (contains protected (record_id r)) && is_buried tombs r
          then merged
          else insert (record_id r) r merged)
        rs

  -- one round of the loop over `remote`
  unfoldable pub add_remote_record :
      SyncConflictStrategy → Dict SyncRecord → SyncRecord → Result (Dict SyncRecord)
  add_remote_record strategy merged r =
      if contains protected (record_id r)
      then ok merged
      else if is_buried tombs r
      then ok merged
      else elim (lookup (record_id r) merged) [
        | none ↦ ok (insert (record_id r) r merged)
        | some current ↦ resolve_conflict current r strategy none >>= λ resolved.
            if string_id resolved == string_id r
            then ok (insert (record_id r) resolved merged)
            else err (changed_record_id r)
      ]

  unfoldable pub add_remote :
      SyncConflictStrategy → Dict SyncRecord → List SyncRecord → Result (Dict SyncRecord)
  add_remote strategy merged [] = ok merged
  add_remote strategy merged (r ∷ rs) =
      add_remote_record strategy merged r >>= λ next. add_remote strategy next rs

-- `mergePulledRecords`
unfoldable pub merge_pulled_records :
    List SyncRecord
    → List SyncRecord
    → List SyncMutation
    → SyncConflictStrategy
    → List SyncTombstone
    → Result (List SyncRecord)
merge_pulled_records local remote unacked strategy tombstones =
    let protected = protected_ids unacked in
    let tombs = tombstone_timestamps [] tombstones in
    add_remote protected tombs strategy (add_local protected tombs [] local) remote >>= λ merged.
    ok (values merged)

-- An object with a text under "id", as it stands; anything else is null.
unfoldable pub record_of : Json → Option SyncRecord
record_of (object o) = elim (string_id o) [ some id ↦ some o | none ↦ none ]
record_of _ = none

unfoldable pub tombstone_of : Json → Option SyncTombstone
tombstone_of (object o) = elim (string_id o) [
  | none ↦ none
  | some id ↦ elim (as_number (get "timestamp" o)) [
    | none ↦ none
    | some t ↦ some (record { id = id; timestamp = t })
  ]
]
tombstone_of _ = none

abbrev pub expect {ℓ} : {A : Type ℓ} → Option A → String → Result A
expect none member = err (thrown member)
expect (some a) member = ok a

abbrev pub as_fields : Option Json → Option Fields
as_fields (some (object o)) = some o
as_fields _ = none

-- The type cast of `raw` is not checked: where a member is not of its declared type, the fields of
-- the model's mutation cannot hold it, and the model reports it as a thrown error.
unfoldable pub operation_of : Option String → Result MutationOperation
operation_of none = err (thrown "operation")
operation_of (some s) =
    if s == "CREATE"
    then ok create
    else if s == "UPDATE"
    then ok update
    else if s == "DELETE"
    then ok delete
    else err (thrown "operation")

-- `raw.schemaVersion !== undefined && Number.isSafeInteger(…) && … > 0 ? raw.schemaVersion : 1`
unfoldable pub schema_version_or_one : Option Json → Number
schema_version_or_one (some (number n)) = if is_positive_safe_integer n then n else num 1
schema_version_or_one _ = num 1

-- `JSON.parse` is an argument: its result on each text, or its SyntaxError.
module _ (parse : String → Result Json) where
  -- `typeof x === 'string' ? JSON.parse(x) : x`
  unfoldable pub parse_text_member : Option Json → Result (Option Json)
  parse_text_member (some (string s)) = parse s >>= λ v. ok (some v)
  parse_text_member v = ok v

  -- `parseSerializedMutation`
  unfoldable pub parse_serialized_mutation : String → Result SyncMutation
  parse_serialized_mutation serialized = do
    raw ← parse serialized
    o ← expect (as_fields (some raw)) "mutation"
    payload ← parse_text_member (get "payload" o)
    depends_on ← parse_text_member (get "dependsOn" o)
    id ← expect (as_string (get "id" o)) "id"
    table_name ← expect (as_string (get "tableName" o)) "tableName"
    operation ← operation_of (as_string (get "operation" o))
    fields ← expect (as_fields payload) "payload"
    timestamp ← expect (as_number (get "timestamp" o)) "timestamp"
    ok (record {
      id = id;
      table_name = table_name;
      operation = operation;
      payload = fields;
      timestamp = timestamp;
      schema_version = some (schema_version_or_one (get "schemaVersion" o));
      depends_on = depends_on;
    })

  -- `parseSerializedRecord`; `none` is null
  unfoldable pub parse_serialized_record : String → Result (Option SyncRecord)
  parse_serialized_record serialized = parse serialized >>= λ parsed. ok (record_of parsed)

  -- `parseSerializedTombstone`
  unfoldable pub parse_serialized_tombstone : String → Result (Option SyncTombstone)
  parse_serialized_tombstone serialized = parse serialized >>= λ parsed. ok (tombstone_of parsed)
