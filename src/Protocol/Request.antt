-- ===== src/Protocol/Request.antt =====
-- `buildSyncRequestPayload` and the checks that it makes.
pub mod Laws
use react_native_nitro_sync.Prelude.{
  ℕ, suc, ◌+◌, ◌≡◌, Bool, true, false, not, ◌||◌, ◌&&◌, Option, none, some, String, List, [], ◌∷◌,
  contains, if◌then◌else◌, all, any, eqb, length, ◌==◌, string_eq,
}
use react_native_nitro_sync.Value.Number.{Number, num, number_leb, is_positive_safe_integer}
use react_native_nitro_sync.Value.Json.{Json, string, array, object, items, entries}
use react_native_nitro_sync.Types.{
  SyncMutation, SyncSchemaMigration, Error, invalid_schema_version, schema_version_required,
  invalid_migration, migration_not_older, invalid_dependencies, Result, ok, err, throw_if, ◌>>◌,
}
use react_native_nitro_sync.Protocol.{sync_protocol_version, is_string, is_string_array}

-- An outer `none` is an absent member, an inner one null.
pub record SyncTransportRequest : Type 0 where
  pub protocol_version : Number
  pub table_name : String
  pub mutations : List SyncMutation
  pub device_id : Option String
  pub last_synced_at : Option Number
  pub server_cursor : Option (Option String)
  pub server_version : Option (Option Number)
  pub schema_version : Option Number
  pub migration : Option (Option SyncSchemaMigration)

-- `!isObject(columns) || Object.entries(columns).some(…)`, negated
abbrev pub is_columns : Json → Bool
is_columns (object o) = all (λ e. is_string_array e.1) (entries o)
is_columns _ = false

-- `validateSchemaMigration`
unfoldable pub validate_schema_migration : SyncSchemaMigration → Result (Unit {0})
validate_schema_migration m =
    throw_if
      (not (is_positive_safe_integer m.from_version)
        || not (is_string_array m.tables)
        || not (is_columns m.columns))
      invalid_migration

-- The texts of an array of texts.
abbrev pub texts : List Json → List String
texts [] = []
texts (string s ∷ vs) = s ∷ texts vs
texts (_ ∷ vs) = texts vs

-- `new Set(xs).size`
unfoldable pub set_size : List String → ℕ
set_size [] = 0
set_size (x ∷ xs) = (if contains xs x then 0 else 1) + set_size xs

abbrev pub is_non_empty_string : Json → Bool
is_non_empty_string (string s) = not (s == "")
is_non_empty_string _ = false

-- The condition under which the loop over the mutations throws.
unfoldable pub has_invalid_dependencies : SyncMutation → Bool
unfolding set_size
has_invalid_dependencies m = elim m.depends_on [
  | none ↦ false
  | some v ↦ elim v [
    | array vs ↦
        not (all is_non_empty_string (items vs))
        || not (eqb (set_size (texts (items vs))) (length (items vs)))
        || contains (texts (items vs)) m.id
    | _ ↦ true
  ]
]

unfoldable pub check_dependencies : List SyncMutation → Result (Unit {0})
check_dependencies [] = ok tt
check_dependencies (m ∷ ms) =
    throw_if (has_invalid_dependencies m) (invalid_dependencies m.id) >> check_dependencies ms

-- `schemaVersion !== undefined && (…)`
abbrev pub check_schema_version : Option Number → Result (Unit {0})
check_schema_version none = ok tt
check_schema_version (some n) = throw_if (not (is_positive_safe_integer n)) invalid_schema_version

-- `if (migration !== undefined && migration !== null) { … }`
unfoldable pub check_migration :
    Option (Option SyncSchemaMigration) → Option Number → Result (Unit {0})
check_migration none schema_version = ok tt
check_migration (some none) schema_version = ok tt
check_migration (some (some m)) none = err schema_version_required
check_migration (some (some m)) (some n) = do
  validate_schema_migration m
  throw_if (number_leb n m.from_version) migration_not_older

-- `buildSyncRequestPayload`
unfoldable pub build_sync_request_payload :
    String
    → List SyncMutation
    → Option Number
    → Option (Option String)
    → Option (Option Number)
    → Option String
    → Option Number
    → Option (Option SyncSchemaMigration)
    → Result SyncTransportRequest
build_sync_request_payload name mutations synced cursor version device schema migration = do
  check_schema_version schema
  check_migration migration schema
  check_dependencies mutations
  ok (record {
    protocol_version = num sync_protocol_version;
    table_name = name;
    mutations = mutations;
    device_id = device;
    last_synced_at = synced;
    server_cursor = cursor;
    server_version = version;
    schema_version = schema;
    migration = migration;
  })
