-- ===== src/Protocol/Tests.antt =====
-- A request with a migration, and a response with every kind of member.
use react_native_nitro_sync.Prelude.{◌≡◌, ◌↔◌, refl, true, none, some, [], ◌∷◌, All, string_eq}
use react_native_nitro_sync.Value.Number.{
  num, finite, negsuc, is_finite, is_safe_integer, is_positive_safe_integer,
}
use react_native_nitro_sync.Value.Json.{
  Json, null, boolean, number, string, array, object, Fields, end, field, nil, item, get,
}
use react_native_nitro_sync.Types.{
  SyncMutation, SyncSchemaMigration, create, ok, err, invalid_dependencies, invalid_response,
}
use react_native_nitro_sync.Protocol.Request.{
  SyncTransportRequest, build_sync_request_payload, check_dependencies, check_migration,
  has_invalid_dependencies,
}
use react_native_nitro_sync.Protocol.Request.Laws.{
  DependsSoundly, IsSchemaVersion, IsMigration, build_iff,
}
use react_native_nitro_sync.Protocol.Response.{
  SyncTransportResponse, guards, check_guards, response_of, normalize_sync_response,
}
use react_native_nitro_sync.Protocol.Response.Accepts.{IsNormal, normalize-IsNormal}

abbrev mutation : Json → SyncMutation
mutation depends_on = record {
  id = "m1";
  table_name = "todos";
  operation = create;
  payload = field "id" (string "a") end;
  timestamp = num 5;
  schema_version = some (num 2);
  depends_on = some depends_on;
}

abbrev migration : SyncSchemaMigration
migration = record {
  from_version = num 1;
  tables = array (item (string "todos") nil);
  columns = object (field "todos" (array (item (string "title") nil)) end);
}

abbrev request : SyncTransportRequest
request = record {
  protocol_version = num 1;
  table_name = "todos";
  mutations = mutation (array (item (string "m0") nil)) ∷ [];
  device_id = some "phone";
  last_synced_at = none;
  server_cursor = some none;
  server_version = none;
  schema_version = some (num 2);
  migration = some (some migration);
}

-- A mutation may not depend on itself.
self_dependency :
    build_sync_request_payload "todos"
      (mutation (array (item (string "m1") nil)) ∷ [])
      none
      none
      none
      none
      none
      none
    ≡ err (invalid_dependencies "m1")
unfolding build_sync_request_payload check_dependencies check_migration has_invalid_dependencies
    string_eq
self_dependency = refl

build_iff_example :
    (build_sync_request_payload "todos" request.mutations none
        (some none)
        none
        (some "phone")
        (some (num 2))
        (some (some migration))
      ≡ ok request)
    ↔ (IsSchemaVersion (some (num 2))
        × IsMigration (some (some migration)) (some (num 2))
        × All DependsSoundly request.mutations
        × (request ≡ record {
          protocol_version = num 1;
          table_name = "todos";
          mutations = request.mutations;
          device_id = some "phone";
          last_synced_at = none;
          server_cursor = some none;
          server_version = none;
          schema_version = some (num 2);
          migration = some (some migration);
        }))
build_iff_example =
    build_iff "todos" request.mutations none (some none) none (some "phone") (some (num 2))
      (some (some migration)) request

abbrev body : Fields
body = field "resetRequired" (boolean true) (
    field "records" (array (item (object (field "id" (string "a") end)) nil)) (
      field "tombstones"
        (array (
          item
            (object
              (field "id" (string "b") (field "timestamp" (number (finite (negsuc 2) 5)) end)))
            nil))
        (field "serverVersion" null (
          field "idMap" (object (field "tmp" (string "a") end))
            (field "minimumSchemaVersion" (number (num 2)) end)))))

normalized : SyncTransportResponse
normalized = response_of body (num 7)

body_accepted : normalize_sync_response (object body) (num 7) ≡ ok normalized
unfolding normalize_sync_response guards check_guards normalized string_eq get is_finite
    is_safe_integer is_positive_safe_integer
body_accepted = refl

-- A reset without records is refused.
reset_without_records :
    normalize_sync_response (object (field "resetRequired" (boolean true) end)) (num 7)
    ≡ err (invalid_response "resetRequired requires records")
unfolding normalize_sync_response guards check_guards string_eq get
reset_without_records = refl

normalize-IsNormal_example : IsNormal normalized
unfolding is_finite
normalize-IsNormal_example = normalize-IsNormal (object body) (num 7) normalized refl body_accepted
