-- ===== src/Provider/Pull/Tests.antt =====
-- The pull of a table with an edited record, which the server has changed as well.
use react_native_nitro_sync.Prelude.{
  ℕ, ◌≡◌, refl, false, none, some, String, List, [], ◌∷◌, string_eq, option_eq,
}
use react_native_nitro_sync.Prelude.Dict.{lookup, insert, values}
use react_native_nitro_sync.Value.Number.{
  num, number_leb, number_max, number_ltb, is_finite, is_zero,
}
use react_native_nitro_sync.Value.Json.{Json, string, number, end, field, get}
use react_native_nitro_sync.Types.{
  SyncMutation, SyncRecord, update, thrown, Result, ok, err, record_id,
}
use react_native_nitro_sync.Merge.{
  protected_ids, merge_pulled_records, tombstone_timestamps, resolve_conflict, add_remote,
  add_remote_record, is_buried, add_local, timestamp_of,
}
use react_native_nitro_sync.Protocol.Response.{SyncTransportResponse}
use react_native_nitro_sync.Storage.Database.{Database, execute, select, attempt}
use react_native_nitro_sync.Storage.LocalWrite.{idle}
use react_native_nitro_sync.Provider.Backend.{
  Callbacks, callbacks, persist_record, load_stored_tombstones,
}
use react_native_nitro_sync.Storage.{save_record, load_tombstones}
use react_native_nitro_sync.Storage.Tables.{order_by, insert_by, upsert_record, upsert}
use react_native_nitro_sync.Exec.{for_each}
use react_native_nitro_sync.Provider.Adapter.{adapter_callbacks, adapter}
use react_native_nitro_sync.Provider.Session.{Session, SyncConfig}
use react_native_nitro_sync.Provider.Pull.{
  deleted_ids, pull_answer, merge_answer, persist_answer, persist_pulled, persist_tombstone,
  stored_at, newest_tombstones, keep_newest, reset_tombstones, records_by_id, merge_base,
}
use react_native_nitro_sync.Provider.Adapter.Records.{row_in}

abbrev row : String → String → ℕ → SyncRecord
row id title at =
    field "id" (string id) (field "title" (string title) (field "updatedAt" (number (num at)) end))

abbrev shown : List SyncRecord
shown = row "a" "mine" 1 ∷ row "b" "old" 1 ∷ []

abbrev unacked : List SyncMutation
unacked =
    record {
      id = "m1";
      table_name = "todos";
      operation = update;
      payload = row "a" "mine" 1;
      timestamp = num 1;
      schema_version = none;
      depends_on = none;
    }
    ∷ []

-- Both records are newer on the server, and the edited one is removed there as well.
abbrev response : SyncTransportResponse
response = record {
  protocol_version = num 1;
  reset_required = false;
  minimum_schema_version = none;
  records = some (row "a" "theirs" 9 ∷ row "b" "new" 2 ∷ []);
  tombstones = record { id = "a"; timestamp = num 12 } ∷ [];
  acknowledged_mutation_ids = [];
  rejected_mutations = [];
  server_timestamp = num 12;
  server_cursor = none;
  server_version = none;
  id_map = none;
}

abbrev session : Session Database
session = record {
  records = ("todos", shown) ∷ [];
  server_cursors = [];
  server_versions = [];
  last_synced_at = none;
  unacked_ids = "m1" ∷ [];
  rejection_messages = [];
  store = idle (record {
    queue = [];
    records =
        record {
          table_name = "todos";
          record_id = "a";
          payload = row "a" "mine" 1;
          updated_at = num 1;
          deleted = false;
        }
        ∷ [];
  });
}

abbrev config : SyncConfig
config = record {
  schema_version = none;
  schema_migration = none;
  conflict_strategy = none;
  max_concurrent_tables = none;
  device_id = "d1";
}

abbrev parse : String → Result Json
parse text = err (thrown "JSON.parse")

abbrev cb : Callbacks Database
cb = adapter_callbacks parse (λ v. "") 9

-- The other record is stored as the server sent it.
pull_stores :
    let (r, s') = pull_answer cb (λ n. n) config "todos" unacked response session in
    (r ≡ ok tt)
    × (row_in "todos" "a" s'.store ≡ row_in "todos" "a" session.store)
    × (row_in "todos" "b" s'.store
        ≡ some (record {
          table_name = "todos";
          record_id = "b";
          payload = row "b" "new" 2;
          updated_at = num 12;
          deleted = false;
        }))
unfolding pull_answer merge_answer persist_answer persist_pulled persist_tombstone stored_at
    newest_tombstones keep_newest reset_tombstones deleted_ids records_by_id merge_base
    adapter_callbacks adapter callbacks persist_record load_stored_tombstones save_record
    load_tombstones execute select attempt order_by insert_by upsert_record upsert lookup insert
    values get string_eq merge_pulled_records protected_ids tombstone_timestamps resolve_conflict
    for_each number_leb number_max number_ltb is_finite add_remote add_remote_record record_id
    is_buried add_local option_eq is_zero timestamp_of
pull_stores = (refl, refl, refl)
