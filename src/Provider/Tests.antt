-- ===== src/Provider/Tests.antt =====
-- An update of one of two records, on a connection that works and on one that fails.
use react_native_nitro_sync.Prelude.{
  ◌≡◌, refl, Bool, true, none, some, String, List, [], ◌∷◌, ◌==◌, string_eq, if◌then◌else◌,
}
use react_native_nitro_sync.Prelude.Dict.{lookup}
use react_native_nitro_sync.Value.Number.{
  num, number_leb, is_safe_integer, is_positive_safe_integer,
}
use react_native_nitro_sync.Value.Json.{string, boolean, Fields, end, field, get, set}
use react_native_nitro_sync.Types.{SyncRecord, update, ok, record_id}
use react_native_nitro_sync.Merge.{record_id_from_payload}
use react_native_nitro_sync.Storage.{apply_mutation, write_record}
use react_native_nitro_sync.Storage.Tables.{insert_mutation, upsert, upsert_record}
use react_native_nitro_sync.Storage.Database.{
  Database, attempt, execute, begin, commit, transaction,
}
use react_native_nitro_sync.Provider.{
  MutationInput, Provider, table_or_empty, next_mutation, apply_write, show_write, mutate,
}
use react_native_nitro_sync.Provider.Local.{local_record, shown_table}
use react_native_nitro_sync.Provider.View.{record_at, mutate_shows}

abbrev before : SyncRecord
before = field "id" (string "a") (field "title" (string "milk") end)

abbrev change : Fields
change = field "id" (string "a") (field "done" (boolean true) end)

abbrev input : MutationInput
input = record {
  table_name = "todos";
  operation = update;
  payload = change;
  id = none;
  depends_on = none;
}

abbrev provider : List Bool → Provider Database
provider faults = record {
  records = ("todos", before ∷ []) ∷ [];
  version = 0;
  store = record { tables = record { queue = []; records = [] }; saved = none; faults = faults };
}

abbrev done : Provider Database
done = (mutate none (some apply_mutation) none "m1" "r9" (num 5) input (provider [])).1

updated :
    mutate none (some apply_mutation) none "m1" "r9" (num 5) input (provider []) ≡ (ok "a", done)
unfolding mutate apply_write show_write apply_mutation transaction begin commit execute attempt
    insert_mutation write_record upsert_record upsert is_positive_safe_integer is_safe_integer
    number_leb string_eq record_id_from_payload get set next_mutation
updated = refl

mutate_shows_example :
    (record_id (local_record input "r9" (provider [])) ≡ "a")
    × ((j : String)
        → record_at j (table_or_empty (lookup "todos" done.records)) ≡ (
            if "a" == j
            then some (local_record input "r9" (provider []))
            else record_at j (table_or_empty (lookup "todos" (provider []).records))))
    × ((table : String)
        → lookup table done.records ≡ (
            if "todos" == table
            then some (shown_table input "r9" (provider []))
            else lookup table (provider []).records))
mutate_shows_example =
    mutate_shows none (some apply_mutation) none "m1" "r9" (num 5) input (provider []) done "a"
      updated
