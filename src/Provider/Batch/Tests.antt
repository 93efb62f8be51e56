-- ===== src/Provider/Batch/Tests.antt =====
-- A batch of three mutations of two tables, one of which waits for another.
use react_native_nitro_sync.Prelude.{◌≡◌, refl, none, some, String, List, [], ◌∷◌, All, string_eq}
use react_native_nitro_sync.Prelude.Dict.{lookup}
use react_native_nitro_sync.Value.Number.{num}
use react_native_nitro_sync.Value.Json.{Json, string, array, item, nil, field, end}
use react_native_nitro_sync.Types.{SyncMutation, update, ok}
use react_native_nitro_sync.Provider.Batch.{
  mutations_or_empty, set_from, waits_for, waiting, blocked_ids, group_mutations_by_table,
  without_blocked,
}
use react_native_nitro_sync.Provider.Batch.Groups.{of_table, unblocked, group_lem}
use react_native_nitro_sync.Provider.Batch.Ready.{IsReady, unblocked-IsReady}

abbrev mutation : String → String → Json → SyncMutation
mutation id table waits = record {
  id = id;
  table_name = table;
  operation = update;
  payload = field "id" (string "a") end;
  timestamp = num 3;
  schema_version = none;
  depends_on = some waits;
}

abbrev batch : List SyncMutation
batch =
    mutation "m1" "todos" (array nil)
    ∷ mutation "m2" "todos" (array (item (string "gone") (item (string "m3") nil)))
    ∷ mutation "m3" "lists" (array (item (string "gone") nil))
    ∷ []

blocked : blocked_ids batch ≡ ok ("m2" ∷ [])
unfolding blocked_ids waiting waits_for set_from string_eq
blocked = refl

group_lem_example :
    mutations_or_empty
      (lookup "todos" (without_blocked ("m2" ∷ []) (group_mutations_by_table batch)))
    ≡ unblocked ("m2" ∷ []) (of_table "todos" batch)
group_lem_example = group_lem "todos" ("m2" ∷ []) batch

unblocked-IsReady_example : All (IsReady batch) (unblocked ("m2" ∷ []) batch)
unblocked-IsReady_example = unblocked-IsReady batch ("m2" ∷ []) blocked
