-- ===== src/Merge/Tests.antt =====
-- A pull of three records over three local ones, with an open edit and two tombstones.
use react_native_nitro_sync.Prelude.{
  ℕ, ◌≡◌, ◌⊎◌, refl, true, false, none, some, String, List, [], ◌∷◌, string_eq, option_eq,
}
use react_native_nitro_sync.Prelude.Dict.{lookup, insert, values}
use react_native_nitro_sync.Value.Number.{num, number_leb, is_zero, is_finite}
use react_native_nitro_sync.Value.Json.{
  string, number, end, field, get, IsWellFormed, HasDistinctKeys,
}
use react_native_nitro_sync.Types.{
  SyncRecord, SyncTombstone, SyncMutation, update, string_id, record_id, ok,
}
use react_native_nitro_sync.Merge.{
  timestamp_of, merge_entries, lww, merge_fields, resolve_conflict, protected_ids,
  tombstone_timestamps, is_buried, add_local, add_remote_record, add_remote, merge_pulled_records,
}
use react_native_nitro_sync.Merge.FieldMerge.{joined, get-merge_entries}
use react_native_nitro_sync.Merge.Conflict.{resolve-ok, last_write_newest}
use react_native_nitro_sync.Merge.Loops.{find_record, HasDistinctIds, kept, pulled}
use react_native_nitro_sync.Merge.Pull.{buried_at, merged-HasDistinctIds, merge_pulled_lem}
use react_native_nitro_sync.Merge.Guarantees.{protected_unchanged, no_resurrection, pull_twice}
use react_native_nitro_sync.Merge.Total.{merge_pulled_total}

abbrev row : String → String → ℕ → SyncRecord
row id title at =
    field "id" (string id) (field "title" (string title) (field "updatedAt" (number (num at)) end))

abbrev local : List SyncRecord
local = row "a" "mine" 1 ∷ row "b" "old" 1 ∷ row "c" "gone" 3 ∷ []

abbrev remote : List SyncRecord
remote = row "a" "theirs" 9 ∷ row "b" "new" 2 ∷ row "d" "late" 4 ∷ []

abbrev unacked : List SyncMutation
unacked =
    record {
      id = "m1";
      table_name = "todos";
      operation = update;
      payload = row "a" "mine" 1;
      timestamp = num 1;
      schema_version = none;
      depends_on = none;
    }
    ∷ []

abbrev tombstones : List SyncTombstone
tombstones = record { id = "c"; timestamp = num 5 } ∷ record { id = "d"; timestamp = num 3 } ∷ []

abbrev merged : List SyncRecord
merged = row "a" "mine" 1 ∷ row "b" "new" 2 ∷ row "d" "late" 4 ∷ []

merge_run : merge_pulled_records local remote unacked lww tombstones ≡ ok merged
unfolding merge_pulled_records protected_ids tombstone_timestamps add_local add_remote
    add_remote_record is_buried resolve_conflict timestamp_of is_zero number_leb record_id get
    lookup insert values string_eq option_eq
merge_run = refl

merge_again : merge_pulled_records merged remote unacked lww tombstones ≡ ok merged
unfolding merge_pulled_records protected_ids tombstone_timestamps add_local add_remote
    add_remote_record is_buried resolve_conflict timestamp_of is_zero number_leb record_id get
    lookup insert values string_eq option_eq
merge_again = refl

local_distinct : HasDistinctIds local
unfolding record_id get string_eq
local_distinct = (refl, (refl, (refl, tt)))

remote_distinct : HasDistinctIds remote
unfolding record_id get string_eq
remote_distinct = (refl, (refl, (refl, tt)))

row_keys : HasDistinctKeys (row "b" "new" 2)
unfolding IsWellFormed get string_eq
row_keys = (refl, tt, (refl, tt, (refl, tt, tt)))

get-merge_entries_example :
    get "title" (merge_entries (row "b" "old" 1) (row "b" "old" 1) (row "b" "new" 2))
    ≡ joined
        (get "title" (row "b" "old" 1))
        (get "title" (row "b" "old" 1))
        (get "title" (row "b" "new" 2))
get-merge_entries_example = get-merge_entries "title" (row "b" "old" 1) (row "b" "new" 2) row_keys

resolve-ok_example :
    (x : SyncRecord) × (resolve_conflict (row "b" "old" 1) (row "b" "new" 2) merge_fields none
      ≡ ok x)
    × (string_id x ≡ some "b")
unfolding get string_eq
resolve-ok_example =
    resolve-ok (row "b" "old" 1) (row "b" "new" 2) merge_fields "b" refl row_keys refl refl

last_write_newest_example :
    ((row "b" "new" 2 ≡ row "b" "old" 1) ⊎ (row "b" "new" 2 ≡ row "b" "new" 2))
    × (number_leb (timestamp_of (row "b" "old" 1)) (timestamp_of (row "b" "new" 2)) ≡ true)
    × (number_leb (timestamp_of (row "b" "new" 2)) (timestamp_of (row "b" "new" 2)) ≡ true)
    × (timestamp_of (row "b" "old" 1) ≡ timestamp_of (row "b" "new" 2)
        → row "b" "new" 2 ≡ row "b" "new" 2)
unfolding resolve_conflict timestamp_of is_zero is_finite number_leb get string_eq
last_write_newest_example =
    last_write_newest (row "b" "old" 1) (row "b" "new" 2) (row "b" "new" 2) refl refl refl

merged-HasDistinctIds_example : HasDistinctIds merged
merged-HasDistinctIds_example =
    merged-HasDistinctIds local remote merged unacked lww tombstones merge_run

merge_pulled_lem_example :
    pulled
      (protected_ids unacked)
      (buried_at tombstones)
      lww
      (kept (protected_ids unacked) (buried_at tombstones) (find_record "b" local))
      (find_record "b" remote)
    ≡ ok (find_record "b" merged)
merge_pulled_lem_example =
    merge_pulled_lem local remote merged unacked lww tombstones merge_run local_distinct
      remote_distinct "b"

protected_unchanged_example : find_record "a" merged ≡ find_record "a" local
unfolding protected_ids get string_eq
protected_unchanged_example =
    protected_unchanged local remote merged unacked lww tombstones local_distinct remote_distinct
      merge_run "a" refl

no_resurrection_example : number_leb (timestamp_of (row "d" "late" 4)) (num 3) ≡ false
unfolding protected_ids tombstone_timestamps lookup insert record_id get string_eq
no_resurrection_example =
    no_resurrection local remote merged unacked lww tombstones local_distinct remote_distinct
      merge_run "d" (row "d" "late" 4) (num 3) refl refl refl refl

pull_twice_example : find_record "b" merged ≡ find_record "b" merged
pull_twice_example =
    pull_twice local remote merged unacked lww tombstones local_distinct remote_distinct merge_run
      merged refl merge_again "b"

merge_pulled_total_example :
    (out : List SyncRecord) × (merge_pulled_records local remote unacked merge_fields tombstones
      ≡ ok out)
unfolding record_id get string_eq IsWellFormed
merge_pulled_total_example =
    merge_pulled_total local remote unacked merge_fields tombstones refl (refl, (refl, (refl, tt)))
      (
        (refl, (refl, tt, (refl, tt, (refl, tt, tt)))),
        (
          (refl, (refl, tt, (refl, tt, (refl, tt, tt)))),
          ((refl, (refl, tt, (refl, tt, (refl, tt, tt)))), tt),
        ),
      )
