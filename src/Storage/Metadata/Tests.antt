-- ===== src/Storage/Metadata/Tests.antt =====
-- The metadata of two tables, in an empty store.
use react_native_nitro_sync.Prelude.{◌≡◌, some, String, [], ◌==◌, string_eq, if◌then◌else◌}
use react_native_nitro_sync.Value.Number.{Number, num}
use react_native_nitro_sync.Storage.Metadata.{
  non_empty_value, read_server_cursor, write_server_cursor,
}
use react_native_nitro_sync.Storage.Metadata.Laws.{cursor_read_back}

-- Printing and reading of the one number in use.
abbrev print : Number → String
print n = "7"

abbrev parse : String → Number
parse s = num 7

abbrev plain : String → String
plain s = s

cursor_read_back_example :
    read_server_cursor parse print plain "todos"
      (write_server_cursor parse print plain "todos" (some "c1") (some []))
    ≡ (if ◌==◌ {A = String} "todos" "todos"
        then non_empty_value (some "c1")
        else read_server_cursor parse print plain "todos" (some []))
cursor_read_back_example =
    cursor_read_back parse print plain "todos" "todos" (some "c1") [] (λ u v same. same)
