-- ===== src/Storage/Metadata.antt =====
-- The metadata of the adapter: texts under keys, in a store of the application's.
pub mod Laws
mod Tests
use react_native_nitro_sync.Prelude.{
  ◌≡◌, Bool, true, false, Option, none, some, String, List, [], ◌∷◌, ◌==◌, string_eq, if◌then◌else◌,
}
use Prim.Native.String.{◌++◌ as ◌<>◌}
use react_native_nitro_sync.Prelude.Dict.{Dict, lookup, insert}
use react_native_nitro_sync.Value.Number.{Number, is_finite}

-- `SyncMetadataStore`, which may be absent. `getString` reads what `set` wrote last.
abbrev pub MetadataStore : Type 0
MetadataStore = Option (Dict String)

abbrev pub get_string : String → MetadataStore → Option String
get_string key none = none
get_string key (some d) = lookup key d

abbrev pub set_string : String → String → MetadataStore → MetadataStore
set_string key value none = none
set_string key value (some d) = some (insert key value d)

-- `value === undefined || value.length === 0 ? null : value`
abbrev pub non_empty_value : Option String → Option String
non_empty_value none = none
non_empty_value (some s) = if s == "" then none else some s

abbrev pub text_or_nothing : Option String → String
text_or_nothing none = ""
text_or_nothing (some s) = s

abbrev pub last_synced_at_key : String
last_synced_at_key = "nitro_sync.last_synced_at"

abbrev pub device_id_key : String
device_id_key = "nitro_sync.device_id"

-- JavaScript's `Number(text)`, `String(number)` and `encodeURIComponent(text)`.
module _ (to_number : String → Number) (to_text : Number → String) (encode : String → String) where
  abbrev pub cursor_key : String → String
  cursor_key table = "nitro_sync.server_cursor." <> encode table

  abbrev pub version_key : String → String
  version_key table = "nitro_sync.server_version." <> encode table

  -- `const n = Number(value); return Number.isFinite(n) ? n : null`
  unfoldable pub finite_number : Option String → Option Number
  finite_number none = none
  finite_number (some s) = if is_finite (to_number s) then some (to_number s) else none

  unfoldable pub read_last_synced_at : MetadataStore → Option Number
  unfolding finite_number
  read_last_synced_at store = finite_number (non_empty_value (get_string last_synced_at_key store))

  unfoldable pub write_last_synced_at : Number → MetadataStore → MetadataStore
  write_last_synced_at timestamp store = set_string last_synced_at_key (to_text timestamp) store

  unfoldable pub read_device_id : MetadataStore → Option String
  read_device_id store = get_string device_id_key store

  unfoldable pub write_device_id : String → MetadataStore → MetadataStore
  write_device_id device_id store = set_string device_id_key device_id store

  unfoldable pub read_server_cursor : String → MetadataStore → Option String
  read_server_cursor table store = non_empty_value (get_string (cursor_key table) store)

  unfoldable pub write_server_cursor : String → Option String → MetadataStore → MetadataStore
  write_server_cursor table cursor store =
      set_string (cursor_key table) (text_or_nothing cursor) store

  unfoldable pub read_server_version : String → MetadataStore → Option Number
  unfolding finite_number
  read_server_version table store =
      finite_number (non_empty_value (get_string (version_key table) store))

  abbrev version_text : Option Number → String
  version_text none = ""
  version_text (some n) = to_text n

  unfoldable pub write_server_version : String → Option Number → MetadataStore → MetadataStore
  write_server_version table version store =
      set_string (version_key table) (version_text version) store
