-- ===== src/Protocol.antt =====
-- src/protocol.ts
pub mod Request
pub mod Response
mod Tests
use react_native_nitro_sync.Prelude.{
  ℕ, zero, suc, ◌+◌, Bool, true, false, not, ◌||◌, ◌&&◌, Option, none, some, String, List, [], ◌∷◌,
  contains, if◌then◌else◌, all,
}
use react_native_nitro_sync.Value.Number.{
  Number, num, number_leb, number_ltb, is_positive_safe_integer,
}
use react_native_nitro_sync.Value.Json.{Json, string, array, object, items}
use react_native_nitro_sync.Types.{
  Error, invalid_schema_version, unsupported_schema_version, Result, ok, err, throw_if, ◌>>◌,
}

-- `SYNC_PROTOCOL_VERSION`
abbrev pub sync_protocol_version : ℕ
sync_protocol_version = 1

-- `isObject`
abbrev pub is_object : Json → Bool
is_object (object o) = true
is_object _ = false

-- `typeof v === 'string'`
abbrev pub is_string : Json → Bool
is_string (string s) = true
is_string _ = false

-- `Array.isArray(v)` with every element a string
abbrev pub is_string_array : Json → Bool
is_string_array (array vs) = all is_string (items vs)
is_string_array _ = false

-- `minimumSchemaVersion !== undefined && schemaVersion < minimumSchemaVersion`
abbrev check_minimum : Number → Option Number → Result (Unit {0})
check_minimum schema_version none = ok tt
check_minimum schema_version (some minimum) =
    throw_if (number_ltb schema_version minimum) (unsupported_schema_version schema_version minimum)

-- `assertCompatibleSchemaVersion`
unfoldable pub assert_compatible_schema_version : Number → Option Number → Result (Unit {0})
assert_compatible_schema_version schema_version minimum = do
  throw_if (not (is_positive_safe_integer schema_version)) invalid_schema_version
  check_minimum schema_version minimum
