-- ===== src/Protocol/Response.antt =====
-- `normalizeSyncResponse`: the guards in their order, and the object that it returns.
pub mod Accepts
use react_native_nitro_sync.Prelude.{
  ◌≡◌, Bool, true, false, not, ◌||◌, ◌&&◌, Option, none, some, String, List, [], ◌∷◌, all, any, eqb,
  ◌==◌, string_eq, if◌then◌else◌,
}
use mathlib.Core.List
use react_native_nitro_sync.Value.Number.{
  Number, num, pos, finite, is_finite, is_positive_safe_integer,
}
use react_native_nitro_sync.Value.Json.{
  Json, null, boolean, number, string, array, object, Fields, end, get, items, entries, as_string,
  as_number,
}
use react_native_nitro_sync.Types.{
  SyncRecord, SyncTombstone, SyncMutationRejection, Error, invalid_response,
  unsupported_protocol_version, Result, ok, err, throw_if, ◌>>◌,
}
use react_native_nitro_sync.Protocol.{sync_protocol_version, is_object, is_string, is_string_array}

-- In the two members of type `Option (Option _)` the outer `none` is absent, the inner one null.
pub record SyncTransportResponse : Type 0 where
  pub protocol_version : Number
  pub reset_required : Bool
  pub minimum_schema_version : Option Number
  pub records : Option (List SyncRecord)
  pub tombstones : List SyncTombstone
  pub acknowledged_mutation_ids : List String
  pub rejected_mutations : List SyncMutationRejection
  pub server_timestamp : Number
  pub server_cursor : Option (Option String)
  pub server_version : Option (Option Number)
  pub id_map : Option (List (String × String))

-- A member may be absent; one that is present passes the test.
abbrev pub absent_or : (Json → Bool) → Option Json → Bool
absent_or test none = true
absent_or test (some v) = test v

-- A member that must be present and pass the test.
abbrev pub present_and : (Json → Bool) → Option Json → Bool
present_and test none = false
present_and test (some v) = test v

abbrev pub is_boolean : Json → Bool
is_boolean (boolean b) = true
is_boolean _ = false

abbrev pub is_null_or : (Json → Bool) → Json → Bool
is_null_or test null = true
is_null_or test v = test v

-- `typeof v === 'number' && Number.isFinite(v)`
abbrev pub is_finite_number : Json → Bool
is_finite_number (number n) = is_finite n
is_finite_number _ = false

abbrev pub is_positive_integer : Json → Bool
is_positive_integer (number n) = is_positive_safe_integer n
is_positive_integer _ = false

-- `v === SYNC_PROTOCOL_VERSION`
abbrev pub is_protocol_version : Json → Bool
is_protocol_version (number (finite (pos n) f)) = eqb n sync_protocol_version && eqb f 0
is_protocol_version _ = false

abbrev pub is_array_of : (Json → Bool) → Json → Bool
is_array_of test (array vs) = all test (items vs)
is_array_of test _ = false

-- An entry of `idMap`: non-empty text to non-empty text.
abbrev pub is_id_entry : String × Json → Bool
is_id_entry (from, string to) = not (from == "") && not (to == "")
is_id_entry (from, _) = false

abbrev pub is_id_map : Json → Bool
is_id_map (object o) = all is_id_entry (entries o)
is_id_map _ = false

abbrev pub is_record : Json → Bool
is_record (object o) = present_and is_string (get "id" o)
is_record _ = false

abbrev pub is_tombstone : Json → Bool
is_tombstone (object o) =
    present_and is_string (get "id" o) && present_and is_finite_number (get "timestamp" o)
is_tombstone _ = false

abbrev pub is_rejection : Json → Bool
is_rejection (object o) =
    present_and is_string (get "mutationId" o)
    && present_and is_string (get "code" o)
    && absent_or is_string (get "message" o)
    && absent_or is_boolean (get "retryable" o)
is_rejection _ = false

-- `response.resetRequired === true`
abbrev pub is_true : Option Json → Bool
is_true (some (boolean true)) = true
is_true _ = false

abbrev pub is_present : Option Json → Bool
is_present none = false
is_present (some v) = true

abbrev pub value_or_null : Option Json → Json
value_or_null none = null
value_or_null (some v) = v

-- The twelve guards behind the first, each with the error that it throws.
unfoldable pub guards : Fields → List (Bool × Error)
guards o =
    (absent_or is_id_map (get "idMap" o), invalid_response "idMap")
    ∷ (absent_or is_boolean (get "resetRequired" o), invalid_response "resetRequired")
    ∷ (
      absent_or is_positive_integer (get "minimumSchemaVersion" o),
      invalid_response "minimumSchemaVersion",
    )
    ∷ (
      not (is_true (get "resetRequired" o)) || is_present (get "records" o),
      invalid_response "resetRequired requires records",
    )
    ∷ (
      absent_or is_protocol_version (get "protocolVersion" o),
      unsupported_protocol_version (value_or_null (get "protocolVersion" o)),
    )
    ∷ (
      absent_or is_string_array (get "acknowledgedMutationIds" o),
      invalid_response "acknowledgedMutationIds",
    )
    ∷ (absent_or (is_array_of is_record) (get "records" o), invalid_response "records")
    ∷ (absent_or (is_array_of is_tombstone) (get "tombstones" o), invalid_response "tombstones")
    ∷ (
      absent_or (is_array_of is_rejection) (get "rejectedMutations" o),
      invalid_response "rejectedMutations",
    )
    ∷ (absent_or is_finite_number (get "serverTimestamp" o), invalid_response "serverTimestamp")
    ∷ (absent_or (is_null_or is_string) (get "serverCursor" o), invalid_response "serverCursor")
    ∷ (
      absent_or (is_null_or is_finite_number) (get "serverVersion" o),
      invalid_response "serverVersion",
    )
    ∷ []

-- The first guard that fails throws.
unfoldable pub check_guards : List (Bool × Error) → Result (Unit {0})
check_guards [] = ok tt
check_guards ((holds, e) ∷ gs) = throw_if (not holds) e >> check_guards gs

-- The casts of the returned object, on values that passed the guards.
abbrev pub text_of : Option Json → String
text_of (some (string s)) = s
text_of _ = ""

abbrev pub number_of : Option Json → Number
number_of (some (number n)) = n
number_of _ = num 0

abbrev pub as_boolean : Option Json → Option Bool
as_boolean (some (boolean b)) = some b
as_boolean _ = none

abbrev pub list_of {ℓ} : {A : Type ℓ} → (Json → A) → Json → List A
list_of f (array vs) = List.map f (items vs)
list_of f _ = []

abbrev pub optional {ℓ} : {A : Type ℓ} → (Json → A) → Option Json → Option A
optional f none = none
optional f (some v) = some (f v)

-- `value ?? []`
abbrev pub list_or_empty {ℓ} : {A : Type ℓ} → (Json → A) → Option Json → List A
list_or_empty f none = []
list_or_empty f (some v) = list_of f v

unfoldable pub to_record : Json → SyncRecord
to_record (object o) = o
to_record _ = end

unfoldable pub to_tombstone : Json → SyncTombstone
to_tombstone v = record {
  id = text_of (get "id" (to_record v));
  timestamp = number_of (get "timestamp" (to_record v));
}

unfoldable pub to_rejection : Json → SyncMutationRejection
to_rejection v = record {
  mutation_id = text_of (get "mutationId" (to_record v));
  code = text_of (get "code" (to_record v));
  message = as_string (get "message" (to_record v));
  retryable = as_boolean (get "retryable" (to_record v));
}

abbrev pub to_id_map : Json → List (String × String)
to_id_map (object o) = List.map (λ e. (e.0, text_of (some (e.1)))) (entries o)
to_id_map _ = []

-- The returned object. `now` is the result of `Date.now()`.
unfoldable pub response_of : Fields → Number → SyncTransportResponse
unfolding to_record to_tombstone to_rejection
response_of o now = record {
  protocol_version = num sync_protocol_version;
  reset_required = is_true (get "resetRequired" o);
  minimum_schema_version = optional (λ v. number_of (some v)) (get "minimumSchemaVersion" o);
  records = optional (list_of to_record) (get "records" o);
  tombstones = list_or_empty to_tombstone (get "tombstones" o);
  acknowledged_mutation_ids =
      list_or_empty (λ v. text_of (some v)) (get "acknowledgedMutationIds" o);
  rejected_mutations = list_or_empty to_rejection (get "rejectedMutations" o);
  server_timestamp = elim (get "serverTimestamp" o) [ none ↦ now | some v ↦ number_of (some v) ];
  server_cursor = optional (λ v. as_string (some v)) (get "serverCursor" o);
  server_version = optional (λ v. as_number (some v)) (get "serverVersion" o);
  id_map = optional to_id_map (get "idMap" o);
}

-- `normalizeSyncResponse`
unfoldable pub normalize_sync_response : Json → Number → Result SyncTransportResponse
normalize_sync_response (object o) now = check_guards (guards o) >> ok (response_of o now)
normalize_sync_response _ now = err (invalid_response "expected an object")
