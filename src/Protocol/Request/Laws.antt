-- ===== src/Protocol/Request/Laws.antt =====
-- Which requests are built.
use react_native_nitro_sync.Prelude.{
  suc, ◌≡◌, ◌≤◌, ◌↔◌, refl, ap, sym, ◌∙◌, true, false, Option, none, some, String, List, [], ◌∷◌,
  All, arith, contains, all, length, ◌==◌, string_eq, inl, inr, map, ◌⊎◌,
}
use react_native_nitro_sync.Value.Number.{Number, num, number_leb, is_positive_safe_integer}
use react_native_nitro_sync.Value.Json.{Json, string, array, Items, nil, item, items, from_items}
use react_native_nitro_sync.Types.{
  throw_if_iff, check_iff, SyncMutation, SyncSchemaMigration, ok, ok-injective,
}
use react_native_nitro_sync.Protocol.{is_string_array}
use react_native_nitro_sync.Protocol.Request.{
  SyncTransportRequest, is_columns, validate_schema_migration, texts, set_size, is_non_empty_string,
  has_invalid_dependencies, check_dependencies, check_schema_version, check_migration,
  build_sync_request_payload,
}

abbrev pub HasNoDuplicate : List String → Type 0
HasNoDuplicate [] = Unit
HasNoDuplicate (x ∷ xs) = (contains xs x ≡ false) × HasNoDuplicate xs

set_size-le : (xs : List String) → set_size xs ≤ length xs
unfolding set_size
set_size-le [] = omega arith
set_size-le (x ∷ xs) = ground (arith, set_size-le xs)

set_size_full : (xs : List String) → (set_size xs ≡ length xs) ↔ HasNoDuplicate xs
unfolding set_size
set_size_full [] = (λ e. tt, λ h. refl)
set_size_full (x ∷ xs) = ground (arith, set_size-le xs, set_size_full xs)

-- A JSON array of the given texts.
abbrev pub text_items : List String → Items
text_items ds = from_items (map string ds)

-- Dependencies of a mutation: absent, or an array of texts, none empty, none twice, none its own id.
abbrev pub DependsSoundly : SyncMutation → Type 0
DependsSoundly m =
    (m.depends_on ≡ none)
    ⊎ ((ds : List String) × (m.depends_on ≡ some (array (text_items ds)))
        × All (λ d. (d == "") ≡ false) ds
        × HasNoDuplicate ds
        × (contains ds m.id ≡ false))

texts_of_strings :
    (vs : Items)
    → all is_non_empty_string (items vs) ≡ true
    → (vs ≡ text_items (texts (items vs))) × All (λ d. (d == "") ≡ false) (texts (items vs))
texts_of_strings nil h = (refl, tt)
texts_of_strings (item (string s) vs) h =
    let (here, later) = texts_of_strings vs (ground arith) in
    (ap (item (string s)) here, (ground arith, later))
texts_of_strings (item _ vs) h = cc

strings_of_texts :
    (ds : List String)
    → All (λ d. (d == "") ≡ false) ds
    → (all is_non_empty_string (items (text_items ds)) ≡ true)
      × (texts (items (text_items ds)) ≡ ds)
strings_of_texts [] h = (refl, refl)
strings_of_texts (d ∷ ds) h = ground (arith, strings_of_texts ds h.1)

length-text_items : (ds : List String) → length (items (text_items ds)) ≡ length ds
length-text_items [] = refl
length-text_items (d ∷ ds) = ap suc (length-text_items ds)

sound_of_valid :
    (m : SyncMutation) (o : Option Json)
    → m.depends_on ≡ o
    → has_invalid_dependencies m ≡ false
    → DependsSoundly m
unfolding has_invalid_dependencies
sound_of_valid m none e h = inl e
sound_of_valid m (some (array vs)) e h =
    let all_text : all is_non_empty_string (items vs) ≡ true = ground arith in
    let (same, filled) = texts_of_strings vs all_text in
    inr (
      texts (items vs),
      e ∙ ap (λ w. some (array w)) same,
      filled,
      (set_size_full (texts (items vs))).0
          (ground (arith, length-text_items (texts (items vs)), ap (λ w. length (items w)) same)),
      ground arith,
    )
sound_of_valid m (some v) e h = ground arith

valid_of_sound : (m : SyncMutation) → DependsSoundly m → has_invalid_dependencies m ≡ false
unfolding has_invalid_dependencies
valid_of_sound m (inl e) = ground arith
valid_of_sound m (inr (ds, e, filled, once, other)) =
    ground (arith, strings_of_texts ds filled, (set_size_full ds).1 once, length-text_items ds)

check_dependencies_iff :
    (ms : List SyncMutation) → (check_dependencies ms ≡ ok tt) ↔ All DependsSoundly ms
unfolding check_dependencies
check_dependencies_iff [] = (λ h. tt, λ h. refl)
check_dependencies_iff (m ∷ ms) = (
  λ h.
      let (first, later) = (check_iff _ _ tt).0 h in
      (
        sound_of_valid m m.depends_on refl ((throw_if_iff _ _).0 first),
        (check_dependencies_iff ms).0 later,
      ),
  λ h.
      (check_iff _ _ tt).1
        ((throw_if_iff _ _).1 (valid_of_sound m h.0), (check_dependencies_iff ms).1 h.1),
)

-- A schema version that may be sent: absent, or a positive safe integer.
abbrev pub IsSchemaVersion : Option Number → Type 0
IsSchemaVersion none = Unit
IsSchemaVersion (some n) = is_positive_safe_integer n ≡ true

-- A migration that may be sent with a schema version: absent or null; or well typed, from a positive
-- safe integer below a schema version that is present.
abbrev pub IsMigration : Option (Option SyncSchemaMigration) → Option Number → Type 0
IsMigration none schema = Unit
IsMigration (some none) schema = Unit
IsMigration (some (some m)) none = ⊥
IsMigration (some (some m)) (some n) =
    (is_positive_safe_integer m.from_version ≡ true)
    × (is_string_array m.tables ≡ true)
    × (is_columns m.columns ≡ true)
    × (number_leb n m.from_version ≡ false)

check_schema_version_iff :
    (schema : Option Number) → (check_schema_version schema ≡ ok tt) ↔ IsSchemaVersion schema
check_schema_version_iff none = (λ h. tt, λ h. refl)
check_schema_version_iff (some n) = ground arith

check_migration_iff :
    (migration : Option (Option SyncSchemaMigration)) (schema : Option Number)
    → (check_migration migration schema ≡ ok tt) ↔ IsMigration migration schema
unfolding check_migration validate_schema_migration
check_migration_iff none schema = (λ h. tt, λ h. refl)
check_migration_iff (some none) schema = (λ h. tt, λ h. refl)
check_migration_iff (some (some m)) none = (λ h. cc, λ h. absurd h)
check_migration_iff (some (some m)) (some n) = ground arith

-- A request is built exactly if the schema version is absent or a positive safe integer, the migration
-- is absent, null, or well typed and older than a schema version that is present, and every mutation's
-- dependencies are absent or an array of distinct non-empty texts without its own id. The request then
-- carries protocol version 1 and every argument unchanged.
pub build_iff :
    (name : String) (mutations : List SyncMutation) (synced : Option Number)
    (cursor : Option (Option String)) (version : Option (Option Number)) (device : Option String)
    (schema : Option Number) (migration : Option (Option SyncSchemaMigration))
    (request : SyncTransportRequest)
    → (build_sync_request_payload name mutations synced cursor version device schema migration
        ≡ ok request)
      ↔ (IsSchemaVersion schema
          × IsMigration migration schema
          × All DependsSoundly mutations
          × (request ≡ record {
            protocol_version = num 1;
            table_name = name;
            mutations = mutations;
            device_id = device;
            last_synced_at = synced;
            server_cursor = cursor;
            server_version = version;
            schema_version = schema;
            migration = migration;
          }))
unfolding build_sync_request_payload
build_iff name mutations synced cursor version device schema migration request = (
  λ h.
      let (s, h₁) = (check_iff _ _ request).0 h in
      let (m, h₂) = (check_iff _ _ request).0 h₁ in
      let (d, h₃) = (check_iff _ _ request).0 h₂ in
      (
        (check_schema_version_iff schema).0 s,
        (check_migration_iff migration schema).0 m,
        (check_dependencies_iff mutations).0 d,
        sym (ok-injective _ _ h₃),
      ),
  λ h. (check_iff _ _ request).1 (
    (check_schema_version_iff schema).1 h.0,
    (check_iff _ _ request).1 (
      (check_migration_iff migration schema).1 h.1,
      (check_iff _ _ request).1 ((check_dependencies_iff mutations).1 h.2, ap ok (sym h.3)),
    ),
  ),
)
