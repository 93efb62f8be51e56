-- ===== src/Protocol/Response/Accepts.antt =====
-- What a response promises once `normalizeSyncResponse` has let it through.
use mathlib.Core.List
use react_native_nitro_sync.Prelude.{
  ◌≡◌, ◌≢◌, refl, subst, Bool, true, false, not, ◌||◌, Option, none, some, String, List, [], ◌∷◌,
  All, arith, all, ◌==◌, string_eq,
}
use react_native_nitro_sync.Value.Number.{Number, num, is_finite, is_positive_safe_integer}
use react_native_nitro_sync.Value.Json.{
  Json, null, number, string, array, object, Fields, get, items, entries, as_number,
}
use react_native_nitro_sync.Types.{
  SyncTombstone, Error, ok, throw_if, throw_if_iff, check_iff, ok-injective, string_id,
}
use react_native_nitro_sync.Protocol.Response.{
  SyncTransportResponse, absent_or, is_finite_number, is_positive_integer, is_array_of, is_id_entry,
  is_id_map, is_record, is_tombstone, is_true, is_present, is_null_or, guards, check_guards,
  list_of, list_or_empty, optional, number_of, text_of, to_record, to_tombstone, to_id_map,
  response_of, normalize_sync_response,
}

abbrev pub AllSome {ℓ κ} : {A : Type ℓ} → (A → Type κ) → Option A → Type κ
AllSome P none = Unit
AllSome P (some a) = P a

-- A response that the rest of the program may rely on.
pub record IsNormal (x : SyncTransportResponse) : Type 0 where
  pub version : x.protocol_version ≡ num 1
  pub minimum : AllSome (λ n. is_positive_safe_integer n ≡ true) x.minimum_schema_version
  pub reset : x.reset_required ≡ true → x.records ≢ none
  pub ids : AllSome (All (λ r. string_id r ≢ none)) x.records
  pub deletions : All (λ (t : SyncTombstone). is_finite t.timestamp ≡ true) x.tombstones
  pub time : is_finite x.server_timestamp ≡ true
  pub cursor_version : AllSome (AllSome (λ n. is_finite n ≡ true)) x.server_version
  pub id_entries :
      AllSome
        (All (λ (e : String × String). ((e.0 == "") ≡ false) × ((e.1 == "") ≡ false)))
        x.id_map

guards_hold : (gs : List (Bool × Error)) → check_guards gs ≡ ok tt → All (λ g. g.0 ≡ true) gs
unfolding check_guards
guards_hold [] h = tt
guards_hold ((holds, e) ∷ gs) h =
    let (first, later) = (check_iff (throw_if (not holds) e) (check_guards gs) tt).0 h in
    (ground (arith, (throw_if_iff (not holds) e).0 first), guards_hold gs later)

module _ {ℓ κ} {A : Type ℓ} (P : A → Type κ) (test : Json → Bool) (f : Json → A)
    (sound : (v : Json) → test v ≡ true → P (f v)) where
  all_items : (vs : List Json) → all test vs ≡ true → All P (List.map f vs)
  all_items [] h = tt
  all_items (v ∷ vs) h = (sound v (ground arith), all_items vs (ground arith))

  all_listed : (v : Json) → is_array_of test v ≡ true → All P (list_of f v)
  all_listed (array vs) h = all_items (items vs) h
  all_listed _ h = cc

  all_given : (o : Option Json) → absent_or (is_array_of test) o ≡ true → All P (list_or_empty f o)
  all_given none h = tt
  all_given (some v) h = all_listed v h

module _ {ℓ κ} {A : Type ℓ} (P : A → Type κ) (test : Json → Bool) (f : Json → A)
    (sound : (v : Json) → test v ≡ true → P (f v)) where
  some_given : (o : Option Json) → absent_or test o ≡ true → AllSome P (optional f o)
  some_given none h = tt
  some_given (some v) h = sound v h

minimum_sound :
    (v : Json) → is_positive_integer v ≡ true → is_positive_safe_integer (number_of (some v)) ≡ true
minimum_sound (number n) h = h
minimum_sound _ h = cc

record_sound : (v : Json) → is_record v ≡ true → string_id (to_record v) ≢ none
unfolding to_record
record_sound (object o) h = ground arith
record_sound _ h = cc

tombstone_sound : (v : Json) → is_tombstone v ≡ true → is_finite (to_tombstone v).timestamp ≡ true
unfolding to_tombstone to_record
tombstone_sound (object o) h = ground arith
tombstone_sound _ h = cc

entry_sound :
    (e : String × Json)
    → is_id_entry e ≡ true
    → ((e.0 == "") ≡ false) × ((text_of (some (e.1)) == "") ≡ false)
entry_sound (k, string to) h = ground arith
entry_sound (k, _) h = cc

entries_sound :
    (es : List (String × Json))
    → all is_id_entry es ≡ true
    → All
        (λ (e : String × String). ((e.0 == "") ≡ false) × ((e.1 == "") ≡ false))
        (List.map (λ e. (e.0, text_of (some (e.1)))) es)
entries_sound [] h = tt
entries_sound (e ∷ es) h = (entry_sound e (ground arith), entries_sound es (ground arith))

id_map_sound :
    (v : Json)
    → is_id_map v ≡ true
    → All (λ (e : String × String). ((e.0 == "") ≡ false) × ((e.1 == "") ≡ false)) (to_id_map v)
id_map_sound (object o) h = entries_sound (entries o) h
id_map_sound _ h = cc

server_version_sound :
    (v : Json)
    → is_null_or is_finite_number v ≡ true
    → AllSome (λ n. is_finite n ≡ true) (as_number (some v))
server_version_sound (number n) h = h
server_version_sound null h = tt
server_version_sound _ h = cc

reset_sound :
    (reset records : Option Json)
    → (not (is_true reset) || is_present records) ≡ true
    → is_true reset ≡ true
    → optional (list_of to_record) records ≢ none
reset_sound reset none h t = ground arith
reset_sound reset (some v) h t = λ e. cc

time_sound :
    (o : Option Json) (now : Number)
    → is_finite now ≡ true
    → absent_or is_finite_number o ≡ true
    → is_finite (elim o [ none ↦ now | some v ↦ number_of (some v) ]) ≡ true
time_sound none now finite_now h = finite_now
time_sound (some (number n)) now finite_now h = h
time_sound (some _) now finite_now h = cc

guarded-IsNormal :
    (o : Fields) (now : Number)
    → is_finite now ≡ true
    → All (λ g. g.0 ≡ true) (guards o)
    → IsNormal (response_of o now)
unfolding guards response_of
guarded-IsNormal o now finite_now g = record {
  version = refl;
  minimum =
      some_given (λ n. is_positive_safe_integer n ≡ true) is_positive_integer _ minimum_sound
        (get "minimumSchemaVersion" o) (g.1.1.0);
  reset = reset_sound (get "resetRequired" o) (get "records" o) (g.1.1.1.0);
  ids =
      some_given (All (λ r. string_id r ≢ none)) (is_array_of is_record) _
        (all_listed (λ r. string_id r ≢ none) is_record to_record record_sound) (get "records" o)
        (g.1.1.1.1.1.1.0);
  deletions =
      all_given _ is_tombstone to_tombstone tombstone_sound (get "tombstones" o)
        (g.1.1.1.1.1.1.1.0);
  time = time_sound (get "serverTimestamp" o) now finite_now (g.1.1.1.1.1.1.1.1.1.0);
  cursor_version =
      some_given (AllSome (λ n. is_finite n ≡ true)) (is_null_or is_finite_number) _
        server_version_sound (get "serverVersion" o) (g.1.1.1.1.1.1.1.1.1.1.1.0);
  id_entries = some_given _ is_id_map to_id_map id_map_sound (get "idMap" o) (g.0);
}

-- Every response that is let through is sound, when the clock is finite: it has protocol version 1; its
-- minimum schema version, if present, is a positive safe integer; a required reset comes with records;
-- its records have text ids; its tombstones, timestamp and version (if not null) are finite; its id map
-- takes non-empty ids to non-empty ids.
pub normalize-IsNormal :
    (v : Json) (now : Number) (x : SyncTransportResponse)
    → is_finite now ≡ true
    → normalize_sync_response v now ≡ ok x
    → IsNormal x
unfolding normalize_sync_response
normalize-IsNormal (object o) now x finite_now h =
    let (guarded, made) = (check_iff (check_guards (guards o)) _ x).0 h in
    subst IsNormal (ok-injective _ _ made)
      (guarded-IsNormal o now finite_now (guards_hold (guards o) guarded))
normalize-IsNormal _ now x finite_now h = cc
