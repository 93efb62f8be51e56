-- ===== src/Merge/Conflict.antt =====
-- `resolveConflict` with the built-in strategies.
use react_native_nitro_sync.Prelude.{
  ◌≡◌, ◌⊎◌, refl, ap, subst, Bool, true, false, Option, none, some, String, arith, ◌∙◌,
}
use react_native_nitro_sync.Value.Number.{
  number_leb, is_finite, number_leb_total, number_leb_refl, number_leb_zero,
}
use react_native_nitro_sync.Value.Json.{
  Json, string, object, Fields, get, as_string, HasDistinctKeys, IsWellFormed,
}
use react_native_nitro_sync.Types.{SyncRecord, string_id, ok, ok-injective}
use react_native_nitro_sync.Merge.{
  timestamp_of, merge_entries, last_write, SyncConflictStrategy, lww, last_write_wins, server_wins,
  client_wins, merge_fields, custom, resolve_conflict,
}
use react_native_nitro_sync.Merge.FieldMerge.{
  get-merge_entries, merge_leaf, merge_object, merge_twice, joined, meet,
}

abbrev pub is_builtin : SyncConflictStrategy → Bool
is_builtin (custom resolver) = false
is_builtin _ = true

eq_of_as_string : (o : Option Json) (id : String) → as_string o ≡ some id → o ≡ some (string id)
eq_of_as_string o id h = ground arith

meet_text : (o : Option Json) (id : String) → meet o (string id) ≡ string id
meet_text none id = refl
meet_text (some v) id = merge_leaf v (string id) refl

string_id-merge_entries :
    (l r : Fields) (id : String)
    → HasDistinctKeys r
    → string_id r ≡ some id
    → string_id (merge_entries l l r) ≡ some id
string_id-merge_entries l r id d h = ap as_string (
    get-merge_entries "id" l r d
    ∙ ap (joined (get "id" l) (get "id" l)) (eq_of_as_string (get "id" r) id h)
    ∙ ap some (meet_text (get "id" l) id))

-- Two records with one id are resolved to a record with that id, without an error, by every built-in
-- strategy; the remote record may repeat no key.
pub resolve-ok :
    (l r : SyncRecord) (s : SyncConflictStrategy) (id : String)
    → is_builtin s ≡ true
    → HasDistinctKeys r
    → string_id l ≡ some id
    → string_id r ≡ some id
    → (x : SyncRecord) × (resolve_conflict l r s none ≡ ok x) × (string_id x ≡ some id)
unfolding resolve_conflict
resolve-ok l r lww id b d hl hr = (_, refl, ground arith)
resolve-ok l r last_write_wins id b d hl hr = (_, refl, ground arith)
resolve-ok l r server_wins id b d hl hr = (r, refl, hr)
resolve-ok l r client_wins id b d hl hr = (l, refl, hl)
resolve-ok l r merge_fields id b d hl hr =
    (merge_entries l l r, refl, string_id-merge_entries l r id d hr)
resolve-ok l r (custom f) id b d hl hr = cc

fields_twice :
    (l r : Fields)
    → HasDistinctKeys r
    → merge_entries (merge_entries l l r) (merge_entries l l r) r ≡ merge_entries l l r
unfolding IsWellFormed
fields_twice l r d = ground (
  arith,
  merge_twice (object l) (object r) d,
  merge_object l r,
  merge_object (merge_entries l l r) r,
)

-- Resolving the winner against the same remote record again gives the winner, by every built-in
-- strategy; the remote record may repeat no key.
pub resolve_twice :
    (l r x : SyncRecord) (s : SyncConflictStrategy)
    → is_builtin s ≡ true
    → HasDistinctKeys r
    → resolve_conflict l r s none ≡ ok x
    → resolve_conflict x r s none ≡ ok x
unfolding resolve_conflict
resolve_twice l r x lww b d h = ground arith
resolve_twice l r x last_write_wins b d h = ground arith
resolve_twice l r x server_wins b d h = h
resolve_twice l r x client_wins b d h = refl
resolve_twice l r x merge_fields b d h =
    subst (λ y. ok (merge_entries y y r) ≡ ok y) (ok-injective _ _ h) (ap ok (fields_twice l r d))
resolve_twice l r x (custom f) b d h = cc

-- Under last-write-wins the winner is one of the two records and is at least as new as both, for finite
-- timestamps; on a tie the remote record wins.
pub last_write_newest :
    (l r x : SyncRecord)
    → is_finite (timestamp_of l) ≡ true
    → is_finite (timestamp_of r) ≡ true
    → resolve_conflict l r lww none ≡ ok x
    → ((x ≡ l) ⊎ (x ≡ r))
      × (number_leb (timestamp_of l) (timestamp_of x) ≡ true)
      × (number_leb (timestamp_of r) (timestamp_of x) ≡ true)
      × (timestamp_of l ≡ timestamp_of r → x ≡ r)
unfolding resolve_conflict
last_write_newest l r x fl fr h = ground (
  arith,
  number_leb_refl (timestamp_of l) fl,
  number_leb_refl (timestamp_of r) fr,
  ok-injective (last_write l r) x h,
  number_leb_total (timestamp_of l) (timestamp_of r) fl fr,
  number_leb_zero (timestamp_of l) (timestamp_of r),
  number_leb_zero (timestamp_of r) (timestamp_of l),
)
