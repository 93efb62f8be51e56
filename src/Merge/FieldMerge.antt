-- ===== src/Merge/FieldMerge.antt =====
-- `mergeJsonValue`: what a merged object holds under each key, and merging again.
use react_native_nitro_sync.Prelude.{
  ◌≡◌, refl, ap, Bool, true, false, Option, none, some, String, arith, string_eq, ◌∙◌, sym,
  Option-cases, inl, inr,
}
use react_native_nitro_sync.Value.Json.{
  Json, null, object, Fields, end, field, get, set, get-set, set_present, IsWellFormed,
  HasDistinctKeys,
}
use react_native_nitro_sync.Merge.{merge_json_value, merge_entries}

-- A local value met by a remote one.
abbrev pub meet : Option Json → Json → Json
meet none v = v
meet (some local) v = merge_json_value local v

-- What the loop leaves under a key.
abbrev pub joined : Option Json → Option Json → Option Json → Option Json
joined local merged none = merged
joined local merged (some v) = some (meet local v)

merge_entries-end : (l m : Fields) → merge_entries l m end ≡ m
unfolding merge_json_value
merge_entries-end l m = refl

-- One round of the loop.
merge_entries-field :
    (l m : Fields) (k : String) (v : Json) (r : Fields)
    → merge_entries l m (field k v r) ≡ merge_entries l (set k (meet (get k l) v) m) r
unfolding merge_json_value
merge_entries-field l m k v r = elim (Option-cases (get k l)) [ inl e ↦ rw e | inr (w, e) ↦ rw e ]

pub merge_object :
    (l r : Fields) → merge_json_value (object l) (object r) ≡ object (merge_entries l l r)
unfolding merge_json_value
merge_object l r = refl

get-merge_entries_lem :
    (j : String) (l m r : Fields)
    → HasDistinctKeys r
    → get j (merge_entries l m r) ≡ joined (get j l) (get j m) (get j r)
unfolding get IsWellFormed
get-merge_entries_lem j l m end h = rw (merge_entries-end l m)
get-merge_entries_lem j l m (field k v r) h = rw (merge_entries-field l m k v r) (
    ground (
      arith,
      get-merge_entries_lem j l (set k (meet (get k l) v) m) r h.2,
      get-set k j (meet (get k l) v) m,
    ))

-- An object merged with a remote object that repeats no key holds under each key: the local value if
-- the remote object lacks the key, the remote value if the local one lacks it, and otherwise the merge
-- of the two values.
pub get-merge_entries :
    (j : String) (l r : Fields)
    → HasDistinctKeys r
    → get j (merge_entries l l r) ≡ joined (get j l) (get j l) (get j r)
get-merge_entries j l r h = get-merge_entries_lem j l l r h

-- `v` leaves a value alone that it has been merged into.
abbrev Settles : Json → Type 0
Settles v = (a : Json) → merge_json_value (merge_json_value a v) v ≡ merge_json_value a v

abbrev AllSettle : Fields → Type 0
AllSettle end = Unit
AllSettle (field k v r) = Settles v × AllSettle r

-- The merged object `m` holds, under each key of `r`, a value that the entry of `r` leaves alone.
abbrev Absorbs : Fields → Fields → Type 0
Absorbs m end = Unit
Absorbs m (field k v r) =
    ((w : Json) × (get k m ≡ some w) × (merge_json_value w v ≡ w)) × Absorbs m r

merge_absorbed : (m r : Fields) → Absorbs m r → merge_entries m m r ≡ m
merge_absorbed m end h = merge_entries-end m m
merge_absorbed m (field k v r) h =
    let (w, found, same) = h.0 in
    let kept : set k (meet (get k m) v) m ≡ m = rw found (rw same (set_present k w m found)) in
    merge_entries-field m m k v r ∙ rw kept (merge_absorbed m r h.1)

-- The three ways in which an entry of `r` can stand in an object that `r` was merged into.
absorbs_lem :
    (m r : Fields)
    → ((k : String) (v : Json)
        → get k r ≡ some v
        → Settles v
        → (w : Json) × (get k m ≡ some w) × (merge_json_value w v ≡ w))
    → HasDistinctKeys r
    → AllSettle r
    → Absorbs m r
unfolding IsWellFormed get
absorbs_lem m end f h s = tt
absorbs_lem m (field k v r) f h s =
    (f k v (ground arith) s.0, absorbs_lem m r (λ j w e. f j w (ground arith)) h.2 s.1)

merge_null : (v : Json) → merge_json_value null v ≡ v
unfolding merge_json_value
merge_null (object r) = refl
merge_null _ = refl

abbrev pub is_object : Json → Bool
is_object (object r) = true
is_object _ = false

pub merge_leaf : (a v : Json) → is_object v ≡ false → merge_json_value a v ≡ v
unfolding merge_json_value
merge_leaf (object l) (object r) h = cc
merge_leaf _ _ h = refl

leaf-Settles : (v : Json) → is_object v ≡ false → Settles v
leaf-Settles v h a = merge_leaf _ v h ∙ sym (merge_leaf a v h)

settled_meet : (o : Option Json) (v : Json) → Settles v → merge_json_value (meet o v) v ≡ meet o v
settled_meet none v s = rw (merge_null v) at (s null)
settled_meet (some a) v s = s a

merged-Absorbs : (l r : Fields) → HasDistinctKeys r → AllSettle r → Absorbs (merge_entries l l r) r
merged-Absorbs l r h s =
    absorbs_lem (merge_entries l l r) r
      (λ k v e t. (
        meet (get k l) v,
        get-merge_entries k l r h ∙ ap (joined (get k l) (get k l)) e,
        settled_meet (get k l) v t,
      ))
      h s

self-Absorbs : (r : Fields) → HasDistinctKeys r → AllSettle r → Absorbs r r
self-Absorbs r h s = absorbs_lem r r (λ k v e t. (v, e, rw (merge_null v) at (t null))) h s

object-Settles : (r : Fields) → HasDistinctKeys r → AllSettle r → Settles (object r)
unfolding merge_json_value
object-Settles r h s (object l) =
    ap object (merge_absorbed (merge_entries l l r) r (merged-Absorbs l r h s))
object-Settles r h s _ = ap object (merge_absorbed r r (self-Absorbs r h s))

mutual
  unfolding IsWellFormed

  json-Settles : (v : Json) → IsWellFormed v → Settles v
  json-Settles (object r) h = object-Settles r h (fields-AllSettle r h)
  json-Settles v h = leaf-Settles v refl

  fields-AllSettle : (r : Fields) → HasDistinctKeys r → AllSettle r
  fields-AllSettle end h = tt
  fields-AllSettle (field k v r) h = (json-Settles v h.1, fields-AllSettle r h.2)

-- Merging the same remote value a second time changes nothing, at any depth, provided that the remote
-- value repeats no key.
pub merge_twice :
    (local remote : Json)
    → IsWellFormed remote
    → merge_json_value (merge_json_value local remote) remote ≡ merge_json_value local remote
merge_twice local remote h = json-Settles remote h local
