-- ===== src/Provider/View.antt =====
-- What a local write makes of the records that are shown.
use react_native_nitro_sync.Prelude.{
  ◌≡◌, refl, ap, sym, ◌∙◌, inl, inr, false, not, Option, none, some, String, List, [], ◌∷◌, ◌++◌,
  arith, filter, find, ◌==◌, string_eq, if◌then◌else◌, Bool-cases,
}
use react_native_nitro_sync.Prelude.Dict.{lookup, insert, lookup-insert}
use react_native_nitro_sync.Value.Number.{Number, is_positive_safe_integer}
use react_native_nitro_sync.Value.Json.{
  Json, string, Fields, end, field, get, set, spread, get-set, HasDistinctKeys,
}
use react_native_nitro_sync.Types.{
  MutationOperation, create, update, delete, SyncRecord, record_id, invalid_schema_version, Result,
  ok, err, ok-injective,
}
use react_native_nitro_sync.Provider.{
  MutationInput, Provider, NativeApply, StorageApply, table_or_empty, is_delete, number_or_one,
  has_record_id, persisted_record, next_table, show_write, mutate,
}
use react_native_nitro_sync.Provider.Local.{local_id, local_table, local_record, shown_table}

record_id-set : (id : String) (o : Fields) → record_id (set "id" (string id) o) ≡ id
unfolding record_id string_eq
record_id-set id o = rw (get-set "id" "id" (string id) o)

-- The record under an id, as `find` has it.
abbrev pub record_at : String → List SyncRecord → Option SyncRecord
record_at id rs = find (has_record_id id) rs

record_at-filter :
    (id j : String) (rs : List SyncRecord)
    → record_at j (filter (λ r. not (has_record_id id r)) rs)
      ≡ (if id == j then none else record_at j rs)
record_at-filter id j [] = ground arith
record_at-filter id j (r ∷ rs) = ground (arith, record_at-filter id j rs)

record_at-append :
    (j : String) (r : SyncRecord) (rs : List SyncRecord)
    → record_at j rs ≡ none
    → record_at j (rs ++ r ∷ []) ≡ (if record_id r == j then some r else none)
record_at-append j r [] h = ground arith
record_at-append j r (q ∷ rs) h = ground (arith, record_at-append j r rs)

record_at-append_other :
    (j : String) (r : SyncRecord) (rs : List SyncRecord)
    → (record_id r == j) ≡ false
    → record_at j (rs ++ r ∷ []) ≡ record_at j rs
record_at-append_other j r [] h = ground arith
record_at-append_other j r (q ∷ rs) h = ground (arith, record_at-append_other j r rs)

put_last :
    (id j : String) (r : SyncRecord) (rs : List SyncRecord)
    → record_id r ≡ id
    → record_at j (filter (λ q. not (has_record_id id q)) rs ++ r ∷ [])
      ≡ (if id == j then some r else record_at j rs)
put_last id j r rs e = elim (Bool-cases (id == j)) [
  | inl same ↦ rw same (
      record_at-append j r (filter (λ q. not (has_record_id id q)) rs)
        (record_at-filter id j rs ∙ ap (λ b. if b then none else record_at j rs) same)
      ∙ ap (λ b. if b then some r else none) (ap (λ i. i == j) e ∙ same))
  | inr other ↦ rw other (
      record_at-append_other j r (filter (λ q. not (has_record_id id q)) rs)
        (ap (λ i. i == j) e ∙ other)
      ∙ record_at-filter id j rs
      ∙ ap (λ b. if b then none else record_at j rs) other)
]

record_at-next_table :
    (op : MutationOperation) (rs : List SyncRecord) (r : SyncRecord) (id j : String)
    → record_id r ≡ id
    → record_at j (next_table op rs r id)
      ≡ (if id == j then (if is_delete op then none else some r) else record_at j rs)
unfolding next_table
record_at-next_table delete rs r id j e = record_at-filter id j rs
record_at-next_table create rs r id j e = put_last id j r rs e
record_at-next_table update rs r id j e = put_last id j r rs e

record_id-persisted_record :
    (op : MutationOperation) (previous : Option SyncRecord) (payload : Fields) (id : String)
    → record_id (persisted_record op previous (set "id" (string id) payload) id) ≡ id
unfolding persisted_record
record_id-persisted_record create previous payload id = record_id-set id payload
record_id-persisted_record update previous payload id = record_id-set id _
record_id-persisted_record delete previous payload id = record_id-set id payload

show_write-ok :
    {S : Type 0} (p p' : Provider S) (table id given : String) (next : List SyncRecord)
    (written : Result (Unit {0}) × S)
    → show_write p table next id written ≡ (ok given, p')
    → (given ≡ id) × (p'.records ≡ insert table next p.records)
unfolding show_write
show_write-ok p p' table id given next (ok a, s) h =
    (ok-injective given id (ap (λ q. q.0) (sym h)), ap (λ q. q.1.records) (sym h))
show_write-ok p p' table id given next (err e, s) h = cc

-- A write that returned passed the guard and was shown.
mutate-ok :
    {S : Type 0} (native : Option (NativeApply S)) (storage : Option (StorageApply S))
    (configured : Option Number) (fresh_mutation fresh_record : String) (now : Number)
    (input : MutationInput) (p p' : Provider S) (id : String)
    → mutate native storage configured fresh_mutation fresh_record now input p ≡ (ok id, p')
    → (id ≡ local_id input fresh_record)
      × (p'.records ≡ insert input.table_name (shown_table input fresh_record p) p.records)
unfolding mutate
mutate-ok native storage configured fresh_mutation fresh_record now input p p' id h =
    elim (Bool-cases (is_positive_safe_integer (number_or_one configured))) [
      | inl valid ↦
          show_write-ok p p' input.table_name (local_id input fresh_record) id
            (shown_table input fresh_record p) _ (rw valid at h)
      | inr invalid ↦
          let refused : (err invalid_schema_version, p) ≡ (ok id, p') = rw invalid at h in
          absurd (cc refused)
    ]

-- A local write is seen at once and alone: when the call returns an id, that id shows nothing after a
-- removal and the written record, which has the id, otherwise; every other id of the table and every
-- other table shows what it did.
pub mutate_shows :
    {S : Type 0} (native : Option (NativeApply S)) (storage : Option (StorageApply S))
    (configured : Option Number) (fresh_mutation fresh_record : String) (now : Number)
    (input : MutationInput) (p p' : Provider S) (id : String)
    → mutate native storage configured fresh_mutation fresh_record now input p ≡ (ok id, p')
    → (record_id (local_record input fresh_record p) ≡ id)
      × ((j : String)
          → record_at j (table_or_empty (lookup input.table_name p'.records)) ≡ (
              if id == j
              then (if is_delete input.operation
                  then none
                  else some (local_record input fresh_record p))
              else record_at j (table_or_empty (lookup input.table_name p.records))))
      × ((table : String)
          → lookup table p'.records ≡ (
              if input.table_name == table
              then some (shown_table input fresh_record p)
              else lookup table p.records))
mutate_shows native storage configured fresh_mutation fresh_record now input p p' id h =
    let done =
      mutate-ok native storage configured fresh_mutation fresh_record now input p p' id h in
    let named =
      record_id-persisted_record input.operation
        (find (has_record_id (local_id input fresh_record)) (local_table input fresh_record p))
        input.payload (local_id input fresh_record) in
    let here : (table : String) (b : Option (List SyncRecord))
        → (if table == table then some (shown_table input fresh_record p) else b)
          ≡ some (shown_table input fresh_record p) =
      λ table b. ground arith in
    let shown : (table : String)
        → lookup table p'.records ≡ (
            if input.table_name == table
            then some (shown_table input fresh_record p)
            else lookup table p.records) =
      λ table. ap (lookup table) done.1 ∙ lookup-insert input.table_name table _ p.records in
    (
      named ∙ sym done.0,
      λ j. rw done.0 (
          ap (λ o. record_at j (table_or_empty o))
            (shown input.table_name ∙ here input.table_name (lookup input.table_name p.records))
          ∙ record_at-next_table input.operation (local_table input fresh_record p)
              (local_record input fresh_record p) (local_id input fresh_record) j named),
      shown,
    )

abbrev pub or_previous : Option Json → Option Json → Option Json
or_previous none o = o
or_previous (some v) o = some v

get-spread :
    (k : String) (a b : Fields)
    → HasDistinctKeys b
    → get k (spread a b) ≡ or_previous (get k b) (get k a)
unfolding get spread HasDistinctKeys
get-spread k a end d = refl
get-spread k a (field j v b) d =
    ground (arith, get-spread k (set j v a) b d.2, get-set j k v a, d.0)

or_previous-none : (o : Option Json) → or_previous o none ≡ o
or_previous-none none = refl
or_previous-none (some v) = refl

-- An update merges: of its record every member but the id is that of the new payload, or that of the
-- record before where the payload has none; both repeat no key.
pub update_merges :
    (previous payload : Fields) (id k : String)
    → HasDistinctKeys previous
    → HasDistinctKeys payload
    → get k (persisted_record update (some previous) payload id)
      ≡ (if "id" == k then some (string id) else or_previous (get k payload) (get k previous))
unfolding persisted_record get
update_merges previous payload id k d d' =
    get-set "id" k (string id) (spread (spread end previous) payload)
    ∙ rw
        (
          get-spread k (spread end previous) payload d',
          get-spread k end previous d,
          or_previous-none (get k previous),
        )
        refl
