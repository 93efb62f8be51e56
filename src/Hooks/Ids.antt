-- ===== src/Hooks/Ids.antt =====
-- The ids that the writes of a collection return.
use react_native_nitro_sync.Prelude.{
  ◌≡◌, refl, inl, inr, false, Option, none, some, String, ◌==◌, string_eq, arith, Bool-cases,
}
use react_native_nitro_sync.Value.Number.{Number, is_positive_safe_integer}
use react_native_nitro_sync.Value.Json.{string, Fields, end, field, set, get-set}
use mathlib.Core.List.{List}
use react_native_nitro_sync.Types.{
  SyncRecord, MutationOperation, create, update, delete, string_id, Result, ok, err,
}
use react_native_nitro_sync.Merge.{record_id_from_payload}
use react_native_nitro_sync.Provider.{
  Provider, NativeApply, StorageApply, number_or_one, show_write, mutate,
}
use react_native_nitro_sync.Hooks.{
  Mutate, input, with_id, insert_id, insert, update_record, delete_record,
}

string_id-set : (id : String) (r : Fields) → string_id (set "id" (string id) r) ≡ some id
string_id-set id r = rw (get-set "id" "id" (string id) r) (ground arith)

-- A result that carries the id, or none.
abbrev Carries : {S : Type 0} → String → Result String × Provider S → Type 0
Carries id r = with_id id r ≡ r

show_write-Carries :
    {S : Type 0} (p : Provider S) (table : String) (next : List SyncRecord) (id : String)
    (r : Result (Unit {0}) × S)
    → Carries id (show_write p table next id r)
unfolding show_write
show_write-Carries p table next id (ok done, store) = refl
show_write-Carries p table next id (err e, store) = refl

payload_id :
    (payload : Fields) (id fresh : String)
    → string_id payload ≡ some id
    → (id == "") ≡ false
    → record_id_from_payload payload none fresh ≡ id
unfolding record_id_from_payload
payload_id payload id fresh h filled = rw (h, filled, record_id_from_payload) refl

module _ {S : Type 0} (native : Option (NativeApply S)) (storage : Option (StorageApply S))
    (configured : Option Number) (fresh_mutation fresh_record : String) (now : Number) where
  -- `mutate`, as a collection calls it.
  abbrev pub write : Mutate S
  write = mutate native storage configured fresh_mutation fresh_record now

  write-Carries :
      (table : String) (operation : MutationOperation) (payload : Fields) (id : String)
      (p : Provider S)
      → string_id payload ≡ some id
      → (id == "") ≡ false
      → Carries id (write (input table operation payload) p)
  unfolding mutate
  write-Carries table operation payload id p h filled =
      elim (Bool-cases (is_positive_safe_integer (number_or_one configured))) [
        | inl e ↦
            rw (e, payload_id payload id fresh_record h filled) (show_write-Carries p table _ id _)
        | inr e ↦ rw e refl
      ]

  -- An insertion, an update and a removal of a collection, under an id that is not empty, return and do
  -- exactly what the provider's `mutate` returns and does for the mutation with that id: the id that the
  -- collection hands out is the one under which the record is stored.
  pub collection_ids :
      (table : String) (r : Fields) (fresh id : String) (p : Provider S)
      → (insert_id write table r fresh == "") ≡ false
      → (id == "") ≡ false
      → (insert write table r fresh p
          ≡ write (input table create (set "id" (string (insert_id write table r fresh)) r)) p)
        × (update_record write table id r p ≡ write (input table update (set "id" (string id) r)) p)
        × (delete_record write table id p
            ≡ write (input table delete (field "id" (string id) end)) p)
  unfolding insert update_record delete_record set
  collection_ids table r fresh id p filled given =
      let new_id = insert_id write table r fresh in
      (
        write-Carries table create (set "id" (string new_id) r) new_id p (string_id-set new_id r)
            filled,
        write-Carries table update (set "id" (string id) r) id p (string_id-set id r) given,
        write-Carries table delete (field "id" (string id) end) id p (string_id-set id end) given,
      )
