-- ===== src/Hooks/Tests.antt =====
-- A collection over a native engine that accepts every mutation.
use react_native_nitro_sync.Prelude.{◌≡◌, refl, false, none, some, String, [], ◌∷◌, ◌==◌, string_eq}
use react_native_nitro_sync.Value.Number.{num}
use react_native_nitro_sync.Value.Json.{string, boolean, Fields, end, field, get, set}
use react_native_nitro_sync.Types.{create, update, delete, ok}
use react_native_nitro_sync.Provider.{Provider, NativeApply}
use react_native_nitro_sync.Hooks.{Mutate, input, insert_id, insert, update_record, delete_record}
use react_native_nitro_sync.Hooks.Ids.{write, collection_ids}

abbrev engine : NativeApply (Unit {0})
engine id table operation payload timestamp version record_id r deleted depends_on s = (ok tt, s)

abbrev mutate : Mutate (Unit {0})
mutate = write (some engine) none none "m1" "r9" (num 5)

abbrev provider : Provider (Unit {0})
provider = record {
  records = ("todos", field "id" (string "a") end ∷ []) ∷ [];
  version = 0;
  store = tt;
}

abbrev done : Fields
done = field "done" (boolean false) end

new_id : (insert_id mutate "todos" done "r7" == "") ≡ false
unfolding string_eq get
new_id = refl

abbrev todo : String
todo = "a"

old_id : (todo == "") ≡ false
unfolding string_eq
old_id = refl

collection_ids_example :
    (insert mutate "todos" done "r7" provider
      ≡ mutate
          (input "todos" create (set "id" (string (insert_id mutate "todos" done "r7")) done))
          provider)
    × (update_record mutate "todos" todo done provider
        ≡ mutate (input "todos" update (set "id" (string todo) done)) provider)
    × (delete_record mutate "todos" todo provider
        ≡ mutate (input "todos" delete (field "id" (string todo) end)) provider)
collection_ids_example =
    collection_ids (some engine) none none "m1" "r9" (num 5) "todos" done "r7" todo provider new_id
      old_id
