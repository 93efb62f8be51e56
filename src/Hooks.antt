-- ===== src/Hooks.antt =====
-- src/hooks/useSyncCollection.ts: the writes of a collection, by the provider's `mutate`.
pub mod Ids
mod Tests
use react_native_nitro_sync.Prelude.{
  ◌≡◌, refl, ap, ◌⊎◌, inl, inr, Bool, true, false, Option, none, some, String, List, ◌==◌,
  string_eq, if◌then◌else◌, arith, Option-cases,
}
use react_native_nitro_sync.Value.Number.{Number}
use react_native_nitro_sync.Value.Json.{Json, string, Fields, end, field, set, get}
use react_native_nitro_sync.Types.{
  MutationOperation, create, update, delete, string_id, Result, ok, err,
}
use react_native_nitro_sync.Provider.{MutationInput, Provider}

-- `context.mutate`
abbrev pub Mutate : Type 0 → Type 0
Mutate S = MutationInput → Provider S → Result String × Provider S

abbrev pub input : String → MutationOperation → Fields → MutationInput
input table operation payload = record {
  table_name = table;
  operation = operation;
  payload = payload;
  id = none;
  depends_on = none;
}

-- What the caller gets: its own id, or the error of `mutate`.
abbrev pub with_id : {S : Type 0} → String → Result String × Provider S → Result String × Provider S
with_id id (ok written, p) = (ok id, p)
with_id id (err e, p) = (err e, p)

module _ {S : Type 0} (mutate : Mutate S) (table : String) where
  -- `record.id ?? createSyncId()`; an id that is given is a text.
  abbrev pub insert_id : Fields → String → String
  insert_id r fresh = elim (string_id r) [ none ↦ fresh | some id ↦ id ]

  -- `insert`; the random id is an argument.
  unfoldable pub insert : Fields → String → Provider S → Result String × Provider S
  insert r fresh p =
      let id = insert_id r fresh in
      with_id id (mutate (input table create (set "id" (string id) r)) p)

  -- `update`
  unfoldable pub update_record : String → Fields → Provider S → Result String × Provider S
  update_record id patch p = with_id id (mutate (input table update (set "id" (string id) patch)) p)

  -- `delete`
  unfoldable pub delete_record : String → Provider S → Result String × Provider S
  delete_record id p = with_id id (mutate (input table delete (field "id" (string id) end)) p)
