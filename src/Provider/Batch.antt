-- ===== src/Provider/Batch.antt =====
-- The batch of a sync: claimed mutations grouped by table, those that wait for another one of the batch,
-- and the tables to process.
pub mod Groups
pub mod Ready
mod Tests
use mathlib.Core.List
use react_native_nitro_sync.Prelude.{
  ◌≡◌, Bool, true, false, not, ◌&&◌, ◌||◌, Option, none, some, String, List, [], ◌∷◌, ◌++◌, filter,
  any, contains, ◌==◌, string_eq, if◌then◌else◌,
}
use react_native_nitro_sync.Prelude.Dict.{Dict, lookup, insert}
use react_native_nitro_sync.Value.Json.{Json, null, string, array, Items, nil, item}
use react_native_nitro_sync.Types.{SyncMutation, thrown, Result, ok, err, ◌>>=◌}
use react_native_nitro_sync.Settlement.{ids}

-- `new Set(texts)`: the texts, each once, in the order of their first occurrence; the set so far.
abbrev pub set_add : List String → String → List String
set_add set x = if contains set x then set else set ++ x ∷ []

unfoldable pub set_from : List String → List String → List String
set_from set [] = set
set_from set (x ∷ xs) = set_from (set_add set x) xs

abbrev pub keys {ℓ} : {V : Type ℓ} → Dict V → List String
keys [] = []
keys ((k, v) ∷ d) = k ∷ keys d

abbrev pub mutations_or_empty : Option (List SyncMutation) → List SyncMutation
mutations_or_empty none = []
mutations_or_empty (some ms) = ms

-- One round of the loop of `groupMutationsByTable`
unfoldable pub group_one : Dict (List SyncMutation) → SyncMutation → Dict (List SyncMutation)
group_one grouped m = elim (lookup m.table_name grouped) [
  | none ↦ insert m.table_name (m ∷ []) grouped
  | some existing ↦ insert m.table_name (existing ++ m ∷ []) grouped
]

unfoldable pub group_into : Dict (List SyncMutation) → List SyncMutation → Dict (List SyncMutation)
group_into grouped [] = grouped
group_into grouped (m ∷ ms) = group_into (group_one grouped m) ms

-- `groupMutationsByTable`
unfoldable pub group_mutations_by_table : List SyncMutation → Dict (List SyncMutation)
group_mutations_by_table mutations = group_into [] mutations

-- `claimedIds.has(dependency)`
abbrev pub is_claimed : List String → Json → Bool
is_claimed claimed (string id) = contains claimed id
is_claimed claimed _ = false

abbrev pub any_claimed : List String → Items → Bool
any_claimed claimed nil = false
any_claimed claimed (item v vs) = is_claimed claimed v || any_claimed claimed vs

-- `mutation.dependsOn?.some(…)`: on a value without the method `some` the call throws.
unfoldable pub waits_for : List String → Option Json → Result Bool
waits_for claimed none = ok false
waits_for claimed (some null) = ok false
waits_for claimed (some (array vs)) = ok (any_claimed claimed vs)
waits_for claimed (some v) = err (thrown "dependsOn.some")

-- The ids of `blockedIds`, before the set is made
unfoldable pub waiting : List String → List SyncMutation → Result (List String)
waiting claimed [] = ok []
waiting claimed (m ∷ ms) = do
  waits ← waits_for claimed m.depends_on
  rest ← waiting claimed ms
  ok (if waits then m.id ∷ rest else rest)

-- `blockedIds`
unfoldable pub blocked_ids : List SyncMutation → Result (List String)
blocked_ids claimed = waiting (set_from [] (ids claimed)) claimed >>= λ xs. ok (set_from [] xs)

-- `grouped.set(tableName, tableMutations.filter(…))` for every entry
unfoldable pub without_blocked : List String → Dict (List SyncMutation) → Dict (List SyncMutation)
without_blocked blocked [] = []
without_blocked blocked ((table, ms) ∷ grouped) =
    (table, filter (λ m. not (contains blocked m.id)) ms) ∷ without_blocked blocked grouped

-- `tables`
unfoldable pub tables_to_sync : Option String → List String → Dict (List SyncMutation) → List String
tables_to_sync none shown grouped = set_from [] (shown ++ keys grouped)
tables_to_sync (some table) shown grouped = table ∷ []
