-- ===== src/Settlement/Tests.antt =====
-- A batch of three mutations and an answer that treats each differently.
use mathlib.Core.List.{Perm}
use react_native_nitro_sync.Prelude.{
  ◌≡◌, refl, false, some, none, String, List, [], ◌∷◌, ◌++◌, map, All, string_eq, filter, not, ◌&&◌,
}
use react_native_nitro_sync.Value.Number.{num}
use react_native_nitro_sync.Value.Json.{end}
use react_native_nitro_sync.Types.{SyncMutation, SyncMutationRejection, update, ok}
use react_native_nitro_sync.Settlement.{partition_sync_mutations, settle_sync_mutations, ids}
use react_native_nitro_sync.Settlement.Partition.{
  is_acknowledged, is_refused, partition_lem, partition-perm,
}
use react_native_nitro_sync.Settlement.Handling.{Log, noting, verdict, settle_once}

abbrev mutation : String → SyncMutation
mutation id = record {
  id = id;
  table_name = "todos";
  operation = update;
  payload = end;
  timestamp = num 1;
  schema_version = none;
  depends_on = none;
}

abbrev batch : List SyncMutation
batch = mutation "a" ∷ mutation "b" ∷ mutation "c" ∷ []

abbrev acks : List String
acks = "a" ∷ "z" ∷ []

abbrev rejections : List SyncMutationRejection
rejections =
    record { mutation_id = "b"; code = "forbidden"; message = none; retryable = some false } ∷ []

partition_run :
    (ids (partition_sync_mutations batch acks rejections).acknowledged ≡ "a" ∷ [])
    × (ids (partition_sync_mutations batch acks rejections).rejected ≡ "b" ∷ [])
unfolding partition_sync_mutations string_eq
partition_run = (refl, refl)

partition_lem_example : partition_sync_mutations batch acks rejections ≡ record {
  acknowledged = filter (is_acknowledged acks) batch;
  unacknowledged =
      filter (λ m. not (is_acknowledged acks m) && not (is_refused acks rejections m)) batch;
  rejected = filter (is_refused acks rejections) batch;
}
partition_lem_example = partition_lem batch acks rejections

partition-perm_example :
    let s = partition_sync_mutations batch acks rejections in
    Perm (s.acknowledged ++ s.unacknowledged ++ s.rejected) batch
partition-perm_example = partition-perm batch acks rejections

settle_once_example :
    (log : Log) × (settle_sync_mutations (partition_sync_mutations batch acks rejections) noting []
      ≡ (ok tt, log))
    × Perm (map (λ e. e.0) log) batch
    × All (λ e. e.1 ≡ verdict acks rejections e.0) log
settle_once_example = settle_once batch acks rejections
