-- ===== src/Settlement.antt =====
-- src/mutationSettlement.ts
pub mod Partition
pub mod Handling
pub mod Each
mod Tests
use react_native_nitro_sync.Prelude.{
  Bool, true, false, not, ◌&&◌, Option, none, some, String, List, [], ◌∷◌, map, filter, contains,
}
use react_native_nitro_sync.Types.{
  SyncMutation, SyncMutationRejection, MutationStatus, syncing, ack, fail, reject,
}
use react_native_nitro_sync.Exec.{Exec, ◌>>◌, ◌>>=◌, return}
use react_native_nitro_sync.StateMachine.{transition_mutation_state}

pub record SyncMutationSettlement : Type 0 where
  pub acknowledged : List SyncMutation
  pub unacknowledged : List SyncMutation
  pub rejected : List SyncMutation

-- `rejection.retryable === false`
abbrev pub is_permanent : Option Bool → Bool
is_permanent (some false) = true
is_permanent _ = false

abbrev pub ids : List SyncMutation → List String
ids = map (λ m. m.id)

-- `partitionSyncMutations`: the three sets, then the three filters of the batch.
unfoldable pub acknowledged_ids : List SyncMutation → List String → List String
acknowledged_ids mutations acks = filter (contains (ids mutations)) acks

unfoldable pub rejected_ids :
    List SyncMutation → List String → List SyncMutationRejection → List String
unfolding acknowledged_ids
rejected_ids mutations acks rejections =
    map (λ r. r.mutation_id)
      (filter
        (λ r.
          is_permanent r.retryable
          && contains (ids mutations) r.mutation_id
          && not (contains (acknowledged_ids mutations acks) r.mutation_id))
        rejections)

unfoldable pub partition_sync_mutations :
    List SyncMutation → List String → List SyncMutationRejection → SyncMutationSettlement
unfolding acknowledged_ids rejected_ids
partition_sync_mutations mutations acks rejections =
    let acked = acknowledged_ids mutations acks in
    let refused = rejected_ids mutations acks rejections in
    record {
      acknowledged = filter (λ m. contains acked m.id) mutations;
      unacknowledged =
          filter (λ m. not (contains acked m.id) && not (contains refused m.id)) mutations;
      rejected = filter (λ m. contains refused m.id) mutations;
    }

-- A handler changes the state that its closure holds, or throws.
abbrev pub Handler : Type 0 → Type 0
Handler S = SyncMutation → MutationStatus → Exec S (Unit {0})

pub record SyncMutationSettlementHandlers (S : Type 0) : Type 0 where
  pub acknowledge : Handler S
  pub retry : Handler S
  pub reject : Handler S

module _ {S : Type 0} where
  -- `for (const mutation of mutations) handler(mutation, status)`
  unfoldable pub handle_each : Handler S → MutationStatus → List SyncMutation → Exec S (Unit {0})
  handle_each handler status [] = return tt
  handle_each handler status (m ∷ ms) = handler m status >> handle_each handler status ms

  -- `settleSyncMutations`
  unfoldable pub settle_sync_mutations :
      SyncMutationSettlement → SyncMutationSettlementHandlers S → Exec S (Unit {0})
  settle_sync_mutations settlement handlers =
      handle_each handlers.acknowledge (transition_mutation_state syncing ack)
        settlement.acknowledged
      >> (handle_each handlers.retry (transition_mutation_state syncing fail)
            settlement.unacknowledged
          >> handle_each handlers.reject (transition_mutation_state syncing reject)
              settlement.rejected)

  -- `failSyncMutations`
  unfoldable pub fail_sync_mutations : List SyncMutation → Handler S → Exec S (Unit {0})
  fail_sync_mutations mutations retry =
      handle_each retry (transition_mutation_state syncing fail) mutations
