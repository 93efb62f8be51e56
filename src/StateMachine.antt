-- ===== src/StateMachine.antt =====
-- src/stateMachine.ts
pub mod Outcome
mod Tests
use react_native_nitro_sync.Prelude.{Bool, true, false}
use react_native_nitro_sync.Types.{
  MutationStatus, pending, syncing, failed, rejected, acked, MutationEvent, enqueued, claimed, ack,
  reject, retry, fail, recovered,
}

-- `transitionMutationState`. ACKED on REJECTED has no case and leaves by the last `return`.
unfoldable pub transition_mutation_state : MutationStatus → MutationEvent → MutationStatus
transition_mutation_state pending claimed = syncing
transition_mutation_state pending fail = failed
transition_mutation_state pending reject = rejected
transition_mutation_state pending recovered = pending
transition_mutation_state pending ack = acked
transition_mutation_state pending enqueued = pending
transition_mutation_state pending retry = pending
transition_mutation_state syncing ack = acked
transition_mutation_state syncing fail = failed
transition_mutation_state syncing reject = rejected
transition_mutation_state syncing retry = pending
transition_mutation_state syncing recovered = pending
transition_mutation_state syncing claimed = syncing
transition_mutation_state syncing enqueued = syncing
transition_mutation_state failed retry = pending
transition_mutation_state failed recovered = pending
transition_mutation_state failed claimed = syncing
transition_mutation_state failed ack = acked
transition_mutation_state failed enqueued = failed
transition_mutation_state failed fail = failed
transition_mutation_state failed reject = rejected
transition_mutation_state acked event = acked
transition_mutation_state rejected ack = acked
transition_mutation_state rejected event = rejected

-- `isRetryableState`
unfoldable pub is_retryable_state : MutationStatus → Bool
is_retryable_state failed = true
is_retryable_state pending = true
is_retryable_state state = false
