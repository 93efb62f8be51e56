-- ===== src/StateMachine/Outcome.antt =====
-- What a history of events makes of a mutation.
use react_native_nitro_sync.Prelude.{
  ◌≡◌, ◌≢◌, ◌↔◌, ◌||◌, ◌&&◌, not, Bool, true, false, List, [], ◌∷◌, arith, any,
}
use react_native_nitro_sync.Types.{
  MutationStatus, syncing, rejected, acked, MutationEvent, claimed, ack, reject,
}
use react_native_nitro_sync.StateMachine.{transition_mutation_state, is_retryable_state}

-- The state after a history of events.
pub after : MutationStatus → List MutationEvent → MutationStatus
after s [] = s
after s (e ∷ es) = after (transition_mutation_state s e) es

abbrev is_ack : MutationEvent → Bool
is_ack ack = true
is_ack _ = false

abbrev is_reject : MutationEvent → Bool
is_reject reject = true
is_reject _ = false

abbrev is_acked : MutationStatus → Bool
is_acked acked = true
is_acked _ = false

abbrev is_rejected : MutationStatus → Bool
is_rejected rejected = true
is_rejected _ = false

-- The end of a history, told without its order: an acknowledgement anywhere wins, then a rejection
-- anywhere; only a history with neither leaves the mutation in the queue's three working states.
abbrev pub Outcome : MutationStatus → List MutationEvent → Type 0
Outcome s es =
    ((after s es ≡ acked) ↔ ((is_acked s || any is_ack es) ≡ true))
    × ((after s es ≡ rejected)
        ↔ (((is_rejected s || any is_reject es) && not (is_acked s || any is_ack es)) ≡ true))

step_acked :
    (s : MutationStatus) (e : MutationEvent)
    → is_acked (transition_mutation_state s e) ≡ (is_acked s || is_ack e)
unfolding transition_mutation_state
step_acked s e = ground arith

step_rejected :
    (s : MutationStatus) (e : MutationEvent)
    → is_rejected (transition_mutation_state s e)
      ≡ ((is_rejected s || is_reject e) && not (is_acked s || is_ack e))
unfolding transition_mutation_state
step_rejected s e = ground arith

-- From any state, a history ends in ACKED exactly if it starts there or holds an acknowledgement,
-- and in REJECTED exactly if it starts there or holds a rejection, and neither starts in ACKED nor
-- holds an acknowledgement. The order and number of the events play no part.
pub after-Outcome : (s : MutationStatus) (es : List MutationEvent) → Outcome s es
unfolding after
after-Outcome s [] = ground arith
after-Outcome s (e ∷ es) =
    ground
      (arith, after-Outcome (transition_mutation_state s e) es, step_acked s e, step_rejected s e)

-- An event delivered twice in a row has the effect of one delivery.
pub transition_twice :
    (s : MutationStatus) (e : MutationEvent)
    → transition_mutation_state (transition_mutation_state s e) e ≡ transition_mutation_state s e
unfolding transition_mutation_state
transition_twice s e = ground arith

-- A state is retryable exactly if a claim moves it, and moves it to SYNCING.
pub retryable_iff :
    (s : MutationStatus)
    → (is_retryable_state s ≡ true)
      ↔ ((transition_mutation_state s claimed ≡ syncing) × (s ≢ syncing))
unfolding transition_mutation_state is_retryable_state
retryable_iff s = ground arith
