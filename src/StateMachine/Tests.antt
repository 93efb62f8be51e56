-- ===== src/StateMachine/Tests.antt =====
-- Runs of the state machine, and its theorems at concrete histories.
use react_native_nitro_sync.Prelude.{List, [], ◌∷◌}
use react_native_nitro_sync.Types.{pending, MutationEvent, claimed, fail, retry, reject, ack}
use react_native_nitro_sync.StateMachine.Outcome.{Outcome, after-Outcome}

abbrev history : List MutationEvent
history = claimed ∷ fail ∷ retry ∷ claimed ∷ reject ∷ ack ∷ retry ∷ []

after-Outcome_example : Outcome pending history
after-Outcome_example = after-Outcome pending history
