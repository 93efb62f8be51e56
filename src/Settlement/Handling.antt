-- ===== src/Settlement/Handling.antt =====
-- What `settleSyncMutations` does with a settlement, seen through handlers that keep a log.
use mathlib.Core.List.{Perm, append_assoc, append-nil, map-append}
use react_native_nitro_sync.Prelude.{
  ◌≡◌, refl, ap, ◌∙◌, Bool, true, not, ◌&&◌, String, List, [], ◌∷◌, ◌++◌, map, filter, All,
  All-append, arith, if◌then◌else◌, Bool-cases, inl, inr,
}
use react_native_nitro_sync.Types.{
  SyncMutation, SyncMutationRejection, MutationStatus, failed, rejected, acked, ok,
}
use react_native_nitro_sync.Exec.{◌>>◌, bind-run}
use react_native_nitro_sync.StateMachine.{transition_mutation_state}
use react_native_nitro_sync.Settlement.{
  SyncMutationSettlement, partition_sync_mutations, Handler, SyncMutationSettlementHandlers,
  handle_each, settle_sync_mutations, fail_sync_mutations,
}
use react_native_nitro_sync.Settlement.Partition.{
  is_acknowledged, is_refused, partition_lem, partition-perm,
}

-- Which of the three handlers was called.
pub data Call : Type 0 where
  by_acknowledge : Call
  by_retry : Call
  by_reject : Call

-- The calls in their order: the mutation, the handler and the status that it was given.
abbrev pub Log : Type 0
Log = List (SyncMutation × (Call × MutationStatus))

abbrev pub note : Call → Handler Log
note call m status log = (ok tt, log ++ (m, (call, status)) ∷ [])

-- Handlers that note their call and do not throw.
abbrev pub noting : SyncMutationSettlementHandlers Log
noting = record {
  acknowledge = note by_acknowledge;
  retry = note by_retry;
  reject = note by_reject;
}

abbrev pub stamped : Call × MutationStatus → List SyncMutation → Log
stamped entry = map (λ m. (m, entry))

handle_each-note :
    (call : Call) (status : MutationStatus) (ms : List SyncMutation) (log : Log)
    → handle_each (note call) status ms log ≡ (ok tt, log ++ stamped (call, status) ms)
unfolding handle_each
handle_each-note call status [] log = rw (append-nil log)
handle_each-note call status (m ∷ ms) log =
    handle_each-note call status ms (log ++ (m, (call, status)) ∷ [])
    ∙ ap (λ l. (ok tt, l)) (append_assoc log ((m, (call, status)) ∷ []) (stamped (call, status) ms))

settle-note :
    (s : SyncMutationSettlement)
    → settle_sync_mutations s noting [] ≡ (
      ok tt,
      stamped (by_acknowledge, acked) s.acknowledged
          ++ stamped (by_retry, failed) s.unacknowledged
          ++ stamped (by_reject, rejected) s.rejected,
    )
unfolding settle_sync_mutations transition_mutation_state
settle-note s =
    bind-run (handle_each (note by_acknowledge) acked s.acknowledged)
      (λ _.
        handle_each (note by_retry) failed s.unacknowledged
        >> handle_each (note by_reject) rejected s.rejected)
      [] (stamped (by_acknowledge, acked) s.acknowledged) tt
      (handle_each-note by_acknowledge acked s.acknowledged [])
    ∙ bind-run (handle_each (note by_retry) failed s.unacknowledged)
        (λ _. handle_each (note by_reject) rejected s.rejected)
        (stamped (by_acknowledge, acked) s.acknowledged)
        (stamped (by_acknowledge, acked) s.acknowledged
          ++ stamped (by_retry, failed) s.unacknowledged)
        tt
        (handle_each-note by_retry failed s.unacknowledged
          (stamped (by_acknowledge, acked) s.acknowledged))
    ∙ handle_each-note by_reject rejected s.rejected (
        stamped (by_acknowledge, acked) s.acknowledged
        ++ stamped (by_retry, failed) s.unacknowledged)

-- What the answer makes of one mutation.
abbrev pub verdict : List String → List SyncMutationRejection → SyncMutation → Call × MutationStatus
verdict acks rs m =
    if is_acknowledged acks m
    then (by_acknowledge, acked)
    else if is_refused acks rs m
    then (by_reject, rejected)
    else (by_retry, failed)

stamped-All :
    (P : SyncMutation × (Call × MutationStatus) → Type 0) (p : SyncMutation → Bool)
    (status : Call × MutationStatus) (ms : List SyncMutation)
    → ((m : SyncMutation) → p m ≡ true → P (m, status))
    → All P (stamped status (filter p ms))
stamped-All P p status [] h = tt
stamped-All P p status (m ∷ ms) h = elim (Bool-cases (p m)) [
  | inl hit ↦ rw hit (h m hit, stamped-All P p status ms h)
  | inr miss ↦ rw miss (stamped-All P p status ms h)
]

map-stamped :
    (status : Call × MutationStatus) (ms : List SyncMutation)
    → map (λ e. e.0) (stamped status ms) ≡ ms
map-stamped status [] = refl
map-stamped status (m ∷ ms) = ap (◌∷◌ m) (map-stamped status ms)

module _ (ms : List SyncMutation) (acks : List String) (rs : List SyncMutationRejection) where
  abbrev calls : Log
  calls =
      let s = partition_sync_mutations ms acks rs in
      stamped (by_acknowledge, acked) s.acknowledged
      ++ stamped (by_retry, failed) s.unacknowledged
      ++ stamped (by_reject, rejected) s.rejected

  calls-perm : Perm (map (λ e. e.0) calls) ms
  calls-perm = simp (map-append, map-stamped) (partition-perm ms acks rs)

  calls-verdict : All (λ e. e.1 ≡ verdict acks rs e.0) calls
  calls-verdict = rw (partition_lem ms acks rs) (
      All-append _ _ _
        (All-append _ _ _
          (stamped-All _ (is_acknowledged acks) (by_acknowledge, acked) ms (λ m h. ground arith))
          (stamped-All _ (λ m. not (is_acknowledged acks m) && not (is_refused acks rs m))
            (by_retry, failed) ms (λ m h. ground arith)))
        (stamped-All _ (is_refused acks rs) (by_reject, rejected) ms (λ m h. ground arith)))

  -- Settling the partition of a batch, with handlers that note their calls and do not throw, calls one
  -- handler exactly once for every mutation of the batch, the one that the answer gives it with its
  -- status: `acknowledge` with ACKED if it is acknowledged, else `reject` with REJECTED if it is
  -- permanently refused, else `retry` with FAILED.
  pub settle_once :
      (log : Log) × (settle_sync_mutations (partition_sync_mutations ms acks rs) noting []
        ≡ (ok tt, log))
      × Perm (map (λ e. e.0) log) ms
      × All (λ e. e.1 ≡ verdict acks rs e.0) log
  settle_once =
      (calls, settle-note (partition_sync_mutations ms acks rs), calls-perm, calls-verdict)

-- After a failed request every mutation that is still open is handed to `retry` once, in order, as FAILED.
pub fail-note :
    (ms : List SyncMutation)
    → fail_sync_mutations ms (note by_retry) [] ≡ (ok tt, stamped (by_retry, failed) ms)
unfolding fail_sync_mutations transition_mutation_state
fail-note ms = handle_each-note by_retry failed ms []
