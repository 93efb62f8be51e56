-- ===== src/Storage/Retry.antt =====
-- When a failed, a rejected and a retried mutation may be claimed again.
use react_native_nitro_sync.Prelude.{
  ℕ, zero, suc, ◌≡◌, ◌≤◌, ◌+◌, ◌*◌, ◌↔◌, refl, sym, true, false, Option, none, some, arith, leb,
  String, if◌then◌else◌,
}
use react_native_nitro_sync.Types.{syncing, claimed, reject, fail, recovered}
use react_native_nitro_sync.StateMachine.{transition_mutation_state}
use react_native_nitro_sync.Storage.Tables.{QueueRow, failed_row, retry_delay, is_due, in_table}
use react_native_nitro_sync.Storage.{rejected_row, retried_row}
use react_native_nitro_sync.Storage.Schema.{released}

-- 1 second doubled n times, and at most 5 minutes.
abbrev pub doubled : ℕ → ℕ
doubled zero = 1000
doubled (suc n) = 2 * doubled n

retry_delay_capped :
    (n : ℕ) → retry_delay (suc (suc (suc (suc (suc (suc (suc (suc (suc n))))))))) ≡ 300000
unfolding retry_delay
retry_delay_capped n = ground arith

le-doubled : (n : ℕ) → 1000 ≤ doubled n
le-doubled zero = omega arith
le-doubled (suc n) = omega (arith, le-doubled n)

-- The table of delays is exponential backoff with a cap: after n failures the delay is one second
-- doubled n times, or five minutes if that is less.
pub retry_delay-doubled :
    (n : ℕ) → retry_delay n ≡ (if leb (doubled n) 300000 then doubled n else 300000)
unfolding retry_delay
retry_delay-doubled zero = refl
retry_delay-doubled (suc zero) = refl
retry_delay-doubled (suc (suc zero)) = refl
retry_delay-doubled (suc (suc (suc zero))) = refl
retry_delay-doubled (suc (suc (suc (suc zero)))) = refl
retry_delay-doubled (suc (suc (suc (suc (suc zero))))) = refl
retry_delay-doubled (suc (suc (suc (suc (suc (suc zero)))))) = refl
retry_delay-doubled (suc (suc (suc (suc (suc (suc (suc zero))))))) = refl
retry_delay-doubled (suc (suc (suc (suc (suc (suc (suc (suc zero)))))))) = refl
retry_delay-doubled (suc (suc (suc (suc (suc (suc (suc (suc (suc n))))))))) =
    rw (retry_delay_capped n) (ground (arith, le-doubled n))

-- For any one table or for all: a mutation that fails after n failures before is due exactly from one
-- second doubled n times later on, or five minutes if that is less; one that the server rejects is
-- never due; one that the user retries is due at once.
pub due_again :
    (r : QueueRow) (table : Option String) (now later : ℕ) (code message : String)
    → in_table table r ≡ true
    → let delay = if leb (doubled r.retry_count) 300000 then doubled r.retry_count else 300000 in
      ((is_due later table (failed_row now r) ≡ true) ↔ (now + delay ≤ later))
      × (is_due later table (rejected_row code message r) ≡ false)
      × (is_due later table (retried_row r) ≡ true)
unfolding is_due failed_row rejected_row retried_row
due_again r none now later code message own =
    rw (sym (retry_delay-doubled r.retry_count)) (ground arith)
due_again r (some table) now later code message own =
    rw (sym (retry_delay-doubled r.retry_count)) (ground arith)

-- The way of a mutation through the queue is the state machine's: a row that is due may be claimed, and
-- what a failure, a rejection and the recovery at start make of the claimed row are the transitions on
-- FAILED, REJECTED and RECOVERED.
pub claim_follows :
    (r : QueueRow) (now later : ℕ) (table : Option String) (code message : String)
    → is_due now table r ≡ true
    → let claimed_row = record r { status = syncing } in
      (claimed_row.status ≡ transition_mutation_state r.status claimed)
      × ((failed_row later claimed_row).status ≡ transition_mutation_state claimed_row.status fail)
      × ((rejected_row code message claimed_row).status
          ≡ transition_mutation_state claimed_row.status reject)
      × ((released claimed_row).status ≡ transition_mutation_state claimed_row.status recovered)
unfolding is_due failed_row rejected_row transition_mutation_state
claim_follows r now later table code message due = ground arith
