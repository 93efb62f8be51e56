-- ===== src/TableWorkers.antt =====
-- src/tableWorkers.ts: workers that share a counter. A worker runs without interruption from one
-- `await` to the next, so that a schedule, a list of worker positions, is an interleaving.
pub mod Calls
pub mod Complete
pub mod Progress
mod Tests
use react_native_nitro_sync.Prelude.{
  ℕ, zero, suc, ◌+◌, Bool, true, false, not, Option, none, some, String, List, [], ◌∷◌, ◌++◌, all,
  length, leb, if◌then◌else◌,
}
use react_native_nitro_sync.Value.Number.{
  Number, is_positive_safe_integer, finite, pos, negsuc, nan, infinity, neg_infinity,
}
use react_native_nitro_sync.Types.{Error, invalid_concurrency, Result, ok, err, throw_if, ◌>>◌}

-- How a call of `processTable` settles.
pub data Outcome : Type 0 where
  resolves : Option Error → Outcome
  rejects : Error → Outcome

-- A worker at the head of its loop, awaiting the call for a table, returned, or rejected.
pub data Worker : Type 0 where
  ready : Worker
  busy : ℕ → Worker
  returned : Worker
  crashed : Worker

-- What the workers share; `calls` are the calls of `processTable` so far, and `failure` is the first
-- rejection, which `Promise.all` passes on.
pub record Shared : Type 0 where
  pub next_table_index : ℕ
  pub calls : List String
  pub errors : List Error
  pub failure : Option Error

abbrev pub get_elem? {ℓ} : {A : Type ℓ} → List A → ℕ → Option A
get_elem? [] i = none
get_elem? (x ∷ xs) zero = some x
get_elem? (x ∷ xs) (suc i) = get_elem? xs i

-- `errors.push(tableError)` if it is not null
abbrev pub error_list : Option Error → List Error
error_list none = []
error_list (some e) = e ∷ []

abbrev pub first_failure : Option Error → Error → Option Error
first_failure none e = some e
first_failure (some first) e = some first

module _ (tables : List String) (outcome : ℕ → Outcome) where
  -- From the head of the loop to the `await`, or from there to the head.
  unfoldable pub turn : Worker → Shared → Worker × Shared
  turn ready s = elim (get_elem? tables s.next_table_index) [
    | none ↦ (returned, record s { next_table_index = suc s.next_table_index })
    | some table ↦ (
      busy s.next_table_index,
      record s { next_table_index = suc s.next_table_index; calls = s.calls ++ table ∷ [] },
    )
  ]
  turn (busy index) s = elim (outcome index) [
    | resolves e ↦ (ready, record s { errors = s.errors ++ error_list e })
    | rejects e ↦ (crashed, record s { failure = first_failure s.failure e })
  ]
  turn returned s = (returned, s)
  turn crashed s = (crashed, s)

  -- The turn of the worker at a position.
  unfoldable pub turn_at : ℕ → List Worker → Shared → List Worker × Shared
  turn_at i [] s = ([], s)
  turn_at zero (w ∷ ws) s = let (w', s') = turn w s in (w' ∷ ws, s')
  turn_at (suc i) (w ∷ ws) s = let (ws', s') = turn_at i ws s in (w ∷ ws', s')

  unfoldable pub run : List ℕ → List Worker → Shared → List Worker × Shared
  run [] ws s = (ws, s)
  run (i ∷ schedule) ws s = let (ws', s') = turn_at i ws s in run schedule ws' s'

-- `Array.from({ length: Math.min(concurrency, tables.length) }, () => worker())`
unfoldable pub create_workers : ℕ → List String → List Worker
create_workers concurrency [] = []
create_workers zero tables = []
create_workers (suc n) (t ∷ tables) = ready ∷ create_workers n tables

abbrev pub no_calls : Shared
no_calls = record { next_table_index = 0; calls = []; errors = []; failure = none }

abbrev pub is_returned : Worker → Bool
is_returned returned = true
is_returned w = false

-- `await Promise.all(…)`: none while it is pending.
unfoldable pub all_settled : List Worker × Shared → Option (Result (List Error))
all_settled (ws, s) = elim s.failure [
  | some e ↦ some (err e)
  | none ↦ if all is_returned ws then some (ok s.errors) else none
]

-- A safe integer that is positive; the guard lets no other through.
abbrev pub whole : Number → ℕ
whole (finite (pos n) f) = n
whole _ = 0

-- `runSyncTableWorkers`, as far as a schedule takes it
unfoldable pub run_sync_table_workers :
    List String → Number → (ℕ → Outcome) → List ℕ → Option (Result (List Error))
unfolding all_settled
run_sync_table_workers tables concurrency outcome schedule =
    if is_positive_safe_integer concurrency
    then all_settled
        (run tables outcome schedule (create_workers (whole concurrency) tables) no_calls)
    else some (err invalid_concurrency)
