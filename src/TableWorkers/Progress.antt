-- ===== src/TableWorkers/Progress.antt =====
-- The workers come to an end, and what the guard on the concurrency does.
use react_native_nitro_sync.Prelude.{
  ℕ, zero, suc, ◌+◌, ◌-◌, ◌*◌, ◌≡◌, ◌≤◌, ◌<◌, refl, arith, Bool, true, false, none, some, String,
  List, [], ◌∷◌, all, any, filter, inl, inr, length, if◌then◌else◌,
}
use react_native_nitro_sync.Value.Number.{Number}
use react_native_nitro_sync.TableWorkers.{
  Outcome, Worker, ready, busy, returned, crashed, Shared, get_elem?, turn, turn_at, run,
  create_workers, no_calls, is_returned, all_settled, whole, run_sync_table_workers,
}
use react_native_nitro_sync.TableWorkers.Calls.{get_elem?-cases}
use react_native_nitro_sync.TableWorkers.Complete.{run-length, pool_at}

abbrev pub is_live : Worker → Bool
is_live ready = true
is_live (busy index) = true
is_live _ = false

abbrev is_crashed : Worker → Bool
is_crashed crashed = true
is_crashed _ = false

abbrev pub live_at : ℕ → List Worker → Bool
live_at i [] = false
live_at zero (w ∷ ws) = is_live w
live_at (suc i) (w ∷ ws) = live_at i ws

abbrev weight : Worker → ℕ
weight ready = 1
weight (busy index) = 2
weight _ = 0

abbrev weights : List Worker → ℕ
weights [] = 0
weights (w ∷ ws) = weight w + weights ws

weights-create_workers : (n : ℕ) (ts : List String) → weights (create_workers n ts) ≤ length ts
unfolding create_workers
weights-create_workers n [] = omega arith
weights-create_workers zero (t ∷ ts) = omega arith
weights-create_workers (suc n) (t ∷ ts) = omega (arith, weights-create_workers n ts)

none_crashed : (n : ℕ) (ts : List String) → any is_crashed (create_workers n ts) ≡ false
unfolding create_workers
none_crashed n [] = refl
none_crashed zero (t ∷ ts) = refl
none_crashed (suc n) (t ∷ ts) = none_crashed n ts

-- A worker that has not returned is live or has crashed.
live_or_crashed :
    (ws : List Worker)
    → all is_returned ws ≡ false
    → any is_crashed ws ≡ false
    → any is_live ws ≡ true
live_or_crashed [] h k = cc
live_or_crashed (ready ∷ ws) h k = refl
live_or_crashed (busy i ∷ ws) h k = refl
live_or_crashed (returned ∷ ws) h k = live_or_crashed ws h k
live_or_crashed (crashed ∷ ws) h k = cc

inside : (xs : List String) (n : ℕ) (x : String) → get_elem? xs n ≡ some x → n < length xs
inside [] n x h = cc
inside (y ∷ xs) zero x h = omega arith
inside (y ∷ xs) (suc n) x h = omega (arith, inside xs n x h)

module _ (tables : List String) (outcome : ℕ → Outcome) where
  -- How many turns are left at most.
  abbrev left : Shared → ℕ
  left s = 2 * (length tables - s.next_table_index)

  -- The turns of a schedule that a live worker takes.
  unfoldable pub turns_taken : List ℕ → List Worker → Shared → ℕ
  turns_taken [] ws s = 0
  turns_taken (i ∷ schedule) ws s =
      (if live_at i ws then 1 else 0)
      + turns_taken schedule (turn_at tables outcome i ws s).0 (turn_at tables outcome i ws s).1

  turn_shortens :
      (w : Worker) (s : Shared)
      → (if is_live w then 1 else 0)
          + (weight (turn tables outcome w s).0 + left (turn tables outcome w s).1)
        ≤ weight w + left s
  unfolding turn
  turn_shortens ready s = elim (get_elem?-cases tables s.next_table_index) [
    | inl (t, e) ↦ rw (e, turn) (omega (arith, inside tables s.next_table_index t e))
    | inr e ↦ rw (e, turn) (omega arith)
  ]
  turn_shortens (busy i) s = ground arith
  turn_shortens returned s = omega arith
  turn_shortens crashed s = omega arith

  turn_at_shortens :
      (i : ℕ) (ws : List Worker) (s : Shared)
      → (if live_at i ws then 1 else 0)
          + (weights (turn_at tables outcome i ws s).0 + left (turn_at tables outcome i ws s).1)
        ≤ weights ws + left s
  unfolding turn_at
  turn_at_shortens i [] s = omega arith
  turn_at_shortens zero (w ∷ ws) s = omega (arith, turn_shortens w s)
  turn_at_shortens (suc i) (w ∷ ws) s = omega (arith, turn_at_shortens i ws s)

  run_shortens :
      (schedule : List ℕ) (ws : List Worker) (s : Shared)
      → turns_taken schedule ws s
          + (weights (run tables outcome schedule ws s).0
              + left (run tables outcome schedule ws s).1)
        ≤ weights ws + left s
  unfolding run turns_taken
  run_shortens [] ws s = omega arith
  run_shortens (i ∷ schedule) ws s = omega (
    arith,
    turn_at_shortens i ws s,
    run_shortens schedule (turn_at tables outcome i ws s).0 (turn_at tables outcome i ws s).1,
  )

  -- A crash is reported.
  abbrev IsReported : List Worker → Shared → Type 0
  IsReported ws s = s.failure ≡ none → any is_crashed ws ≡ false

  turn_failure :
      (w : Worker) (s : Shared)
      → (turn tables outcome w s).1.failure ≡ none
      → (s.failure ≡ none) × (is_crashed w ≡ false → is_crashed (turn tables outcome w s).0 ≡ false)
  unfolding turn
  turn_failure ready s h = ground arith
  turn_failure (busy i) s h = ground arith
  turn_failure returned s h = (h, λ k. k)
  turn_failure crashed s h = (h, λ k. k)

  turn_at_failure :
      (i : ℕ) (ws : List Worker) (s : Shared)
      → (turn_at tables outcome i ws s).1.failure ≡ none
      → s.failure ≡ none
  unfolding turn_at
  turn_at_failure i [] s h = h
  turn_at_failure zero (w ∷ ws) s h = (turn_failure w s h).0
  turn_at_failure (suc i) (w ∷ ws) s h = turn_at_failure i ws s h

  turn_at-IsReported :
      (i : ℕ) (ws : List Worker) (s : Shared)
      → IsReported ws s
      → IsReported (turn_at tables outcome i ws s).0 (turn_at tables outcome i ws s).1
  unfolding turn_at
  turn_at-IsReported i [] s h = λ k. refl
  turn_at-IsReported zero (w ∷ ws) s h = λ k. ground (arith, h, turn_failure w s k)
  turn_at-IsReported (suc i) (w ∷ ws) s h =
      λ k. ground (arith, h, turn_at_failure i ws s k, turn_at-IsReported i ws s)

  run-IsReported :
      (schedule : List ℕ) (ws : List Worker) (s : Shared)
      → IsReported ws s
      → IsReported (run tables outcome schedule ws s).0 (run tables outcome schedule ws s).1
  unfolding run
  run-IsReported [] ws s h = h
  run-IsReported (i ∷ schedule) ws s h =
      run-IsReported schedule (turn_at tables outcome i ws s).0 (turn_at tables outcome i ws s).1
        (turn_at-IsReported i ws s h)

pending_unfinished :
    (ws : List Worker) (s : Shared)
    → all_settled (ws, s) ≡ none
    → (s.failure ≡ none) × (all is_returned ws ≡ false)
unfolding all_settled
pending_unfinished ws s h = ground arith

pending :
    (tables : List String) (concurrency : Number) (outcome : ℕ → Outcome) (schedule : List ℕ)
    → run_sync_table_workers tables concurrency outcome schedule ≡ none
    → all_settled (pool_at tables concurrency outcome schedule) ≡ none
unfolding run_sync_table_workers
pending tables concurrency outcome schedule h = ground arith

live_weight : (ws : List Worker) → any is_live ws ≡ true → 1 ≤ weights ws
live_weight [] h = cc
live_weight (ready ∷ ws) h = omega arith
live_weight (busy i ∷ ws) h = omega arith
live_weight (returned ∷ ws) h = omega (arith, live_weight ws h)
live_weight (crashed ∷ ws) h = omega (arith, live_weight ws h)

-- The workers always come to an end: whatever the schedule, as long as the call is pending, the
-- workers have taken fewer than three turns per table, and some worker has a turn to take.
pub workers_finish :
    (tables : List String) (concurrency : Number) (outcome : ℕ → Outcome) (schedule : List ℕ)
    → run_sync_table_workers tables concurrency outcome schedule ≡ none
    → (turns_taken tables outcome schedule (create_workers (whole concurrency) tables) no_calls
        < 3 * length tables)
      × (any is_live (pool_at tables concurrency outcome schedule).0 ≡ true)
workers_finish tables concurrency outcome schedule h =
    let ws = create_workers (whole concurrency) tables in
    let p = pool_at tables concurrency outcome schedule in
    let waits = pending_unfinished p.0 p.1 (pending tables concurrency outcome schedule h) in
    let live = live_or_crashed p.0 waits.1 (
      run-IsReported tables outcome schedule ws no_calls
        (λ k. none_crashed (whole concurrency) tables) waits.0) in
    (
      omega (
        arith,
        run_shortens tables outcome schedule ws no_calls,
        weights-create_workers (whole concurrency) tables,
        live_weight p.0 live,
      ),
      live,
    )

length-create_workers : (n : ℕ) (ts : List String) → length (create_workers n ts) ≤ n
unfolding create_workers
length-create_workers n [] = omega arith
length-create_workers zero (t ∷ ts) = omega arith
length-create_workers (suc n) (t ∷ ts) = omega (arith, length-create_workers n ts)

abbrev pub is_busy : Worker → Bool
is_busy (busy index) = true
is_busy w = false

busy_among : (ws : List Worker) → length (filter is_busy ws) ≤ length ws
busy_among [] = omega arith
busy_among (w ∷ ws) = ground (arith, busy_among ws)

-- At no time are more tables being processed than the concurrency allows.
pub workers_bounded :
    (tables : List String) (concurrency : Number) (outcome : ℕ → Outcome) (schedule : List ℕ)
    → length (filter is_busy (pool_at tables concurrency outcome schedule).0) ≤ whole concurrency
workers_bounded tables concurrency outcome schedule =
    let ws = create_workers (whole concurrency) tables in
    omega (
      arith,
      busy_among (pool_at tables concurrency outcome schedule).0,
      run-length outcome tables schedule ws no_calls,
      length-create_workers (whole concurrency) tables,
    )
