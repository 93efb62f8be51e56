-- ===== src/TableWorkers/Tests.antt =====
-- Three tables on two workers; the second table fails.
use mathlib.Core.List.{Perm}
use react_native_nitro_sync.Prelude.{
  ℕ, zero, suc, ◌*◌, ◌≡◌, ◌≤◌, ◌<◌, refl, true, some, none, String, List, [], ◌∷◌, any, filter,
  length,
}
use react_native_nitro_sync.Value.Number.{
  num, number_leb, is_safe_integer, is_positive_safe_integer,
}
use react_native_nitro_sync.Types.{thrown, invalid_concurrency, ok, err}
use react_native_nitro_sync.TableWorkers.{
  Outcome, resolves, turn, turn_at, run, create_workers, no_calls, all_settled,
  run_sync_table_workers,
}
use react_native_nitro_sync.TableWorkers.Calls.{answers}
use react_native_nitro_sync.TableWorkers.Complete.{pool_at, workers_complete}
use react_native_nitro_sync.TableWorkers.Progress.{
  is_live, is_busy, turns_taken, workers_finish, workers_bounded,
}

abbrev tables : List String
tables = "todos" ∷ "notes" ∷ "tags" ∷ []

abbrev outcome : ℕ → Outcome
outcome (suc zero) = resolves (some (thrown "offline"))
outcome n = resolves none

-- The second worker is slow: the first one takes the third table.
abbrev schedule : List ℕ
schedule = 0 ∷ 1 ∷ 0 ∷ 0 ∷ 0 ∷ 1 ∷ 1 ∷ 0 ∷ []

finished :
    run_sync_table_workers tables (num 2) outcome schedule ≡ some (ok (thrown "offline" ∷ []))
unfolding run_sync_table_workers run turn_at turn create_workers all_settled
    is_positive_safe_integer is_safe_integer number_leb
finished = refl

workers_complete_example :
    ((pool_at tables (num 2) outcome schedule).1.calls ≡ tables)
    × Perm (thrown "offline" ∷ []) (answers outcome 0 tables)
workers_complete_example =
    workers_complete tables (num 2) outcome schedule (thrown "offline" ∷ []) finished

waiting : run_sync_table_workers tables (num 2) outcome (0 ∷ 1 ∷ []) ≡ none
unfolding run_sync_table_workers run turn_at turn create_workers all_settled
    is_positive_safe_integer is_safe_integer number_leb
waiting = refl

workers_finish_example :
    (turns_taken tables outcome (0 ∷ 1 ∷ []) (create_workers 2 tables) no_calls < 3 * length tables)
    × (any is_live (pool_at tables (num 2) outcome (0 ∷ 1 ∷ [])).0 ≡ true)
workers_finish_example = workers_finish tables (num 2) outcome (0 ∷ 1 ∷ []) waiting

workers_bounded_example :
    length (filter is_busy (pool_at tables (num 2) outcome (0 ∷ 1 ∷ 0 ∷ [])).0) ≤ 2
workers_bounded_example = workers_bounded tables (num 2) outcome (0 ∷ 1 ∷ 0 ∷ [])

no_workers : run_sync_table_workers tables (num 0) outcome schedule ≡ some (err invalid_concurrency)
unfolding run_sync_table_workers is_positive_safe_integer is_safe_integer number_leb
no_workers = refl
