-- ===== src/TableWorkers/Complete.antt =====
-- What the workers have done when they have returned.
use mathlib.Core.List
use mathlib.Core.List.{Perm}
use mathlib.Core.List.Perm
use react_native_nitro_sync.Prelude.{
  ℕ, zero, suc, ◌≡◌, refl, ap, subst, ◌∙◌, arith, true, false, some, String, List, [], ◌∷◌, ◌++◌,
  all, any, length, take, ◌≤◌, inl, inr, ◌⊎◌,
}
use react_native_nitro_sync.Value.Number.{
  Number, nan, infinity, neg_infinity, finite, pos, negsuc, number_leb, is_safe_integer,
  is_positive_safe_integer,
}
use react_native_nitro_sync.Types.{Error, ok}
use react_native_nitro_sync.TableWorkers.{
  Outcome, Worker, ready, busy, returned, crashed, Shared, turn, turn_at, run, create_workers,
  no_calls, is_returned, all_settled, whole, run_sync_table_workers,
}
use react_native_nitro_sync.TableWorkers.Calls.{past_end, answers, awaited, run-IsRun}

module _ (outcome : ℕ → Outcome) (tables : List String) where
  -- A worker returns only when the counter is past the tables.
  abbrev pub IsSpent : List Worker → Shared → Type 0
  IsSpent ws s = any is_returned ws ≡ true → length tables ≤ s.next_table_index

  turn_grows :
      (w : Worker) (s : Shared) → s.next_table_index ≤ (turn tables outcome w s).1.next_table_index
  unfolding turn
  turn_grows ready s = ground arith
  turn_grows (busy i) s = ground arith
  turn_grows returned s = omega arith
  turn_grows crashed s = omega arith

  turn_returned :
      (w : Worker) (s : Shared)
      → is_returned (turn tables outcome w s).0 ≡ true
      → (is_returned w ≡ true) ⊎ (length tables ≤ (turn tables outcome w s).1.next_table_index)
  unfolding turn
  turn_returned ready s h = ground (arith, past_end tables s.next_table_index)
  turn_returned (busy i) s h = ground arith
  turn_returned returned s h = inl refl
  turn_returned crashed s h = cc

  turn_at_grows :
      (i : ℕ) (ws : List Worker) (s : Shared)
      → s.next_table_index ≤ (turn_at tables outcome i ws s).1.next_table_index
  unfolding turn_at
  turn_at_grows i [] s = omega arith
  turn_at_grows zero (w ∷ ws) s = turn_grows w s
  turn_at_grows (suc i) (w ∷ ws) s = turn_at_grows i ws s

  turn_at-IsSpent :
      (i : ℕ) (ws : List Worker) (s : Shared)
      → IsSpent ws s
      → IsSpent (turn_at tables outcome i ws s).0 (turn_at tables outcome i ws s).1
  unfolding turn_at
  turn_at-IsSpent i [] s h = λ k. cc
  turn_at-IsSpent zero (w ∷ ws) s h = λ k. ground (arith, h, turn_returned w s, turn_grows w s)
  turn_at-IsSpent (suc i) (w ∷ ws) s h =
      λ k. ground (arith, h, turn_at-IsSpent i ws s, turn_at_grows i ws s)

  turn_at-length :
      (i : ℕ) (ws : List Worker) (s : Shared) → length (turn_at tables outcome i ws s).0 ≡ length ws
  unfolding turn_at
  turn_at-length i [] s = refl
  turn_at-length zero (w ∷ ws) s = refl
  turn_at-length (suc i) (w ∷ ws) s = ap suc (turn_at-length i ws s)

  run-IsSpent :
      (schedule : List ℕ) (ws : List Worker) (s : Shared)
      → IsSpent ws s
      → IsSpent (run tables outcome schedule ws s).0 (run tables outcome schedule ws s).1
  unfolding run
  run-IsSpent [] ws s h = h
  run-IsSpent (i ∷ schedule) ws s h =
      run-IsSpent schedule (turn_at tables outcome i ws s).0 (turn_at tables outcome i ws s).1
        (turn_at-IsSpent i ws s h)

  pub run-length :
      (schedule : List ℕ) (ws : List Worker) (s : Shared)
      → length (run tables outcome schedule ws s).0 ≡ length ws
  unfolding run
  run-length [] ws s = refl
  run-length (i ∷ schedule) ws s =
      run-length schedule (turn_at tables outcome i ws s).0 (turn_at tables outcome i ws s).1
      ∙ turn_at-length i ws s

all_returned :
    (outcome : ℕ → Outcome) (ws : List Worker) → all is_returned ws ≡ true → awaited outcome ws ≡ []
all_returned outcome [] h = refl
all_returned outcome (ready ∷ ws) h = cc
all_returned outcome (busy i ∷ ws) h = cc
all_returned outcome (returned ∷ ws) h = all_returned outcome ws h
all_returned outcome (crashed ∷ ws) h = cc

awaited-create_workers :
    (outcome : ℕ → Outcome) (n : ℕ) (ts : List String) → awaited outcome (create_workers n ts) ≡ []
unfolding create_workers
awaited-create_workers outcome n [] = refl
awaited-create_workers outcome zero (t ∷ ts) = refl
awaited-create_workers outcome (suc n) (t ∷ ts) = awaited-create_workers outcome n ts

none_returned : (n : ℕ) (ts : List String) → any is_returned (create_workers n ts) ≡ false
unfolding create_workers
none_returned n [] = refl
none_returned zero (t ∷ ts) = refl
none_returned (suc n) (t ∷ ts) = none_returned n ts

take_all : (xs : List String) (n : ℕ) → length xs ≤ n → take n xs ≡ xs
take_all [] zero h = refl
take_all [] (suc n) h = refl
take_all (x ∷ xs) zero h = absurd (omega (arith, h))
take_all (x ∷ xs) (suc n) h = ap (◌∷◌ x) (take_all xs n (omega (arith, h)))

-- The pool as a schedule has taken it.
abbrev pub pool_at : List String → Number → (ℕ → Outcome) → List ℕ → List Worker × Shared
pool_at tables concurrency outcome schedule =
    run tables outcome schedule (create_workers (whole concurrency) tables) no_calls

whole_positive : (n : Number) → is_positive_safe_integer n ≡ true → 1 ≤ whole n
unfolding is_positive_safe_integer is_safe_integer number_leb
whole_positive nan h = cc
whole_positive infinity h = cc
whole_positive neg_infinity h = cc
whole_positive (finite (pos a) f) h = ground arith
whole_positive (finite (negsuc a) f) h = ground arith

some_created :
    (n : ℕ) (ts : List String) → 1 ≤ n → (length ts ≤ 0) ⊎ (1 ≤ length (create_workers n ts))
unfolding create_workers
some_created n [] h = inl (omega arith)
some_created zero (t ∷ ts) h = absurd (omega (arith, h))
some_created (suc n) (t ∷ ts) h = inr (omega arith)

any_of_all :
    (ws : List Worker) → 1 ≤ length ws → all is_returned ws ≡ true → any is_returned ws ≡ true
any_of_all [] h k = absurd (omega (arith, h))
any_of_all (w ∷ ws) h k = ground (arith, k)

started :
    (tables : List String) (concurrency : Number) (outcome : ℕ → Outcome) (schedule : List ℕ)
    (errors : List Error)
    → run_sync_table_workers tables concurrency outcome schedule ≡ some (ok errors)
    → (is_positive_safe_integer concurrency ≡ true)
      × (all_settled (pool_at tables concurrency outcome schedule) ≡ some (ok errors))
unfolding run_sync_table_workers
started tables concurrency outcome schedule errors h = ground arith

settled_ok :
    (ws : List Worker) (s : Shared) (errors : List Error)
    → all_settled (ws, s) ≡ some (ok errors)
    → (all is_returned ws ≡ true) × (s.errors ≡ errors)
unfolding all_settled
settled_ok ws s errors h = ground arith

-- When all workers have returned, the counter is past the tables.
all_taken :
    (tables : List String) (concurrency : Number) (outcome : ℕ → Outcome) (schedule : List ℕ)
    → is_positive_safe_integer concurrency ≡ true
    → let p = pool_at tables concurrency outcome schedule in
      all is_returned p.0 ≡ true → length tables ≤ p.1.next_table_index
all_taken tables concurrency outcome schedule positive done =
    let ws = create_workers (whole concurrency) tables in
    let p = pool_at tables concurrency outcome schedule in
    elim (some_created (whole concurrency) tables (whole_positive concurrency positive)) [
      | inl none_left ↦ omega (arith, none_left)
      | inr some_left ↦
          run-IsSpent outcome tables schedule ws no_calls
            (λ k. cc (k, none_returned (whole concurrency) tables))
            (any_of_all p.0
              (omega (arith, some_left, run-length outcome tables schedule ws no_calls)) done)
    ]

-- In whatever order the workers take their turns: when the call returns, processTable has been called
-- exactly once for each table, in the order of the tables, and the returned errors are those that the
-- calls gave, in some order.
pub workers_complete :
    (tables : List String) (concurrency : Number) (outcome : ℕ → Outcome) (schedule : List ℕ)
    (errors : List Error)
    → run_sync_table_workers tables concurrency outcome schedule ≡ some (ok errors)
    → ((pool_at tables concurrency outcome schedule).1.calls ≡ tables)
      × Perm errors (answers outcome 0 tables)
workers_complete tables concurrency outcome schedule errors h =
    let ws = create_workers (whole concurrency) tables in
    let p = pool_at tables concurrency outcome schedule in
    let start = started tables concurrency outcome schedule errors h in
    let settled = settled_ok p.0 p.1 errors start.1 in
    let taken : take p.1.next_table_index tables ≡ tables =
      take_all tables p.1.next_table_index
        (all_taken tables concurrency outcome schedule start.0 settled.0) in
    let kept =
      run-IsRun outcome tables schedule ws no_calls
        (rw (awaited-create_workers outcome (whole concurrency) tables) (refl, Perm.rfl)) in
    (
      kept.0 ∙ taken,
      subst (λ l. Perm l (answers outcome 0 tables))
          (ap (λ l. p.1.errors ++ (l ++ [])) (all_returned outcome p.0 settled.0)
            ∙ List.append-nil p.1.errors
            ∙ settled.1)
          (subst (λ ts. Perm (p.1.errors ++ (awaited outcome p.0 ++ [])) (answers outcome 0 ts))
            taken kept.1),
    )
