-- ===== src/TableWorkers/Calls.antt =====
-- The calls and the errors at any time of a run.
use mathlib.Core.List
use mathlib.Core.List.{Perm}
use mathlib.Core.List.Perm
use react_native_nitro_sync.Prelude.{
  ℕ, zero, suc, ◌+◌, ◌≡◌, refl, ap, sym, subst, ◌∙◌, arith, Option, none, some, String, List, [],
  ◌∷◌, ◌++◌, length, take, ◌≤◌, inl, inr, ◌⊎◌,
}
use react_native_nitro_sync.Types.{Error}
use react_native_nitro_sync.TableWorkers.{
  Outcome, resolves, rejects, Worker, ready, busy, returned, crashed, Shared, get_elem?, error_list,
  turn, turn_at, run,
}

-- `take n xs` grows by the element that stands there.
take_more :
    (xs : List String) (n : ℕ) (x : String)
    → get_elem? xs n ≡ some x
    → take (suc n) xs ≡ take n xs ++ x ∷ []
take_more [] n x h = cc
take_more (y ∷ xs) zero x h = cc
take_more (y ∷ xs) (suc n) x h = ap (◌∷◌ y) (take_more xs n x h)

take_end : (xs : List String) (n : ℕ) → get_elem? xs n ≡ none → take (suc n) xs ≡ take n xs
take_end [] zero h = refl
take_end [] (suc n) h = refl
take_end (y ∷ xs) zero h = cc
take_end (y ∷ xs) (suc n) h = ap (◌∷◌ y) (take_end xs n h)

pub past_end : (xs : List String) (n : ℕ) → get_elem? xs n ≡ none → length xs ≤ n
past_end [] n h = omega arith
past_end (y ∷ xs) zero h = cc
past_end (y ∷ xs) (suc n) h = omega (arith, past_end xs n h)

pub get_elem?-cases :
    (xs : List String) (n : ℕ)
    → ((x : String) × (get_elem? xs n ≡ some x)) ⊎ (get_elem? xs n ≡ none)
get_elem?-cases [] n = inr refl
get_elem?-cases (y ∷ xs) zero = inl (y, refl)
get_elem?-cases (y ∷ xs) (suc n) = get_elem?-cases xs n

Outcome-cases :
    (o : Outcome) → ((e : Option Error) × (o ≡ resolves e)) ⊎ ((x : Error) × (o ≡ rejects x))
Outcome-cases (resolves e) = inl (e, refl)
Outcome-cases (rejects x) = inr (x, refl)

grouped : (as_ bs cs : List Error) → Perm (as_ ++ bs ++ cs) (as_ ++ (bs ++ cs))
grouped as_ bs cs = rw (List.append_assoc as_ bs cs) Perm.rfl

exchanged : (as_ bs cs : List Error) → Perm (as_ ++ bs ++ cs) (bs ++ (as_ ++ cs))
exchanged as_ bs cs =
    Perm.trans (Perm.append_right cs (List.perm_append_comm as_ bs)) (grouped bs as_ cs)

-- A new call's error, put with those that are awaited.
moved :
    (errors new others sofar : List Error)
    → Perm (errors ++ others) sofar
    → Perm (errors ++ (new ++ others)) (sofar ++ new)
moved errors new others sofar p =
    Perm.trans (Perm.append_left errors (List.perm_append_comm new others)) (
      subst (λ l. Perm l (sofar ++ new)) (List.append_assoc errors others new)
        (Perm.append_right new p))

module _ (outcome : ℕ → Outcome) where
  -- The error that a call leaves in `errors`.
  abbrev pub answer : ℕ → List Error
  answer i = elim (outcome i) [ resolves e ↦ error_list e | rejects e ↦ [] ]

  -- The errors of the calls for some tables, which start at an index.
  abbrev pub answers : ℕ → List String → List Error
  answers i [] = []
  answers i (t ∷ ts) = answer i ++ answers (suc i) ts

  abbrev pub held : Worker → List Error
  held (busy i) = answer i
  held w = []

  abbrev pub awaited : List Worker → List Error
  awaited [] = []
  awaited (w ∷ ws) = held w ++ awaited ws

  answers_more :
      (ts : List String) (i n : ℕ) (t : String)
      → get_elem? ts n ≡ some t
      → answers i (take (suc n) ts) ≡ answers i (take n ts) ++ answer (i + n)
  answers_more [] i n t h = cc
  answers_more (u ∷ ts) i zero t h = List.append-nil (answer i) ∙ ap answer (omega arith)
  answers_more (u ∷ ts) i (suc n) t h =
      ap (◌++◌ (answer i)) (answers_more ts (suc i) n t h)
      ∙ sym (List.append_assoc (answer i) (answers (suc i) (take n ts)) (answer (suc i + n)))
      ∙ ap (λ k. answer i ++ answers (suc i) (take n ts) ++ answer k) (omega arith)

  resolved :
      (i : ℕ) (r : Option Error) (errors others : List Error) {all_ : List Error}
      → outcome i ≡ resolves r
      → Perm (errors ++ (answer i ++ others)) all_
      → Perm (errors ++ error_list r ++ others) all_
  resolved i r errors others e p =
      rw (List.append_assoc errors (error_list r) others) (rw (e, answer) at p)

  rejected :
      (i : ℕ) (x : Error) (errors others : List Error) {all_ : List Error}
      → outcome i ≡ rejects x
      → Perm (errors ++ (answer i ++ others)) all_
      → Perm (errors ++ others) all_
  rejected i x errors others e p = rw (e, answer) at p

  -- Of the tables that were taken from the counter, each was called once, in order, and its error is
  -- in `errors` or will be.
  module _ (tables : List String) where
    abbrev pub IsRun : List Error → Shared → Type 0
    IsRun outstanding s =
        (s.calls ≡ take s.next_table_index tables)
        × Perm (s.errors ++ outstanding) (answers 0 (take s.next_table_index tables))

    IsRun-perm : (s : Shared) {as_ bs : List Error} → Perm as_ bs → IsRun as_ s → IsRun bs s
    IsRun-perm s q (c, p) = (c, Perm.trans (Perm.append_left s.errors (Perm.symm q)) p)

    turn-IsRun :
        (w : Worker) (s : Shared) (others : List Error)
        → IsRun (held w ++ others) s
        → IsRun (held (turn tables outcome w s).0 ++ others) (turn tables outcome w s).1
    unfolding turn
    turn-IsRun ready s others (c, p) = elim (get_elem?-cases tables s.next_table_index) [
      | inl (t, e) ↦
          rw (e, turn)
            (
              ap (λ cs. cs ++ t ∷ []) c ∙ sym (take_more tables s.next_table_index t e),
              subst (λ as_. Perm (s.errors ++ (answer s.next_table_index ++ others)) as_)
                  (ap (λ k. answers 0 (take s.next_table_index tables) ++ answer k) (omega arith)
                    ∙ sym (answers_more tables 0 s.next_table_index t e))
                  (moved s.errors (answer s.next_table_index) others _ p),
            )
      | inr e ↦ rw (e, turn, take_end tables s.next_table_index e) (c, p)
    ]
    turn-IsRun (busy i) s others (c, p) = elim (Outcome-cases (outcome i)) [
      | inl (r, e) ↦ rw (e, turn) (c, resolved i r s.errors others e p)
      | inr (x, e) ↦ rw (e, turn) (c, rejected i x s.errors others e p)
    ]
    turn-IsRun returned s others h = h
    turn-IsRun crashed s others h = h

    turn_at-IsRun :
        (i : ℕ) (ws : List Worker) (s : Shared) (others : List Error)
        → IsRun (awaited ws ++ others) s
        → IsRun
            (awaited (turn_at tables outcome i ws s).0 ++ others)
            (turn_at tables outcome i ws s).1
    unfolding turn_at
    turn_at-IsRun i [] s others h = h
    turn_at-IsRun zero (w ∷ ws) s others h =
        IsRun-perm (turn tables outcome w s).1
          (Perm.symm (grouped (held (turn tables outcome w s).0) (awaited ws) others))
          (turn-IsRun w s (awaited ws ++ others)
            (IsRun-perm s (grouped (held w) (awaited ws) others) h))
    turn_at-IsRun (suc i) (w ∷ ws) s others h =
        IsRun-perm (turn_at tables outcome i ws s).1
          (Perm.symm (exchanged (held w) (awaited (turn_at tables outcome i ws s).0) others))
          (turn_at-IsRun i ws s (held w ++ others)
            (IsRun-perm s (exchanged (held w) (awaited ws) others) h))

    pub run-IsRun :
        (schedule : List ℕ) (ws : List Worker) (s : Shared)
        → IsRun (awaited ws ++ []) s
        → IsRun
            (awaited (run tables outcome schedule ws s).0 ++ [])
            (run tables outcome schedule ws s).1
    unfolding run
    run-IsRun [] ws s h = h
    run-IsRun (i ∷ schedule) ws s h =
        run-IsRun schedule (turn_at tables outcome i ws s).0 (turn_at tables outcome i ws s).1
          (turn_at-IsRun i ws s [] h)
