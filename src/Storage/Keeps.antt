-- ===== src/Storage/Keeps.antt =====
-- Properties of the tables that every statement of a query keeps: the query keeps them too, in a
-- transaction or not, whatever fails.
use react_native_nitro_sync.Prelude.{
  subst, ◌≡◌, inl, inr, true, false, Bool, Option, none, some, List, [], ◌∷◌, Option-cases,
}
use react_native_nitro_sync.Types.{Result, ok, err}
use react_native_nitro_sync.Exec.{Result-cases, bind-ok, bind-err}
use react_native_nitro_sync.Exec.Keeps.{Keeps, Keeps-return, Keeps-bind, Keeps-then}
use react_native_nitro_sync.Storage.Tables.{Tables, Statement}
use react_native_nitro_sync.Storage.Database.{
  Database, Query, ◌>>=◌, return, attempt, apply, execute, execute_each, select, begin, start,
  commit, finish, rollback, undo, recover_from, transaction,
}

abbrev pub Invariant : (Tables → Type 0) → Statement → Type 0
Invariant R st = (t t' : Tables) → st t ≡ some t' → R t → R t'

abbrev Held : (Tables → Type 0) → Option Tables → Type 0
Held R none = Unit
Held R (some t) = R t

-- A call that a fault prevents changes nothing but the faults to come.
attempt-Keeps :
    (P : Tables → Option Tables → Type 0) {A : Type 0} (fs : List Bool) (run : Query A)
    → Keeps (λ d. P d.tables d.saved) run
    → Keeps (λ d. P d.tables d.saved) (attempt fs run)
unfolding attempt
attempt-Keeps P [] run k = k
attempt-Keeps P (true ∷ fs) run k = record { at = λ d h. h }
attempt-Keeps P (false ∷ fs) run k = record { at = λ d h. k.at (record d { faults = fs }) h }

apply-Keeps :
    (P : Tables → Option Tables → Type 0) (st : Statement)
    → ((t t' : Tables) (o : Option Tables) → st t ≡ some t' → P t o → P t' o)
    → Keeps (λ d. P d.tables d.saved) (apply st)
apply-Keeps P st k = record {
  at = λ d h. elim (Option-cases (st d.tables)) [
    | inl e ↦ rw (e, apply) h
    | inr (t, e) ↦ rw (e, apply) (k d.tables t d.saved e h)
  ];
}

execute-Keeps :
    (P : Tables → Option Tables → Type 0) (st : Statement)
    → ((t t' : Tables) (o : Option Tables) → st t ≡ some t' → P t o → P t' o)
    → Keeps (λ d. P d.tables d.saved) (execute st)
unfolding execute
execute-Keeps P st k = record {
  at = λ d h. (attempt-Keeps P d.faults (apply st) (apply-Keeps P st k)).at d h;
}

module _ (R : Tables → Type 0) where
  pub Keeps-execute : (st : Statement) → Invariant R st → Keeps (λ d. R d.tables) (execute st)
  Keeps-execute st k = execute-Keeps (λ t o. R t) st (λ t t' o. k t t')

  pub Keeps-select : {A : Type 0} (f : Tables → A) → Keeps (λ d. R d.tables) (select f)
  unfolding select
  Keeps-select f = record {
    at = λ d h.
        (attempt-Keeps (λ t o. R t) d.faults (λ e. (ok (f e.tables), e))
            record { at = λ e k. k }).at
          d h;
  }

  -- Inside a transaction, what a rollback restores has the property as well.
  abbrev pub Within : Database → Type 0
  Within d = R d.tables × Held R d.saved

  pub Within-execute : (st : Statement) → Invariant R st → Keeps Within (execute st)
  Within-execute st k = execute-Keeps (λ t o. R t × Held R o) st (λ t t' o e h. (k t t' e h.0, h.1))

  pub Within-select : {A : Type 0} (f : Tables → A) → Keeps Within (select f)
  unfolding select
  Within-select f = record {
    at = λ d h.
        (attempt-Keeps (λ t o. R t × Held R o) d.faults (λ e. (ok (f e.tables), e))
            record { at = λ e k. k }).at
          d h;
  }

  pub Within-each :
      {A : Type 0} (st : A → Statement) (as_ : List A)
      → ((a : A) → Invariant R (st a))
      → Keeps Within (execute_each st as_)
  unfolding execute_each
  Within-each st [] k = Keeps-return tt
  Within-each st (a ∷ as_) k =
      Keeps-then (execute (st a)) (execute_each st as_) (Within-execute (st a) (k a))
        (Within-each st as_ k)

  Within-finish : (d : Database) → Within d → Within (finish d).1
  Within-finish d h = elim (Option-cases d.saved) [
    | inl e ↦ rw (e, finish) h
    | inr (t, e) ↦ rw (e, finish) (h.0, tt)
  ]

  Within-undo : (d : Database) → Within d → Within (undo d).1
  Within-undo d h = elim (Option-cases d.saved) [
    | inl e ↦ rw (e, undo) h
    | inr (t, e) ↦ let back : Held R d.saved = h.1 in rw (e, undo) (subst (Held R) e back, tt)
  ]

  Within-commit : Keeps Within commit
  unfolding commit
  Within-commit = record {
    at = λ d h.
        (attempt-Keeps (λ t o. R t × Held R o) d.faults finish record { at = Within-finish }).at d
          h;
  }

  Within-rollback : Keeps Within rollback
  unfolding rollback
  Within-rollback = record {
    at = λ d h.
        (attempt-Keeps (λ t o. R t × Held R o) d.faults undo record { at = Within-undo }).at d h;
  }

  -- The end of a transaction, from what its body did.
  recover_keeps :
      {A : Type 0} (r : Result A) (d : Database) → Within d → R (recover_from (r, d)).1.tables
  recover_keeps (ok a) d h = h.0
  recover_keeps (err e) d h =
      ((Keeps-bind rollback (λ u d. (err e, d)) Within-rollback (λ u. record { at = λ d h. h })).at
        d h).0

  abbrev Opens : Result (Unit {0}) × Database → Type 0
  Opens r = (r.0 ≡ ok tt → Within r.1) × R r.1.tables

  start-Opens : (d : Database) → R d.tables → Opens (start d)
  start-Opens d h = elim (Option-cases d.saved) [
    | inl e ↦ rw (e, start) (λ k. (h, h), h)
    | inr (t, e) ↦ rw (e, start) (λ k. cc, h)
  ]

  attempt-Opens : (fs : List Bool) (d : Database) → R d.tables → Opens (attempt fs start d)
  unfolding attempt
  attempt-Opens [] d h = start-Opens d h
  attempt-Opens (true ∷ fs) d h = (λ k. cc, h)
  attempt-Opens (false ∷ fs) d h = start-Opens (record d { faults = fs }) h

  begin-Opens : (d : Database) → R d.tables → Opens (begin d)
  unfolding begin
  begin-Opens d h = attempt-Opens d.faults d h

  pub Keeps-transaction :
      {A : Type 0} (body : Query A) → Keeps Within body → Keeps (λ d. R d.tables) (transaction body)
  unfolding transaction
  Keeps-transaction body k = record {
    at = λ d h. elim (Result-cases (begin d).0) [
      | inl (u, e) ↦
          rw
            (bind-ok begin (λ u d. recover_from ((body >>= λ a. commit >>= λ u. return a) d)) d u e)
            (let run = (body >>= λ a. commit >>= λ u. return a) (begin d).1 in
              recover_keeps run.0 run.1 (
                (Keeps-bind body _ k
                    (λ a. Keeps-bind commit _ Within-commit (λ u. Keeps-return a))).at
                  (begin d).1 ((begin-Opens d h).0 e)))
      | inr (x, e) ↦
          rw
            (bind-err begin (λ u d. recover_from ((body >>= λ a. commit >>= λ u. return a) d)) d x
              e)
            (begin-Opens d h).1
    ];
  }
