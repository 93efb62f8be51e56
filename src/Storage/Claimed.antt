-- ===== src/Storage/Claimed.antt =====
-- A claim that returned, and a later one (`listPendingMutations` of src/storage.ts).
use react_native_nitro_sync.Prelude.{
  ℕ, ◌≡◌, ap, sym, subst, ◌∙◌, inl, inr, true, false, Option, none, String, List, map, arith,
  contains,
}
use react_native_nitro_sync.Types.{SyncMutation, ok, ok-injective}
use react_native_nitro_sync.Settlement.{ids}
use react_native_nitro_sync.Storage.Tables.{due_rows}
use react_native_nitro_sync.Storage.Database.{
  Database, begin, transaction, Query, ◌>>=◌, commit, recover_from, return,
}
use react_native_nitro_sync.Storage.{row_mutation, claim, list_pending_mutations}
use react_native_nitro_sync.Storage.Atomic.{durable_closed}
use react_native_nitro_sync.Storage.Transactions.{IsAtomic, list_pending-IsAtomic}
use react_native_nitro_sync.Storage.Claim.{marked_queue, claimed_once}
use react_native_nitro_sync.Exec.{bind-err, Result-cases}

-- BEGIN returns only where no transaction is open.
begin_closed : (d : Database) → (begin d).0 ≡ ok tt → d.saved ≡ none
unfolding begin
begin_closed d h = ground arith

transaction_began :
    {A : Type 0} (body : Query A) (d : Database) (a : A)
    → (transaction body d).0 ≡ ok a
    → (begin d).0 ≡ ok tt
unfolding transaction
transaction_began body d a h = elim (Result-cases (begin d).0) [
  | inl (u, e) ↦ e
  | inr (x, e) ↦ absurd (
      cc (
        ap (λ t. t.0)
            (bind-err begin (λ u d. recover_from ((body >>= λ a. commit >>= λ u. return a) d)) d x
              e),
        h,
      ))
]

-- A claim that returned: what it returned, and the tables that it left.
pub claimed_lem :
    (limit : ℕ) (requested : Option String) (now : ℕ) (d d' : Database) (ms : List SyncMutation)
    → list_pending_mutations limit requested now d ≡ (ok ms, d')
    → (ms ≡ map row_mutation (due_rows limit requested now d.tables))
      × (d'.tables ≡ marked_queue (ids ms) d.tables)
unfolding list_pending_mutations
claimed_lem limit requested now d d' ms e =
    let closed =
      begin_closed d (transaction_began (claim limit requested now) d ms (ap (λ r. r.0) e)) in
    let whole =
      subst
        (IsAtomic
          (λ a t t'.
            (a ≡ map row_mutation (due_rows limit requested now t)) × (t' ≡ marked_queue (ids a) t))
          d)
        e (list_pending-IsAtomic limit requested now d closed) in
    elim whole [
      | inl (a, same, over, (due, left)) ↦
          let here : ms ≡ a = ok-injective _ _ same in
          (
            here ∙ due,
            sym (durable_closed d' over)
                ∙ left
                ∙ ap (λ l. marked_queue (ids l) d.tables) (sym here),
          )
      | inr (x, failed, rest) ↦ absurd (cc failed)
    ]

-- Nothing is claimed twice: where a claim has returned and a later claim on the tables that it left
-- returns too, whatever their times, tables and limits, the later one returns no mutation with an id
-- that the first one returned.
pub no_double_claim :
    (limit limit' : ℕ) (table table' : Option String) (now now' : ℕ) (d d' e e' : Database)
    (ms again : List SyncMutation) (x : String)
    → list_pending_mutations limit table now d ≡ (ok ms, d')
    → e.tables ≡ d'.tables
    → list_pending_mutations limit' table' now' e ≡ (ok again, e')
    → contains (ids ms) x ≡ true
    → contains (ids again) x ≡ false
no_double_claim limit limit' table table' now now' d d' e e' ms again x first same second h =
    let (due, left) = claimed_lem limit table now d d' ms first in
    let (due', left') = claimed_lem limit' table' now' e e' again second in
    let at = due' ∙ ap (λ t. map row_mutation (due_rows limit' table' now' t)) (same ∙ left) in
    subst (λ l. contains (ids l) x ≡ false) (sym at)
      (claimed_once limit' table' now' d.tables (ids ms) x h)
