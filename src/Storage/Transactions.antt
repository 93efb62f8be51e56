-- ===== src/Storage/Transactions.antt =====
-- What the adapter's four transactions (src/storage.ts) leave on the disk.
use react_native_nitro_sync.Prelude.{
  ◌≡◌, ◌⊎◌, ap, sym, ◌∙◌, inl, inr, false, Option, none, some, String, List, ℕ, map, ◌==◌,
  string_eq,
}
use mathlib.Core.Option.{some-injective}
use react_native_nitro_sync.Value.Number.{Number}
use react_native_nitro_sync.Types.{SyncMutation, SyncRecord, SyncTombstone, Error, Result, ok, err}
use react_native_nitro_sync.Settlement.{ids}
use react_native_nitro_sync.Storage.Tables.{Tables, due_rows}
use react_native_nitro_sync.Storage.Database.{Database, durable}
use react_native_nitro_sync.Storage.{
  row_mutation, list_pending_mutations, remap_record_id, replace_table,
}
use react_native_nitro_sync.Storage.Atomic.{Effect, AllOrNothing, stating, stating_inverse}
use react_native_nitro_sync.Storage.Writes.{
  replace_effect, remap_effect, claim_effect, replace_table-AllOrNothing,
  remap_record_id-AllOrNothing, list_pending-AllOrNothing,
}
use react_native_nitro_sync.Storage.Replace.{replaced, renamed, effect-replaced, effect-renamed}
use react_native_nitro_sync.Storage.Claim.{marked_queue, marked_lem}

-- Either the call returns, no transaction is open and the disk is as promised of the tables before, or
-- the call throws and the disk is as the tables were.
abbrev pub IsAtomic :
    {A : Type 0} → (A → Tables → Tables → Type 0) → Database → Result A × Database → Type 0
IsAtomic {A} promised db (r, db') =
    ((a : A) × (r ≡ ok a) × (db'.saved ≡ none) × promised a db.tables (durable db'))
    ⊎ ((e : Error) × (r ≡ err e) × (durable db' ≡ db.tables))

promise :
    {A : Type 0} (f : Effect A) (promised : A → Tables → Tables → Type 0) (db : Database)
    (end_ : Result A × Database)
    → ((a : A) (t' : Tables) → f db.tables ≡ some (a, t') → promised a db.tables t')
    → AllOrNothing f db end_
    → IsAtomic promised db end_
promise f promised db (r, db') keep (inl (a, e, closed, whole)) =
    inl (a, e, closed, keep a (durable db') whole)
promise f promised db (r, db') keep (inr (x, e, same)) = inr (x, e, same)

-- Where no transaction is open, a table is replaced atomically under any failure of the database:
-- either the call returns, and the disk holds the queue and the other tables' rows as they were,
-- followed by a row for each new record, not deleted and of the given time, and one for each tombstone,
-- deleted and of its own time; or the call throws and the disk is as it was.
pub replace_table-IsAtomic :
    (table : String) (records : List SyncRecord) (tombstones : List SyncTombstone)
    (timestamp : Number) (db : Database)
    → db.saved ≡ none
    → IsAtomic
        (λ _ t t'. t' ≡ replaced table records tombstones timestamp t)
        db
        (replace_table table records tombstones timestamp db)
replace_table-IsAtomic table records tombstones timestamp db closed =
    promise (stating (replace_effect table records tombstones timestamp))
      (λ _ t t'. t' ≡ replaced table records tombstones timestamp t) db
      (replace_table table records tombstones timestamp db)
      (λ a t' e.
        effect-replaced table records tombstones timestamp db.tables t'
          (stating_inverse (replace_effect table records tombstones timestamp) db.tables t' a e))
      (replace_table-AllOrNothing table records tombstones timestamp db closed)

-- Where no transaction is open, a record id is renamed everywhere or nowhere under any failure of the
-- database; the two ids differ. Either the call returns, and on disk the table's row with the old id
-- has the new one, in its key and its payload, as has each queued payload of the table with the old
-- id, and nothing else has changed; or the call throws and the disk is as it was.
pub remap_record_id-IsAtomic :
    (table from to : String) (db : Database)
    → (from == to) ≡ false
    → db.saved ≡ none
    → IsAtomic (λ _ t t'. t' ≡ renamed table from to t) db (remap_record_id table from to db)
remap_record_id-IsAtomic table from to db differ closed =
    promise (stating (remap_effect table from to)) (λ _ t t'. t' ≡ renamed table from to t) db
      (remap_record_id table from to db)
      (λ a t' e.
        effect-renamed table from to db.tables t'
          (stating_inverse (remap_effect table from to) db.tables t' a e))
      (remap_record_id-AllOrNothing table from to db differ closed)

-- Where no transaction is open, a claim is atomic under any failure of the database: either the call
-- returns the due mutations, and on disk exactly the queue's rows with their ids have become SYNCING
-- and nothing else has changed; or the call throws and the disk is as it was.
pub list_pending-IsAtomic :
    (limit : ℕ) (table : Option String) (now : ℕ) (db : Database)
    → db.saved ≡ none
    → IsAtomic
        (λ ms t t'.
          (ms ≡ map row_mutation (due_rows limit table now t)) × (t' ≡ marked_queue (ids ms) t))
        db
        (list_pending_mutations limit table now db)
list_pending-IsAtomic limit table now db closed =
    let due = map row_mutation (due_rows limit table now db.tables) in
    promise (claim_effect limit table now)
      (λ ms t t'.
        (ms ≡ map row_mutation (due_rows limit table now t)) × (t' ≡ marked_queue (ids ms) t))
      db (list_pending_mutations limit table now db)
      (λ ms t' e.
        let at : ◌≡◌ {A = List SyncMutation × Tables} (due, marked_queue (ids due) db.tables)
            (ms, t') =
          some-injective _ _ (sym (marked_lem due db.tables) ∙ e) in
        (
          sym (ap (λ p. p.0) at),
          sym (ap (λ p. p.1) at) ∙ ap (λ l. marked_queue (ids l) db.tables) (ap (λ p. p.0) at),
        ))
      (list_pending-AllOrNothing limit table now db closed)
