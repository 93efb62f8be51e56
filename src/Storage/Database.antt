-- ===== src/Storage/Database.antt =====
-- The adapter's connection: statements that may fail, and transactions.
use react_native_nitro_sync.Prelude.{Bool, true, false, Option, none, some, List, [], ◌∷◌}
use react_native_nitro_sync.Types.{thrown, Result, ok, err}
use react_native_nitro_sync.Exec.{Exec}
pub use react_native_nitro_sync.Exec.{◌>>=◌, ◌>>◌, return}
use react_native_nitro_sync.Storage.Tables.{Tables, Statement}

-- `saved` holds the tables at the start of an open transaction. `faults` says which of the coming calls
-- of `executeSync` fail for reasons outside the program (disk, lock); past its end none does.
pub record Database : Type 0 where
  pub tables : Tables
  pub saved : Option Tables
  pub faults : List Bool

-- What is on disk: an open transaction does not count.
abbrev pub durable : Database → Tables
durable db = elim db.saved [ none ↦ db.tables | some t ↦ t ]

abbrev pub Query : Type 0 → Type 0
Query = Exec Database

-- One call of `executeSync`: it fails by an outside fault, or does `run`.
unfoldable pub attempt : {A : Type 0} → List Bool → Query A → Query A
attempt [] run db = run db
attempt (true ∷ fs) run db = (err (thrown "executeSync"), record db { faults = fs })
attempt (false ∷ fs) run db = run (record db { faults = fs })

abbrev pub apply : Statement → Query (Unit {0})
apply st db = elim (st db.tables) [
  | none ↦ (err (thrown "constraint"), db)
  | some t ↦ (ok tt, record db { tables = t })
]

unfoldable pub execute : Statement → Query (Unit {0})
unfolding attempt
execute st db = attempt db.faults (apply st) db

-- `for (const a of as) executeSync(…)`
unfoldable pub execute_each : {A : Type 0} → (A → Statement) → List A → Query (Unit {0})
execute_each st [] = return tt
execute_each st (a ∷ as_) = execute (st a) >> execute_each st as_

unfoldable pub select : {A : Type 0} → (Tables → A) → Query A
unfolding attempt
select f db = attempt db.faults (λ d. (ok (f d.tables), d)) db

-- `BEGIN IMMEDIATE TRANSACTION`, refused inside a transaction
abbrev pub start : Query (Unit {0})
start db = elim db.saved [
  | some t ↦ (err (thrown "transaction"), db)
  | none ↦ (ok tt, record db { saved = some db.tables })
]

unfoldable pub begin : Query (Unit {0})
unfolding attempt
begin db = attempt db.faults start db

-- `COMMIT`, refused outside a transaction
abbrev pub finish : Query (Unit {0})
finish db = elim db.saved [
  | none ↦ (err (thrown "transaction"), db)
  | some t ↦ (ok tt, record db { saved = none })
]

unfoldable pub commit : Query (Unit {0})
unfolding attempt
commit db = attempt db.faults finish db

-- `ROLLBACK`, refused outside a transaction
abbrev pub undo : Query (Unit {0})
undo db = elim db.saved [
  | none ↦ (err (thrown "transaction"), db)
  | some t ↦ (ok tt, record db { tables = t; saved = none })
]

unfoldable pub rollback : Query (Unit {0})
unfolding attempt
rollback db = attempt db.faults undo db

-- `catch (error) { ROLLBACK; throw error; }`
abbrev pub recover_from : {A : Type 0} → Result A × Database → Result A × Database
recover_from (ok a, db) = (ok a, db)
recover_from (err e, db) = (rollback >>= λ _ d. (err e, d)) db

-- `BEGIN; try { …; COMMIT; } catch (error) { ROLLBACK; throw error; }`
unfoldable pub transaction : {A : Type 0} → Query A → Query A
transaction body = begin >>= λ _ db. recover_from ((body >>= λ a. commit >>= λ _. return a) db)
