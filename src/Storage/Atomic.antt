-- ===== src/Storage/Atomic.antt =====
-- The effect of a query on the tables, and transactions that happen whole or not at all.
use react_native_nitro_sync.Prelude.{
  ◌≡◌, refl, ap, sym, ◌∙◌, ◌⊎◌, inl, inr, Option, none, some, List, [], ◌∷◌, arith,
}
use react_native_nitro_sync.Types.{Error, Result, ok, err}
use react_native_nitro_sync.Exec.{Result-cases, bind-ok, bind-err}
use react_native_nitro_sync.Storage.Tables.{Tables, Statement}
use react_native_nitro_sync.Storage.Database.{
  Database, durable, Query, ◌>>=◌, ◌>>◌, return, execute, execute_each, select, begin, commit,
  rollback, recover_from, transaction,
}

-- What a query does to the tables when nothing fails.
abbrev pub Effect : Type 0 → Type 0
Effect A = Tables → Option (A × Tables)

abbrev pub stating : Statement → Effect (Unit {0})
stating st t = elim (st t) [ none ↦ none | some t' ↦ some (tt, t') ]

abbrev pub then_effect : {A B : Type 0} → Effect A → (A → Effect B) → Effect B
then_effect f g t = elim (f t) [ none ↦ none | some (a, t') ↦ g a t' ]

-- A query that leaves transactions alone, and succeeds only with the whole effect.
abbrev pub Implements : {A : Type 0} → Query A → Effect A → Type 0
Implements {A} q f =
    (db : Database)
    → ((q db).1.saved ≡ db.saved)
      × ((a : A) → (q db).0 ≡ ok a → f db.tables ≡ some (a, (q db).1.tables))

pub execute-Implements : (st : Statement) → Implements (execute st) (stating st)
unfolding execute
execute-Implements st db = ground arith

pub select-Implements : {A : Type 0} (f : Tables → A) → Implements (select f) (λ t. some (f t, t))
unfolding select
select-Implements f db = ground arith

pub return-Implements : {A : Type 0} (a : A) → Implements (return a) (λ t. some (a, t))
return-Implements a db = ground arith

pub bind-Implements :
    {A B : Type 0} (q : Query A) (f : Effect A) (p : A → Query B) (g : A → Effect B)
    → Implements q f
    → ((a : A) → Implements (p a) (g a))
    → Implements (q >>= p) (then_effect f g)
bind-Implements q f p g hq hp db = elim (Result-cases (q db).0) [
  | inl (a, e) ↦ rw (bind-ok q p db a e) (
    (hp a (q db).1).0 ∙ (hq db).0,
    λ b k. rw ((hq db).1 a e, then_effect) ((hp a (q db).1).1 b k),
  )
  | inr (x, e) ↦ rw (bind-err q p db x e) ((hq db).0, λ b k. cc)
]

-- Either the whole effect is on disk, or nothing of it.
abbrev pub AllOrNothing : {A : Type 0} → Effect A → Database → Result A × Database → Type 0
AllOrNothing {A} f db (r, db') =
    ((a : A) × (r ≡ ok a) × (db'.saved ≡ none) × (f db.tables ≡ some (a, durable db')))
    ⊎ ((e : Error) × (r ≡ err e) × (durable db' ≡ db.tables))

begin_cases :
    (db : Database)
    → db.saved ≡ none
    → (((begin db).0 ≡ ok tt)
        × ((begin db).1.saved ≡ some db.tables)
        × ((begin db).1.tables ≡ db.tables))
      ⊎ ((e : Error) × ((begin db).0 ≡ err e) × (durable (begin db).1 ≡ db.tables))
unfolding begin
begin_cases db closed = elim (Result-cases (begin db).0) [
  | inl (a, e) ↦ inl (e, ground arith, ground arith)
  | inr (x, e) ↦ inr (x, e, ground arith)
]

commit_cases :
    (db : Database) (t : Tables)
    → db.saved ≡ some t
    → (((commit db).0 ≡ ok tt) × ((commit db).1.saved ≡ none) × ((commit db).1.tables ≡ db.tables))
      ⊎ ((e : Error) × ((commit db).0 ≡ err e) × ((commit db).1.saved ≡ some t))
unfolding commit
commit_cases db t open_ = elim (Result-cases (commit db).0) [
  | inl (a, e) ↦ inl (e, ground arith, ground arith)
  | inr (x, e) ↦ inr (x, e, ground arith)
]

-- A failed ROLLBACK leaves the transaction open, so nothing of it is on disk either.
durable-rollback : (db : Database) (t : Tables) → db.saved ≡ some t → durable (rollback db).1 ≡ t
unfolding rollback
durable-rollback db t open_ = ground arith

rolled_back :
    {A : Type 0} (f : Effect A) (start db : Database) (e : Error)
    → db.saved ≡ some start.tables
    → AllOrNothing f start (recover_from (err e, db))
rolled_back f start db e open_ = elim (Result-cases (rollback db).0) [
  | inl (_, done) ↦
      rw (bind-ok rollback (λ _ d. (err e, d)) db tt done)
        (inr (e, refl, durable-rollback db start.tables open_))
  | inr (x, failed) ↦
      rw (bind-err rollback (λ _ d. (err e, d)) db x failed)
        (inr (x, refl, durable-rollback db start.tables open_))
]

pub durable_closed : (db : Database) → db.saved ≡ none → durable db ≡ db.tables
durable_closed db closed = rw (closed, durable)

-- The end of a transaction whose body has come to `a` with the whole effect.
committed :
    {A : Type 0} (f : Effect A) (start db : Database) (a : A)
    → db.saved ≡ some start.tables
    → f start.tables ≡ some (a, db.tables)
    → AllOrNothing f start (recover_from ((commit >>= λ _. return a) db))
committed f start db a open_ whole = elim (commit_cases db start.tables open_) [
  | inl (done, closed, same) ↦ rw (bind-ok commit (λ _. return a) db tt done) (
      inl (
        a,
        refl,
        closed,
        whole ∙ ap (λ t. some (a, t)) (sym (durable_closed (commit db).1 closed ∙ same)),
      ))
  | inr (x, failed, still) ↦
      rw (bind-err commit (λ _. return a) db x failed) (rolled_back f start (commit db).1 x still)
]

run_atomic :
    {A : Type 0} (body : Query A) (f : Effect A) (start db : Database)
    → Implements body f
    → db.saved ≡ some start.tables
    → db.tables ≡ start.tables
    → AllOrNothing f start (recover_from ((body >>= λ a. commit >>= λ _. return a) db))
run_atomic body f start db h opened same = elim (Result-cases (body db).0) [
  | inl (a, e) ↦
      rw (bind-ok body (λ a. commit >>= λ _. return a) db a e)
        (committed f start (body db).1 a ((h db).0 ∙ opened) (ap f (sym same) ∙ (h db).1 a e))
  | inr (x, e) ↦
      rw (bind-err body (λ a. commit >>= λ _. return a) db x e)
        (rolled_back f start (body db).1 x ((h db).0 ∙ opened))
]

pub transaction_atomic :
    {A : Type 0} (body : Query A) (f : Effect A) (db : Database)
    → Implements body f
    → db.saved ≡ none
    → AllOrNothing f db (transaction body db)
unfolding transaction
transaction_atomic body f db h closed = elim (begin_cases db closed) [
  | inr (x, failed, same) ↦ rw (bind-err begin _ db x failed) (inr (x, refl, same))
  | inl (begun, opened, same) ↦
      rw (bind-ok begin _ db tt begun) (run_atomic body f db (begin db).1 h opened same)
]

-- Statement after statement.
abbrev pub in_turn : Statement → Statement → Statement
in_turn st st' t = elim (st t) [ none ↦ none | some t' ↦ st' t' ]

abbrev pub each_in_turn : {A : Type 0} → (A → Statement) → List A → Statement
each_in_turn st [] = some
each_in_turn st (a ∷ as_) = in_turn (st a) (each_in_turn st as_)

-- A query that stands for one statement.
abbrev pub Performs : Query (Unit {0}) → Statement → Type 0
Performs q st = Implements q (stating st)

pub stating_inverse :
    (st : Statement) (t t' : Tables) (a : Unit {0}) → stating st t ≡ some (a, t') → st t ≡ some t'
stating_inverse st t t' a h = ground arith

stating-in_turn :
    (st st' : Statement) (t t' : Tables)
    → st t ≡ some t'
    → stating (in_turn st st') t ≡ stating st' t'
stating-in_turn st st' t t' h = rw (h, stating, in_turn)

pub then-Performs :
    (q p : Query (Unit {0})) (st st' : Statement)
    → Performs q st
    → Performs p st'
    → Performs (q >> p) (in_turn st st')
then-Performs q p st st' hq hp db = elim (Result-cases (q db).0) [
  | inl (a, e) ↦ rw (bind-ok q (λ _. p) db a e) (
    (hp (q db).1).0 ∙ (hq db).0,
    λ b k.
        stating-in_turn st st' db.tables (q db).1.tables
          (stating_inverse st db.tables (q db).1.tables a ((hq db).1 a e))
        ∙ (hp (q db).1).1 b k,
  )
  | inr (x, e) ↦ rw (bind-err q (λ _. p) db x e) ((hq db).0, λ b k. cc)
]

pub each-Performs :
    {A : Type 0} (st : A → Statement) (as_ : List A)
    → Performs (execute_each st as_) (each_in_turn st as_)
unfolding execute_each
each-Performs st [] = return-Implements tt
each-Performs st (a ∷ as_) =
    then-Performs (execute (st a)) (execute_each st as_) (st a) (each_in_turn st as_)
      (execute-Implements (st a)) (each-Performs st as_)
