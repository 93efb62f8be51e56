-- ===== src/Provider/Adapter/Statements.antt =====
-- Which statements leave a mutation SYNCING, and which free it.
use react_native_nitro_sync.Prelude.{
  ◌≡◌, refl, sym, subst, inl, inr, Bool, true, false, not, ◌&&◌, some, String, List, [], ◌∷◌, map,
  filter, any, arith, ◌==◌, string_eq, option_eq, if◌then◌else◌, Bool-cases,
}
use react_native_nitro_sync.Value.Number.{Number}
use react_native_nitro_sync.Types.{SyncRecord, string_id}
use react_native_nitro_sync.Value.Json.{string, set}
use react_native_nitro_sync.Storage.Tables.{
  QueueRow, RecordRow, Tables, Statement, is_syncing, has_id, update_queue, delete_queue,
  upsert_record, upsert_tombstone, insert_row, delete_table, delete_tombstone, rename_record,
  rename_queued,
}
use react_native_nitro_sync.Storage.Keeps.{Invariant}

abbrev pub stuck_row : String → QueueRow → Bool
stuck_row x r = (r.id == x) && is_syncing r.status

-- The mutation with an id is SYNCING.
abbrev pub is_stuck : String → Tables → Bool
is_stuck x t = any (stuck_row x) t.queue

-- A claim about a mutation that holds if it is SYNCING.
abbrev pub Only : String → Type 0 → Tables → Type 0
Only x B t = is_stuck x t ≡ true → B

-- A statement on the records only.
abbrev pub SameQueue : Statement → Type 0
SameQueue st = (t t' : Tables) → st t ≡ some t' → t'.queue ≡ t.queue

pub SameQueue-Invariant :
    (x : String) (B : Type 0) (st : Statement) → SameQueue st → Invariant (Only x B) st
SameQueue-Invariant x B st same t t' e h k =
    h (subst (λ q. any (stuck_row x) q ≡ true) (same t t' e) k)

pub upsert_record-SameQueue :
    (table : String) (r : SyncRecord) (timestamp : Number)
    → SameQueue (upsert_record table r timestamp)
unfolding upsert_record
upsert_record-SameQueue table r timestamp t t' e = ground arith

pub upsert_tombstone-SameQueue :
    (table id : String) (timestamp : Number) → SameQueue (upsert_tombstone table id timestamp)
unfolding upsert_tombstone
upsert_tombstone-SameQueue table id timestamp t t' e = ground arith

pub insert_row-SameQueue : (row : RecordRow) → SameQueue (insert_row row)
unfolding insert_row
insert_row-SameQueue row t t' e = ground arith

pub delete_table-SameQueue : (table : String) → SameQueue (delete_table table)
unfolding delete_table
delete_table-SameQueue table t t' e = ground arith

pub delete_tombstone-SameQueue :
    (table id : String) (through : Number) → SameQueue (delete_tombstone table id through)
unfolding delete_tombstone
delete_tombstone-SameQueue table id through t t' e = ground arith

pub rename_record-SameQueue : (table from to : String) → SameQueue (rename_record table from to)
unfolding rename_record
rename_record-SameQueue table from to t t' e = ground arith

-- A change of rows that makes none SYNCING.
abbrev pub IsCalmChange : (QueueRow → QueueRow) → Type 0
IsCalmChange change =
    (x : String) (r : QueueRow) → stuck_row x (change r) ≡ true → stuck_row x r ≡ true

any-map_calm :
    (x : String) (change : QueueRow → QueueRow) (rows : List QueueRow)
    → IsCalmChange change
    → any (stuck_row x) (map change rows) ≡ true
    → any (stuck_row x) rows ≡ true
any-map_calm x change [] calm h = h
any-map_calm x change (r ∷ rows) calm h = elim (Bool-cases (stuck_row x (change r))) [
  | inl e ↦ ground (arith, calm x r e)
  | inr e ↦ ground (arith, any-map_calm x change rows calm)
]

pub map-Invariant :
    (x : String) (B : Type 0) (change : QueueRow → QueueRow) (st : Statement)
    → IsCalmChange change
    → ((t t' : Tables) → st t ≡ some t' → t'.queue ≡ map change t.queue)
    → Invariant (Only x B) st
map-Invariant x B change st calm same t t' e h k =
    h (any-map_calm x change t.queue calm (subst (λ q. any (stuck_row x) q ≡ true) (same t t' e) k))

where_calm :
    (where_ : QueueRow → Bool) (change : QueueRow → QueueRow)
    → IsCalmChange change
    → IsCalmChange (λ r. if where_ r then change r else r)
where_calm where_ change calm x r h = elim (Bool-cases (where_ r)) [
  | inl e ↦ calm x r (subst (λ b. stuck_row x (if b then change r else r) ≡ true) e h)
  | inr e ↦ subst (λ b. stuck_row x (if b then change r else r) ≡ true) e h
]

pub update_queue-Invariant :
    (x : String) (B : Type 0) (where_ : QueueRow → Bool) (change : QueueRow → QueueRow)
    → IsCalmChange change
    → Invariant (Only x B) (update_queue where_ change)
unfolding update_queue
update_queue-Invariant x B where_ change calm =
    map-Invariant x B (λ r. if where_ r then change r else r) (update_queue where_ change)
      (where_calm where_ change calm) (λ t t' e. ground arith)

any-filter_calm :
    (x : String) (p : QueueRow → Bool) (rows : List QueueRow)
    → any (stuck_row x) (filter p rows) ≡ true
    → any (stuck_row x) rows ≡ true
any-filter_calm x p [] h = h
any-filter_calm x p (r ∷ rows) h = ground (arith, any-filter_calm x p rows)

pub delete_queue-Invariant :
    (x : String) (B : Type 0) (where_ : QueueRow → Bool)
    → Invariant (Only x B) (delete_queue where_)
unfolding delete_queue
delete_queue-Invariant x B where_ t t' e h k =
    let rest : t'.queue ≡ filter (λ r. not (where_ r)) t.queue = ground arith in
    h (
      any-filter_calm x (λ r. not (where_ r)) t.queue
        (subst (λ q. any (stuck_row x) q ≡ true) rest k))

pub rename_queued-Invariant :
    (x : String) (B : Type 0) (table from to : String)
    → Invariant (Only x B) (rename_queued table from to)
unfolding rename_queued
rename_queued-Invariant x B table from to =
    map-Invariant x B
      (λ r.
        if (r.table_name == table) && (string_id r.payload == some from)
        then record r { payload = set "id" (string to) r.payload }
        else r)
      (rename_queued table from to)
      (where_calm (λ r. (r.table_name == table) && (string_id r.payload == some from))
        (λ r. record r { payload = set "id" (string to) r.payload }) (λ y r h. h))
      (λ t t' e. ground arith)

-- A change that leaves a row with the id not SYNCING.
update_free :
    (x : String) (change : QueueRow → QueueRow) (rows : List QueueRow)
    → ((r : QueueRow) → is_syncing (change r).status ≡ false)
    → any (stuck_row x) (map (λ r. if has_id x r then change r else r) rows) ≡ false
update_free x change [] free = refl
update_free x change (r ∷ rows) free = elim (Bool-cases (r.id == x)) [
  | inl e ↦ rw e (ground (arith, free r, update_free x change rows free))
  | inr e ↦ rw e (ground (arith, update_free x change rows free))
]

pub update_queue_frees :
    (x : String) (change : QueueRow → QueueRow) (t t' : Tables)
    → ((r : QueueRow) → is_syncing (change r).status ≡ false)
    → update_queue (has_id x) change t ≡ some t'
    → is_stuck x t' ≡ false
unfolding update_queue
update_queue_frees x change t t' free e =
    let now : t'.queue ≡ map (λ r. if has_id x r then change r else r) t.queue = ground arith in
    subst (λ q. any (stuck_row x) q ≡ false) (sym now) (update_free x change t.queue free)

delete_free :
    (x : String) (rows : List QueueRow)
    → any (stuck_row x) (filter (λ r. not (has_id x r)) rows) ≡ false
delete_free x [] = refl
delete_free x (r ∷ rows) = ground (arith, delete_free x rows)

pub delete_queue_frees :
    (x : String) (t t' : Tables) → delete_queue (has_id x) t ≡ some t' → is_stuck x t' ≡ false
unfolding delete_queue
delete_queue_frees x t t' e =
    let now : t'.queue ≡ filter (λ r. not (has_id x r)) t.queue = ground arith in
    subst (λ q. any (stuck_row x) q ≡ false) (sym now) (delete_free x t.queue)
