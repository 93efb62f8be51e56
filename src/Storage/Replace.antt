-- ===== src/Storage/Replace.antt =====
-- What `replaceTable` and `remapRecordId` leave in the tables.
use mathlib.Core.Option.{some-injective}
use mathlib.Core.List.{append_assoc, append-nil}
use react_native_nitro_sync.Prelude.{
  ◌≡◌, refl, ap, sym, ◌∙◌, Bool, true, false, not, ◌&&◌, Option, none, some, String, List, [], ◌∷◌,
  ◌++◌, map, filter, arith, any, Option-cases, Bool-cases, inl, inr, ◌==◌, string_eq, option_eq,
  if◌then◌else◌,
}
use react_native_nitro_sync.Value.Number.{Number}
use react_native_nitro_sync.Value.Json.{string, end, field, get, set, as_string}
use react_native_nitro_sync.Types.{SyncRecord, SyncTombstone, record_id}
use react_native_nitro_sync.Storage.Tables.{
  RecordRow, QueueRow, Tables, Statement, has_key, delete_table, insert_row, rename_record,
  rename_queued,
}
use react_native_nitro_sync.Storage.{insert_record, insert_tombstone}
use react_native_nitro_sync.Storage.Atomic.{each_in_turn, in_turn}
use react_native_nitro_sync.Storage.Writes.{replace_effect, remap_effect}

-- The row of a record that the server sent, and of a tombstone.
abbrev pub live_row : String → Number → SyncRecord → RecordRow
live_row table at r = record {
  table_name = table;
  record_id = record_id r;
  payload = r;
  updated_at = at;
  deleted = false;
}

abbrev pub dead_row : String → SyncTombstone → RecordRow
dead_row table t = record {
  table_name = table;
  record_id = t.id;
  payload = field "id" (string t.id) end;
  updated_at = t.timestamp;
  deleted = true;
}

abbrev pub elsewhere : String → RecordRow → Bool
elsewhere table r = if r.table_name == table then false else true

-- The tables with one table's rows replaced.
abbrev pub replaced : String → List SyncRecord → List SyncTombstone → Number → Tables → Tables
replaced table records tombstones at t = record {
  queue = t.queue;
  records =
      filter (elsewhere table) t.records
      ++ (map (live_row table at) records ++ map (dead_row table) tombstones);
}

none-some : {A : Type 0} (a : A) → ◌≡◌ {A = Option A} none (some a) → ⊥
none-some a h = cc

-- The two halves of a sequence of statements that succeeds.
in_turn-some :
    (st st' : Statement) (t t' : Tables)
    → in_turn st st' t ≡ some t'
    → (mid : Tables) × (st t ≡ some mid) × (st' mid ≡ some t')
in_turn-some st st' t t' h = elim (Option-cases (st t)) [
  | inl e ↦ absurd (none-some t' (rw (e, in_turn) at h))
  | inr (mid, e) ↦ (mid, e, rw (e, in_turn) at h)
]

-- Inserting one row, where it succeeds, appends it.
inserted :
    (row : RecordRow) (t t' : Tables)
    → insert_row row t ≡ some t'
    → t' ≡ record t { records = t.records ++ row ∷ [] }
unfolding insert_row
inserted row t t' h = elim (Bool-cases (any (has_key row.table_name row.record_id) t.records)) [
  | inl e ↦ absurd (none-some t' (rw e at h))
  | inr e ↦ sym (some-injective _ _ (rw e at h))
]

-- Inserting the rows of a list one after the other, where it succeeds, appends them.
inserted_rows :
    {A : Type 0} (st : A → Statement) (row : A → RecordRow)
    → ((a : A) (t : Tables) → st a t ≡ insert_row (row a) t)
    → (as_ : List A) (t t' : Tables) → each_in_turn st as_ t ≡ some t'
    → t' ≡ record t { records = t.records ++ map row as_ }
inserted_rows st row same [] t t' h =
    sym (some-injective _ _ h) ∙ ap (λ rs. record t { records = rs }) (sym (append-nil t.records))
inserted_rows st row same (a ∷ as_) t t' h =
    let (mid, first, rest) = in_turn-some (st a) (each_in_turn st as_) t t' h in
    let at = inserted (row a) t mid (sym (same a t) ∙ first) in
    inserted_rows st row same as_ mid t' rest
    ∙ ap {A = Tables} (λ m. record m { records = m.records ++ map row as_ }) at
    ∙ ap (λ rs. record t { records = rs }) (append_assoc t.records (row a ∷ []) (map row as_))

kept_rows :
    (table : String) (rows : List RecordRow)
    → filter (λ r. not (r.table_name == table)) rows ≡ filter (elsewhere table) rows
kept_rows table [] = refl
kept_rows table (r ∷ rows) = ground (arith, kept_rows table rows)

pub effect-replaced :
    (table : String) (records : List SyncRecord) (tombstones : List SyncTombstone) (at : Number)
    (t t' : Tables)
    → replace_effect table records tombstones at t ≡ some t'
    → t' ≡ replaced table records tombstones at t
unfolding delete_table insert_record insert_tombstone
effect-replaced table records tombstones at t t' h =
    let (mid, deleted, rest) =
      in_turn-some (delete_table table)
        (in_turn (each_in_turn (insert_record table at) records)
          (each_in_turn (insert_tombstone table) tombstones))
        t t' h in
    let (full, live, dead) =
      in_turn-some (each_in_turn (insert_record table at) records)
        (each_in_turn (insert_tombstone table) tombstones) mid t' rest in
    inserted_rows (insert_tombstone table) (dead_row table) (λ _ _. refl) tombstones full t' dead
    ∙ ap {A = Tables} (λ m. record m { records = m.records ++ map (dead_row table) tombstones })
        (inserted_rows (insert_record table at) (live_row table at) (λ _ _. refl) records mid full
          live)
    ∙ ap {A = Tables}
        (λ m. record m {
          records = m.records ++ map (live_row table at) records ++ map (dead_row table) tombstones;
        })
        (sym (some-injective _ _ deleted))
    ∙ ap (λ rs. record t { records = rs })
        (append_assoc (filter (λ r. not (r.table_name == table)) t.records)
            (map (live_row table at) records) (map (dead_row table) tombstones)
          ∙ ap (λ rs. rs ++ (map (live_row table at) records ++ map (dead_row table) tombstones))
              (kept_rows table t.records))

-- A row and a queued mutation whose id is renamed, in the row's key and in the payloads.
abbrev pub renamed_row : String → String → String → RecordRow → RecordRow
renamed_row table from to r =
    if (r.table_name == table) && (r.record_id == from)
    then record r { record_id = to; payload = set "id" (string to) r.payload }
    else r

abbrev pub renamed_mutation : String → String → String → QueueRow → QueueRow
renamed_mutation table from to q =
    if (q.table_name == table) && (as_string (get "id" q.payload) == some from)
    then record q { payload = set "id" (string to) q.payload }
    else q

abbrev pub renamed : String → String → String → Tables → Tables
renamed table from to t = record {
  queue = map (renamed_mutation table from to) t.queue;
  records = map (renamed_row table from to) t.records;
}

pub effect-renamed :
    (table from to : String) (t t' : Tables)
    → remap_effect table from to t ≡ some t'
    → t' ≡ renamed table from to t
unfolding rename_record rename_queued
effect-renamed table from to t t' h =
    let (mid, rows, queue) =
      in_turn-some (rename_record table from to) (rename_queued table from to) t t' h in
    elim (Bool-cases (any (has_key table from) t.records && any (has_key table to) t.records)) [
      | inl e ↦ absurd (none-some mid (rw e at rows))
      | inr e ↦
          let at = sym (some-injective _ _ (rw e at rows)) in
          sym (some-injective _ _ queue)
          ∙ ap {A = Tables} (λ m. record m { queue = map (renamed_mutation table from to) m.queue })
              at
    ]
