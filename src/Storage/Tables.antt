-- ===== src/Storage/Tables.antt =====
-- The two tables of the adapter's SQLite database, and its SQL statements on them. A column of JSON text
-- stands for the value that the text denotes; the adapter writes objects only.
use react_native_nitro_sync.Prelude.{
  ℕ, ◌+◌, Bool, true, false, not, ◌&&◌, Option, none, some, String, List, [], ◌∷◌, ◌++◌, map,
  filter, any, take, ◌==◌, string_eq, leb, if◌then◌else◌, eqb, option_eq,
}
use react_native_nitro_sync.Value.Number.{Number, num, number_leb}
use react_native_nitro_sync.Value.Json.{Json, string, array, nil, Fields, end, field, set}
use react_native_nitro_sync.Types.{
  MutationOperation, MutationStatus, pending, syncing, failed, rejected, SyncMutation, SyncRecord,
  string_id, record_id,
}

-- `sync_queue`
pub record QueueRow : Type 0 where
  pub id : String
  pub table_name : String
  pub operation : MutationOperation
  pub payload : Fields
  pub timestamp : Number
  pub status : MutationStatus
  pub retry_count : ℕ
  pub schema_version : Number
  pub next_retry_at : ℕ
  pub rejection_code : Option String
  pub rejection_message : Option String
  pub depends_on : Json

-- `sync_records`
pub record RecordRow : Type 0 where
  pub table_name : String
  pub record_id : String
  pub payload : Fields
  pub updated_at : Number
  pub deleted : Bool

pub record Tables : Type 0 where
  pub queue : List QueueRow
  pub records : List RecordRow

-- A statement, or `none` where it breaks a constraint.
abbrev pub Statement : Type 0
Statement = Tables → Option Tables

abbrev pub value_or {ℓ} : {A : Type ℓ} → Option A → A → A
value_or none a = a
value_or (some x) a = x

-- `INSERT INTO sync_queue … ON CONFLICT(id) DO NOTHING`
unfoldable pub queue_row : SyncMutation → QueueRow
queue_row m = record {
  id = m.id;
  table_name = m.table_name;
  operation = m.operation;
  payload = m.payload;
  timestamp = m.timestamp;
  status = pending;
  retry_count = 0;
  schema_version = value_or m.schema_version (num 1);
  next_retry_at = 0;
  rejection_code = none;
  rejection_message = none;
  depends_on = value_or m.depends_on (array nil);
}

abbrev pub has_id : String → QueueRow → Bool
has_id id r = r.id == id

unfoldable pub insert_mutation : SyncMutation → Statement
insert_mutation m t =
    some (if any (has_id m.id) t.queue then t else record t { queue = t.queue ++ queue_row m ∷ [] })

abbrev pub has_key : String → String → RecordRow → Bool
has_key table id r = (r.table_name == table) && (r.record_id == id)

-- `INSERT … ON CONFLICT DO UPDATE SET … WHERE excluded.updated_at >= sync_records.updated_at`: `revise`
-- is the SET clause.
unfoldable pub upsert : (RecordRow → RecordRow) → RecordRow → List RecordRow → List RecordRow
upsert revise row [] = row ∷ []
upsert revise row (r ∷ rs) =
    if has_key row.table_name row.record_id r
    then (if number_leb r.updated_at row.updated_at then revise r else r) ∷ rs
    else r ∷ upsert revise row rs

unfoldable pub upsert_record : String → SyncRecord → Number → Statement
upsert_record table r timestamp t = some (record t {
  records =
      upsert (λ old. record old { payload = r; updated_at = timestamp; deleted = false })
        (record {
          table_name = table;
          record_id = record_id r;
          payload = r;
          updated_at = timestamp;
          deleted = false;
        })
        t.records;
})

-- `{ id: recordId }`
abbrev pub only_id : String → Fields
only_id id = field "id" (string id) end

unfoldable pub upsert_tombstone : String → String → Number → Statement
upsert_tombstone table id timestamp t = some (record t {
  records =
      upsert (λ old. record old { updated_at = timestamp; deleted = true })
        (record {
          table_name = table;
          record_id = id;
          payload = only_id id;
          updated_at = timestamp;
          deleted = true;
        })
        t.records;
})

-- `INSERT INTO sync_records … VALUES …`: a second row with the key breaks the primary key.
unfoldable pub insert_row : RecordRow → Statement
insert_row row t =
    if any (has_key row.table_name row.record_id) t.records
    then none
    else some (record t { records = t.records ++ row ∷ [] })

-- `DELETE FROM sync_records WHERE table_name = ?`
unfoldable pub delete_table : String → Statement
delete_table table t =
    some (record t { records = filter (λ r. not (r.table_name == table)) t.records })

-- `DELETE … WHERE table_name = ? AND record_id = ? AND deleted = 1 AND updated_at <= ?`
unfoldable pub delete_tombstone : String → String → Number → Statement
delete_tombstone table id through t = some (record t {
  records =
      filter (λ r. not (has_key table id r && r.deleted && number_leb r.updated_at through))
        t.records;
})

-- `UPDATE sync_queue SET … WHERE …`
unfoldable pub update_queue : (QueueRow → Bool) → (QueueRow → QueueRow) → Statement
update_queue where_ change t =
    some (record t { queue = map (λ r. if where_ r then change r else r) t.queue })

-- `DELETE FROM sync_queue WHERE …`
unfoldable pub delete_queue : (QueueRow → Bool) → Statement
delete_queue where_ t = some (record t { queue = filter (λ r. not (where_ r)) t.queue })

-- `ORDER BY key ASC`
module _ {A : Type 0} (key : A → Number) where
  unfoldable pub insert_by : A → List A → List A
  insert_by a [] = a ∷ []
  insert_by a (b ∷ bs) = if number_leb (key a) (key b) then a ∷ b ∷ bs else b ∷ insert_by a bs

  unfoldable pub order_by : List A → List A
  order_by [] = []
  order_by (a ∷ as_) = insert_by a (order_by as_)

-- `status IN ('PENDING', 'FAILED')`
abbrev pub is_open : MutationStatus → Bool
is_open pending = true
is_open failed = true
is_open _ = false

abbrev pub is_syncing : MutationStatus → Bool
is_syncing syncing = true
is_syncing _ = false

abbrev pub is_rejected : MutationStatus → Bool
is_rejected rejected = true
is_rejected _ = false

-- `tableName === undefined ? '' : 'AND table_name = ?'`
abbrev pub in_table : Option String → QueueRow → Bool
in_table none r = true
in_table (some table) r = r.table_name == table

-- The WHERE clause of the claim; `now` is `strftime('%s', 'now') * 1000`.
unfoldable pub is_due : ℕ → Option String → QueueRow → Bool
is_due now table r = is_open r.status && leb r.next_retry_at now && in_table table r

unfoldable pub due_rows : ℕ → Option String → ℕ → Tables → List QueueRow
due_rows limit table now t =
    take limit (order_by (λ r. r.timestamp) (filter (is_due now table) t.queue))

-- `RETRY_DELAY_SQL`
unfoldable pub retry_delay : ℕ → ℕ
retry_delay n =
    if eqb n 0
    then 1000
    else if eqb n 1
    then 2000
    else if eqb n 2
    then 4000
    else if eqb n 3
    then 8000
    else if eqb n 4
    then 16000
    else if eqb n 5
    then 32000
    else if eqb n 6
    then 64000
    else if eqb n 7
    then 128000
    else if eqb n 8
    then 256000
    else 300000

-- The SET clause of `markMutationFailed`; on the right are the row's old values.
unfoldable pub failed_row : ℕ → QueueRow → QueueRow
failed_row now r = record r {
  status = failed;
  next_retry_at = now + retry_delay r.retry_count;
  retry_count = r.retry_count + 1;
}

-- `UPDATE sync_records SET record_id = ?, payload = json_set(payload, '$.id', ?) WHERE …`: a row that
-- has the new key already breaks the primary key.
unfoldable pub rename_record : String → String → String → Statement
rename_record table from to t =
    if any (has_key table from) t.records && any (has_key table to) t.records
    then none
    else some (record t {
      records =
          map
            (λ r.
              if has_key table from r
              then record r { record_id = to; payload = set "id" (string to) r.payload }
              else r)
            t.records;
    })

-- `UPDATE sync_queue SET payload = json_set(payload, '$.id', ?) WHERE … json_extract(…) = ?`
unfoldable pub rename_queued : String → String → String → Statement
rename_queued table from to t = some (record t {
  queue =
      map
        (λ r.
          if (r.table_name == table) && (string_id r.payload == some from)
          then record r { payload = set "id" (string to) r.payload }
          else r)
        t.queue;
})
