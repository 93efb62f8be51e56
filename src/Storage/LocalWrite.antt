-- ===== src/Storage/LocalWrite.antt =====
-- A local write on a database that does not fail.
use mathlib.Core.Option.{some-injective}
use react_native_nitro_sync.Prelude.{
  ◌≡◌, ◌⊎◌, ◌∙◌, refl, sym, subst, some, Bool, true, false, none, String, List, [], ◌∷◌, ◌++◌,
  arith, any, string_eq, if◌then◌else◌, Bool-cases, inl, inr,
}
use react_native_nitro_sync.Types.{SyncMutation, SyncRecord, record_id, pending}
use react_native_nitro_sync.Storage.Tables.{
  Tables, QueueRow, has_id, queue_row, insert_mutation, upsert_record, upsert_tombstone,
}
use react_native_nitro_sync.Storage.Database.{Database}
use react_native_nitro_sync.Storage.{write_record}
use react_native_nitro_sync.Storage.Writes.{write_effect}
use react_native_nitro_sync.Storage.Upsert.{
  Write, saves, removes, written, find_row, after, find_row-written, writes_to,
}

-- A connection with no open transaction, on which no statement fails by itself.
abbrev pub idle : Tables → Database
idle t = record { tables = t; saved = none; faults = [] }

-- The record's part of a local write.
abbrev pub local_write : SyncMutation → SyncRecord → Bool → Write
local_write m r true = removes m.table_name (record_id r) m.timestamp
local_write m r false = saves m.table_name r m.timestamp

-- The mutation is in the queue, PENDING and due at once as the last row, unless its id is there already
-- and the queue is as it was.
abbrev pub IsQueued : SyncMutation → List QueueRow → List QueueRow → Type 0
IsQueued m before queue =
    ((any (has_id m.id) before ≡ true) × (queue ≡ before))
    ⊎ ((any (has_id m.id) before ≡ false)
        × (row : QueueRow) × (queue ≡ before ++ row ∷ [])
        × (row.id ≡ m.id)
        × (row.table_name ≡ m.table_name)
        × (row.operation ≡ m.operation)
        × (row.payload ≡ m.payload)
        × (row.timestamp ≡ m.timestamp)
        × (row.status ≡ pending)
        × (row.retry_count ≡ 0)
        × (row.next_retry_at ≡ 0))

-- The tables after a local write: the mutation is queued, and the row of each record is what
-- last-write-wins makes of the write and the row before.
abbrev pub IsApplied : SyncMutation → SyncRecord → Bool → Tables → Tables → Type 0
IsApplied m r deleted t t' =
    IsQueued m t.queue t'.queue
    × ((table id : String)
        → find_row table id t'.records ≡ (
            if writes_to (local_write m r deleted) table id
            then after (local_write m r deleted) (find_row table id t.records)
            else find_row table id t.records))

abbrev queued : SyncMutation → List QueueRow → List QueueRow
queued m rows = if any (has_id m.id) rows then rows else rows ++ queue_row m ∷ []

abbrev result : SyncMutation → SyncRecord → Bool → Tables → Tables
result m r deleted t = record {
  queue = queued m t.queue;
  records = (written (local_write m r deleted) t).records;
}

queued-IsQueued : (m : SyncMutation) (rows : List QueueRow) → IsQueued m rows (queued m rows)
unfolding queue_row
queued-IsQueued m rows = elim (Bool-cases (any (has_id m.id) rows)) [
  | inl e ↦ rw e (inl (refl, refl))
  | inr e ↦ rw e (inr (refl, queue_row m, refl, refl, refl, refl, refl, refl, refl, refl, refl))
]

result-IsApplied :
    (m : SyncMutation) (r : SyncRecord) (deleted : Bool) (t : Tables)
    → IsApplied m r deleted t (result m r deleted t)
result-IsApplied m r deleted t =
    (queued-IsQueued m t.queue, λ table id. find_row-written table id (local_write m r deleted) t)

effect-result :
    (m : SyncMutation) (r : SyncRecord) (deleted : Bool) (t : Tables)
    → write_effect m r deleted t ≡ some (result m r deleted t)
unfolding write_record insert_mutation upsert_record upsert_tombstone
effect-result m r true t = ground arith
effect-result m r false t = ground arith

pub effect-IsApplied :
    (m : SyncMutation) (r : SyncRecord) (deleted : Bool) (t t' : Tables)
    → write_effect m r deleted t ≡ some t'
    → IsApplied m r deleted t t'
effect-IsApplied m r deleted t t' h =
    subst (IsApplied m r deleted t) (some-injective _ _ (sym (effect-result m r deleted t) ∙ h))
      (result-IsApplied m r deleted t)
