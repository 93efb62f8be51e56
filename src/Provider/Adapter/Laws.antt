-- ===== src/Provider/Adapter/Laws.antt =====
-- The adapter's queue has every law that a sync relies on.
use react_native_nitro_sync.Prelude.{
  ℕ, ◌≡◌, Bool, true, false, Option, String, any, subst, if◌then◌else◌,
}
use react_native_nitro_sync.Value.Number.{Number}
use react_native_nitro_sync.Value.Json.{Json}
use react_native_nitro_sync.Types.{SyncRecord, record_id, Result}
use react_native_nitro_sync.Storage.Database.{Database}
use react_native_nitro_sync.Storage.{save_record, remove_record}
use react_native_nitro_sync.Provider.Backend.{
  callbacks, load_stored_records, load_stored_tombstones, persist_record, replace_stored_table,
  claim_pending, mark_failed, mark_rejected, mark_pending, remove_queued, clear_stored_tombstone,
  remap_stored,
}
use react_native_nitro_sync.Provider.Session.{Metadata}
use react_native_nitro_sync.Provider.Queue.{Calm, QueueLaws}
use react_native_nitro_sync.Provider.Adapter.{adapter, adapter_callbacks}
use react_native_nitro_sync.Provider.Adapter.Statements.{stuck_row}
use react_native_nitro_sync.Provider.Adapter.Queries.{
  syncing_in, load_records-Calm, load_tombstones-Calm, save_record-Calm, remove_record-Calm,
  clear_tombstone-Calm, replace_table-Calm, remap_record_id-Calm, mark_failed-Calm,
  mark_failed-Frees, mark_rejected-Calm, mark_rejected-Frees, mark_pending-Calm, mark_pending-Frees,
  remove_mutation-Calm, remove_mutation-Frees,
}
use react_native_nitro_sync.Provider.Adapter.Claims.{claim_marks, claim_table}

-- Metadata that are kept apart from the queue.
pub record MetadataApart (metadata : Metadata Database) : Type 0 where
  pub cursor :
      (table : String) (value : Option String) (d : Database)
      → (metadata.write_cursor table value d).tables.queue ≡ d.tables.queue
  pub version :
      (table : String) (value : Option Number) (d : Database)
      → (metadata.write_version table value d).tables.queue ≡ d.tables.queue
  pub last_synced_at :
      (timestamp : Number) (d : Database)
      → (metadata.write_last_synced_at timestamp d).tables.queue ≡ d.tables.queue

persist-Calm :
    (r : SyncRecord) (table : String) (timestamp : Number) (deleted : Bool)
    → Calm syncing_in (
        if deleted
        then remove_record table (record_id r) timestamp
        else save_record table r timestamp)
persist-Calm r table timestamp true = remove_record-Calm table (record_id r) timestamp
persist-Calm r table timestamp false = save_record-Calm table r timestamp

-- Under any failure of the database, ROLLBACK's and COMMIT's included, the SQLite adapter has the laws that a
-- sync needs of its queue: a claim makes SYNCING only what it returns, and returns only what was asked for;
-- marking, releasing and removing a mutation free it when they return; and no other call makes a mutation
-- SYNCING. The metadata are kept apart from the queue.
pub adapter-QueueLaws :
    (parse : String → Result Json) (stringify : Json → String) (now : ℕ)
    (metadata : Metadata Database)
    → MetadataApart metadata
    → QueueLaws (adapter_callbacks parse stringify now) metadata syncing_in
unfolding adapter_callbacks callbacks adapter load_stored_records load_stored_tombstones
    persist_record replace_stored_table claim_pending mark_failed mark_rejected mark_pending
    remove_queued clear_stored_tombstone remap_stored
adapter-QueueLaws parse stringify now metadata apart = record {
  load_records_calm = load_records-Calm;
  load_tombstones_calm = load_tombstones-Calm;
  persist_calm = λ table r timestamp deleted. persist-Calm r table timestamp deleted;
  replace_calm = replace_table-Calm;
  clear_calm = clear_tombstone-Calm;
  remap_calm = remap_record_id-Calm;
  fail_calm = mark_failed-Calm now;
  reject_calm = mark_rejected-Calm;
  release_calm = mark_pending-Calm;
  remove_calm = remove_mutation-Calm;
  fail_frees = mark_failed-Frees now;
  reject_frees = mark_rejected-Frees;
  release_frees = mark_pending-Frees;
  remove_frees = remove_mutation-Frees;
  cursor_calm =
      λ table value s x h. subst (λ q. any (stuck_row x) q ≡ true) (apart.cursor table value s) h;
  version_calm =
      λ table value s x h. subst (λ q. any (stuck_row x) q ≡ true) (apart.version table value s) h;
  synced_calm = λ timestamp s x h.
      subst (λ q. any (stuck_row x) q ≡ true) (apart.last_synced_at timestamp s) h;
  claim_marks =
      λ requested d d' ms x e free hit. claim_marks 100 requested now d d' ms x e free hit;
  claim_table = λ table d d' ms e. claim_table 100 table now d d' ms e;
}
