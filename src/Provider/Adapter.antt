-- ===== src/Provider/Adapter.antt =====
-- The SQLite adapter as the provider's storage: a sync on its queue.
pub mod Statements
pub mod Queries
pub mod Claims
mod Tests
pub mod Laws
pub mod Records
use react_native_nitro_sync.Prelude.{
  ℕ, Bool, ◌&&◌, Option, none, some, String, any, ◌==◌, string_eq,
}
use react_native_nitro_sync.Value.Json.{Json}
use react_native_nitro_sync.Types.{Result}
use react_native_nitro_sync.Storage.Tables.{Tables, is_syncing}
use react_native_nitro_sync.Storage.Database.{Database}
use react_native_nitro_sync.Storage.{
  load_records, load_tombstones, clear_tombstone, list_pending_mutations, list_rejected_mutations,
  mark_mutation_failed, mark_mutation_rejected, retry_rejected_mutation, discard_rejected_mutation,
  mark_mutation_pending, remove_mutation, save_record, remove_record, remap_record_id,
  replace_table,
}
use react_native_nitro_sync.Provider.Backend.{SyncStorage, Callbacks, callbacks}

-- The object that `createSyncStorage` returns. `now` is SQLite's clock, in milliseconds.
unfoldable pub adapter : ℕ → SyncStorage Database
adapter now = record {
  load_records = load_records;
  load_tombstones = load_tombstones;
  clear_tombstone = clear_tombstone;
  list_pending_mutations = λ limit table. list_pending_mutations limit table now;
  list_rejected_mutations = list_rejected_mutations;
  mark_mutation_failed = mark_mutation_failed now;
  mark_mutation_rejected = mark_mutation_rejected;
  retry_rejected_mutation = retry_rejected_mutation;
  discard_rejected_mutation = discard_rejected_mutation;
  mark_mutation_pending = mark_mutation_pending;
  remove_mutation = remove_mutation;
  save_record = save_record;
  remove_record = remove_record;
  remap_record_id = remap_record_id;
  replace_table = some replace_table;
}

-- The callbacks of a provider that has this adapter and no native engine.
unfoldable pub adapter_callbacks : (String → Result Json) → (Json → String) → ℕ → Callbacks Database
adapter_callbacks parse stringify now = callbacks parse stringify none (some (adapter now))
