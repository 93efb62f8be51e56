-- ===== src/Provider/Session.antt =====
-- What a sync reads and changes, and what it is configured with.
use react_native_nitro_sync.Prelude.{not, Option, none, some, String, List, ◌==◌, string_eq, filter}
use react_native_nitro_sync.Prelude.Dict.{Dict, insert}
use react_native_nitro_sync.Value.Number.{Number}
use react_native_nitro_sync.Types.{SyncRecord, SyncSchemaMigration}
use react_native_nitro_sync.Merge.{SyncConflictStrategy}
use react_native_nitro_sync.Exec.{Exec}

-- The provider's refs, the two collections of a run, and the store behind the callbacks.
pub record Session (S : Type 0) : Type 0 where
  pub records : Dict (List SyncRecord)
  pub server_cursors : Dict (Option String)
  pub server_versions : Dict (Option Number)
  pub last_synced_at : Option Number
  pub unacked_ids : List String
  pub rejection_messages : List String
  pub store : S

-- The part of `NitroSyncConfig` that a sync reads, and the device's id.
pub record SyncConfig : Type 0 where
  pub schema_version : Option Number
  pub schema_migration : Option (Option SyncSchemaMigration)
  pub conflict_strategy : Option SyncConflictStrategy
  pub max_concurrent_tables : Option Number
  pub device_id : String

-- The metadata keys, wherever they are stored: `storage` if there is an adapter, else the metadata
-- store of the configuration.
pub record Metadata (S : Type 0) : Type 0 where
  pub read_cursor : String → S → Option String
  pub write_cursor : String → Option String → S → S
  pub read_version : String → S → Option Number
  pub write_version : String → Option Number → S → S
  pub write_last_synced_at : Number → S → S

-- A call of a callback.
abbrev pub on_store : {S A : Type 0} → Exec S A → Exec (Session S) A
on_store q s = let (r, store) = q s.store in (r, record s { store = store })

-- `unackedIds.delete(id)`
abbrev pub delete_id : String → List String → List String
delete_id id xs = filter (λ x. not (x == id)) xs

abbrev pub acknowledge_id : {S : Type 0} → String → Session S → Session S
acknowledge_id id s = record s { unacked_ids = delete_id id s.unacked_ids }

abbrev pub show_table : {S : Type 0} → String → List SyncRecord → Session S → Session S
show_table table rs s = record s { records = insert table rs s.records }

-- `?? null`, `?? []`, `?? 1` and the like
abbrev pub or_default {ℓ} : {A : Type ℓ} → A → Option A → A
or_default a none = a
or_default a (some x) = x

-- `map.has(key) ? map.get(key) ?? null : stored`
abbrev pub known_or {ℓ} : {A : Type ℓ} → Option (Option A) → Option A → Option A
known_or none stored = stored
known_or (some known) stored = known
