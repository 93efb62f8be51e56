-- ===== src/Provider/Settled/Rules.antt =====
-- What a property of the session needs, for everything that a sync does to keep it.
use react_native_nitro_sync.Prelude.{some, String, List}
use react_native_nitro_sync.Prelude.Dict.{Dict}
use react_native_nitro_sync.Value.Number.{Number}
use react_native_nitro_sync.Types.{MutationStatus, SyncMutation, SyncMutationRejection, SyncRecord}
use react_native_nitro_sync.Protocol.Response.{SyncTransportResponse}
use react_native_nitro_sync.Exec.{Exec}
use react_native_nitro_sync.Exec.Keeps.{Keeps}
use react_native_nitro_sync.Provider.Backend.{Callbacks}
use react_native_nitro_sync.Provider.Session.{Session, SyncConfig, Metadata, on_store}
use react_native_nitro_sync.Provider.Queue.{Stuck, Calm}
use react_native_nitro_sync.Provider.Process.{
  on_acknowledge, on_retry, on_reject, store_cursor, store_version,
}

pub record SessionRules {S : Type 0} (stuck : Stuck S) (cb : Callbacks S) (metadata : Metadata S)
    (add_one : Number → Number) (config : SyncConfig) (P : Session S → Type 0) : Type 1 where
  pub called : {A : Type 0} (q : Exec S A) → Calm stuck q → Keeps P (on_store q)
  pub shown : (rs : Dict (List SyncRecord)) (s : Session S) → P s → P (record s { records = rs })
  pub told : (ms : List String) (s : Session S) → P s → P (record s { rejection_messages = ms })
  pub cursor_stored :
      (table : String) (response : SyncTransportResponse) (s : Session S)
      → P s
      → P (store_cursor cb metadata add_one config table response s)
  pub version_stored :
      (table : String) (response : SyncTransportResponse) (s : Session S)
      → P s
      → P (store_version cb metadata add_one config table response s)
  pub acknowledged :
      (table : String) (m : SyncMutation) (status : MutationStatus)
      → Keeps P (on_acknowledge cb metadata add_one config table m status)
  pub retried :
      (m : SyncMutation) (status : MutationStatus)
      → Keeps P (on_retry cb metadata add_one config m status)
  pub refused :
      (rs : List SyncMutationRejection) (m : SyncMutation) (status : MutationStatus)
      → Keeps P (on_reject cb metadata add_one config rs m status)
  pub synced :
      (now : Number) (s : Session S)
      → P s
      → P (record s {
        last_synced_at = some now;
        store = metadata.write_last_synced_at now s.store;
      })
