-- ===== src/Provider/Queue.antt =====
-- What a sync needs of the queue behind the callbacks: which calls may leave a mutation SYNCING.
use react_native_nitro_sync.Prelude.{
  ◌≡◌, Bool, true, false, Option, some, String, List, All, contains, string_eq,
}
use react_native_nitro_sync.Value.Number.{Number}
use react_native_nitro_sync.Types.{SyncMutation, SyncRecord, SyncTombstone, ok}
use react_native_nitro_sync.Settlement.{ids}
use react_native_nitro_sync.Exec.{Exec}
use react_native_nitro_sync.Provider.Backend.{Callbacks}
use react_native_nitro_sync.Provider.Session.{Metadata}

-- Whether the mutation with an id is SYNCING in a store.
abbrev pub Stuck : Type 0 → Type 0
Stuck S = String → S → Bool

-- The call makes no mutation SYNCING, whether it returns or throws.
abbrev pub Calm : {S A : Type 0} → Stuck S → Exec S A → Type 0
Calm {S} stuck q = (s : S) (x : String) → stuck x (q s).1 ≡ true → stuck x s ≡ true

-- When the call returns, the mutation is not SYNCING.
abbrev pub Frees : {S : Type 0} → Stuck S → String → Exec S (Unit {0}) → Type 0
Frees {S} stuck id q = (s : S) → (q s).0 ≡ ok tt → stuck id (q s).1 ≡ false

pub record QueueLaws {S : Type 0} (cb : Callbacks S) (metadata : Metadata S) (stuck : Stuck S)
    : Type 0 where
  pub load_records_calm : (table : String) → Calm stuck (cb.load_records table)
  pub load_tombstones_calm : (table : String) → Calm stuck (cb.load_tombstones table)
  pub persist_calm :
      (table : String) (r : SyncRecord) (timestamp : Number) (deleted : Bool)
      → Calm stuck (cb.persist table r timestamp deleted)
  pub replace_calm :
      (table : String) (rs : List SyncRecord) (ts : List SyncTombstone) (timestamp : Number)
      → Calm stuck (cb.replace table rs ts timestamp)
  pub clear_calm : (table id : String) (through : Number) → Calm stuck (cb.clear table id through)
  pub remap_calm : (table from to : String) → Calm stuck (cb.remap table from to)
  pub fail_calm : (id : String) → Calm stuck (cb.fail id)
  pub reject_calm : (id code message : String) → Calm stuck (cb.reject id code message)
  pub release_calm : (id : String) → Calm stuck (cb.release id)
  pub remove_calm : (id : String) → Calm stuck (cb.remove id)
  pub fail_frees : (id : String) → Frees stuck id (cb.fail id)
  pub reject_frees : (id code message : String) → Frees stuck id (cb.reject id code message)
  pub release_frees : (id : String) → Frees stuck id (cb.release id)
  pub remove_frees : (id : String) → Frees stuck id (cb.remove id)
  pub cursor_calm :
      (table : String) (cursor : Option String) (s : S) (x : String)
      → stuck x (metadata.write_cursor table cursor s) ≡ true
      → stuck x s ≡ true
  pub version_calm :
      (table : String) (version : Option Number) (s : S) (x : String)
      → stuck x (metadata.write_version table version s) ≡ true
      → stuck x s ≡ true
  pub synced_calm :
      (timestamp : Number) (s : S) (x : String)
      → stuck x (metadata.write_last_synced_at timestamp s) ≡ true
      → stuck x s ≡ true
  -- A claim makes SYNCING only what it returns, and returns only what was asked for.
  pub claim_marks :
      (requested : Option String) (s s' : S) (ms : List SyncMutation) (x : String)
      → cb.claim requested s ≡ (ok ms, s')
      → stuck x s ≡ false
      → stuck x s' ≡ true
      → contains (ids ms) x ≡ true
  pub claim_table :
      (table : String) (s s' : S) (ms : List SyncMutation)
      → cb.claim (some table) s ≡ (ok ms, s')
      → All (λ m. m.table_name ≡ table) ms
