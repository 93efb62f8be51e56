-- ===== src/Provider/Pull.antt =====
-- What a sync makes of a table's answer: tombstones, the merge, and what is written to the store.
pub mod Edits
pub mod Stored
mod Tests
use react_native_nitro_sync.Prelude.{
  Bool, true, false, not, ◌||◌, Option, none, some, String, List, [], ◌∷◌, ◌++◌, filter, contains,
  string_eq, if◌then◌else◌,
}
use react_native_nitro_sync.Prelude.Dict.{Dict, lookup, insert, values}
use react_native_nitro_sync.Value.Number.{Number, number_ltb, number_max}
use react_native_nitro_sync.Value.Json.{string, end, field}
use react_native_nitro_sync.Types.{SyncMutation, SyncRecord, SyncTombstone, string_id, record_id}
use react_native_nitro_sync.Merge.{
  last_write_wins, timestamp_of, protected_ids, tombstone_timestamps, merge_pulled_records,
}
use react_native_nitro_sync.Protocol.Response.{SyncTransportResponse}
use react_native_nitro_sync.Exec.{Exec, ◌>>=◌, ◌>>◌, return, lift, gets, modify, when_, for_each}
use react_native_nitro_sync.Provider.{is_delete, table_or_empty}
use react_native_nitro_sync.Provider.Backend.{Callbacks}
use react_native_nitro_sync.Provider.Session.{Session, SyncConfig, on_store, show_table, or_default}

-- One round of the loops that keep the newest tombstone of an id
unfoldable pub keep_newest : Dict SyncTombstone → SyncTombstone → Dict SyncTombstone
keep_newest d t = elim (lookup t.id d) [
  | none ↦ insert t.id t d
  | some existing ↦ if number_ltb existing.timestamp t.timestamp then insert t.id t d else d
]

-- `tombstonesById`
unfoldable pub newest_tombstones : Dict SyncTombstone → List SyncTombstone → Dict SyncTombstone
newest_tombstones d [] = d
newest_tombstones d (t ∷ ts) = newest_tombstones (keep_newest d t) ts

-- `resetTombstonesById.set(tombstone.id, tombstone)` for each
unfoldable pub last_tombstones : Dict SyncTombstone → List SyncTombstone → Dict SyncTombstone
last_tombstones d [] = d
last_tombstones d (t ∷ ts) = last_tombstones (insert t.id t d) ts

-- The tombstones of the removals that the server has not acknowledged
unfoldable pub removal_tombstones : List SyncMutation → List SyncTombstone
removal_tombstones [] = []
removal_tombstones (m ∷ ms) =
    let rest = removal_tombstones ms in
    if is_delete m.operation
    then elim (string_id m.payload) [
      | some id ↦ record { id = id; timestamp = m.timestamp } ∷ rest
      | none ↦ rest
    ]
    else rest

-- `resetTombstones`
unfoldable pub reset_tombstones :
    Bool → List SyncTombstone → List SyncTombstone → List SyncMutation → List SyncTombstone
reset_tombstones true tombstones server unacked =
    values (newest_tombstones (last_tombstones [] server) (removal_tombstones unacked))
reset_tombstones false tombstones server unacked = tombstones

-- `deletedIds`
unfoldable pub deleted_ids : List SyncMutation → List String
deleted_ids ms = protected_ids (filter (λ m. is_delete m.operation) ms)

-- `new Map(records.map((record) => [record.id, record]))`, from a map so far
unfoldable pub records_by_id : Dict SyncRecord → List SyncRecord → Dict SyncRecord
records_by_id d [] = d
records_by_id d (r ∷ rs) = records_by_id (insert (record_id r) r d) rs

-- The records that the merge starts from.
unfoldable pub merge_base : Bool → List String → List SyncRecord → List SyncRecord
merge_base true protected shown = filter (λ r. contains protected (record_id r)) shown
merge_base false protected shown = shown

-- `{ id: tombstone.id }`
abbrev only_id : String → SyncRecord
only_id id = field "id" (string id) end

abbrev pub is_empty {ℓ} : {A : Type ℓ} → List A → Bool
is_empty [] = true
is_empty (x ∷ xs) = false

abbrev pub is_given {ℓ} : {A : Type ℓ} → Option A → Bool
is_given none = false
is_given (some a) = true

-- `add_one` is JavaScript's `x + 1`.
module _ {S : Type 0} (cb : Callbacks S) (add_one : Number → Number) where
  -- The time under which a pulled record is stored.
  unfoldable pub stored_at : Number → SyncRecord → Option Number → Number
  stored_at server_timestamp r none = server_timestamp
  stored_at server_timestamp r (some t) =
      number_max (number_max server_timestamp (timestamp_of r)) (add_one t)

  -- The loop over `serverRecords`
  unfoldable pub persist_pulled :
      String
      → Number
      → List String
      → Dict Number
      → Dict SyncRecord
      → SyncRecord
      → Exec (Session S) (Unit {0})
  unfolding stored_at
  persist_pulled table server_timestamp protected tombs merged r =
      elim (lookup (record_id r) merged) [
        | none ↦ return tt
        | some resolved ↦ when_ (not (contains protected (record_id r))) (
            on_store (
              cb.persist table resolved (stored_at server_timestamp r (lookup (record_id r) tombs))
                false))
      ]

  -- The loop over `serverTombstones`
  unfoldable pub persist_tombstone :
      String → List String → SyncTombstone → Exec (Session S) (Unit {0})
  persist_tombstone table protected t =
      when_ (not (contains protected t.id))
        (on_store (cb.persist table (only_id t.id) t.timestamp true))

  -- What is written for an answer that replaces nothing.
  unfoldable pub persist_answer :
      String
      → List SyncMutation
      → SyncTransportResponse
      → List SyncTombstone
      → List SyncRecord
      → Exec (Session S) (Unit {0})
  persist_answer table unacked response tombstones visible =
      for_each (or_default [] response.records) (
        persist_pulled table response.server_timestamp (protected_ids unacked)
          (tombstone_timestamps [] tombstones) (records_by_id [] visible))
      >> for_each response.tombstones (persist_tombstone table (protected_ids unacked))

  -- The body of `if (serverRecords !== undefined || serverTombstones.length > 0)`
  unfoldable pub merge_answer :
      SyncConfig
      → String
      → List SyncMutation
      → SyncTransportResponse
      → List SyncTombstone
      → Exec (Session S) (Unit {0})
  merge_answer config table unacked response tombstones = do
    shown ← gets λ s. table_or_empty (lookup table s.records)
    merged ← lift (
        merge_pulled_records (merge_base response.reset_required (protected_ids unacked) shown)
          (or_default [] response.records) unacked
          (or_default last_write_wins config.conflict_strategy)
          (reset_tombstones response.reset_required tombstones response.tombstones unacked))
    let visible = filter (λ r. not (contains (deleted_ids unacked) (record_id r))) merged
    when_ response.reset_required (
        on_store (
          cb.replace table visible
            (reset_tombstones response.reset_required tombstones response.tombstones unacked)
            response.server_timestamp))
    modify (show_table table visible)
    when_ (not response.reset_required) (persist_answer table unacked response tombstones visible)

  -- From `loadStoredTombstones` to the end of that body
  unfoldable pub pull_answer :
      SyncConfig → String → List SyncMutation → SyncTransportResponse → Exec (Session S) (Unit {0})
  pull_answer config table unacked response = do
    stored ← on_store (cb.load_tombstones table)
    when_ (is_given response.records || not (is_empty response.tombstones)) (
        merge_answer config table unacked response
          (values (newest_tombstones [] (stored ++ response.tombstones))))
