-- ===== src/Provider/Backend.antt =====
-- The two stores under the provider, a native engine and a storage adapter, and the provider's
-- callbacks, each of which uses the native engine where there is one. Neither is part of the provider:
-- both are arguments.
use mathlib.Core.List
use react_native_nitro_sync.Prelude.{
  ℕ, Bool, Option, none, some, String, List, [], ◌∷◌, if◌then◌else◌,
}
use react_native_nitro_sync.Value.Number.{Number}
use react_native_nitro_sync.Value.Json.{Json, string, number, object, end, field}
use react_native_nitro_sync.Types.{
  SyncMutation, SyncRecord, SyncTombstone, record_id, no_queue, missing_replace_table, Result, ok,
  err, ◌>>=◌,
}
use react_native_nitro_sync.Merge.{
  parse_serialized_mutation, parse_serialized_record, parse_serialized_tombstone,
}
use react_native_nitro_sync.Exec
use react_native_nitro_sync.Exec.{Exec, return, lift}
use react_native_nitro_sync.Storage.{RejectedSyncMutation}

-- The part of `SyncStorage` that a sync uses.
pub record SyncStorage (S : Type 0) : Type 0 where
  pub load_records : String → Exec S (List SyncRecord)
  pub load_tombstones : String → Exec S (List SyncTombstone)
  pub clear_tombstone : String → String → Number → Exec S (Unit {0})
  pub list_pending_mutations : ℕ → Option String → Exec S (List SyncMutation)
  pub list_rejected_mutations : String → Exec S (List RejectedSyncMutation)
  pub mark_mutation_failed : String → Exec S (Unit {0})
  pub mark_mutation_rejected : String → String → String → Exec S (Unit {0})
  pub retry_rejected_mutation : String → Exec S (Unit {0})
  pub discard_rejected_mutation : String → Exec S (Unit {0})
  pub mark_mutation_pending : String → Exec S (Unit {0})
  pub remove_mutation : String → Exec S (Unit {0})
  pub save_record : String → SyncRecord → Number → Exec S (Unit {0})
  pub remove_record : String → String → Number → Exec S (Unit {0})
  pub remap_record_id : String → String → String → Exec S (Unit {0})
  pub replace_table :
      Option (String → List SyncRecord → List SyncTombstone → Number → Exec S (Unit {0}))

-- The part of the native engine that a sync uses; it takes and gives texts of JSON.
pub record NativeEngine (S : Type 0) : Type 0 where
  pub list_pending_mutations : ℕ → Exec S (List String)
  pub list_pending_mutations_for_table : String → ℕ → Exec S (List String)
  pub mark_mutation_failed : String → Exec S (Unit {0})
  pub mark_mutation_rejected : String → String → String → Exec S (Unit {0})
  pub mark_mutation_pending : String → Exec S (Unit {0})
  pub retry_rejected_mutation : String → Exec S (Unit {0})
  pub discard_rejected_mutation : String → Exec S (Unit {0})
  pub remove_mutation : String → Exec S (Unit {0})
  pub upsert_record : String → String → String → Number → Exec S (Unit {0})
  pub delete_record : String → String → Number → Exec S (Unit {0})
  pub remap_record_id : String → String → String → Exec S (Unit {0})
  pub replace_table : String → List String → List String → Number → Exec S (Unit {0})
  pub read_records : String → Exec S (List String)
  pub read_tombstones : String → Exec S (List String)
  pub clear_tombstone : String → String → Number → Exec S (Unit {0})

-- `texts.map(parse)`
unfoldable pub parse_each : {A : Type 0} → (String → Result A) → List String → Result (List A)
parse_each parse [] = ok []
parse_each parse (t ∷ ts) = parse t >>= λ a. parse_each parse ts >>= λ as_. ok (a ∷ as_)

-- `.filter((a) => a !== null)`
unfoldable pub present : {A : Type 0} → List (Option A) → List A
present [] = []
present (none ∷ as_) = present as_
present (some a ∷ as_) = a ∷ present as_

-- `JSON.parse` and `JSON.stringify` are arguments.
module _ {S : Type 0} (parse : String → Result Json) (stringify : Json → String)
    (native : Option (NativeEngine S)) (storage : Option (SyncStorage S)) where
  -- `loadStoredRecords`
  unfoldable pub load_stored_records : String → Exec S (List SyncRecord)
  load_stored_records table = elim native [
    | some engine ↦
        Exec.◌>>=◌ (engine.read_records table)
          λ texts. lift (parse_each (parse_serialized_record parse) texts >>= λ rs. ok (present rs))
    | none ↦ elim storage [ some adapter ↦ adapter.load_records table | none ↦ return [] ]
  ]

  -- `loadStoredTombstones`
  unfoldable pub load_stored_tombstones : String → Exec S (List SyncTombstone)
  load_stored_tombstones table = elim native [
    | some engine ↦ Exec.◌>>=◌ (engine.read_tombstones table) λ texts.
        lift (parse_each (parse_serialized_tombstone parse) texts >>= λ ts. ok (present ts))
    | none ↦ elim storage [ some adapter ↦ adapter.load_tombstones table | none ↦ return [] ]
  ]

  -- `persistRecord`
  unfoldable pub persist_record : String → SyncRecord → Number → Bool → Exec S (Unit {0})
  persist_record table r timestamp is_delete = elim native [
    | some engine ↦
        if is_delete
        then engine.delete_record table (record_id r) timestamp
        else engine.upsert_record table (record_id r) (stringify (object r)) timestamp
    | none ↦ elim storage [
      | none ↦ return tt
      | some adapter ↦
          if is_delete
          then adapter.remove_record table (record_id r) timestamp
          else adapter.save_record table r timestamp
    ]
  ]

  abbrev tombstone_json : SyncTombstone → Json
  tombstone_json t = object (field "id" (string t.id) (field "timestamp" (number t.timestamp) end))

  -- `storage?.replaceTable`
  abbrev replace_of :
      Option (SyncStorage S)
      → Option (String → List SyncRecord → List SyncTombstone → Number → Exec S (Unit {0}))
  replace_of none = none
  replace_of (some adapter) = adapter.replace_table

  -- `replaceStoredTable`
  unfoldable pub replace_stored_table :
      String → List SyncRecord → List SyncTombstone → Number → Exec S (Unit {0})
  replace_stored_table table records tombstones timestamp = elim native [
    | some engine ↦
        engine.replace_table table (List.map (λ r. stringify (object r)) records)
          (List.map (λ t. stringify (tombstone_json t)) tombstones) timestamp
    | none ↦ elim (replace_of storage) [
      | none ↦ lift (err missing_replace_table)
      | some replace ↦ replace table records tombstones timestamp
    ]
  ]

  -- The claim of a sync: of all tables, or of the requested one.
  unfoldable pub claim_pending : Option String → Exec S (List SyncMutation)
  claim_pending requested = elim native [
    | some engine ↦
        Exec.◌>>=◌
          (elim requested [
            | none ↦ engine.list_pending_mutations 100
            | some table ↦ engine.list_pending_mutations_for_table table 100
          ])
          λ texts. lift (parse_each (parse_serialized_mutation parse) texts)
    | none ↦ elim storage [
      | some adapter ↦ adapter.list_pending_mutations 100 requested
      | none ↦ lift (err no_queue)
    ]
  ]

  -- One call on the queue, of the engine or of the adapter.
  abbrev on_queue :
      (NativeEngine S → Exec S (Unit {0})) → (SyncStorage S → Exec S (Unit {0})) → Exec S (Unit {0})
  on_queue by_engine by_adapter = elim native [
    | some engine ↦ by_engine engine
    | none ↦ elim storage [ some adapter ↦ by_adapter adapter | none ↦ return tt ]
  ]

  -- `markFailed`
  unfoldable pub mark_failed : String → Exec S (Unit {0})
  mark_failed id = on_queue (λ e. e.mark_mutation_failed id) (λ a. a.mark_mutation_failed id)

  -- `markRejected`
  unfoldable pub mark_rejected : String → String → String → Exec S (Unit {0})
  mark_rejected id code message =
      on_queue (λ e. e.mark_mutation_rejected id code message)
        (λ a. a.mark_mutation_rejected id code message)

  -- The call of `markMutationPending` for a blocked mutation
  unfoldable pub mark_pending : String → Exec S (Unit {0})
  mark_pending id = on_queue (λ e. e.mark_mutation_pending id) (λ a. a.mark_mutation_pending id)

  -- The calls for an acknowledged mutation
  unfoldable pub remove_queued : String → Exec S (Unit {0})
  remove_queued id = on_queue (λ e. e.remove_mutation id) (λ a. a.remove_mutation id)

  unfoldable pub clear_stored_tombstone : String → String → Number → Exec S (Unit {0})
  clear_stored_tombstone table id through =
      on_queue (λ e. e.clear_tombstone table id through) (λ a. a.clear_tombstone table id through)

  -- The call of `remapRecordId`
  unfoldable pub remap_stored : String → String → String → Exec S (Unit {0})
  remap_stored table from to =
      on_queue (λ e. e.remap_record_id table from to) (λ a. a.remap_record_id table from to)

  -- With neither engine nor adapter the two calls on rejected mutations throw.
  abbrev on_rejected :
      (NativeEngine S → Exec S (Unit {0})) → (SyncStorage S → Exec S (Unit {0})) → Exec S (Unit {0})
  on_rejected by_engine by_adapter = elim native [
    | some engine ↦ by_engine engine
    | none ↦ elim storage [ some adapter ↦ by_adapter adapter | none ↦ lift (err no_queue) ]
  ]

  -- `retryRejectedMutation` and `discardRejectedMutation`, but for the new version
  unfoldable pub retry_stored : String → Exec S (Unit {0})
  retry_stored id =
      on_rejected (λ e. e.retry_rejected_mutation id) (λ a. a.retry_rejected_mutation id)

  unfoldable pub discard_stored : String → Exec S (Unit {0})
  discard_stored id =
      on_rejected (λ e. e.discard_rejected_mutation id) (λ a. a.discard_rejected_mutation id)

-- The callbacks that a sync uses.
pub record Callbacks (S : Type 0) : Type 0 where
  pub load_records : String → Exec S (List SyncRecord)
  pub load_tombstones : String → Exec S (List SyncTombstone)
  pub persist : String → SyncRecord → Number → Bool → Exec S (Unit {0})
  pub replace : String → List SyncRecord → List SyncTombstone → Number → Exec S (Unit {0})
  pub claim : Option String → Exec S (List SyncMutation)
  pub fail : String → Exec S (Unit {0})
  pub reject : String → String → String → Exec S (Unit {0})
  pub release : String → Exec S (Unit {0})
  pub remove : String → Exec S (Unit {0})
  pub clear : String → String → Number → Exec S (Unit {0})
  pub remap : String → String → String → Exec S (Unit {0})

unfoldable pub callbacks :
    {S : Type 0}
    → (String → Result Json)
    → (Json → String)
    → Option (NativeEngine S)
    → Option (SyncStorage S)
    → Callbacks S
callbacks parse stringify native storage = record {
  load_records = load_stored_records parse stringify native storage;
  load_tombstones = load_stored_tombstones parse stringify native storage;
  persist = persist_record parse stringify native storage;
  replace = replace_stored_table parse stringify native storage;
  claim = claim_pending parse stringify native storage;
  fail = mark_failed parse stringify native storage;
  reject = mark_rejected parse stringify native storage;
  release = mark_pending parse stringify native storage;
  remove = remove_queued parse stringify native storage;
  clear = clear_stored_tombstone parse stringify native storage;
  remap = remap_stored parse stringify native storage;
}
