-- ===== src/Provider/Adapter/Records.antt =====
-- The adapter's record rows under the calls of a pull.
use react_native_nitro_sync.Prelude.{
  ℕ, ◌≡◌, Bool, refl, true, false, Option, String, arith, ◌==◌, string_eq,
}
use react_native_nitro_sync.Value.Number.{Number}
use react_native_nitro_sync.Value.Json.{Json}
use react_native_nitro_sync.Types.{Result, SyncRecord, record_id}
use react_native_nitro_sync.Exec.Keeps.{Keeps-bind, Keeps-return}
use react_native_nitro_sync.Storage.{load_tombstones, save_record, remove_record}
use react_native_nitro_sync.Storage.Tables.{RecordRow, Tables, upsert_record, upsert_tombstone}
use react_native_nitro_sync.Storage.Database.{Database, select}
use react_native_nitro_sync.Storage.Keeps.{Invariant, Keeps-execute, Keeps-select}
use react_native_nitro_sync.Storage.Upsert.{
  Write, saves, removes, perform, written, writes_to, find_row, find_row-written,
}
use react_native_nitro_sync.Provider.Backend.{callbacks, persist_record, load_stored_tombstones}
use react_native_nitro_sync.Provider.Adapter.{adapter, adapter_callbacks}
use react_native_nitro_sync.Provider.Pull.Stored.{RecordLaws}

module _ (table k : String) where
  -- The row of the id, as the tables have it.
  abbrev pub row_in : Database → Option RecordRow
  row_in d = find_row table k d.tables.records

  abbrev Has : Option RecordRow → Tables → Type 0
  Has o t = find_row table k t.records ≡ o

  write-Invariant :
      (o : Option RecordRow) (w : Write)
      → writes_to w table k ≡ false
      → Invariant (Has o) (perform w)
  write-Invariant o w other t t' e h =
      let at : find_row table k (written w t).records ≡ find_row table k t.records =
        rw other at (find_row-written table k w t) in
      ground (arith)

  module _ (parse : String → Result Json) (stringify : Json → String) (now : ℕ) where
    persist_lem :
        (r : SyncRecord) (at : Number) (deleted : Bool) (d : Database)
        → (record_id r == k) ≡ false
        → row_in ((adapter_callbacks parse stringify now).persist table r at deleted d).1 ≡ row_in d
    unfolding adapter_callbacks adapter callbacks persist_record save_record remove_record
    persist_lem r at true d other =
        (Keeps-execute (Has (row_in d)) (upsert_tombstone table (record_id r) at)
            (write-Invariant (row_in d) (removes table (record_id r) at) (ground arith))).at
          d refl
    persist_lem r at false d other =
        (Keeps-execute (Has (row_in d)) (upsert_record table r at)
            (write-Invariant (row_in d) (saves table r at) (ground arith))).at
          d refl

    pub adapter-RecordLaws : RecordLaws (adapter_callbacks parse stringify now) table k row_in
    unfolding adapter_callbacks adapter callbacks load_stored_tombstones load_tombstones
    adapter-RecordLaws = record {
      load = λ d.
          (Keeps-bind (select _) _ (Keeps-select (Has (row_in d)) _) (λ rows. Keeps-return _)).at d
            refl;
      persist = persist_lem;
    }
