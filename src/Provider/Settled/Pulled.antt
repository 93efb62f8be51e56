-- ===== src/Provider/Settled/Pulled.antt =====
-- What the pull of a table keeps: the stored records, the renamed ids, the merge and what it writes.
use react_native_nitro_sync.Prelude.{
  inl, inr, true, false, not, ◌||◌, Option, none, some, String, List, [], ◌∷◌, ◌++◌, filter,
  contains, ◌==◌, string_eq, Bool-cases, Option-cases,
}
use react_native_nitro_sync.Prelude.Dict.{Dict, lookup, insert, values}
use react_native_nitro_sync.Value.Number.{Number}
use react_native_nitro_sync.Value.Json.{string, end, field}
use react_native_nitro_sync.Types.{SyncMutation, SyncRecord, SyncTombstone, record_id}
use react_native_nitro_sync.Merge.{
  last_write_wins, protected_ids, tombstone_timestamps, merge_pulled_records,
}
use react_native_nitro_sync.Protocol.Response.{SyncTransportResponse}
use react_native_nitro_sync.Provider.{table_or_empty}
use react_native_nitro_sync.Exec.{◌>>=◌, ◌>>◌, lift, modify, when_}
use react_native_nitro_sync.Exec.Keeps.{
  Keeps, Keeps-return, Keeps-lift, Keeps-gets, Keeps-modify, Keeps-bind, Keeps-then, Keeps-when,
  Keeps-for_each,
}
use react_native_nitro_sync.Provider.Backend.{Callbacks}
use react_native_nitro_sync.Provider.Session.{
  Session, SyncConfig, Metadata, on_store, show_table, or_default,
}
use react_native_nitro_sync.Provider.Queue.{Stuck, QueueLaws}
use react_native_nitro_sync.Provider.Pull.{
  stored_at, persist_pulled, persist_tombstone, persist_answer, merge_answer, pull_answer, is_given,
  is_empty, merge_base, reset_tombstones, deleted_ids, newest_tombstones, records_by_id,
}
use react_native_nitro_sync.Provider.Process.{ensure_shown, remap_each, apply_id_map}
use react_native_nitro_sync.Provider.Settled.Rules.{SessionRules}

module _ {S : Type 0} {stuck : Stuck S} {cb : Callbacks S} {metadata : Metadata S}
    (laws : QueueLaws cb metadata stuck) {add_one : Number → Number} {config : SyncConfig}
    {P : Session S → Type 0} (rules : SessionRules stuck cb metadata add_one config P) where
  Keeps-show :
      (table : String) (rs : List SyncRecord) → Keeps P (modify (show_table {S = S} table rs))
  Keeps-show table rs =
      Keeps-modify (show_table table rs) (λ s h. rules.shown (insert table rs s.records) s h)

  pub Keeps-ensure_shown :
      (table : String) → Keeps P (ensure_shown cb metadata add_one config table)
  unfolding ensure_shown
  Keeps-ensure_shown table = record {
    at = λ s h.
        (Keeps-when (not (is_given (lookup table s.records)))
            (on_store (cb.load_records table) >>= λ rs. modify (show_table table rs))
            (Keeps-bind (on_store (cb.load_records table)) (λ rs. modify (show_table table rs))
              (rules.called (cb.load_records table) (laws.load_records_calm table))
              (λ rs. Keeps-show table rs))).at
          s h;
  }

  Keeps-remap_each :
      (table : String) (entries : List (String × String)) (rs : List SyncRecord)
      → Keeps P (remap_each cb metadata add_one config table entries rs)
  unfolding remap_each
  Keeps-remap_each table [] rs = Keeps-return rs
  Keeps-remap_each table ((from, to) ∷ entries) rs =
      Keeps-bind _ _
        (elim (Bool-cases (from == to)) [
          | inl e ↦ rw e (Keeps-return rs)
          | inr e ↦ rw e (
              Keeps-then _ _ (rules.called (cb.remap table from to) (laws.remap_calm table from to))
                (Keeps-return _))
        ])
        (λ renamed. Keeps-remap_each table entries renamed)

  pub Keeps-apply_id_map :
      (table : String) (id_map : Option (List (String × String)))
      → Keeps P (apply_id_map cb metadata add_one config table id_map)
  unfolding apply_id_map
  Keeps-apply_id_map table none = Keeps-return tt
  Keeps-apply_id_map table (some entries) =
      Keeps-bind _ _ (Keeps-gets _)
        λ shown. Keeps-bind _ _ (Keeps-remap_each table entries shown) (λ rs. Keeps-show table rs)

  Keeps-persist_pulled :
      (table : String) (at : Number) (protected : List String) (tombs : Dict Number)
      (merged : Dict SyncRecord) (r : SyncRecord)
      → Keeps P (persist_pulled cb add_one table at protected tombs merged r)
  unfolding persist_pulled
  Keeps-persist_pulled table at protected tombs merged r =
      elim (Option-cases (lookup (record_id r) merged)) [
        | inl e ↦ rw (e, persist_pulled) (Keeps-return tt)
        | inr (resolved, e) ↦
            rw (e, persist_pulled)
              (Keeps-when (not (contains protected (record_id r)))
                (on_store (
                  cb.persist table resolved (stored_at cb add_one at r (lookup (record_id r) tombs))
                    false))
                (rules.called
                  (cb.persist table resolved
                    (stored_at cb add_one at r (lookup (record_id r) tombs)) false)
                  (laws.persist_calm table resolved
                    (stored_at cb add_one at r (lookup (record_id r) tombs)) false)))
      ]

  Keeps-persist_tombstone :
      (table : String) (protected : List String) (t : SyncTombstone)
      → Keeps P (persist_tombstone cb add_one table protected t)
  unfolding persist_tombstone
  Keeps-persist_tombstone table protected t =
      Keeps-when (not (contains protected t.id))
        (on_store (cb.persist table (field "id" (string t.id) end) t.timestamp true))
        (rules.called (cb.persist table (field "id" (string t.id) end) t.timestamp true)
          (laws.persist_calm table (field "id" (string t.id) end) t.timestamp true))

  Keeps-persist_answer :
      (table : String) (unacked : List SyncMutation) (response : SyncTransportResponse)
      (ts : List SyncTombstone) (visible : List SyncRecord)
      → Keeps P (persist_answer cb add_one table unacked response ts visible)
  unfolding persist_answer
  Keeps-persist_answer table unacked response ts visible =
      Keeps-then _ _
        (Keeps-for_each _ _ (
          Keeps-persist_pulled table response.server_timestamp (protected_ids unacked)
            (tombstone_timestamps [] ts) (records_by_id [] visible)))
        (Keeps-for_each _ _ (Keeps-persist_tombstone table (protected_ids unacked)))

  -- What follows the merge of an answer.
  Keeps-apply_merged :
      (table : String) (unacked : List SyncMutation) (response : SyncTransportResponse)
      (ts reset : List SyncTombstone) (visible : List SyncRecord)
      → Keeps P (
          when_ response.reset_required
            (on_store (cb.replace table visible reset response.server_timestamp))
          >> (modify (show_table table visible)
              >> when_
                  (not response.reset_required)
                  (persist_answer cb add_one table unacked response ts visible)))
  Keeps-apply_merged table unacked response ts reset visible =
      Keeps-then _ _
        (Keeps-when response.reset_required _ (
          rules.called (cb.replace table visible reset response.server_timestamp)
            (laws.replace_calm table visible reset response.server_timestamp)))
        (Keeps-then _ _ (Keeps-show table visible) (
          Keeps-when (not response.reset_required) _
            (Keeps-persist_answer table unacked response ts visible)))

  Keeps-merge_answer :
      (table : String) (unacked : List SyncMutation) (response : SyncTransportResponse)
      (ts : List SyncTombstone)
      → Keeps P (merge_answer cb add_one config table unacked response ts)
  unfolding merge_answer
  Keeps-merge_answer table unacked response ts = record {
    at = λ s h.
        (Keeps-bind
            (lift (
              merge_pulled_records
                (merge_base response.reset_required (protected_ids unacked)
                  (table_or_empty (lookup table s.records)))
                (or_default [] response.records) unacked
                (or_default last_write_wins config.conflict_strategy)
                (reset_tombstones response.reset_required ts response.tombstones unacked)))
            _ (Keeps-lift _)
            (λ merged.
              Keeps-apply_merged table unacked response ts
                (reset_tombstones response.reset_required ts response.tombstones unacked)
                (filter (λ r. not (contains (deleted_ids unacked) (record_id r))) merged))).at
          s h;
  }

  pub Keeps-pull_answer :
      (table : String) (unacked : List SyncMutation) (response : SyncTransportResponse)
      → Keeps P (pull_answer cb add_one config table unacked response)
  unfolding pull_answer
  Keeps-pull_answer table unacked response =
      Keeps-bind (on_store (cb.load_tombstones table)) _
        (rules.called (cb.load_tombstones table) (laws.load_tombstones_calm table))
        λ stored. Keeps-when (is_given response.records || not (is_empty response.tombstones)) _ (
          Keeps-merge_answer table unacked response
            (values (newest_tombstones [] (stored ++ response.tombstones))))
