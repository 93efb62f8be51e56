-- ===== src/Provider/Pull/Edits.antt =====
-- What a pull leaves of the records that the user has edited and the server has not acknowledged.
use react_native_nitro_sync.Prelude.{
  ◌≡◌, refl, ap, ◌∙◌, inl, inr, Bool, true, false, not, ◌||◌, Option, none, some, String, List, [],
  ◌∷◌, ◌++◌, filter, contains, string_eq, arith, Bool-cases, Option-cases,
}
use react_native_nitro_sync.Prelude.Dict.{Dict, lookup, insert, values, lookup-insert}
use react_native_nitro_sync.Value.Number.{Number}
use react_native_nitro_sync.Types.{SyncMutation, SyncRecord, SyncTombstone, record_id, ok}
use react_native_nitro_sync.Merge.{
  last_write_wins, protected_ids, tombstone_timestamps, merge_pulled_records,
}
use react_native_nitro_sync.Merge.Loops.{find_record, HasDistinctIds}
use react_native_nitro_sync.Merge.Guarantees.{protected_unchanged}
use react_native_nitro_sync.Protocol.Response.{SyncTransportResponse}
use react_native_nitro_sync.Exec.{Exec, ◌>>◌, lift, modify, when_, Result-cases, bind-ok, bind-err}
use react_native_nitro_sync.Exec.Keeps.{
  Keeps, Keeps-return, Keeps-modify, Keeps-then, Keeps-when, Keeps-for_each,
}
use react_native_nitro_sync.Provider.{table_or_empty}
use react_native_nitro_sync.Provider.Backend.{Callbacks}
use react_native_nitro_sync.Provider.Session.{Session, SyncConfig, on_store, show_table, or_default}
use react_native_nitro_sync.Provider.Pull.{
  newest_tombstones, reset_tombstones, merge_base, deleted_ids, records_by_id, is_empty, is_given,
  persist_pulled, persist_tombstone, persist_answer, merge_answer, pull_answer,
}

abbrev by_id : (String → Bool) → SyncRecord → Bool
by_id p r = p (record_id r)

find_record-filter :
    (p : String → Bool) (k : String) (rs : List SyncRecord)
    → p k ≡ true
    → find_record k (filter (by_id p) rs) ≡ find_record k rs
find_record-filter p k [] h = refl
find_record-filter p k (r ∷ rs) h = ground (arith, find_record-filter p k rs)

find_record-none :
    (p : String → Bool) (k : String) (rs : List SyncRecord)
    → find_record k rs ≡ none
    → find_record k (filter (by_id p) rs) ≡ none
find_record-none p k [] h = h
find_record-none p k (r ∷ rs) h = ground (arith, find_record-none p k rs)

filter-HasDistinctIds :
    (p : String → Bool) (rs : List SyncRecord)
    → HasDistinctIds rs
    → HasDistinctIds (filter (by_id p) rs)
filter-HasDistinctIds p [] h = tt
filter-HasDistinctIds p (r ∷ rs) h = elim (Bool-cases (p (record_id r))) [
  | inl e ↦ rw e (find_record-none p (record_id r) rs h.0, filter-HasDistinctIds p rs h.1)
  | inr e ↦ rw e (filter-HasDistinctIds p rs h.1)
]

merge_base-HasDistinctIds :
    (reset : Bool) (protected : List String) (rs : List SyncRecord)
    → HasDistinctIds rs
    → HasDistinctIds (merge_base reset protected rs)
unfolding merge_base
merge_base-HasDistinctIds true protected rs h = filter-HasDistinctIds (contains protected) rs h
merge_base-HasDistinctIds false protected rs h = h

find_record-merge_base :
    (reset : Bool) (protected : List String) (k : String) (rs : List SyncRecord)
    → contains protected k ≡ true
    → find_record k (merge_base reset protected rs) ≡ find_record k rs
unfolding merge_base
find_record-merge_base true protected k rs h = find_record-filter (contains protected) k rs h
find_record-merge_base false protected k rs h = refl

-- The records of a table, as the user sees them.
abbrev pub shown_in : {S : Type 0} → String → Session S → List SyncRecord
shown_in table s = table_or_empty (lookup table s.records)

lookup_inserted :
    (table : String) (rs : List SyncRecord) (d : Dict (List SyncRecord))
    → lookup table (insert table rs d) ≡ some rs
lookup_inserted table rs d = ground (arith, lookup-insert table table rs d)

module _ {S : Type 0} (cb : Callbacks S) (add_one : Number → Number) (table k : String) where
  -- The user sees a given record, or none, under the id.
  abbrev Sees : Option SyncRecord → Session S → Type 0
  Sees v s = find_record k (shown_in table s) ≡ v

  Keeps-call : {A : Type 0} (v : Option SyncRecord) (q : Exec S A) → Keeps (Sees v) (on_store q)
  Keeps-call v q = record { at = λ s h. h }

  Keeps-persist_pulled :
      (v : Option SyncRecord) (at : Number) (protected : List String) (tombs : Dict Number)
      (merged : Dict SyncRecord) (r : SyncRecord)
      → Keeps (Sees v) (persist_pulled cb add_one table at protected tombs merged r)
  unfolding persist_pulled
  Keeps-persist_pulled v at protected tombs merged r =
      elim (Option-cases (lookup (record_id r) merged)) [
        | inl e ↦ rw (e, persist_pulled) (Keeps-return tt)
        | inr (resolved, e) ↦
            rw (e, persist_pulled)
              (Keeps-when (not (contains protected (record_id r))) (on_store _) (Keeps-call v _))
      ]

  Keeps-persist_tombstone :
      (v : Option SyncRecord) (protected : List String) (t : SyncTombstone)
      → Keeps (Sees v) (persist_tombstone cb add_one table protected t)
  unfolding persist_tombstone
  Keeps-persist_tombstone v protected t =
      Keeps-when (not (contains protected t.id)) (on_store _) (Keeps-call v _)

  Keeps-persist_answer :
      (v : Option SyncRecord) (unacked : List SyncMutation) (response : SyncTransportResponse)
      (ts : List SyncTombstone) (visible : List SyncRecord)
      → Keeps (Sees v) (persist_answer cb add_one table unacked response ts visible)
  unfolding persist_answer
  Keeps-persist_answer v unacked response ts visible =
      Keeps-then _ _
        (Keeps-for_each _ _ (
          Keeps-persist_pulled v response.server_timestamp (protected_ids unacked)
            (tombstone_timestamps [] ts) (records_by_id [] visible)))
        (Keeps-for_each _ _ (Keeps-persist_tombstone v (protected_ids unacked)))

  Keeps-show :
      (v : Option SyncRecord) (visible : List SyncRecord)
      → find_record k visible ≡ v
      → Keeps (Sees v) (modify (show_table {S = S} table visible))
  Keeps-show v visible h = Keeps-modify (show_table table visible) λ s seen.
      ap (λ o. find_record k (table_or_empty o)) (lookup_inserted table visible s.records) ∙ h

  module _ (unacked : List SyncMutation) (response : SyncTransportResponse) where
    Keeps-apply_merged :
        (v : Option SyncRecord) (ts reset : List SyncTombstone) (visible : List SyncRecord)
        → find_record k visible ≡ v
        → Keeps (Sees v) (
            when_ response.reset_required
              (on_store (cb.replace table visible reset response.server_timestamp))
            >> (modify (show_table table visible)
                >> when_
                    (not response.reset_required)
                    (persist_answer cb add_one table unacked response ts visible)))
    Keeps-apply_merged v ts reset visible h =
        Keeps-then _ _
          (Keeps-when response.reset_required _
            (Keeps-call v (cb.replace table visible reset response.server_timestamp)))
          (Keeps-then _ _ (Keeps-show v visible h) (
            Keeps-when (not response.reset_required) _
              (Keeps-persist_answer v unacked response ts visible)))

    module _ (config : SyncConfig) (edited : contains (protected_ids unacked) k ≡ true)
        (kept : contains (deleted_ids unacked) k ≡ false)
        (distinct : HasDistinctIds (or_default [] response.records)) where
      merged_edit :
          (ts : List SyncTombstone) (shown merged : List SyncRecord)
          → HasDistinctIds shown
          → merge_pulled_records
              (merge_base response.reset_required (protected_ids unacked) shown)
              (or_default [] response.records)
              unacked
              (or_default last_write_wins config.conflict_strategy)
              (reset_tombstones response.reset_required ts response.tombstones unacked)
            ≡ ok merged
          → find_record k (filter (λ r. not (contains (deleted_ids unacked) (record_id r))) merged)
            ≡ find_record k shown
      merged_edit ts shown merged h e =
          find_record-filter (λ x. not (contains (deleted_ids unacked) x)) k merged (ground arith)
          ∙ protected_unchanged (merge_base response.reset_required (protected_ids unacked) shown)
              (or_default [] response.records) merged unacked
              (or_default last_write_wins config.conflict_strategy)
              (reset_tombstones response.reset_required ts response.tombstones unacked)
              (merge_base-HasDistinctIds response.reset_required (protected_ids unacked) shown h)
              distinct e k edited
          ∙ find_record-merge_base response.reset_required (protected_ids unacked) k shown edited

      merge_answer_keeps :
          (ts : List SyncTombstone) (s : Session S)
          → HasDistinctIds (shown_in table s)
          → Sees
              (find_record k (shown_in table s))
              (merge_answer cb add_one config table unacked response ts s).1
      unfolding merge_answer
      merge_answer_keeps ts s h =
          let result =
            merge_pulled_records
              (merge_base response.reset_required (protected_ids unacked) (shown_in table s))
              (or_default [] response.records) unacked
              (or_default last_write_wins config.conflict_strategy)
              (reset_tombstones response.reset_required ts response.tombstones unacked) in
          elim (Result-cases result) [
            | inl (merged, e) ↦ rw (bind-ok (lift result) _ s merged e) (
                (Keeps-apply_merged (find_record k (shown_in table s)) ts
                    (reset_tombstones response.reset_required ts response.tombstones unacked)
                    (filter (λ r. not (contains (deleted_ids unacked) (record_id r))) merged)
                    (merged_edit ts (shown_in table s) merged h e)).at
                  s refl)
            | inr (x, e) ↦ rw (bind-err (lift result) _ s x e) refl
          ]

      merge_when_keeps :
          (b : Bool) (ts : List SyncTombstone) (s : Session S)
          → HasDistinctIds (shown_in table s)
          → Sees
              (find_record k (shown_in table s))
              (when_ b (merge_answer cb add_one config table unacked response ts) s).1
      merge_when_keeps true ts s h = merge_answer_keeps ts s h
      merge_when_keeps false ts s h = refl

      -- What the user sees under the id of an unacknowledged edit stays through the answer.
      pub pull_keeps_shown :
          (s : Session S)
          → HasDistinctIds (shown_in table s)
          → find_record k
              (shown_in table (pull_answer cb add_one config table unacked response s).1)
            ≡ find_record k (shown_in table s)
      unfolding pull_answer
      pull_keeps_shown s h = elim (Result-cases (on_store (cb.load_tombstones table) s).0) [
        | inl (stored, e) ↦ rw (bind-ok (on_store (cb.load_tombstones table)) _ s stored e) (
            merge_when_keeps (is_given response.records || not (is_empty response.tombstones))
              (values (newest_tombstones [] (stored ++ response.tombstones)))
              (on_store (cb.load_tombstones table) s).1 h)
        | inr (x, e) ↦ rw (bind-err (on_store (cb.load_tombstones table)) _ s x e) refl
      ]
