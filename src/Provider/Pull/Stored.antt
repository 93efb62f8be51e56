-- ===== src/Provider/Pull/Stored.antt =====
-- What a pull leaves on the store of a record that the user has edited.
use react_native_nitro_sync.Prelude.{
  ◌≡◌, refl, ap, ◌∙◌, inl, inr, Bool, true, false, not, ◌||◌, some, String, List, [], ◌∷◌, filter,
  contains, ◌==◌, string_eq, arith, Bool-cases, Option-cases,
}
use react_native_nitro_sync.Prelude.Dict.{Dict, lookup, insert, lookup-insert}
use react_native_nitro_sync.Value.Number.{Number}
use react_native_nitro_sync.Value.Json.{string, field, end, get}
use react_native_nitro_sync.Types.{SyncMutation, SyncRecord, SyncTombstone, record_id}
use react_native_nitro_sync.Merge.{
  last_write_wins, protected_ids, tombstone_timestamps, merge_pulled_records,
}
use react_native_nitro_sync.Protocol.Response.{SyncTransportResponse}
use react_native_nitro_sync.Exec.{Exec, gets, lift, modify, when_}
use react_native_nitro_sync.Exec.Keeps.{
  Keeps, Keeps-return, Keeps-modify, Keeps-then, Keeps-bind, Keeps-lift, Keeps-gets, Keeps-when,
  Keeps-for_each,
}
use react_native_nitro_sync.Provider.{table_or_empty}
use react_native_nitro_sync.Provider.Backend.{Callbacks}
use react_native_nitro_sync.Provider.Session.{Session, SyncConfig, on_store, show_table, or_default}
use react_native_nitro_sync.Provider.Pull.{
  reset_tombstones, merge_base, deleted_ids, records_by_id, is_empty, is_given, persist_pulled,
  persist_tombstone, persist_answer, merge_answer, pull_answer,
}

-- What a reader of the store has of one id of a table: reading the tombstones leaves it alone, and so
-- does writing a record of the table under another id, also when the call throws.
pub record RecordLaws {S V : Type 0} (cb : Callbacks S) (table k : String) (view : S → V)
    : Type 0 where
  pub load : (s : S) → view (cb.load_tombstones table s).1 ≡ view s
  pub persist :
      (r : SyncRecord) (at : Number) (deleted : Bool) (s : S)
      → (record_id r == k) ≡ false
      → view (cb.persist table r at deleted s).1 ≡ view s

-- Every record stands under its own id.
abbrev IsKeyed : Dict SyncRecord → Type 0
IsKeyed d = (id : String) (r : SyncRecord) → lookup id d ≡ some r → record_id r ≡ id

insert-IsKeyed :
    (r : SyncRecord) (d : Dict SyncRecord) → IsKeyed d → IsKeyed (insert (record_id r) r d)
insert-IsKeyed r d h id q e = ground (arith, lookup-insert (record_id r) id r d, h id q)

records_by_id-IsKeyed :
    (rs : List SyncRecord) (d : Dict SyncRecord) → IsKeyed d → IsKeyed (records_by_id d rs)
unfolding records_by_id
records_by_id-IsKeyed [] d h = h
records_by_id-IsKeyed (r ∷ rs) d h =
    records_by_id-IsKeyed rs (insert (record_id r) r d) (insert-IsKeyed r d h)

empty-IsKeyed : IsKeyed []
unfolding lookup
empty-IsKeyed id r e = cc

other_id :
    (protected : List String) (k id : String)
    → contains protected k ≡ true
    → contains protected id ≡ false
    → (id == k) ≡ false
other_id protected k id h free = ground arith

module _ {S V : Type 0} {cb : Callbacks S} {table k : String} {view : S → V}
    (laws : RecordLaws cb table k view) (add_one : Number → Number) where
  -- The store shows the given view of the id.
  abbrev Holds : V → Session S → Type 0
  Holds v s = view s.store ≡ v

  Keeps-store :
      {A : Type 0} (v : V) (q : Exec S A)
      → ((s : S) → view (q s).1 ≡ view s)
      → Keeps (Holds v) (on_store q)
  Keeps-store v q law = record { at = λ s h. law s.store ∙ h }

  Keeps-show :
      (v : V) (rs : List SyncRecord) → Keeps (Holds v) (modify (show_table {S = S} table rs))
  Keeps-show v rs = Keeps-modify (show_table table rs) λ s h. h

  module _ (protected : List String) (edited : contains protected k ≡ true) where
    Keeps-persist_pulled :
        (v : V) (at : Number) (tombs : Dict Number) (merged : Dict SyncRecord) (r : SyncRecord)
        → IsKeyed merged
        → Keeps (Holds v) (persist_pulled cb add_one table at protected tombs merged r)
    unfolding persist_pulled
    Keeps-persist_pulled v at tombs merged r keyed =
        elim (Option-cases (lookup (record_id r) merged)) [
          | inl e ↦ rw (e, persist_pulled) (Keeps-return tt)
          | inr (resolved, e) ↦ elim (Bool-cases (contains protected (record_id r))) [
            | inl p ↦ rw (e, p, persist_pulled) (Keeps-return tt)
            | inr p ↦
                rw (e, p, persist_pulled)
                  (Keeps-store v _ λ s. laws.persist resolved _ false s (
                    ap (λ id. id == k) (keyed (record_id r) resolved e)
                    ∙ other_id protected k (record_id r) edited p))
          ]
        ]

    Keeps-persist_tombstone :
        (v : V) (t : SyncTombstone)
        → Keeps (Holds v) (persist_tombstone cb add_one table protected t)
    unfolding persist_tombstone record_id get string_eq
    Keeps-persist_tombstone v t = elim (Bool-cases (contains protected t.id)) [
      | inl p ↦ rw (p, persist_tombstone) (Keeps-return tt)
      | inr p ↦
          rw (p, persist_tombstone)
            (Keeps-store v _ λ s.
              laws.persist (field "id" (string t.id) end) t.timestamp true s
                (other_id protected k t.id edited p))
    ]

  module _ (unacked : List SyncMutation) (response : SyncTransportResponse)
      (edited : contains (protected_ids unacked) k ≡ true)
      (partial : response.reset_required ≡ false) where
    Keeps-persist_answer :
        (v : V) (ts : List SyncTombstone) (visible : List SyncRecord)
        → Keeps (Holds v) (persist_answer cb add_one table unacked response ts visible)
    unfolding persist_answer
    Keeps-persist_answer v ts visible =
        Keeps-then _ _
          (Keeps-for_each _ _ λ r.
            Keeps-persist_pulled (protected_ids unacked) edited v response.server_timestamp
              (tombstone_timestamps [] ts) (records_by_id [] visible) r
              (records_by_id-IsKeyed visible [] empty-IsKeyed))
          (Keeps-for_each _ _ (Keeps-persist_tombstone (protected_ids unacked) edited v))

    Keeps-reset :
        (v : V) (b : Bool) (q : Exec (Session S) (Unit {0}))
        → b ≡ false
        → Keeps (Holds v) (when_ b q)
    Keeps-reset v true q h = absurd (cc h)
    Keeps-reset v false q h = Keeps-return tt

    Keeps-merge_answer :
        (v : V) (config : SyncConfig) (ts : List SyncTombstone)
        → Keeps (Holds v) (merge_answer cb add_one config table unacked response ts)
    unfolding merge_answer
    Keeps-merge_answer v config ts =
        Keeps-bind (gets (λ t. table_or_empty (lookup table t.records))) _ (Keeps-gets _) λ shown.
          Keeps-bind
            (lift (
              merge_pulled_records
                (merge_base response.reset_required (protected_ids unacked) shown)
                (or_default [] response.records) unacked
                (or_default last_write_wins config.conflict_strategy)
                (reset_tombstones response.reset_required ts response.tombstones unacked)))
            _ (Keeps-lift _)
            λ merged.
              let visible =
                filter (λ r. not (contains (deleted_ids unacked) (record_id r))) merged in
              let rows = reset_tombstones response.reset_required ts response.tombstones unacked in
              Keeps-then
                (when_ response.reset_required
                  (on_store (cb.replace table visible rows response.server_timestamp)))
                _ (Keeps-reset v response.reset_required _ partial)
                (Keeps-then _ _ (Keeps-show v visible)
                  (Keeps-when (not response.reset_required) _ (Keeps-persist_answer v ts visible)))

    -- The store has of the edited id what it had before.
    pub pull_keeps_stored :
        (config : SyncConfig) (s : Session S)
        → view (pull_answer cb add_one config table unacked response s).1.store ≡ view s.store
    unfolding pull_answer
    pull_keeps_stored config s =
        (Keeps-bind (on_store (cb.load_tombstones table)) _
            (Keeps-store (view s.store) (cb.load_tombstones table) laws.load)
            λ stored.
              Keeps-when (is_given response.records || not (is_empty response.tombstones)) _
                (Keeps-merge_answer (view s.store) config _)).at
          s refl
