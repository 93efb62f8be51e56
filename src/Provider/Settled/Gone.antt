-- ===== src/Provider/Settled/Gone.antt =====
-- Ids that leave `unackedIds`, and that nothing of a sync puts back.
use react_native_nitro_sync.Prelude.{
  ◌≡◌, inl, inr, Bool, true, false, not, ◌&&◌, ◌||◌, String, List, [], ◌∷◌, arith, filter, contains,
  ◌==◌, string_eq, Bool-cases, Option-cases,
}
use react_native_nitro_sync.Value.Number.{Number}
use react_native_nitro_sync.Types.{SyncMutation, SyncMutationRejection, string_id}
use react_native_nitro_sync.Protocol.Response.{SyncTransportResponse}
use react_native_nitro_sync.Settlement.{SyncMutationSettlement, ids, partition_sync_mutations}
use react_native_nitro_sync.Settlement.Partition.{is_acknowledged, is_refused, partition_lem}
use react_native_nitro_sync.Exec.{Exec, ◌>>◌, modify}
use react_native_nitro_sync.Exec.Keeps.{Keeps, Keeps-return, Keeps-modify, Keeps-then, Keeps-when}
use react_native_nitro_sync.Exec.Leads.{Leads, Always, Leads-after}
use react_native_nitro_sync.Provider.{is_delete}
use react_native_nitro_sync.Provider.Backend.{Callbacks}
use react_native_nitro_sync.Provider.Session.{
  Session, SyncConfig, Metadata, on_store, delete_id, acknowledge_id,
}
use react_native_nitro_sync.Provider.Queue.{Stuck, QueueLaws}
use react_native_nitro_sync.Provider.Pull.{is_given}
use react_native_nitro_sync.Provider.Process.{
  clear_removed, on_acknowledge, on_retry, on_reject, store_cursor, store_version,
}
use react_native_nitro_sync.Provider.Settled.{contains-delete_id}
use react_native_nitro_sync.Provider.Settled.Rules.{SessionRules}

abbrev pub IsGone : {S : Type 0} → String → Session S → Type 0
IsGone x s = contains s.unacked_ids x ≡ false

delete_id-gone :
    (id x : String) (xs : List String)
    → contains xs x ≡ false
    → contains (delete_id id xs) x ≡ false
delete_id-gone id x xs h = ground (arith, contains-delete_id id x xs)

delete_id-goes :
    (id x : String) (xs : List String) → (id == x) ≡ true → contains (delete_id id xs) x ≡ false
delete_id-goes id x xs h = ground (arith, contains-delete_id id x xs)

pub Keeps-acknowledge_id :
    {S : Type 0} (id x : String) → Keeps (IsGone {S = S} x) (modify (acknowledge_id id))
Keeps-acknowledge_id id x =
    Keeps-modify (acknowledge_id id) λ s h. delete_id-gone id x s.unacked_ids h

pub acknowledge_leads :
    {S A : Type 0} (id x : String) (q : Exec (Session S) A)
    → (id == x) ≡ true
    → Leads Always (q >> modify (acknowledge_id id)) (λ u. IsGone x)
acknowledge_leads id x q same =
    Leads-after q (λ a. modify (acknowledge_id id))
      λ a. record { at = λ s b h e. delete_id-goes id x s.unacked_ids same }

-- Each of the three lists of a settlement, or none of them, has an id.
abbrev pub has_id : SyncMutationSettlement → String → Bool
has_id settlement x =
    contains (ids settlement.acknowledged) x
    || (contains (ids settlement.unacknowledged) x || contains (ids settlement.rejected) x)

three_cover :
    (f g : SyncMutation → Bool) (x : String) (ms : List SyncMutation)
    → contains (ids ms) x ≡ true
    → (contains (ids (filter f ms)) x
        || (contains (ids (filter (λ m. not (f m) && not (g m)) ms)) x
            || contains (ids (filter g ms)) x))
      ≡ true
three_cover f g x [] h = h
three_cover f g x (m ∷ ms) h = ground (arith, three_cover f g x ms)

pub partition_cover :
    (ms : List SyncMutation) (acks : List String) (rs : List SyncMutationRejection) (x : String)
    → contains (ids ms) x ≡ true
    → has_id (partition_sync_mutations ms acks rs) x ≡ true
partition_cover ms acks rs x h =
    rw (partition_lem ms acks rs) (three_cover (is_acknowledged acks) (is_refused acks rs) x ms h)

module _ {S : Type 0} {stuck : Stuck S} {cb : Callbacks S} {metadata : Metadata S}
    (laws : QueueLaws cb metadata stuck) (add_one : Number → Number) (config : SyncConfig)
    (x : String) where
  Keeps-call : {A : Type 0} (q : Exec S A) → Keeps (IsGone x) (on_store q)
  Keeps-call q = record { at = λ s h. h }

  Keeps-clear_gone :
      (table : String) (m : SyncMutation)
      → Keeps (IsGone x) (clear_removed cb metadata add_one config table m)
  unfolding clear_removed
  Keeps-clear_gone table m = elim (Option-cases (string_id m.payload)) [
    | inl e ↦ rw (e, clear_removed) (Keeps-return tt)
    | inr (id, e) ↦ rw (e, clear_removed) (Keeps-when (is_delete m.operation) _ (Keeps-call _))
  ]

  store_cursor_gone :
      (table : String) (response : SyncTransportResponse) (s : Session S)
      → IsGone x s
      → IsGone x (store_cursor cb metadata add_one config table response s)
  unfolding store_cursor
  store_cursor_gone table response s h =
      elim (Bool-cases (is_given response.server_cursor || response.reset_required)) [
        | inl e ↦ rw (e, store_cursor) h
        | inr e ↦ rw (e, store_cursor) h
      ]

  store_version_gone :
      (table : String) (response : SyncTransportResponse) (s : Session S)
      → IsGone x s
      → IsGone x (store_version cb metadata add_one config table response s)
  unfolding store_version
  store_version_gone table response s h =
      elim (Bool-cases (is_given response.server_version || response.reset_required)) [
        | inl e ↦ rw (e, store_version) h
        | inr e ↦ rw (e, store_version) h
      ]

  pub gone_rules : SessionRules stuck cb metadata add_one config (IsGone x)
  unfolding on_acknowledge on_retry on_reject
  gone_rules = record {
    called = λ q calm. Keeps-call q;
    shown = λ rs s h. h;
    told = λ ms s h. h;
    cursor_stored = store_cursor_gone;
    version_stored = store_version_gone;
    acknowledged = λ table m status.
        Keeps-then _ _ (Keeps-call (cb.remove m.id))
          (Keeps-then _ _ (Keeps-clear_gone table m) (Keeps-acknowledge_id m.id x));
    retried = λ m status. Keeps-then _ _ (Keeps-call (cb.fail m.id)) (Keeps-acknowledge_id m.id x);
    refused = λ rs m status. Keeps-then _ _ (Keeps-call _) (Keeps-acknowledge_id m.id x);
    synced = λ now s h. h;
  }
