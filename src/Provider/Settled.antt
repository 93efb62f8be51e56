-- ===== src/Provider/Settled.antt =====
-- Every mutation that is SYNCING is in `unackedIds`: what a sync does with a table keeps this.
pub mod Rules
pub mod Pulled
pub mod Table
pub mod Gone
pub mod Done
pub mod Run
pub mod Completes
pub mod GiveUp
pub mod Released
use react_native_nitro_sync.Prelude.{
  ◌≡◌, refl, ap, sym, ◌∙◌, ◌⊎◌, inl, inr, Bool, true, false, not, ◌&&◌, ◌||◌, Option, none, some,
  String, List, [], ◌∷◌, ◌++◌, arith, filter, contains, ◌==◌, string_eq, Bool-cases, Option-cases,
  if◌then◌else◌,
}
use react_native_nitro_sync.Prelude.Dict.{Dict, lookup}
use react_native_nitro_sync.Value.Number.{Number, num}
use react_native_nitro_sync.Value.Json.{Json}
use react_native_nitro_sync.Types.{
  MutationStatus, SyncMutation, SyncMutationRejection, SyncRecord, SyncTombstone, string_id, Error,
  Result, ok, err,
}
use react_native_nitro_sync.Protocol.Response.{SyncTransportResponse}
use react_native_nitro_sync.Settlement.{
  SyncMutationSettlement, Handler, partition_sync_mutations, handle_each, settle_sync_mutations,
  fail_sync_mutations,
}
use react_native_nitro_sync.Exec.{
  Exec, ◌>>=◌, ◌>>◌, return, lift, gets, modify, when_, for_each, try_catch, Result-cases, bind-ok,
  bind-err,
}
use react_native_nitro_sync.Exec.Keeps.{
  Keeps, Keeps-return, Keeps-lift, Keeps-gets, Keeps-modify, Keeps-bind, Keeps-then, Keeps-when,
  Keeps-for_each, Keeps-try,
}
use react_native_nitro_sync.Provider.{is_delete}
use react_native_nitro_sync.Provider.Backend.{Callbacks}
use react_native_nitro_sync.Provider.Session.{
  Session, SyncConfig, Metadata, on_store, delete_id, acknowledge_id, show_table,
}
use react_native_nitro_sync.Provider.Settled.Rules.{SessionRules}
use react_native_nitro_sync.Provider.Queue.{Stuck, Calm, Frees, QueueLaws}
use react_native_nitro_sync.Provider.Pull.{
  is_given, persist_pulled, persist_tombstone, persist_answer, merge_answer, pull_answer,
}
use react_native_nitro_sync.Provider.Process.{
  ensure_shown, request_for, remap_each, apply_id_map, clear_removed, on_acknowledge, on_retry,
  on_reject, handlers, store_cursor, store_version, settle_answer, take_answer, fail_table,
  process_table, PullRequest, on_failure,
}

pub contains-delete_id :
    (id x : String) (xs : List String)
    → contains (delete_id id xs) x ≡ (contains xs x && not (x == id))
contains-delete_id id x [] = refl
contains-delete_id id x (y ∷ xs) = ground (arith, contains-delete_id id x xs)

module _ {S : Type 0} (stuck : Stuck S) where
  abbrev pub IsTracked : Session S → Type 0
  IsTracked s = (x : String) → stuck x s.store ≡ true → contains s.unacked_ids x ≡ true

  pub Keeps-on_store : {A : Type 0} (q : Exec S A) → Calm stuck q → Keeps IsTracked (on_store q)
  Keeps-on_store q calm = record { at = λ s h x k. h x (calm s.store x k) }

  acknowledge-IsTracked :
      (id : String) (s : Session S)
      → IsTracked s
      → stuck id s.store ≡ false
      → IsTracked (acknowledge_id id s)
  acknowledge-IsTracked id s h free x k =
      ground (arith, contains-delete_id id x s.unacked_ids, h x k, k, free)

  abbrev pub IsFree : String → Session S → Type 0
  IsFree id s = stuck id s.store ≡ false

  calm_free :
      (id : String) (s s' : S)
      → (stuck id s' ≡ true → stuck id s ≡ true)
      → stuck id s ≡ false
      → stuck id s' ≡ false
  calm_free id s s' calm free = ground (arith, calm)

  pub on_store-IsFree :
      {A : Type 0} (id : String) (q : Exec S A) → Calm stuck q → Keeps (IsFree id) (on_store q)
  on_store-IsFree id q calm = record {
    at = λ s h. calm_free id s.store (q s.store).1 (calm s.store id) h;
  }

  -- A call that frees a mutation, and then code that may count on this.
  pub free_then :
      {A : Type 0} (id : String) (q : Exec S (Unit {0})) (rest : Exec (Session S) A)
      → Calm stuck q
      → Frees stuck id q
      → ((s : Session S) → IsTracked s → IsFree id s → IsTracked (rest s).1)
      → Keeps IsTracked (on_store q >> rest)
  free_then id q rest calm frees keeps = record {
    at = λ s h. elim (Result-cases (q s.store).0) [
      | inl (done, e) ↦
          rw (bind-ok (on_store q) (λ _. rest) s done e)
            (keeps (on_store q s).1 ((Keeps-on_store q calm).at s h) (frees s.store e))
      | inr (x, e) ↦ rw (bind-err (on_store q) (λ _. rest) s x e) ((Keeps-on_store q calm).at s h)
    ];
  }

  pub acknowledge_freed :
      (id : String) (s : Session S)
      → IsTracked s
      → IsFree id s
      → IsTracked (modify (acknowledge_id id) s).1
  acknowledge_freed id s h free = acknowledge-IsTracked id s h free

  then_acknowledge :
      (id : String) (mid : Exec (Session S) (Unit {0}))
      → Keeps IsTracked mid
      → Keeps (IsFree id) mid
      → (s : Session S) → IsTracked s
      → IsFree id s
      → IsTracked ((mid >> modify (acknowledge_id id)) s).1
  then_acknowledge id mid tracked free s h f = elim (Result-cases (mid s).0) [
    | inl (done, e) ↦
        rw (bind-ok mid (λ _. modify (acknowledge_id id)) s done e)
          (acknowledge_freed id (mid s).1 (tracked.at s h) (free.at s f))
    | inr (x, e) ↦ rw (bind-err mid (λ _. modify (acknowledge_id id)) s x e) (tracked.at s h)
  ]

  module _ {cb : Callbacks S} {metadata : Metadata S} (laws : QueueLaws cb metadata stuck)
      (add_one : Number → Number) (config : SyncConfig) where
    Keeps-on_retry :
        (m : SyncMutation) (status : MutationStatus)
        → Keeps IsTracked (on_retry cb metadata add_one config m status)
    unfolding on_retry
    Keeps-on_retry m status =
        free_then m.id (cb.fail m.id) (modify (acknowledge_id m.id)) (laws.fail_calm m.id)
          (laws.fail_frees m.id) (acknowledge_freed m.id)

    Keeps-on_reject :
        (rs : List SyncMutationRejection) (m : SyncMutation) (status : MutationStatus)
        → Keeps IsTracked (on_reject cb metadata add_one config rs m status)
    unfolding on_reject
    Keeps-on_reject rs m status =
        free_then m.id (cb.reject m.id _ _) (modify (acknowledge_id m.id))
          (laws.reject_calm m.id _ _) (laws.reject_frees m.id _ _) (acknowledge_freed m.id)

    Keeps-clear_removed :
        (P : Session S → Type 0) (table : String) (m : SyncMutation)
        → ((id : String) → Keeps P (on_store (cb.clear table id m.timestamp)))
        → Keeps P (clear_removed cb metadata add_one config table m)
    unfolding clear_removed
    Keeps-clear_removed P table m k = elim (Option-cases (string_id m.payload)) [
      | inl e ↦ rw (e, clear_removed) (Keeps-return tt)
      | inr (id, e) ↦ rw (e, clear_removed) (Keeps-when (is_delete m.operation) _ (k id))
    ]

    Keeps-on_acknowledge :
        (table : String) (m : SyncMutation) (status : MutationStatus)
        → Keeps IsTracked (on_acknowledge cb metadata add_one config table m status)
    unfolding on_acknowledge
    Keeps-on_acknowledge table m status =
        free_then m.id (cb.remove m.id)
          (clear_removed cb metadata add_one config table m >> modify (acknowledge_id m.id))
          (laws.remove_calm m.id) (laws.remove_frees m.id)
          (then_acknowledge m.id (clear_removed cb metadata add_one config table m)
            (Keeps-clear_removed IsTracked table m (λ id.
              Keeps-on_store (cb.clear table id m.timestamp)
                (laws.clear_calm table id m.timestamp)))
            (Keeps-clear_removed (IsFree m.id) table m (λ id.
              on_store-IsFree m.id (cb.clear table id m.timestamp)
                (laws.clear_calm table id m.timestamp))))

    store_cursor-IsTracked :
        (table : String) (response : SyncTransportResponse) (s : Session S)
        → IsTracked s
        → IsTracked (store_cursor cb metadata add_one config table response s)
    unfolding store_cursor
    store_cursor-IsTracked table response s h =
        elim (Bool-cases (is_given response.server_cursor || response.reset_required)) [
          | inl e ↦ rw (e, store_cursor) (λ x k. h x (laws.cursor_calm table _ s.store x k))
          | inr e ↦ rw (e, store_cursor) h
        ]

    store_version-IsTracked :
        (table : String) (response : SyncTransportResponse) (s : Session S)
        → IsTracked s
        → IsTracked (store_version cb metadata add_one config table response s)
    unfolding store_version
    store_version-IsTracked table response s h =
        elim (Bool-cases (is_given response.server_version || response.reset_required)) [
          | inl e ↦ rw (e, store_version) (λ x k. h x (laws.version_calm table _ s.store x k))
          | inr e ↦ rw (e, store_version) h
        ]

    pub IsTracked-rules : SessionRules stuck cb metadata add_one config IsTracked
    IsTracked-rules = record {
      called = Keeps-on_store;
      shown = λ rs s h. h;
      told = λ ms s h. h;
      cursor_stored = store_cursor-IsTracked;
      version_stored = store_version-IsTracked;
      acknowledged = Keeps-on_acknowledge;
      retried = Keeps-on_retry;
      refused = Keeps-on_reject;
      synced = λ now s h x k. h x (laws.synced_calm now s.store x k);
    }
