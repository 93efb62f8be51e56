-- ===== src/Provider/Settled/GiveUp.antt =====
-- The failure path of a sync: `failSyncMutations` frees every claimed mutation that is still open.
use react_native_nitro_sync.Prelude.{
  ◌≡◌, refl, subst, inl, inr, true, false, String, List, [], ◌∷◌, arith, filter, contains, ◌==◌,
  string_eq, Bool-cases,
}
use react_native_nitro_sync.Value.Number.{Number}
use react_native_nitro_sync.Value.Json.{Json}
use react_native_nitro_sync.Types.{MutationStatus, SyncMutation, syncing, fail, Result, ok, err}
use react_native_nitro_sync.StateMachine.{transition_mutation_state}
use react_native_nitro_sync.Settlement.{ids, fail_sync_mutations}
use react_native_nitro_sync.Settlement.Each.{Keeps-handle_each, Leads-handle_each}
use react_native_nitro_sync.Exec.{return, modify}
use react_native_nitro_sync.Exec.Keeps.{Keeps, Keeps-return, Keeps-then}
use react_native_nitro_sync.Exec.Leads.{Leads, Always, Leads-kept}
use react_native_nitro_sync.Provider.Backend.{Callbacks}
use react_native_nitro_sync.Provider.Session.{Session, SyncConfig, Metadata, acknowledge_id}
use react_native_nitro_sync.Provider.Queue.{Stuck, QueueLaws}
use react_native_nitro_sync.Provider.Process.{PullRequest, still_unacked, on_failure}
use react_native_nitro_sync.Provider.Sync.{
  SyncOutcome, synced, server_rejected, tables_failed, broken, release_blocked, give_up, settle_run,
}
use react_native_nitro_sync.Provider.Settled.{
  IsTracked, IsFree, on_store-IsFree, free_then, acknowledge_freed,
}
use react_native_nitro_sync.Provider.Settled.Gone.{IsGone}
use react_native_nitro_sync.Provider.Settled.Completes.{succeeds}

contains-ids-filter :
    (xs : List String) (x : String) (ms : List SyncMutation)
    → contains xs x ≡ true
    → contains (ids ms) x ≡ true
    → contains (ids (filter (λ m. contains xs m.id) ms)) x ≡ true
contains-ids-filter xs x [] h k = k
contains-ids-filter xs x (m ∷ ms) h k = ground (arith, contains-ids-filter xs x ms h)

IsFree-of_tracked :
    {S : Type 0} (stuck : Stuck S) (x : String) (s : Session S)
    → IsTracked stuck s
    → IsGone x s
    → IsFree stuck x s
IsFree-of_tracked stuck x s h k = ground (arith, h x)

module _ {S : Type 0} {stuck : Stuck S} {cb : Callbacks S} {metadata : Metadata S}
    (laws : QueueLaws cb metadata stuck) (add_one : Number → Number) (config : SyncConfig) where
  Keeps-fail-IsFree :
      (x : String) (m : SyncMutation) (status : MutationStatus)
      → Keeps (IsFree stuck x) (on_failure cb metadata add_one config m status)
  Keeps-fail-IsFree x m status = on_store-IsFree stuck x (cb.fail m.id) (laws.fail_calm m.id)

  fail_frees :
      (x : String) (m : SyncMutation) (status : MutationStatus)
      → (m.id == x) ≡ true
      → Leads Always (on_failure cb metadata add_one config m status) (λ u. IsFree stuck x)
  fail_frees x m status same = record {
    at = λ s u h e.
        subst (λ y. stuck y (cb.fail m.id s.store).1 ≡ false) (ground arith)
          (laws.fail_frees m.id s.store e);
  }

  -- What `failSyncMutations` does for a mutation: it frees it, or leaves it free.
  Leads-fail_all :
      (x : String) (ms : List SyncMutation)
      → contains (ids ms) x ≡ true
      → Leads Always
          (fail_sync_mutations ms (on_failure cb metadata add_one config))
          (λ u. IsFree stuck x)
  unfolding fail_sync_mutations
  Leads-fail_all x ms h =
      let failed = transition_mutation_state syncing fail in
      Leads-handle_each (on_failure cb metadata add_one config) failed x ms
        (λ m. Keeps-fail-IsFree x m failed) (λ m. fail_frees x m failed) h

  Keeps-fail_all :
      (x : String) (ms : List SyncMutation)
      → Keeps (IsFree stuck x) (fail_sync_mutations ms (on_failure cb metadata add_one config))
  unfolding fail_sync_mutations
  Keeps-fail_all x ms =
      let failed = transition_mutation_state syncing fail in
      Keeps-handle_each (on_failure cb metadata add_one config) failed ms
        (λ m. Keeps-fail-IsFree x m failed)

  module _ (transport : PullRequest → Result Json) (now : Number) where
    give_up_frees :
        (x : String) (claimed : List SyncMutation) (end outcome : SyncOutcome) (s : Session S)
        → IsTracked stuck s
        → (contains s.unacked_ids x ≡ true → contains (ids claimed) x ≡ true)
        → (give_up cb metadata add_one config transport now claimed end s).0 ≡ ok outcome
        → IsFree stuck x (give_up cb metadata add_one config transport now claimed end s).1
    unfolding give_up
    give_up_frees x claimed end outcome s h k e =
        let open_ = still_unacked cb metadata add_one config claimed s in
        let fails = fail_sync_mutations open_ (on_failure cb metadata add_one config) in
        elim (Bool-cases (contains s.unacked_ids x)) [
          | inl hit ↦
              (Leads-kept fails (λ u. return end)
                  (Leads-fail_all x open_ (contains-ids-filter s.unacked_ids x claimed hit (k hit)))
                  (λ u. Keeps-return end)).at
                s outcome tt e
          | inr miss ↦
              (Keeps-then fails (return end) (Keeps-fail_all x open_) (Keeps-return end)).at s
                (IsFree-of_tracked stuck x s h miss)
        ]

    pub Keeps-release-IsTracked :
        (id : String)
        → Keeps (IsTracked stuck) (release_blocked cb metadata add_one config transport now id)
    unfolding release_blocked
    Keeps-release-IsTracked id =
        free_then stuck id (cb.release id) (modify (acknowledge_id id)) (laws.release_calm id)
          (laws.release_frees id) (acknowledge_freed stuck id)

    -- The end of a run, from what its `try` returned or threw.
    pub settle_frees :
        (x : String) (claimed : List SyncMutation) (r : Result SyncOutcome) (s : Session S)
        (outcome : SyncOutcome)
        → IsTracked stuck s
        → (contains s.unacked_ids x ≡ true → contains (ids claimed) x ≡ true)
        → ((o : SyncOutcome) → r ≡ ok o → succeeds o ≡ true → IsGone x s)
        → (settle_run cb metadata add_one config transport now claimed (r, s)).0 ≡ ok outcome
        → IsFree stuck x (settle_run cb metadata add_one config transport now claimed (r, s)).1
    settle_frees x claimed (ok synced) s outcome h k gone e =
        IsFree-of_tracked stuck x s h (gone synced refl refl)
    settle_frees x claimed (ok (server_rejected ms)) s outcome h k gone e =
        IsFree-of_tracked stuck x s h (gone (server_rejected ms) refl refl)
    settle_frees x claimed (ok (tables_failed es)) s outcome h k gone e =
        give_up_frees x claimed (tables_failed es) outcome s h k e
    settle_frees x claimed (ok (broken b)) s outcome h k gone e =
        give_up_frees x claimed (broken b) outcome s h k e
    settle_frees x claimed (err b) s outcome h k gone e =
        give_up_frees x claimed (broken b) outcome s h k e
