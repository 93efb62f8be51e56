-- ===== src/Provider/Sync/Returns.antt =====
-- How `run` of src/provider.tsx ends.
use react_native_nitro_sync.Prelude.{
  ◌≡◌, ◌⊎◌, refl, ap, ◌∙◌, inl, inr, Bool, true, filter, contains, string_eq, arith, Option, String,
  List, [], ◌∷◌,
}
use react_native_nitro_sync.Value.Number.{Number}
use react_native_nitro_sync.Value.Json.{Json}
use react_native_nitro_sync.Types.{
  MutationStatus, SyncMutation, Error, Result, ok, err, syncing, fail,
}
use react_native_nitro_sync.StateMachine.{transition_mutation_state}
use react_native_nitro_sync.Settlement.{ids, handle_each, fail_sync_mutations}
use react_native_nitro_sync.Exec.{return, bind-ok, bind-err, Result-cases}
use react_native_nitro_sync.Provider.Backend.{Callbacks}
use react_native_nitro_sync.Provider.Session.{Session, SyncConfig, Metadata, on_store}
use react_native_nitro_sync.Provider.Process.{PullRequest, still_unacked, on_failure}
use react_native_nitro_sync.Provider.Sync.{
  SyncOutcome, synced, server_rejected, tables_failed, broken, sync_claimed, give_up, settle_run,
  begin_run, run_claimed, run_sync,
}

-- The ids that a claim returned, none if it threw.
abbrev pub claimed_ids : Result (List SyncMutation) → List String
claimed_ids (ok ms) = ids ms
claimed_ids (err e) = []

still_claimed :
    (p : String → Bool) (ms : List SyncMutation) (x : String)
    → contains (ids (filter (λ m. p m.id) ms)) x ≡ true
    → contains (ids ms) x ≡ true
still_claimed p [] x h = h
still_claimed p (m ∷ ms) x h = ground (arith, still_claimed p ms x)

module _ {S : Type 0} (cb : Callbacks S) where
  -- A call of `markFailed` for one of the ids has thrown the error.
  abbrev pub IsFailing : List String → Error → Type 0
  IsFailing claimed e =
      (id : String) × (contains claimed id ≡ true) × (s : S) × ((cb.fail id s).0 ≡ err e)

  -- An end by a value, or by what a call of `markFailed` for one of the ids threw.
  abbrev pub Ends : {A : Type 0} → List String → Result A → Type 0
  Ends {A} claimed r = ((a : A) × (r ≡ ok a)) ⊎ ((e : Error) × IsFailing claimed e × (r ≡ err e))

  module _ (metadata : Metadata S) (add_one : Number → Number) (config : SyncConfig) where
    fail_each-Ends :
        (claimed : List String) (status : MutationStatus) (ms : List SyncMutation)
        → ((x : String) → contains (ids ms) x ≡ true → contains claimed x ≡ true)
        → (s : Session S)
        → Ends claimed (handle_each (on_failure cb metadata add_one config) status ms s).0
    unfolding handle_each
    fail_each-Ends claimed status [] part s = inl (tt, refl)
    fail_each-Ends claimed status (m ∷ ms) part s =
        let first = on_failure cb metadata add_one config m status in
        let others =
          λ (u : Unit {0}). handle_each (on_failure cb metadata add_one config) status ms in
        elim (Result-cases (cb.fail m.id s.store).0) [
          | inl (u, e) ↦
              let at = ap (λ t. t.0) (bind-ok first others s u e) in
              elim (fail_each-Ends claimed status ms (λ x h. part x (ground arith)) (first s).1) [
                | inl (a, k) ↦ inl (a, at ∙ k)
                | inr (x, failing, k) ↦ inr (x, failing, at ∙ k)
              ]
          | inr (x, e) ↦ inr (
            x,
            (m.id, part m.id (ground arith), s.store, e),
            ap (λ t. t.0) (bind-err first others s x e),
          )
        ]

    module _ (transport : PullRequest → Result Json) (now : Number) where
      give_up-Ends :
          (claimed : List SyncMutation) (outcome : SyncOutcome) (s : Session S)
          → Ends
              (ids claimed)
              (give_up cb metadata add_one config transport now claimed outcome s).0
      unfolding give_up fail_sync_mutations
      give_up-Ends claimed outcome s =
          let open_ = still_unacked cb metadata add_one config claimed s in
          let marking = fail_sync_mutations open_ (on_failure cb metadata add_one config) in
          elim (fail_each-Ends (ids claimed) (transition_mutation_state syncing fail) open_
            (still_claimed (contains s.unacked_ids) claimed) s) [
              | inl (u, e) ↦
                  inl (outcome, ap (λ t. t.0) (bind-ok marking (λ u. return outcome) s u e))
              | inr (x, failing, e) ↦
                  inr (x, failing, ap (λ t. t.0) (bind-err marking (λ u. return outcome) s x e))
            ]

      settle-Ends :
          (claimed : List SyncMutation) (r : Result SyncOutcome) (s : Session S)
          → Ends
              (ids claimed)
              (settle_run cb metadata add_one config transport now claimed (r, s)).0
      settle-Ends claimed (ok synced) s = inl (synced, refl)
      settle-Ends claimed (ok (server_rejected ms)) s = inl (server_rejected ms, refl)
      settle-Ends claimed (ok (tables_failed es)) s = give_up-Ends claimed (tables_failed es) s
      settle-Ends claimed (ok (broken e)) s = give_up-Ends claimed (broken e) s
      settle-Ends claimed (err e) s = give_up-Ends claimed (broken e) s

      claim-Ends :
          (requested : Option String) (r : Result (List SyncMutation)) (s : Session S)
          → Ends
              (claimed_ids r)
              (run_claimed cb metadata add_one config transport now requested (r, s)).0
      claim-Ends requested (ok ms) s =
          let run =
            sync_claimed cb metadata add_one config transport now requested ms
              (begin_run cb metadata add_one config transport now ms s) in
          settle-Ends ms run.0 run.1
      claim-Ends requested (err e) s =
          give_up-Ends [] (broken e) (begin_run cb metadata add_one config transport now [] s)

      -- With a transport that answers or throws every request, a sync returns an outcome, or it throws an
      -- error that marking a mutation of its claim as failed has thrown. Whatever else throws (the
      -- claim, the transport, the reading of its answer, any other call) ends in an outcome; a sync
      -- whose claim throws always returns one.
      pub sync_returns :
          (requested : Option String) (s : Session S)
          → Ends
              (claimed_ids (cb.claim requested s.store).0)
              (run_sync cb metadata add_one config transport now requested s).0
      unfolding run_sync
      sync_returns requested s =
          let claim = on_store (cb.claim requested) s in claim-Ends requested claim.0 claim.1
