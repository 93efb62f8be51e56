-- ===== src/Provider/Settled/Released.antt =====
-- After a sync that returned no claimed mutation is left SYNCING.
use react_native_nitro_sync.Prelude.{
  ◌≡◌, sym, subst, ap, ◌∙◌, inl, inr, true, false, Option, none, some, String, List, contains,
  string_eq, Bool-cases,
}
use react_native_nitro_sync.Value.Number.{Number}
use react_native_nitro_sync.Value.Json.{Json}
use react_native_nitro_sync.Types.{SyncMutation, Result, ok}
use react_native_nitro_sync.Settlement.{ids}
use react_native_nitro_sync.Provider.Backend.{Callbacks}
use react_native_nitro_sync.Provider.Batch.Groups.{IsRequested, contains-set_from}
use react_native_nitro_sync.Provider.Session.{Session, SyncConfig, Metadata}
use react_native_nitro_sync.Provider.Queue.{Stuck, QueueLaws}
use react_native_nitro_sync.Provider.Process.{PullRequest}
use react_native_nitro_sync.Provider.Sync.{
  SyncOutcome, sync_claimed, settle_run, begin_run, run_claimed, run_sync,
}
use react_native_nitro_sync.Provider.Settled.{IsTracked, IsFree, IsTracked-rules}
use react_native_nitro_sync.Provider.Settled.Gone.{IsGone, gone_rules}
use react_native_nitro_sync.Provider.Settled.Run.{Keeps-sync_claimed}
use react_native_nitro_sync.Provider.Settled.GiveUp.{Keeps-release-IsTracked, settle_frees}
use react_native_nitro_sync.Provider.Settled.Completes.{
  succeeds, Keeps-release_gone, sync_claimed_gone,
}

module _ {S : Type 0} {stuck : Stuck S} {cb : Callbacks S} {metadata : Metadata S}
    (laws : QueueLaws cb metadata stuck) (add_one : Number → Number) (config : SyncConfig)
    (transport : PullRequest → Result Json) (now : Number) where
  begin-IsTracked :
      (requested : Option String) (s : Session S) (ms : List SyncMutation) (s' : S)
      → cb.claim requested s.store ≡ (ok ms, s')
      → ((y : String) → stuck y s.store ≡ false)
      → IsTracked stuck
          (begin_run cb metadata add_one config transport now ms (record s { store = s' }))
  begin-IsTracked requested s ms s' claim free x k =
      contains-set_from (ids ms) x ∙ laws.claim_marks requested s.store s' ms x claim (free x) k

  claim-IsRequested :
      (requested : Option String) (s s' : S) (ms : List SyncMutation)
      → cb.claim requested s ≡ (ok ms, s')
      → IsRequested requested ms
  claim-IsRequested none s s' ms claim = tt
  claim-IsRequested (some table) s s' ms claim = laws.claim_table table s s' ms claim

  -- The ids that are not claimed never enter `unackedIds`, and those of a successful run leave it.
  claimed_gone :
      (requested : Option String) (ms : List SyncMutation) (b : Session S) (x : String)
      → IsRequested requested ms
      → (o : SyncOutcome) → contains b.unacked_ids x ≡ contains (ids ms) x
      → (sync_claimed cb metadata add_one config transport now requested ms b).0 ≡ ok o
      → succeeds o ≡ true
      → IsGone x (sync_claimed cb metadata add_one config transport now requested ms b).1
  claimed_gone requested ms b x same o start e done = elim (Bool-cases (contains (ids ms) x)) [
    | inl hit ↦
        (sync_claimed_gone laws add_one config transport now x requested ms same hit).at b o tt e
          done
    | inr miss ↦
        (Keeps-sync_claimed laws transport now (gone_rules laws add_one config x)
            (Keeps-release_gone laws add_one config transport now x) requested ms).at
          b (start ∙ miss)
  ]

  open_claimed :
      (requested : Option String) (ms : List SyncMutation) (b : Session S) (x : String)
      → contains b.unacked_ids x ≡ contains (ids ms) x
      → contains
          (sync_claimed cb metadata add_one config transport now requested ms b).1.unacked_ids
          x
        ≡ true
      → contains (ids ms) x ≡ true
  open_claimed requested ms b x start open_ = elim (Bool-cases (contains (ids ms) x)) [
    | inl hit ↦ hit
    | inr miss ↦
        let kept =
          (Keeps-sync_claimed laws transport now (gone_rules laws add_one config x)
              (Keeps-release_gone laws add_one config transport now x) requested ms).at
            b (start ∙ miss) in
        cc
  ]

  run_frees :
      (requested : Option String) (ms : List SyncMutation) (b : Session S) (outcome : SyncOutcome)
      (x : String)
      → IsRequested requested ms
      → IsTracked stuck b
      → contains b.unacked_ids x ≡ contains (ids ms) x
      → (settle_run cb metadata add_one config transport now ms
          (sync_claimed cb metadata add_one config transport now requested ms b)).0
        ≡ ok outcome
      → IsFree stuck x
          (settle_run cb metadata add_one config transport now ms
            (sync_claimed cb metadata add_one config transport now requested ms b)).1
  run_frees requested ms b outcome x same h start =
      let run = sync_claimed cb metadata add_one config transport now requested ms b in
      settle_frees laws add_one config transport now x ms run.0 run.1 outcome
        ((Keeps-sync_claimed laws transport now (IsTracked-rules stuck laws add_one config)
            (Keeps-release-IsTracked laws add_one config transport now) requested ms).at
          b h)
        (open_claimed requested ms b x start) (λ o. claimed_gone requested ms b x same o start)

  after_claim :
      (requested : Option String) (s : Session S) (ms : List SyncMutation) (s' : S)
      → cb.claim requested s.store ≡ (ok ms, s')
      → run_sync cb metadata add_one config transport now requested s
        ≡ settle_run cb metadata add_one config transport now ms (
            sync_claimed cb metadata add_one config transport now requested ms
              (begin_run cb metadata add_one config transport now ms (record s { store = s' })))
  unfolding run_sync
  after_claim requested s ms s' claim =
      ap
        (λ r.
          run_claimed cb metadata add_one config transport now requested
            (r.0, record s { store = r.1 }))
        claim

  -- For every queue with the laws of Provider.Queue: when the claim of a sync returns, and no mutation was
  -- SYNCING before, then no mutation is SYNCING after the sync has returned, however it ended, whatever
  -- the server answered, and whichever call threw on the way.
  pub sync_releases :
      (requested : Option String) (s : Session S) (ms : List SyncMutation) (s' : S)
      (outcome : SyncOutcome)
      → cb.claim requested s.store ≡ (ok ms, s')
      → ((y : String) → stuck y s.store ≡ false)
      → (run_sync cb metadata add_one config transport now requested s).0 ≡ ok outcome
      → (x : String)
      → stuck x (run_sync cb metadata add_one config transport now requested s).1.store ≡ false
  sync_releases requested s ms s' outcome claim free =
      subst (λ t. t.0 ≡ ok outcome → (x : String) → stuck x t.1.store ≡ false)
        (sym (after_claim requested s ms s' claim))
        λ e x.
          run_frees requested ms
            (begin_run cb metadata add_one config transport now ms (record s { store = s' }))
            outcome x (claim-IsRequested requested s.store s' ms claim)
            (begin-IsTracked requested s ms s' claim free) (contains-set_from (ids ms) x) e
