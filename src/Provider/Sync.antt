-- ===== src/Provider/Sync.antt =====
-- `run`, the body of the provider's `sync`, on a configured transport. The tables are processed one
-- after the other, as `runSyncTableWorkers` does with one worker.
pub mod Returns
use react_native_nitro_sync.Prelude.{
  ◌≡◌, Bool, true, false, not, Option, none, some, String, List, [], ◌∷◌, ◌++◌, contains,
  if◌then◌else◌,
}
use react_native_nitro_sync.Prelude.Dict.{Dict, lookup}
use react_native_nitro_sync.Value.Number.{Number, num, is_positive_safe_integer}
use react_native_nitro_sync.Value.Json.{Json}
use react_native_nitro_sync.Types.{SyncMutation, Error, invalid_concurrency, Result, ok, err}
use react_native_nitro_sync.Settlement.{ids, fail_sync_mutations}
use react_native_nitro_sync.Exec.{Exec, ◌>>=◌, ◌>>◌, return, lift, gets, modify, for_each}
use react_native_nitro_sync.Provider.Backend.{Callbacks}
use react_native_nitro_sync.Provider.Batch.{
  keys, mutations_or_empty, set_from, group_mutations_by_table, blocked_ids, without_blocked,
  tables_to_sync,
}
use react_native_nitro_sync.Provider.Session.{
  Session, SyncConfig, Metadata, on_store, acknowledge_id, or_default,
}
use react_native_nitro_sync.Provider.Process.{PullRequest, process_table, still_unacked, on_failure}

-- How a run ends, for the user: `status` and `error` of the provider.
pub data SyncOutcome : Type 0 where
  synced : SyncOutcome
  server_rejected : List String → SyncOutcome
  tables_failed : List Error → SyncOutcome
  broken : Error → SyncOutcome

abbrev pub error_list : Option Error → List Error
error_list none = []
error_list (some e) = e ∷ []

module _ {S : Type 0} (cb : Callbacks S) (metadata : Metadata S) (add_one : Number → Number)
    (config : SyncConfig) (transport : PullRequest → Result Json) (now : Number) where
  -- The calls of `processTable`, with the errors that they return
  unfoldable pub process_tables :
      Dict (List SyncMutation) → List String → Exec (Session S) (List Error)
  process_tables grouped [] = return []
  process_tables grouped (table ∷ tables) = do
    e ←
        process_table cb metadata add_one config transport now table
          (mutations_or_empty (lookup table grouped))
    es ← process_tables grouped tables
    return (error_list e ++ es)

  -- A blocked mutation goes back into the queue.
  unfoldable pub release_blocked : String → Exec (Session S) (Unit {0})
  release_blocked id = on_store (cb.release id) >> modify (acknowledge_id id)

  -- The end of a run whose tables have all been processed
  unfoldable pub finish_run : Session S → Session S
  finish_run s = record s {
    last_synced_at = some now;
    store = metadata.write_last_synced_at now s.store;
  }

  abbrev pub outcome_of : List String → SyncOutcome
  outcome_of [] = synced
  outcome_of (m ∷ ms) = server_rejected (m ∷ ms)

  abbrev pub conclude : List Error → Exec (Session S) SyncOutcome
  conclude [] s = (ok (outcome_of s.rejection_messages), finish_run s)
  conclude (e ∷ es) s = (ok (tables_failed (e ∷ es)), s)

  abbrev pub run_workers : Dict (List SyncMutation) → List String → Exec (Session S) (List Error)
  run_workers grouped tables =
      if is_positive_safe_integer (or_default (num 4) config.max_concurrent_tables)
      then process_tables grouped tables
      else lift (err invalid_concurrency)

  -- From the tables to the end of the `try`
  unfoldable pub sync_grouped :
      Option String → Dict (List SyncMutation) → Exec (Session S) SyncOutcome
  unfolding finish_run
  sync_grouped requested grouped s =
      (run_workers grouped (tables_to_sync requested (keys s.records) grouped) >>= conclude) s

  -- The `try`, from the claimed mutations on
  unfoldable pub sync_claimed : Option String → List SyncMutation → Exec (Session S) SyncOutcome
  sync_claimed requested claimed = lift (blocked_ids claimed) >>= λ blocked.
      for_each blocked release_blocked
      >> sync_grouped requested (without_blocked blocked (group_mutations_by_table claimed))

  -- The `catch`
  unfoldable pub give_up : List SyncMutation → SyncOutcome → Exec (Session S) SyncOutcome
  give_up claimed outcome s =
      (fail_sync_mutations (still_unacked cb metadata add_one config claimed s)
            (on_failure cb metadata add_one config)
          >> return outcome)
        s

  abbrev pub settle_run :
      List SyncMutation → Result SyncOutcome × Session S → Result SyncOutcome × Session S
  settle_run claimed (ok synced, s) = (ok synced, s)
  settle_run claimed (ok (server_rejected messages), s) = (ok (server_rejected messages), s)
  settle_run claimed (ok failure, s) = give_up claimed failure s
  settle_run claimed (err e, s) = give_up claimed (broken e) s

  -- The two collections of a run, when it has claimed
  abbrev pub begin_run : List SyncMutation → Session S → Session S
  begin_run claimed s = record s {
    unacked_ids = set_from [] (ids claimed);
    rejection_messages = [];
  }

  abbrev pub run_claimed :
      Option String → Result (List SyncMutation) × Session S → Result SyncOutcome × Session S
  run_claimed requested (ok claimed, s) =
      settle_run claimed (sync_claimed requested claimed (begin_run claimed s))
  run_claimed requested (err e, s) = give_up [] (broken e) (begin_run [] s)

  -- `run`
  unfoldable pub run_sync : Option String → Exec (Session S) SyncOutcome
  run_sync requested s = run_claimed requested (on_store (cb.claim requested) s)
