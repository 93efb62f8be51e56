-- ===== src/Provider/Settled/Run.antt =====
-- What a whole sync keeps, up to the end of its `try`.
use react_native_nitro_sync.Prelude.{
  inl, inr, Option, String, List, [], ◌∷◌, ◌++◌, string_eq, Bool-cases,
}
use react_native_nitro_sync.Prelude.Dict.{Dict, lookup}
use react_native_nitro_sync.Value.Number.{Number, num, is_positive_safe_integer}
use react_native_nitro_sync.Value.Json.{Json}
use react_native_nitro_sync.Types.{SyncMutation, Error, invalid_concurrency, Result, err}
use react_native_nitro_sync.Exec.{return, lift}
use react_native_nitro_sync.Exec.Keeps.{
  Keeps, Keeps-return, Keeps-lift, Keeps-bind, Keeps-then, Keeps-for_each,
}
use react_native_nitro_sync.Provider.Backend.{Callbacks}
use react_native_nitro_sync.Provider.Batch.{
  keys, mutations_or_empty, group_mutations_by_table, blocked_ids, without_blocked, tables_to_sync,
}
use react_native_nitro_sync.Provider.Session.{Session, SyncConfig, Metadata, or_default}
use react_native_nitro_sync.Provider.Queue.{Stuck, QueueLaws}
use react_native_nitro_sync.Provider.Process.{PullRequest}
use react_native_nitro_sync.Provider.Sync.{
  error_list, process_tables, release_blocked, finish_run, conclude, run_workers, sync_grouped,
  sync_claimed,
}
use react_native_nitro_sync.Provider.Settled.Rules.{SessionRules}
use react_native_nitro_sync.Provider.Settled.Table.{Keeps-process_table}

module _ {S : Type 0} {stuck : Stuck S} {cb : Callbacks S} {metadata : Metadata S}
    (laws : QueueLaws cb metadata stuck) {add_one : Number → Number} {config : SyncConfig}
    (transport : PullRequest → Result Json) (now : Number) where
  module _ {P : Session S → Type 0} (rules : SessionRules stuck cb metadata add_one config P)
      (released : (id : String)
        → Keeps P (release_blocked cb metadata add_one config transport now id)) where
    pub Keeps-process_tables :
        (grouped : Dict (List SyncMutation)) (tables : List String)
        → Keeps P (process_tables cb metadata add_one config transport now grouped tables)
    unfolding process_tables
    Keeps-process_tables grouped [] = Keeps-return []
    Keeps-process_tables grouped (table ∷ tables) =
        Keeps-bind _ _
          (Keeps-process_table laws rules transport now table
            (mutations_or_empty (lookup table grouped)))
          λ e.
            Keeps-bind (process_tables cb metadata add_one config transport now grouped tables)
              (λ es. return (error_list e ++ es)) (Keeps-process_tables grouped tables)
              (λ es. Keeps-return (error_list e ++ es))

    Keeps-run_workers :
        (grouped : Dict (List SyncMutation)) (tables : List String)
        → Keeps P (run_workers cb metadata add_one config transport now grouped tables)
    Keeps-run_workers grouped tables =
        elim (Bool-cases
          (is_positive_safe_integer (or_default (num 4) config.max_concurrent_tables))) [
            | inl e ↦ rw e (Keeps-process_tables grouped tables)
            | inr e ↦ rw e (Keeps-lift (err invalid_concurrency))
          ]

    Keeps-conclude :
        (es : List Error) → Keeps P (conclude cb metadata add_one config transport now es)
    unfolding finish_run
    Keeps-conclude [] = record { at = λ s h. rules.synced now s h }
    Keeps-conclude (e ∷ es) = record { at = λ s h. h }

    pub Keeps-sync_grouped :
        (requested : Option String) (grouped : Dict (List SyncMutation))
        → Keeps P (sync_grouped cb metadata add_one config transport now requested grouped)
    unfolding sync_grouped
    Keeps-sync_grouped requested grouped = record {
      at = λ s h.
          (Keeps-bind
              (run_workers cb metadata add_one config transport now grouped
                (tables_to_sync requested (keys s.records) grouped))
              (conclude cb metadata add_one config transport now)
              (Keeps-run_workers grouped (tables_to_sync requested (keys s.records) grouped))
              Keeps-conclude).at
            s h;
    }

    pub Keeps-sync_claimed :
        (requested : Option String) (claimed : List SyncMutation)
        → Keeps P (sync_claimed cb metadata add_one config transport now requested claimed)
    unfolding sync_claimed
    Keeps-sync_claimed requested claimed =
        Keeps-bind (lift (blocked_ids claimed)) _ (Keeps-lift (blocked_ids claimed)) λ blocked.
          Keeps-then _ _
            (Keeps-for_each blocked (release_blocked cb metadata add_one config transport now)
              released)
            (Keeps-sync_grouped requested
              (without_blocked blocked (group_mutations_by_table claimed)))
