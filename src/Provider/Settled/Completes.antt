-- ===== src/Provider/Settled/Completes.antt =====
-- A sync whose calls to the queue return leaves no mutation SYNCING.
use react_native_nitro_sync.Prelude.{
  ◌≡◌, refl, inl, inr, Bool, true, false, Option, none, some, String, List, [], ◌∷◌, ◌++◌, arith,
  contains, ◌==◌, string_eq, Bool-cases,
}
use react_native_nitro_sync.Prelude.Dict.{Dict, lookup}
use react_native_nitro_sync.Value.Number.{Number, num, is_positive_safe_integer}
use react_native_nitro_sync.Value.Json.{Json}
use react_native_nitro_sync.Types.{SyncMutation, Error, Result, ok}
use react_native_nitro_sync.Settlement.{ids}
use react_native_nitro_sync.Exec.{Exec, ◌>>=◌, ◌>>◌, return, lift, modify, for_each}
use react_native_nitro_sync.Exec.Keeps.{Keeps, Keeps-return, Keeps-bind, Keeps-then, Keeps-for_each}
use react_native_nitro_sync.Exec.Leads.{Leads, Always, Leads-bind, Leads-after, Leads-kept}
use react_native_nitro_sync.Provider.Backend.{Callbacks}
use react_native_nitro_sync.Provider.Batch.{
  keys, mutations_or_empty, group_mutations_by_table, blocked_ids, without_blocked, tables_to_sync,
}
use react_native_nitro_sync.Provider.Batch.Groups.{IsRequested, tables_cover}
use react_native_nitro_sync.Provider.Session.{
  Session, SyncConfig, Metadata, on_store, acknowledge_id, or_default,
}
use react_native_nitro_sync.Provider.Queue.{Stuck, QueueLaws}
use react_native_nitro_sync.Provider.Process.{PullRequest, process_table}
use react_native_nitro_sync.Provider.Sync.{
  SyncOutcome, synced, server_rejected, tables_failed, broken, error_list, process_tables,
  release_blocked, finish_run, conclude, run_workers, sync_grouped, sync_claimed,
}
use react_native_nitro_sync.Provider.Settled.Rules.{SessionRules}
use react_native_nitro_sync.Provider.Settled.Gone.{
  IsGone, Keeps-acknowledge_id, acknowledge_leads, gone_rules,
}
use react_native_nitro_sync.Provider.Settled.Done.{process_table_gone}
use react_native_nitro_sync.Provider.Settled.Run.{Keeps-process_tables, Keeps-sync_grouped}

-- The ends of a run in which no table failed.
abbrev pub succeeds : SyncOutcome → Bool
succeeds synced = true
succeeds (server_rejected messages) = true
succeeds (tables_failed es) = false
succeeds (broken e) = false

no_errors : (o : Option Error) (es : List Error) → error_list o ++ es ≡ [] → es ≡ []
no_errors none es h = h
no_errors (some e) es h = cc

module _ {S : Type 0} {stuck : Stuck S} {cb : Callbacks S} {metadata : Metadata S}
    (laws : QueueLaws cb metadata stuck) (add_one : Number → Number) (config : SyncConfig)
    (transport : PullRequest → Result Json) (now : Number) (x : String) where
  abbrev gone : SessionRules stuck cb metadata add_one config (IsGone x)
  gone = gone_rules laws add_one config x

  pub Keeps-release_gone :
      (id : String) → Keeps (IsGone x) (release_blocked cb metadata add_one config transport now id)
  unfolding release_blocked
  Keeps-release_gone id =
      Keeps-then (on_store (cb.release id)) (modify (acknowledge_id id)) record { at = λ s h. h }
        (Keeps-acknowledge_id id x)

  release_gone :
      (blocked : List String)
      → contains blocked x ≡ true
      → Leads Always
          (for_each blocked (release_blocked cb metadata add_one config transport now))
          (λ u. IsGone x)
  unfolding for_each release_blocked
  release_gone [] h = cc
  release_gone (id ∷ blocked) h =
      let first = on_store (cb.release id) >> modify (acknowledge_id id) in
      let rest = for_each blocked (release_blocked cb metadata add_one config transport now) in
      elim (Bool-cases (id == x)) [
        | inl same ↦
            Leads-kept first (λ u. rest) (acknowledge_leads id x (on_store (cb.release id)) same)
              (λ u. Keeps-for_each blocked _ Keeps-release_gone)
        | inr other ↦ Leads-after first (λ u. rest) (λ u. release_gone blocked (ground arith))
      ]

  abbrev GoneUnless : List Error → Session S → Type 0
  GoneUnless es s = es ≡ [] → IsGone x s

  -- What follows the processing of the first table.
  rest_gone :
      (o : Option Error) (rest : Exec (Session S) (List Error))
      → Keeps (IsGone x) rest
      → Leads (λ s. o ≡ none → IsGone x s) (rest >>= λ es. return (error_list o ++ es)) GoneUnless
  rest_gone none rest k = record {
    at = λ s es h e nil_.
        (Keeps-bind rest (λ es. return es) k (λ es. Keeps-return es)).at s (h refl);
  }
  rest_gone (some e) rest k = record {
    at = λ s es h q.
        (Leads-after {R = GoneUnless} rest (λ es. return (e ∷ es))
            (λ es. record { at = λ s b u q nil_. cc })).at
          s es tt q;
  }

  process_tables_gone :
      (grouped : Dict (List SyncMutation)) (tables : List String) (table : String)
      → contains tables table ≡ true
      → contains (ids (mutations_or_empty (lookup table grouped))) x ≡ true
      → Leads Always
          (process_tables cb metadata add_one config transport now grouped tables)
          GoneUnless
  unfolding process_tables
  process_tables_gone grouped [] table h k = cc
  process_tables_gone grouped (t ∷ tables) table h k =
      let batch = mutations_or_empty (lookup t grouped) in
      let first = process_table cb metadata add_one config transport now t batch in
      let rest = process_tables cb metadata add_one config transport now grouped tables in
      elim (Bool-cases (t == table)) [
        | inl same ↦
            Leads-bind (λ o s. o ≡ none → IsGone x s) first _
              (process_table_gone laws add_one config x t batch (ground arith) transport now)
              (λ o.
                rest_gone o rest
                  (Keeps-process_tables laws transport now gone Keeps-release_gone grouped tables))
        | inr other ↦ Leads-after first _ λ o.
            Leads-bind GoneUnless rest (λ es. return (error_list o ++ es))
              (process_tables_gone grouped tables table (ground arith) k)
              (λ es. record { at = λ s b h q nil_. h (no_errors o es (ground arith)) })
      ]

  abbrev GoneWhen : SyncOutcome → Session S → Type 0
  GoneWhen outcome s = succeeds outcome ≡ true → IsGone x s

  run_workers_gone :
      (grouped : Dict (List SyncMutation)) (tables : List String) (table : String)
      → contains tables table ≡ true
      → contains (ids (mutations_or_empty (lookup table grouped))) x ≡ true
      → Leads Always
          (run_workers cb metadata add_one config transport now grouped tables)
          GoneUnless
  run_workers_gone grouped tables table h k =
      elim (Bool-cases
        (is_positive_safe_integer (or_default (num 4) config.max_concurrent_tables))) [
          | inl e ↦ rw e (process_tables_gone grouped tables table h k)
          | inr e ↦ rw e record { at = λ s es u q. cc }
        ]

  conclude_fails :
      (e : Error) (es : List Error) (o : SyncOutcome) {B : Type 0}
      → ok (tables_failed (e ∷ es)) ≡ ok o
      → succeeds o ≡ true
      → B
  conclude_fails e es o q done = cc

  conclude_gone :
      (es : List Error)
      → Leads (GoneUnless es) (conclude cb metadata add_one config transport now es) GoneWhen
  unfolding finish_run
  conclude_gone [] = record { at = λ s o h q done. h refl }
  conclude_gone (e ∷ es) = record { at = λ s o h q done. conclude_fails e es o q done }

  sync_grouped_gone :
      (requested : Option String) (grouped : Dict (List SyncMutation))
      → ((shown : List String)
          → (table : String) × (contains (tables_to_sync requested shown grouped) table ≡ true)
            × (contains (ids (mutations_or_empty (lookup table grouped))) x ≡ true))
      → Leads Always
          (sync_grouped cb metadata add_one config transport now requested grouped)
          GoneWhen
  unfolding sync_grouped
  sync_grouped_gone requested grouped h = record {
    at = λ s.
        let tables = tables_to_sync requested (keys s.records) grouped in
        let (table, asked, sent) = h (keys s.records) in
        (Leads-bind GoneUnless (run_workers cb metadata add_one config transport now grouped tables)
            (conclude cb metadata add_one config transport now)
            (run_workers_gone grouped tables table asked sent) conclude_gone).at
          s;
  }

  pub sync_claimed_gone :
      (requested : Option String) (claimed : List SyncMutation)
      → IsRequested requested claimed
      → contains (ids claimed) x ≡ true
      → Leads Always
          (sync_claimed cb metadata add_one config transport now requested claimed)
          GoneWhen
  unfolding sync_claimed
  sync_claimed_gone requested claimed same h = Leads-after (lift (blocked_ids claimed)) _ λ blocked.
      let grouped = without_blocked blocked (group_mutations_by_table claimed) in
      let release = for_each blocked (release_blocked cb metadata add_one config transport now) in
      let rest = sync_grouped cb metadata add_one config transport now requested grouped in
      elim (Bool-cases (contains blocked x)) [
        | inl hit ↦
            Leads-bind (λ u. IsGone x) release (λ u. rest) (release_gone blocked hit)
              (λ u. record {
                at = λ s o k q done.
                    (Keeps-sync_grouped laws transport now gone Keeps-release_gone requested
                        grouped).at
                      s k;
              })
        | inr free ↦
            Leads-after release (λ u. rest)
              λ u.
                sync_grouped_gone requested grouped
                  (λ shown. tables_cover requested shown blocked claimed x same h free)
      ]
