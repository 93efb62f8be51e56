-- ===== src/Provider/Settled/Done.antt =====
-- A table that was processed without an error leaves none of its mutations in `unackedIds`.
use react_native_nitro_sync.Prelude.{
  ◌≡◌, refl, ◌⊎◌, inl, inr, Bool, true, false, ◌||◌, Option, none, some, String, List, contains,
  find, ◌==◌, string_eq,
}
use react_native_nitro_sync.Value.Number.{Number, num}
use react_native_nitro_sync.Value.Json.{Json}
use react_native_nitro_sync.Types.{
  MutationStatus, SyncMutation, SyncMutationRejection, syncing, ack, fail, reject, Error, Result,
}
use react_native_nitro_sync.StateMachine.{transition_mutation_state}
use react_native_nitro_sync.Protocol.{assert_compatible_schema_version}
use react_native_nitro_sync.Protocol.Response.{SyncTransportResponse, normalize_sync_response}
use react_native_nitro_sync.Settlement.{
  SyncMutationSettlement, ids, handle_each, partition_sync_mutations, settle_sync_mutations,
  fail_sync_mutations,
}
use react_native_nitro_sync.Settlement.Each.{Keeps-handle_each, Leads-handle_each}
use react_native_nitro_sync.Exec.{◌>>◌, return, lift}
use react_native_nitro_sync.Exec.Keeps.{Keeps-return, Keeps-then}
use react_native_nitro_sync.Exec.Leads.{Leads, Always, Leads-after, Leads-kept, Leads-try}
use react_native_nitro_sync.Provider.Backend.{Callbacks}
use react_native_nitro_sync.Provider.Session.{Session, SyncConfig, Metadata, on_store, or_default}
use react_native_nitro_sync.Provider.Queue.{Stuck, QueueLaws}
use react_native_nitro_sync.Provider.Process.{
  PullRequest, on_acknowledge, on_retry, on_reject, handlers, settle_answer, take_answer,
  push_table, fail_table, process_table, request_for, clear_removed, code_of, message_of,
  ensure_shown, apply_id_map, still_unacked, on_failure,
}
use react_native_nitro_sync.Provider.Settled.Rules.{SessionRules}
use react_native_nitro_sync.Provider.Settled.Table.{Keeps-store_answer}
use react_native_nitro_sync.Provider.Settled.Gone.{
  IsGone, acknowledge_leads, has_id, partition_cover, gone_rules,
}

or_cases : (a b : Bool) → (a || b) ≡ true → (a ≡ true) ⊎ (b ≡ true)
or_cases true b h = inl refl
or_cases false b h = inr h

module _ {S : Type 0} {stuck : Stuck S} {cb : Callbacks S} {metadata : Metadata S}
    (laws : QueueLaws cb metadata stuck) (add_one : Number → Number) (config : SyncConfig)
    (x : String) where
  abbrev rules : SessionRules stuck cb metadata add_one config (IsGone x)
  rules = gone_rules laws add_one config x

  acknowledged_gone :
      (table : String) (m : SyncMutation) (status : MutationStatus)
      → (m.id == x) ≡ true
      → Leads Always (on_acknowledge cb metadata add_one config table m status) (λ u. IsGone x)
  unfolding on_acknowledge
  acknowledged_gone table m status same =
      Leads-after (on_store (cb.remove m.id)) _
        (λ u. acknowledge_leads m.id x (clear_removed cb metadata add_one config table m) same)

  retried_gone :
      (m : SyncMutation) (status : MutationStatus)
      → (m.id == x) ≡ true
      → Leads Always (on_retry cb metadata add_one config m status) (λ u. IsGone x)
  unfolding on_retry
  retried_gone m status same = acknowledge_leads m.id x (on_store (cb.fail m.id)) same

  refused_gone :
      (rs : List SyncMutationRejection) (m : SyncMutation) (status : MutationStatus)
      → (m.id == x) ≡ true
      → Leads Always (on_reject cb metadata add_one config rs m status) (λ u. IsGone x)
  unfolding on_reject
  refused_gone rs m status same =
      let rejection = find (λ r. r.mutation_id == m.id) rs in
      acknowledge_leads m.id x
        (on_store (
          cb.reject m.id (code_of cb metadata add_one config rejection)
            (message_of cb metadata add_one config rejection)))
        same

  settle_gone :
      (table : String) (rs : List SyncMutationRejection) (settlement : SyncMutationSettlement)
      → has_id settlement x ≡ true
      → Leads Always
          (settle_sync_mutations settlement (handlers cb metadata add_one config table rs))
          (λ u. IsGone x)
  unfolding settle_sync_mutations handlers
  settle_gone table rs settlement h =
      let acked = transition_mutation_state syncing ack in
      let failed = transition_mutation_state syncing fail in
      let refused = transition_mutation_state syncing reject in
      let on_ack = on_acknowledge cb metadata add_one config table in
      let on_fail = on_retry cb metadata add_one config in
      let on_refuse = on_reject cb metadata add_one config rs in
      let acks = handle_each on_ack acked settlement.acknowledged in
      let retries = handle_each on_fail failed settlement.unacknowledged in
      let rejects = handle_each on_refuse refused settlement.rejected in
      let keeps_rejects =
        Keeps-handle_each on_refuse refused settlement.rejected (λ m. rules.refused rs m refused) in
      let keeps_retries =
        Keeps-handle_each on_fail failed settlement.unacknowledged (λ m. rules.retried m failed) in
      elim (or_cases _ _ h) [
        | inl a ↦
            Leads-kept acks (λ u. retries >> rejects)
              (Leads-handle_each on_ack acked x settlement.acknowledged
                (λ m. rules.acknowledged table m acked) (λ m. acknowledged_gone table m acked) a)
              (λ u. Keeps-then retries rejects keeps_retries keeps_rejects)
        | inr b ↦
            Leads-after acks (λ u. retries >> rejects)
              λ u. elim (or_cases _ _ b) [
                | inl a ↦
                    Leads-kept retries (λ v. rejects)
                      (Leads-handle_each on_fail failed x settlement.unacknowledged
                        (λ m. rules.retried m failed) (λ m. retried_gone m failed) a)
                      (λ v. keeps_rejects)
                | inr a ↦
                    Leads-after retries (λ v. rejects)
                      λ v.
                        Leads-handle_each on_refuse refused x settlement.rejected
                          (λ m. rules.refused rs m refused) (λ m. refused_gone rs m refused) a
              ]
      ]

  module _ (table : String) (batch : List SyncMutation) (h : contains (ids batch) x ≡ true) where
    settle_answer_gone :
        (response : SyncTransportResponse)
        → Leads Always
            (settle_answer cb metadata add_one config table batch response)
            (λ u. IsGone x)
    unfolding settle_answer
    settle_answer_gone response = Leads-after _ _ λ u.
        Leads-kept _ _
          (settle_gone table response.rejected_mutations
            (partition_sync_mutations batch response.acknowledged_mutation_ids
              response.rejected_mutations)
            (partition_cover batch response.acknowledged_mutation_ids response.rejected_mutations x
              h))
          (λ v. Keeps-store_answer laws rules table response _)

    abbrev check_schema : SyncTransportResponse → Result (Unit {0})
    check_schema response =
        assert_compatible_schema_version (or_default (num 1) config.schema_version)
          response.minimum_schema_version

    take_answer_gone :
        (answer : Result Json) (now : Number)
        → Leads Always
            (take_answer cb metadata add_one config table batch answer now)
            (λ u. IsGone x)
    unfolding take_answer
    take_answer_gone answer now = Leads-after (lift answer) _ λ raw.
        Leads-after (lift (normalize_sync_response raw now)) _ λ response.
          Leads-after (apply_id_map cb metadata add_one config table response.id_map) _
            λ u. Leads-after (lift (check_schema response)) _ λ v. settle_answer_gone response

    push_table_gone :
        (transport : PullRequest → Result Json) (now : Number)
        → Leads Always
            (push_table cb metadata add_one config transport now table batch)
            (λ e. IsGone x)
    unfolding push_table
    push_table_gone transport now = record {
      at = λ s.
          (Leads-kept
              (take_answer cb metadata add_one config table batch
                (transport (request_for cb metadata add_one config table batch s)) now)
              (λ u. return {A = Option Error} none)
              (take_answer_gone (transport (request_for cb metadata add_one config table batch s))
                now)
              (λ u. Keeps-return {A = Option Error} none)).at
            s;
    }

    return-some :
        (e : Error)
        → Leads Always
            (return {S = Session S} {A = Option Error} (some e))
            (λ o s. o ≡ none → IsGone x s)
    return-some e = record { at = λ s o k same none_. cc }

    fail_table_some :
        (e : Error)
        → Leads Always
            (fail_table cb metadata add_one config batch e)
            (λ o s. o ≡ none → IsGone x s)
    unfolding fail_table
    fail_table_some e = record {
      at = λ s.
          (Leads-after
              (fail_sync_mutations (still_unacked cb metadata add_one config batch s)
                (on_failure cb metadata add_one config))
              (λ u. return (some e)) (λ u. return-some e)).at
            s;
    }

    pub process_table_gone :
        (transport : PullRequest → Result Json) (now : Number)
        → Leads Always
            (process_table cb metadata add_one config transport now table batch)
            (λ o s. o ≡ none → IsGone x s)
    unfolding process_table
    process_table_gone transport now =
        Leads-try _ _
          (Leads-after (ensure_shown cb metadata add_one config table)
            (λ u. push_table cb metadata add_one config transport now table batch)
            λ u. record { at = λ s o k same none_. (push_table_gone transport now).at s o k same })
          fail_table_some
