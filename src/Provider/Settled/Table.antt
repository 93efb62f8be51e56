-- ===== src/Provider/Settled/Table.antt =====
-- What the processing of a table keeps, whether it returns or throws, by the rules for its parts.
use react_native_nitro_sync.Prelude.{Option, none, some, String, List, ◌++◌, string_eq}
use react_native_nitro_sync.Value.Number.{Number}
use react_native_nitro_sync.Value.Json.{Json}
use react_native_nitro_sync.Types.{SyncMutation, SyncMutationRejection, Error, Result}
use react_native_nitro_sync.Protocol.Response.{SyncTransportResponse, normalize_sync_response}
use react_native_nitro_sync.Settlement.{
  SyncMutationSettlement, settle_sync_mutations, fail_sync_mutations,
}
use react_native_nitro_sync.Settlement.Each.{Keeps-handle_each}
use react_native_nitro_sync.Exec.{◌>>◌, return, lift, modify}
use react_native_nitro_sync.Exec.Keeps.{
  Keeps, Keeps-return, Keeps-lift, Keeps-modify, Keeps-bind, Keeps-then, Keeps-try,
}
use react_native_nitro_sync.Provider.Backend.{Callbacks}
use react_native_nitro_sync.Provider.Session.{Session, SyncConfig, Metadata}
use react_native_nitro_sync.Provider.Queue.{Stuck, QueueLaws}
use react_native_nitro_sync.Provider.Process.{
  request_for, handlers, store_cursor, store_version, add_messages, settle_answer, take_answer,
  still_unacked, on_failure, fail_table, push_table, process_table, PullRequest,
}
use react_native_nitro_sync.Provider.Settled.Rules.{SessionRules}
use react_native_nitro_sync.Provider.Settled.Pulled.{
  Keeps-ensure_shown, Keeps-apply_id_map, Keeps-pull_answer,
}

module _ {S : Type 0} {stuck : Stuck S} {cb : Callbacks S} {metadata : Metadata S}
    (laws : QueueLaws cb metadata stuck) {add_one : Number → Number} {config : SyncConfig}
    {P : Session S → Type 0} (rules : SessionRules stuck cb metadata add_one config P) where
  pub Keeps-settle :
      (table : String) (rs : List SyncMutationRejection) (settlement : SyncMutationSettlement)
      → Keeps P (settle_sync_mutations settlement (handlers cb metadata add_one config table rs))
  unfolding settle_sync_mutations handlers
  Keeps-settle table rs settlement =
      Keeps-then _ _
        (Keeps-handle_each _ _ settlement.acknowledged (λ m. rules.acknowledged table m _))
        (Keeps-then _ _ (Keeps-handle_each _ _ settlement.unacknowledged (λ m. rules.retried m _))
          (Keeps-handle_each _ _ settlement.rejected (λ m. rules.refused rs m _)))

  pub Keeps-fail :
      (ms : List SyncMutation)
      → Keeps P (fail_sync_mutations ms (on_failure cb metadata add_one config))
  unfolding fail_sync_mutations
  Keeps-fail ms = Keeps-handle_each _ _ ms (λ m. rules.called (cb.fail m.id) (laws.fail_calm m.id))

  -- The end of `processTable`'s `try`, after the settlement.
  pub Keeps-store_answer :
      (table : String) (response : SyncTransportResponse) (messages : List String)
      → Keeps P (
          modify (store_cursor cb metadata add_one config table response)
          >> (modify (store_version cb metadata add_one config table response)
              >> modify (add_messages cb metadata add_one config messages)))
  Keeps-store_answer table response messages =
      Keeps-then _ _
        (Keeps-modify (store_cursor cb metadata add_one config table response)
          (rules.cursor_stored table response))
        (Keeps-then _ _
          (Keeps-modify (store_version cb metadata add_one config table response)
            (rules.version_stored table response))
          (Keeps-modify (add_messages cb metadata add_one config messages)
            (λ s h. rules.told (s.rejection_messages ++ messages) s h)))

  Keeps-settle_answer :
      (table : String) (batch : List SyncMutation) (response : SyncTransportResponse)
      → Keeps P (settle_answer cb metadata add_one config table batch response)
  unfolding settle_answer
  Keeps-settle_answer table batch response =
      Keeps-then _ _ (Keeps-pull_answer laws rules table _ response) (
        Keeps-then _ _ (Keeps-settle table response.rejected_mutations _)
          (Keeps-store_answer table response _))

  pub Keeps-take_answer :
      (table : String) (batch : List SyncMutation) (answer : Result Json) (now : Number)
      → Keeps P (take_answer cb metadata add_one config table batch answer now)
  unfolding take_answer
  Keeps-take_answer table batch answer now = Keeps-bind (lift answer) _ (Keeps-lift answer) λ raw.
      Keeps-bind (lift (normalize_sync_response raw now)) _ (Keeps-lift _) λ response.
        Keeps-then _ _ (Keeps-apply_id_map laws rules table response.id_map)
          (Keeps-then _ _ (Keeps-lift _) (Keeps-settle_answer table batch response))

  Keeps-push_table :
      (transport : PullRequest → Result Json) (now : Number) (table : String)
      (batch : List SyncMutation)
      → Keeps P (push_table cb metadata add_one config transport now table batch)
  unfolding push_table
  Keeps-push_table transport now table batch = record {
    at = λ s h.
        (Keeps-then
            (take_answer cb metadata add_one config table batch
              (transport (request_for cb metadata add_one config table batch s)) now)
            (return {A = Option Error} none)
            (Keeps-take_answer table batch
              (transport (request_for cb metadata add_one config table batch s)) now)
            (Keeps-return {A = Option Error} none)).at
          s h;
  }

  pub Keeps-fail_table :
      (batch : List SyncMutation) (e : Error)
      → Keeps P (fail_table cb metadata add_one config batch e)
  unfolding fail_table
  Keeps-fail_table batch e = record {
    at = λ s h.
        (Keeps-then _ _ (Keeps-fail (still_unacked cb metadata add_one config batch s))
            (Keeps-return (some e))).at
          s h;
  }

  pub Keeps-process_table :
      (transport : PullRequest → Result Json) (now : Number) (table : String)
      (batch : List SyncMutation)
      → Keeps P (process_table cb metadata add_one config transport now table batch)
  unfolding process_table
  Keeps-process_table transport now table batch =
      Keeps-try _ _
        (Keeps-then _ _ (Keeps-ensure_shown laws rules table)
          (Keeps-push_table transport now table batch))
        (Keeps-fail_table batch)
