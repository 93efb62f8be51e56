-- ===== src/Settlement/Each.antt =====
-- What the loops of `settleSyncMutations` and `failSyncMutations` keep, and what they reach.
use react_native_nitro_sync.Prelude.{
  ◌≡◌, inl, inr, true, String, List, [], ◌∷◌, contains, ◌==◌, string_eq, arith, Bool-cases,
}
use react_native_nitro_sync.Types.{MutationStatus, SyncMutation}
use react_native_nitro_sync.Settlement.{Handler, ids, handle_each}
use react_native_nitro_sync.Exec.Keeps.{Keeps, Keeps-return, Keeps-then}
use react_native_nitro_sync.Exec.Leads.{Leads, Always, Leads-after, Leads-kept}

module _ {S : Type 0} {P : S → Type 0} (handler : Handler S) (status : MutationStatus) where
  pub Keeps-handle_each :
      (ms : List SyncMutation)
      → ((m : SyncMutation) → Keeps P (handler m status))
      → Keeps P (handle_each handler status ms)
  unfolding handle_each
  Keeps-handle_each [] k = Keeps-return tt
  Keeps-handle_each (m ∷ ms) k =
      Keeps-then (handler m status) (handle_each handler status ms) (k m) (Keeps-handle_each ms k)

  -- What the handler does for the mutation with an id, if nothing undoes it.
  pub Leads-handle_each :
      (x : String) (ms : List SyncMutation)
      → ((m : SyncMutation) → Keeps P (handler m status))
      → ((m : SyncMutation) → (m.id == x) ≡ true → Leads Always (handler m status) (λ u. P))
      → contains (ids ms) x ≡ true
      → Leads Always (handle_each handler status ms) (λ u. P)
  unfolding handle_each
  Leads-handle_each x [] keeps goes h = cc
  Leads-handle_each x (m ∷ ms) keeps goes h = elim (Bool-cases (m.id == x)) [
    | inl same ↦
        Leads-kept (handler m status) (λ u. handle_each handler status ms) (goes m same)
          (λ u. Keeps-handle_each ms keeps)
    | inr other ↦
        Leads-after (handler m status) (λ u. handle_each handler status ms)
          (λ u. Leads-handle_each x ms keeps goes (ground arith))
  ]
