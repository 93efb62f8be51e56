-- ===== src/Merge/Pull.antt =====
-- `mergePulledRecords`, id by id.
use react_native_nitro_sync.Prelude.{◌≡◌, subst, ◌∙◌, String, List, [], string_eq, option_eq}
use react_native_nitro_sync.Prelude.Dict.{Dict, lookup, values}
use react_native_nitro_sync.Value.Number.{Number}
use react_native_nitro_sync.Types.{
  SyncRecord, SyncMutation, SyncTombstone, ok, chain-ok, ok-injective,
}
use react_native_nitro_sync.Merge.Loops.{
  find_record, HasDistinctIds, find_record-values, values-HasDistinctIds, IsGood, kept,
  or_else-none, lookup-add_local, add_local-IsGood, pulled, lookup-add_remote, add_remote-IsGood,
}
use react_native_nitro_sync.Merge.{
  SyncConflictStrategy, protected_ids, tombstone_timestamps, add_local, add_remote,
  merge_pulled_records,
}

-- The tombstones' timestamps and the ids with an open mutation, as the function computes them.
abbrev pub buried_at : List SyncTombstone → Dict Number
buried_at = tombstone_timestamps []

module _ (local remote merged : List SyncRecord) (unacked : List SyncMutation)
    (strategy : SyncConflictStrategy) (tombstones : List SyncTombstone)
    (done : merge_pulled_records local remote unacked strategy tombstones ≡ ok merged) where
  protected : List String
  protected = protected_ids unacked

  locals : Dict SyncRecord
  locals = add_local protected (buried_at tombstones) [] local

  -- The map at the end of the loops.
  final :
      (d : Dict SyncRecord) × (add_remote protected (buried_at tombstones) strategy locals remote
        ≡ ok d)
      × (values d ≡ merged)
  unfolding merge_pulled_records protected locals
  final =
      let (d, run, e) =
        chain-ok (add_remote protected (buried_at tombstones) strategy locals remote)
          (λ m. ok (values m)) done in
      (d, run, ok-injective _ _ e)

  final-IsGood : IsGood final.0
  unfolding locals
  final-IsGood =
      add_remote-IsGood protected (buried_at tombstones) strategy remote locals final.0 final.1
        (add_local-IsGood protected (buried_at tombstones) local [] (tt, tt))

  locals_lem :
      HasDistinctIds local
      → (k : String) → lookup k locals ≡ kept protected (buried_at tombstones) (find_record k local)
  unfolding locals lookup
  locals_lem dl k = lookup-add_local protected (buried_at tombstones) k local [] dl ∙ or_else-none _

  -- A merge never yields two records with one id.
  pub merged-HasDistinctIds : HasDistinctIds merged
  merged-HasDistinctIds =
      subst HasDistinctIds (final.2) (values-HasDistinctIds final.0 final-IsGood.0 final-IsGood.1)

  -- Where no id stands twice among the local records, nor among the pulled ones, the merged record
  -- under any id is decided by the local and the pulled record with that id alone: the local record
  -- counts unless it is unprotected and buried by a tombstone; the pulled record counts unless its id
  -- is protected or it is buried; where both count, the strategy resolves them, and has kept the id.
  pub merge_pulled_lem :
      HasDistinctIds local
      → HasDistinctIds remote
      → (k : String)
      → pulled
          (protected_ids unacked)
          (buried_at tombstones)
          strategy
          (kept (protected_ids unacked) (buried_at tombstones) (find_record k local))
          (find_record k remote)
        ≡ ok (find_record k merged)
  unfolding protected
  merge_pulled_lem dl dr k =
      let found : find_record k merged ≡ lookup k final.0 =
        rw (← final.2) (find_record-values k final.0 final-IsGood.0) in
      rw found (
        subst
          (λ o.
            pulled protected (buried_at tombstones) strategy o (find_record k remote)
            ≡ ok (lookup k final.0))
          (locals_lem dl k)
          (lookup-add_remote protected (buried_at tombstones) strategy k remote locals final.0 dr
            final.1))
