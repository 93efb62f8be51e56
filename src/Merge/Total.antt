-- ===== src/Merge/Total.antt =====
-- `mergePulledRecords` throws only through an application's resolver.
use react_native_nitro_sync.Prelude.{
  ◌≡◌, refl, true, not, ◌&&◌, some, String, List, [], ◌∷◌, arith, All, Bool-cases, Option-cases,
  inl, inr, ◌==◌, string_eq, option_eq, contains,
}
use react_native_nitro_sync.Prelude.Dict.{Dict, lookup, insert, values}
use react_native_nitro_sync.Value.Number.{Number}
use react_native_nitro_sync.Value.Json.{HasDistinctKeys}
use react_native_nitro_sync.Types.{
  SyncRecord, SyncMutation, SyncTombstone, string_id, record_id, ok,
}
use react_native_nitro_sync.Merge.{
  SyncConflictStrategy, protected_ids, tombstone_timestamps, is_buried, add_local,
  add_remote_record, add_remote, merge_pulled_records,
}
use react_native_nitro_sync.Merge.Conflict.{is_builtin, resolve-ok}

-- What the type SyncRecord promises: a text under "id".
abbrev pub HasId : SyncRecord → Type 0
HasId r = string_id r ≡ some (record_id r)

-- What JSON promises of a pulled record besides: no key stands twice in it.
abbrev pub IsPulled : SyncRecord → Type 0
IsPulled r = HasId r × HasDistinctKeys r

abbrev IsNamed : Dict SyncRecord → Type 0
IsNamed d = All (λ e. string_id e.1 ≡ some e.0) d

insert-IsNamed :
    (k : String) (r : SyncRecord) (d : Dict SyncRecord)
    → string_id r ≡ some k
    → IsNamed d
    → IsNamed (insert k r d)
unfolding insert
insert-IsNamed k r [] e h = (e, tt)
insert-IsNamed k r ((j, s) ∷ d) e h = ground (arith, insert-IsNamed k r d e h.1)

lookup-IsNamed :
    (k : String) (r : SyncRecord) (d : Dict SyncRecord)
    → IsNamed d
    → lookup k d ≡ some r
    → string_id r ≡ some k
unfolding lookup
lookup-IsNamed k r [] n h = cc
lookup-IsNamed k r ((j, s) ∷ d) n h = ground (arith, lookup-IsNamed k r d n.1)

module _ (protected : List String) (tombs : Dict Number) where
  add_local-IsNamed :
      (rs : List SyncRecord) (d : Dict SyncRecord)
      → All HasId rs
      → IsNamed d
      → IsNamed (add_local protected tombs d rs)
  unfolding add_local
  add_local-IsNamed [] d h n = n
  add_local-IsNamed (r ∷ rs) d h n =
      elim (Bool-cases (not (contains protected (record_id r)) && is_buried tombs r)) [
        | inl e ↦ rw e (add_local-IsNamed rs d h.1 n)
        | inr e ↦ rw e (
            add_local-IsNamed rs (insert (record_id r) r d) h.1
              (insert-IsNamed (record_id r) r d h.0 n))
      ]

  module _ (strategy : SyncConflictStrategy) (builtin : is_builtin strategy ≡ true) where
    record_total :
        (r : SyncRecord) (d : Dict SyncRecord)
        → IsPulled r
        → IsNamed d
        → (d' : Dict SyncRecord) × (add_remote_record protected tombs strategy d r ≡ ok d')
          × IsNamed d'
    unfolding add_remote_record
    record_total r d h n = elim (Bool-cases (contains protected (record_id r))) [
      | inl p ↦ (d, rw p, n)
      | inr p ↦ elim (Bool-cases (is_buried tombs r)) [
        | inl b ↦ (d, rw (p, b), n)
        | inr b ↦ elim (Option-cases (lookup (record_id r) d)) [
          | inl e ↦ (insert (record_id r) r d, rw (p, b, e), insert-IsNamed (record_id r) r d h.0 n)
          | inr (c, e) ↦
              let (x, resolved, named) =
                resolve-ok c r strategy (record_id r) builtin h.1
                  (lookup-IsNamed (record_id r) c d n e) h.0 in
              let same : (string_id x == string_id r) ≡ true = rw (named, h.0) (ground arith) in
              (
                insert (record_id r) x d,
                rw (p, b, e, resolved, same),
                insert-IsNamed (record_id r) x d named n,
              )
        ]
      ]
    ]

    add_remote_total :
        (rs : List SyncRecord) (d : Dict SyncRecord)
        → All IsPulled rs
        → IsNamed d
        → (d' : Dict SyncRecord) × (add_remote protected tombs strategy d rs ≡ ok d')
    unfolding add_remote
    add_remote_total [] d h n = (d, refl)
    add_remote_total (r ∷ rs) d h n =
        let (m, first, named) = record_total r d h.0 n in
        let (d', rest) = add_remote_total rs m h.1 named in (d', rw first rest)

-- With a built-in strategy a merge always succeeds, whatever the open mutations and tombstones: the
-- local records have ids, and the pulled records have ids and repeat no key.
pub merge_pulled_total :
    (local remote : List SyncRecord) (unacked : List SyncMutation) (strategy : SyncConflictStrategy)
    (tombstones : List SyncTombstone)
    → is_builtin strategy ≡ true
    → All HasId local
    → All IsPulled remote
    → (merged : List SyncRecord) × (merge_pulled_records local remote unacked strategy tombstones
        ≡ ok merged)
unfolding merge_pulled_records
merge_pulled_total local remote unacked strategy tombstones builtin hl hr =
    let protected = protected_ids unacked in
    let tombs = tombstone_timestamps [] tombstones in
    let (d, run) =
      add_remote_total protected tombs strategy builtin remote (add_local protected tombs [] local)
        hr (add_local-IsNamed protected tombs local [] hl tt) in
    (values d, rw run)
