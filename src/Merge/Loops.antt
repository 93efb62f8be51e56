-- ===== src/Merge/Loops.antt =====
-- The two loops of `mergePulledRecords`, id by id.
use react_native_nitro_sync.Prelude.{
  ◌≡◌, refl, ap, sym, subst, ◌∙◌, ◌⊎◌, inl, inr, false, not, ◌&&◌, Option, none, some, String, List,
  [], ◌∷◌, All, arith, Bool-cases, Option-cases, ◌==◌, string_eq, option_eq, find, if◌then◌else◌,
  contains,
}
use react_native_nitro_sync.Prelude.Dict.{
  Dict, lookup, insert, values, lookup-insert, NodupKeys, insert-NodupKeys,
}
use react_native_nitro_sync.Value.Number.{Number}
use react_native_nitro_sync.Types.{
  SyncRecord, string_id, record_id, Result, ok, err, changed_record_id, ◌>>=◌, chain-ok,
  ok-injective,
}
use react_native_nitro_sync.Merge.{
  SyncConflictStrategy, resolve_conflict, is_buried, add_local, add_remote_record, add_remote,
}

-- The record with an id in an array of records.
abbrev pub find_record : String → List SyncRecord → Option SyncRecord
find_record k rs = find (λ r. record_id r == k) rs

-- An array in which no id stands twice.
abbrev pub HasDistinctIds : List SyncRecord → Type 0
HasDistinctIds [] = Unit
HasDistinctIds (r ∷ rs) = (find_record (record_id r) rs ≡ none) × HasDistinctIds rs

-- Each record of the map stands under its own id.
abbrev pub IsKeyed : Dict SyncRecord → Type 0
IsKeyed d = All (λ e. record_id e.1 ≡ e.0) d

insert-IsKeyed :
    (k : String) (r : SyncRecord) (d : Dict SyncRecord)
    → record_id r ≡ k
    → IsKeyed d
    → IsKeyed (insert k r d)
unfolding insert
insert-IsKeyed k r [] e h = (e, tt)
insert-IsKeyed k r ((j, s) ∷ d) e h = ground (arith, insert-IsKeyed k r d e h.1)

pub find_record-values :
    (k : String) (d : Dict SyncRecord) → IsKeyed d → find_record k (values d) ≡ lookup k d
unfolding values lookup
find_record-values k [] h = refl
find_record-values k ((j, r) ∷ d) h = ground (arith, find_record-values k d h.1)

pub values-HasDistinctIds :
    (d : Dict SyncRecord) → IsKeyed d → NodupKeys d → HasDistinctIds (values d)
unfolding values
values-HasDistinctIds [] h n = tt
values-HasDistinctIds ((j, r) ∷ d) h n =
    (rw (h.0) (find_record-values j d h.1 ∙ n.0), values-HasDistinctIds d h.1 n.1)

-- A map of records as the loops build it.
abbrev pub IsGood : Dict SyncRecord → Type 0
IsGood d = IsKeyed d × NodupKeys d

insert-IsGood :
    (r : SyncRecord) (k : String) (d : Dict SyncRecord)
    → record_id r ≡ k
    → IsGood d
    → IsGood (insert k r d)
insert-IsGood r k d e g = (insert-IsKeyed k r d e g.0, insert-NodupKeys k r d g.1)

abbrev pub or_else : Option SyncRecord → Option SyncRecord → Option SyncRecord
or_else none o = o
or_else (some r) o = some r

pub or_else-none : (o : Option SyncRecord) → or_else o none ≡ o
or_else-none none = refl
or_else-none (some r) = refl

module _ (protected : List String) (tombs : Dict Number) where
  -- What the loop over the local records makes of one id.
  abbrev pub kept : Option SyncRecord → Option SyncRecord
  kept none = none
  kept (some r) =
      if not (contains protected (record_id r)) && is_buried tombs r then none else some r

  pub lookup-add_local :
      (k : String) (rs : List SyncRecord) (d : Dict SyncRecord)
      → HasDistinctIds rs
      → lookup k (add_local protected tombs d rs) ≡ or_else (kept (find_record k rs)) (lookup k d)
  unfolding add_local
  lookup-add_local k [] d h = refl
  lookup-add_local k (r ∷ rs) d h = ground (
    arith,
    lookup-add_local k rs d h.1,
    lookup-add_local k rs (insert (record_id r) r d) h.1,
    lookup-insert (record_id r) k r d,
  )

  pub add_local-IsGood :
      (rs : List SyncRecord) (d : Dict SyncRecord)
      → IsGood d
      → IsGood (add_local protected tombs d rs)
  unfolding add_local
  add_local-IsGood [] d g = g
  add_local-IsGood (r ∷ rs) d g =
      elim (Bool-cases (not (contains protected (record_id r)) && is_buried tombs r)) [
        | inl e ↦ rw e (add_local-IsGood rs d g)
        | inr e ↦ rw e (add_local-IsGood rs (insert (record_id r) r d) (insert-IsGood r _ d refl g))
      ]

  module _ (strategy : SyncConflictStrategy) where
    -- What the loop over the remote records makes of one id, from the record in the map and the
    -- remote record with the id.
    abbrev pub pulled : Option SyncRecord → Option SyncRecord → Result (Option SyncRecord)
    pulled current none = ok current
    pulled current (some r) =
        if contains protected (record_id r)
        then ok current
        else if is_buried tombs r
        then ok current
        else elim current [
          | none ↦ ok (some r)
          | some c ↦ resolve_conflict c r strategy none >>= λ x.
              if string_id x == string_id r then ok (some x) else err (changed_record_id r)
        ]

    -- A round leaves the map alone, or writes one record under its id.
    abbrev Round : SyncRecord → Dict SyncRecord → Dict SyncRecord → Type 0
    Round r d d' =
        ((d' ≡ d) × (pulled (lookup (record_id r) d) (some r) ≡ ok (lookup (record_id r) d)))
        ⊎ ((x : SyncRecord) × (d' ≡ insert (record_id r) x d)
            × (record_id x ≡ record_id r)
            × (pulled (lookup (record_id r) d) (some r) ≡ ok (some x)))

    record_id_congr : (x r : SyncRecord) → string_id x ≡ string_id r → record_id x ≡ record_id r
    unfolding record_id
    record_id_congr x r h = rw h

    found-Round :
        (r c : SyncRecord) (d d' : Dict SyncRecord)
        → contains protected (record_id r) ≡ false
        → is_buried tombs r ≡ false
        → lookup (record_id r) d ≡ some c
        → add_remote_record protected tombs strategy d r ≡ ok d'
        → Round r d d'
    unfolding add_remote_record
    found-Round r c d d' p b e h =
        let bound : (resolve_conflict c r strategy none >>= λ x.
        if string_id x == string_id r
        then ok (insert (record_id r) x d)
        else err (changed_record_id r))
            ≡ ok d' =
          rw (p, b, e) at h in
        let (x, resolved, written) = chain-ok (resolve_conflict c r strategy none) _ bound in
        elim (Bool-cases (string_id x == string_id r)) [
          | inl same ↦ inr (
            x,
            sym (ok-injective _ _ (rw same at written)),
            record_id_congr x r (ground arith),
            rw (p, b, e, resolved, same),
          )
          | inr differ ↦ absurd (ground arith)
        ]

    record-Round :
        (r : SyncRecord) (d d' : Dict SyncRecord)
        → add_remote_record protected tombs strategy d r ≡ ok d'
        → Round r d d'
    unfolding add_remote_record
    record-Round r d d' h = elim (Bool-cases (contains protected (record_id r))) [
      | inl p ↦ inl (sym (ok-injective _ _ (rw p at h)), rw p)
      | inr p ↦ elim (Bool-cases (is_buried tombs r)) [
        | inl b ↦ inl (sym (ok-injective _ _ (rw (p, b) at h)), rw (p, b))
        | inr b ↦ elim (Option-cases (lookup (record_id r) d)) [
          | inl e ↦ inr (r, sym (ok-injective _ _ (rw (p, b, e) at h)), refl, rw (p, b, e))
          | inr (c, e) ↦ found-Round r c d d' p b e h
        ]
      ]
    ]

    Round-here :
        (r : SyncRecord) (d d' : Dict SyncRecord)
        → Round r d d'
        → pulled (lookup (record_id r) d) (some r) ≡ ok (lookup (record_id r) d')
    Round-here r d d' (inl (e, p)) = rw e p
    Round-here r d d' (inr (x, e, same, p)) =
        p ∙ ap ok (ground (arith, lookup-insert (record_id r) (record_id r) x d))

    Round-elsewhere :
        (r : SyncRecord) (d d' : Dict SyncRecord) (k : String)
        → Round r d d'
        → (record_id r == k) ≡ false
        → lookup k d' ≡ lookup k d
    Round-elsewhere r d d' k (inl (e, p)) n = rw e
    Round-elsewhere r d d' k (inr (x, e, same, p)) n =
        rw e (lookup-insert (record_id r) k x d ∙ rw n)

    Round-IsGood : (r : SyncRecord) (d d' : Dict SyncRecord) → Round r d d' → IsGood d → IsGood d'
    Round-IsGood r d d' (inl (e, p)) g = rw e g
    Round-IsGood r d d' (inr (x, e, same, p)) g = rw e (insert-IsGood x (record_id r) d same g)

    pub lookup-add_remote :
        (k : String) (rs : List SyncRecord) (d d' : Dict SyncRecord)
        → HasDistinctIds rs
        → add_remote protected tombs strategy d rs ≡ ok d'
        → pulled (lookup k d) (find_record k rs) ≡ ok (lookup k d')
    unfolding add_remote
    lookup-add_remote k [] d d' n h = ap ok (ap (lookup k) (ok-injective _ _ h))
    lookup-add_remote k (r ∷ rs) d d' n h =
        let (m, first, later) =
          chain-ok (add_remote_record protected tombs strategy d r)
            (λ m. add_remote protected tombs strategy m rs) h in
        let round = record-Round r d m first in
        elim (Bool-cases (record_id r == k)) [
          | inl hit ↦
              let same : record_id r ≡ k = ground arith in
              rw hit (
                subst (λ j. pulled (lookup j d) (some r) ≡ ok (lookup j d')) same
                  (Round-here r d m round
                    ∙ (rw (n.0) at (lookup-add_remote (record_id r) rs m d' n.1 later))))
          | inr miss ↦
              rw (miss, ← Round-elsewhere r d m k round miss)
                (lookup-add_remote k rs m d' n.1 later)
        ]

    pub add_remote-IsGood :
        (rs : List SyncRecord) (d d' : Dict SyncRecord)
        → add_remote protected tombs strategy d rs ≡ ok d'
        → IsGood d
        → IsGood d'
    unfolding add_remote
    add_remote-IsGood [] d d' h g = subst IsGood (ok-injective _ _ h) g
    add_remote-IsGood (r ∷ rs) d d' h g =
        let (m, first, later) =
          chain-ok (add_remote_record protected tombs strategy d r)
            (λ m. add_remote protected tombs strategy m rs) h in
        add_remote-IsGood rs m d' later (Round-IsGood r d m (record-Round r d m first) g)
