-- ===== src/Merge/Guarantees.antt =====
-- What a pull guarantees: open edits are safe, deletions stay deleted, and a pull may be repeated.
use react_native_nitro_sync.Prelude.{
  ◌≡◌, refl, ap, sym, subst, ◌∙◌, ◌⊎◌, inl, inr, Bool, true, false, not, ◌&&◌, Option, none, some,
  String, List, [], ◌∷◌, arith, Bool-cases, Option-cases, ◌==◌, string_eq, option_eq, contains,
  if◌then◌else◌,
}
use react_native_nitro_sync.Prelude.Dict.{Dict, lookup}
use react_native_nitro_sync.Value.Number.{Number, number_leb}
use react_native_nitro_sync.Types.{
  SyncRecord, SyncMutation, SyncTombstone, string_id, record_id, ok, err, changed_record_id, ◌>>=◌,
  chain-ok, ok-injective,
}
use react_native_nitro_sync.Merge.{
  SyncConflictStrategy, lww, last_write_wins, server_wins, client_wins, merge_fields, custom,
  resolve_conflict, protected_ids, is_buried, merge_pulled_records, timestamp_of,
}
use react_native_nitro_sync.Merge.Loops.{find_record, HasDistinctIds, kept, pulled}
use react_native_nitro_sync.Merge.Pull.{buried_at, merged-HasDistinctIds, merge_pulled_lem}

-- The strategies that choose one of the two records.
abbrev pub is_choice : SyncConflictStrategy → Bool
is_choice merge_fields = false
is_choice (custom resolver) = false
is_choice _ = true

resolve_choice :
    (l r x : SyncRecord) (s : SyncConflictStrategy)
    → is_choice s ≡ true
    → resolve_conflict l r s none ≡ ok x
    → ((x ≡ l) ⊎ (x ≡ r)) × (resolve_conflict x r s none ≡ ok x)
unfolding resolve_conflict
resolve_choice l r x lww c h = ground arith
resolve_choice l r x last_write_wins c h = ground arith
resolve_choice l r x server_wins c h = ground arith
resolve_choice l r x client_wins c h = ground arith
resolve_choice l r x merge_fields c h = cc
resolve_choice l r x (custom f) c h = cc

resolve_self :
    (r : SyncRecord) (s : SyncConflictStrategy)
    → is_choice s ≡ true
    → resolve_conflict r r s none ≡ ok r
unfolding resolve_conflict
resolve_self r lww c = ground arith
resolve_self r last_write_wins c = ground arith
resolve_self r server_wins c = refl
resolve_self r client_wins c = refl
resolve_self r merge_fields c = cc
resolve_self r (custom f) c = cc

record_id-find :
    (k : String) (rs : List SyncRecord) (r : SyncRecord)
    → find_record k rs ≡ some r
    → record_id r ≡ k
record_id-find k [] r h = cc
record_id-find k (x ∷ rs) r h = ground (arith, record_id-find k rs r)

newer_of_shown :
    (protected : List String) (tombs : Dict Number) (r : SyncRecord) (k : String) (t : Number)
    → record_id r ≡ k
    → contains protected k ≡ false
    → lookup k tombs ≡ some t
    → (not (contains protected (record_id r)) && is_buried tombs r) ≡ false
    → number_leb (timestamp_of r) t ≡ false
unfolding is_buried
newer_of_shown protected tombs r k t e p b h = ground arith

module _ (protected : List String) (tombs : Dict Number) (strategy : SyncConflictStrategy) where
  pulled-protected :
      (k : String) (cur o : Option SyncRecord)
      → contains protected k ≡ true
      → ((r : SyncRecord) → o ≡ some r → record_id r ≡ k)
      → (pulled protected tombs strategy cur o ≡ ok cur) × (kept protected tombs o ≡ o)
  pulled-protected k cur none p id = (refl, refl)
  pulled-protected k cur (some r) p id = ground (arith, id r refl)

  -- Not hidden: protected, or not buried.
  abbrev Shows : Option SyncRecord → Type 0
  Shows none = Unit
  Shows (some r) = (not (contains protected (record_id r)) && is_buried tombs r) ≡ false

  kept-Shows : (o : Option SyncRecord) → Shows (kept protected tombs o)
  kept-Shows none = tt
  kept-Shows (some r) =
      elim (Bool-cases (not (contains protected (record_id r)) && is_buried tombs r)) [
        | inl e ↦ rw e tt
        | inr e ↦ rw e e
      ]

  Shows-kept : (o : Option SyncRecord) → Shows o → kept protected tombs o ≡ o
  Shows-kept none h = refl
  Shows-kept (some r) h = rw h

  -- A pulled record that is taken up and resolved to `y`, which the strategy then leaves alone.
  taken_again :
      (r y : SyncRecord)
      → contains protected (record_id r) ≡ false
      → is_buried tombs r ≡ false
      → string_id y ≡ string_id r
      → resolve_conflict y r strategy none ≡ ok y
      → pulled protected tombs strategy (some y) (some r) ≡ ok (some y)
  taken_again r y p b same e = rw (p, b, e) (ground arith)

  -- What resolving two records can come to.
  resolved_lem :
      (c r : SyncRecord) (x : Option SyncRecord)
      → contains protected (record_id r) ≡ false
      → is_buried tombs r ≡ false
      → pulled protected tombs strategy (some c) (some r) ≡ ok x
      → (y : SyncRecord) × (resolve_conflict c r strategy none ≡ ok y)
        × (string_id y ≡ string_id r)
        × (x ≡ some y)
  resolved_lem c r x p b h =
      let bound : (resolve_conflict c r strategy none >>= λ y.
      if string_id y == string_id r then ok (some y) else err (changed_record_id r))
          ≡ ok x =
        rw (p, b) at h in
      let (y, e, written) = chain-ok (resolve_conflict c r strategy none) _ bound in
      elim (Bool-cases (string_id y == string_id r)) [
        | inl same ↦ (y, e, ground arith, sym (ok-injective _ _ (rw same at written)))
        | inr differ ↦ absurd (ground arith)
      ]

  resolved_choice :
      (c r : SyncRecord) (x : Option SyncRecord)
      → is_choice strategy ≡ true
      → contains protected (record_id r) ≡ false
      → is_buried tombs r ≡ false
      → Shows (some c)
      → pulled protected tombs strategy (some c) (some r) ≡ ok x
      → Shows x × (pulled protected tombs strategy x (some r) ≡ ok x)
  resolved_choice c r x choice p b s h =
      let (y, e, same, at) = resolved_lem c r x p b h in
      let (origin, again) = resolve_choice c r y strategy choice e in
      let shown : Shows (some r) = rw (p, b) in
      (
        rw at (elim origin [ inl l ↦ rw l s | inr l ↦ rw l shown ]),
        rw at (taken_again r y p b same again),
      )

  pulled_choice :
      (cur o x : Option SyncRecord)
      → is_choice strategy ≡ true
      → Shows cur
      → pulled protected tombs strategy cur o ≡ ok x
      → Shows x × (pulled protected tombs strategy x o ≡ ok x)
  pulled_choice cur none x choice s h = (subst Shows (ok-injective _ _ h) s, refl)
  pulled_choice cur (some r) x choice s h = elim (Bool-cases (contains protected (record_id r))) [
    | inl p ↦ (subst Shows (ok-injective _ _ (rw p at h)) s, rw p)
    | inr p ↦ elim (Bool-cases (is_buried tombs r)) [
      | inl b ↦ (subst Shows (ok-injective _ _ (rw (p, b) at h)) s, rw (p, b))
      | inr b ↦ elim (Option-cases cur) [
        | inl e ↦
            let at : some r ≡ x = ok-injective _ _ (rw (p, b) at (rw e at h)) in
            (
              subst Shows at (rw (p, b)),
              subst (λ y. pulled protected tombs strategy y (some r) ≡ ok y) at
                  (taken_again r r p b refl (resolve_self r strategy choice)),
            )
        | inr (c, e) ↦ resolved_choice c r x choice p b (subst Shows e s) (rw e at h)
      ]
    ]
  ]

module _ (local remote merged : List SyncRecord) (unacked : List SyncMutation)
    (strategy : SyncConflictStrategy) (tombstones : List SyncTombstone)
    (local_distinct : HasDistinctIds local) (remote_distinct : HasDistinctIds remote)
    (done : merge_pulled_records local remote unacked strategy tombstones ≡ ok merged) where
  -- A record whose id has an open mutation comes through a pull exactly as it was, or stays absent, by
  -- every strategy and whatever tombstones the server sends, where the pull ends without an error and
  -- neither the local records nor the server's have an id twice.
  pub protected_unchanged :
      (k : String)
      → contains (protected_ids unacked) k ≡ true
      → find_record k merged ≡ find_record k local
  protected_unchanged k p =
      let (pull, keep) =
        pulled-protected (protected_ids unacked) (buried_at tombstones) strategy k
          (kept (protected_ids unacked) (buried_at tombstones) (find_record k local))
          (find_record k remote) p (record_id-find k remote) in
      let (_, keep_local) =
        pulled-protected (protected_ids unacked) (buried_at tombstones) strategy k none
          (find_record k local) p (record_id-find k local) in
      ok-injective _ _ (
        sym (
          merge_pulled_lem local remote merged unacked strategy tombstones done local_distinct
            remote_distinct k)
        ∙ pull
        ∙ ap ok keep_local)

  shown :
      (k : String)
      → is_choice strategy ≡ true
      → Shows (protected_ids unacked) (buried_at tombstones) strategy (find_record k merged)
        × (pulled
              (protected_ids unacked)
              (buried_at tombstones)
              strategy
              (find_record k merged)
              (find_record k remote)
            ≡ ok (find_record k merged))
  shown k choice =
      pulled_choice (protected_ids unacked) (buried_at tombstones) strategy _ (find_record k remote)
        (find_record k merged) choice
        (kept-Shows (protected_ids unacked) (buried_at tombstones) strategy (find_record k local))
        (merge_pulled_lem local remote merged unacked strategy tombstones done local_distinct
          remote_distinct k)

  -- No deletion is undone: by a strategy that chooses one of the two records, a merged record whose id
  -- has no open mutation but a tombstone is newer than the tombstone, where the pull ends without an
  -- error and neither the local records nor the server's have an id twice.
  pub no_resurrection :
      (k : String) (r : SyncRecord) (t : Number)
      → is_choice strategy ≡ true
      → contains (protected_ids unacked) k ≡ false
      → lookup k (buried_at tombstones) ≡ some t
      → find_record k merged ≡ some r
      → number_leb (timestamp_of r) t ≡ false
  no_resurrection k r t choice p b h =
      newer_of_shown (protected_ids unacked) (buried_at tombstones) r k t
        (record_id-find k merged r h) p b (rw h at ((shown k choice).0))

  -- A pull may be repeated: merging the same answer into the result gives, under every id, the record
  -- that is there already, by a strategy that chooses one of the two records, where both pulls end
  -- without an error and neither the local records nor the server's have an id twice.
  pub pull_twice :
      (again : List SyncRecord)
      → is_choice strategy ≡ true
      → merge_pulled_records merged remote unacked strategy tombstones ≡ ok again
      → (k : String) → find_record k again ≡ find_record k merged
  pull_twice again choice redone k =
      let (s, settled) = shown k choice in
      let second =
        merge_pulled_lem merged remote again unacked strategy tombstones redone
          (merged-HasDistinctIds local remote merged unacked strategy tombstones done)
          remote_distinct k in
      ok-injective _ _ (
        sym second
        ∙ ap
            (λ o.
              pulled (protected_ids unacked) (buried_at tombstones) strategy o
                (find_record k remote))
            (Shows-kept (protected_ids unacked) (buried_at tombstones) strategy
              (find_record k merged) s)
        ∙ settled)
