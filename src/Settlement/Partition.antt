-- ===== src/Settlement/Partition.antt =====
-- What `partitionSyncMutations` makes of a batch and an arbitrary answer of the server.
use mathlib.Core.List.{Perm, perm_middle}
use mathlib.Core.List.Perm
use react_native_nitro_sync.Prelude.{
  ◌≡◌, refl, Bool, true, false, not, ◌&&◌, String, List, [], ◌∷◌, ◌++◌, filter, any, All, contains,
  ◌==◌, string_eq, arith, Bool-cases, inl, inr,
}
use react_native_nitro_sync.Types.{SyncMutation, SyncMutationRejection}
use react_native_nitro_sync.Settlement.{
  is_permanent, ids, acknowledged_ids, rejected_ids, partition_sync_mutations,
}

contains-filter :
    (p : String → Bool) (xs : List String) (s : String)
    → contains (filter p xs) s ≡ (contains xs s && p s)
contains-filter p [] s = refl
contains-filter p (x ∷ xs) s = ground (arith, contains-filter p xs s)

-- The server refuses `s` for good in one of its rejections.
abbrev pub refuses : List SyncMutationRejection → String → Bool
refuses rejections s = any (λ r. is_permanent r.retryable && (r.mutation_id == s)) rejections

contains-rejected_ids :
    (ms : List SyncMutation) (acks : List String) (rs : List SyncMutationRejection) (s : String)
    → contains (rejected_ids ms acks rs) s
      ≡ (refuses rs s && (contains (ids ms) s && not (contains (acknowledged_ids ms acks) s)))
unfolding rejected_ids
contains-rejected_ids ms acks [] s = refl
contains-rejected_ids ms acks (r ∷ rs) s = ground (arith, contains-rejected_ids ms acks rs s)

-- What the answer says of one mutation of the batch, without the sets.
abbrev pub is_acknowledged : List String → SyncMutation → Bool
is_acknowledged acks m = contains acks m.id

abbrev pub is_refused : List String → List SyncMutationRejection → SyncMutation → Bool
is_refused acks rs m = refuses rs m.id && not (contains acks m.id)

All-weaken :
    {P Q : SyncMutation → Type 0} (ms : List SyncMutation)
    → ((m : SyncMutation) → P m → Q m)
    → All P ms
    → All Q ms
All-weaken [] f h = tt
All-weaken (m ∷ ms) f h = (f m h.0, All-weaken ms f h.1)

ids_contained : (ms : List SyncMutation) → All (λ m. contains (ids ms) m.id ≡ true) ms
ids_contained [] = tt
ids_contained (m ∷ ms) = (ground arith, All-weaken ms (λ k h. ground arith) (ids_contained ms))

filter_congr :
    (p q : SyncMutation → Bool) (ms : List SyncMutation)
    → All (λ m. p m ≡ q m) ms
    → filter p ms ≡ filter q ms
filter_congr p q [] h = refl
filter_congr p q (m ∷ ms) h = ground (arith, filter_congr p q ms h.1)

module _ (ms : List SyncMutation) (acks : List String) (rs : List SyncMutationRejection) where
  acked_lem :
      (m : SyncMutation)
      → contains (ids ms) m.id ≡ true
      → contains (acknowledged_ids ms acks) m.id ≡ is_acknowledged acks m
  unfolding acknowledged_ids
  acked_lem m h = ground (arith, contains-filter (contains (ids ms)) acks m.id)

  refused_lem :
      (m : SyncMutation)
      → contains (ids ms) m.id ≡ true
      → contains (rejected_ids ms acks rs) m.id ≡ is_refused acks rs m
  refused_lem m h = ground (arith, contains-rejected_ids ms acks rs m.id, acked_lem m h)

  -- For any batch and any answer, the three lists of the settlement are the mutations that the answer
  -- acknowledges, those that it neither acknowledges nor permanently refuses, and those that it
  -- permanently refuses without acknowledging them, each in the order of the batch; ids outside the
  -- batch have no influence.
  pub partition_lem : partition_sync_mutations ms acks rs ≡ record {
    acknowledged = filter (is_acknowledged acks) ms;
    unacknowledged = filter (λ m. not (is_acknowledged acks m) && not (is_refused acks rs m)) ms;
    rejected = filter (is_refused acks rs) ms;
  }
  unfolding partition_sync_mutations
  partition_lem =
      let a =
        filter_congr (λ m. contains (acknowledged_ids ms acks) m.id) (is_acknowledged acks) ms
          (All-weaken ms acked_lem (ids_contained ms)) in
      let u =
        filter_congr
          (λ m.
            not (contains (acknowledged_ids ms acks) m.id)
            && not (contains (rejected_ids ms acks rs) m.id))
          (λ m. not (is_acknowledged acks m) && not (is_refused acks rs m)) ms
          (All-weaken ms (λ m h. ground (arith, acked_lem m h, refused_lem m h))
            (ids_contained ms)) in
      let r =
        filter_congr (λ m. contains (rejected_ids ms acks rs) m.id) (is_refused acks rs) ms
          (All-weaken ms refused_lem (ids_contained ms)) in
      λ i. record { acknowledged = a i; unacknowledged = u i; rejected = r i }

three_way :
    (f g : SyncMutation → Bool) (ms : List SyncMutation)
    → ((m : SyncMutation) → (f m && g m) ≡ false)
    → Perm (filter f ms ++ filter (λ m. not (f m) && not (g m)) ms ++ filter g ms) ms
three_way f g [] apart = Perm.nil
three_way f g (m ∷ ms) apart =
    let rest = three_way f g ms apart in
    elim (Bool-cases (f m)) [
      | inl hit ↦
          let other : g m ≡ false = ground (arith, apart m) in rw (hit, other) (Perm.cons m rest)
      | inr miss ↦ elim (Bool-cases (g m)) [
        | inl hit ↦ rw (miss, hit) (Perm.trans (perm_middle _ _) (Perm.cons m rest))
        | inr other ↦
            rw (miss, other)
              (Perm.trans (Perm.append (perm_middle _ _) Perm.rfl) (Perm.cons m rest))
      ]
    ]

-- Every mutation of the batch is in exactly one of the three lists, as often as in the batch: laid
-- side by side they are a rearrangement of the batch, whatever the server answers.
pub partition-perm :
    (ms : List SyncMutation) (acks : List String) (rs : List SyncMutationRejection)
    → let s = partition_sync_mutations ms acks rs in
      Perm (s.acknowledged ++ s.unacknowledged ++ s.rejected) ms
partition-perm ms acks rs =
    rw (partition_lem ms acks rs)
      (three_way (is_acknowledged acks) (is_refused acks rs) ms (λ m. ground arith))
