-- ===== src/Provider/Batch/Groups.antt =====
-- `groupMutationsByTable`, the blocked mutations and the tables of a sync, for any claimed batch.
use react_native_nitro_sync.Prelude.{
  ◌≡◌, refl, sym, ap, ◌∙◌, inl, inr, true, false, not, ◌||◌, Option, none, some, String, List, [],
  ◌∷◌, ◌++◌, filter, All, contains, ◌==◌, string_eq, arith, Bool-cases, Option-cases,
}
use mathlib.Core.List.{append_assoc, append-nil}
use react_native_nitro_sync.Prelude.Dict.{Dict, lookup, lookup-insert}
use react_native_nitro_sync.Types.{SyncMutation}
use react_native_nitro_sync.Settlement.{ids}
use react_native_nitro_sync.Provider.Batch.{
  set_add, set_from, keys, mutations_or_empty, group_one, group_into, group_mutations_by_table,
  without_blocked, tables_to_sync,
}

contains-append :
    (xs ys : List String) (s : String) → contains (xs ++ ys) s ≡ (contains xs s || contains ys s)
contains-append [] ys s = refl
contains-append (x ∷ xs) ys s = ground (arith, contains-append xs ys s)

contains-set_add :
    (set : List String) (x s : String) → contains (set_add set x) s ≡ (contains set s || (x == s))
contains-set_add set x s = ground (arith, contains-append set (x ∷ []) s)

contains-set_from_into :
    (set xs : List String) (s : String)
    → contains (set_from set xs) s ≡ (contains set s || contains xs s)
unfolding set_from
contains-set_from_into set [] s = ground arith
contains-set_from_into set (x ∷ xs) s =
    ground (arith, contains-set_from_into (set_add set x) xs s, contains-set_add set x s)

pub contains-set_from :
    (xs : List String) (s : String) → contains (set_from [] xs) s ≡ contains xs s
contains-set_from xs s = contains-set_from_into [] xs s

-- The mutations of a table, in the order of the queue.
abbrev pub of_table : String → List SyncMutation → List SyncMutation
of_table table ms = filter (λ m. m.table_name == table) ms

group_one_lem :
    (table : String) (grouped : Dict (List SyncMutation)) (m : SyncMutation)
    → mutations_or_empty (lookup table (group_one grouped m))
      ≡ mutations_or_empty (lookup table grouped) ++ of_table table (m ∷ [])
unfolding group_one
group_one_lem table grouped m = elim (Option-cases (lookup m.table_name grouped)) [
  | inl e ↦ ground (
    arith,
    lookup-insert m.table_name table (m ∷ []) grouped,
    append-nil (mutations_or_empty (lookup table grouped)),
  )
  | inr (existing, e) ↦ ground (
    arith,
    lookup-insert m.table_name table (existing ++ m ∷ []) grouped,
    append-nil (mutations_or_empty (lookup table grouped)),
  )
]

group_into_lem :
    (table : String) (grouped : Dict (List SyncMutation)) (ms : List SyncMutation)
    → mutations_or_empty (lookup table (group_into grouped ms))
      ≡ mutations_or_empty (lookup table grouped) ++ of_table table ms
unfolding group_into
group_into_lem table grouped [] = sym (append-nil (mutations_or_empty (lookup table grouped)))
group_into_lem table grouped (m ∷ ms) =
    group_into_lem table (group_one grouped m) ms
    ∙ ap (λ l. l ++ of_table table ms) (group_one_lem table grouped m)
    ∙ append_assoc (mutations_or_empty (lookup table grouped)) (of_table table (m ∷ []))
        (of_table table ms)
    ∙ ap (λ l. mutations_or_empty (lookup table grouped) ++ l) ground arith

abbrev pub unblocked : List String → List SyncMutation → List SyncMutation
unblocked blocked ms = filter (λ m. not (contains blocked m.id)) ms

lookup-without_blocked :
    (table : String) (blocked : List String) (grouped : Dict (List SyncMutation))
    → mutations_or_empty (lookup table (without_blocked blocked grouped))
      ≡ unblocked blocked (mutations_or_empty (lookup table grouped))
unfolding without_blocked lookup
lookup-without_blocked table blocked [] = refl
lookup-without_blocked table blocked ((t, ms) ∷ grouped) = elim (Bool-cases (t == table)) [
  | inl e ↦ rw e refl
  | inr e ↦ rw e (lookup-without_blocked table blocked grouped)
]

-- The batch that a sync sends for a table is what it claimed for the table, in the order of the claim, but
-- for the blocked mutations.
pub group_lem :
    (table : String) (blocked : List String) (ms : List SyncMutation)
    → mutations_or_empty (lookup table (without_blocked blocked (group_mutations_by_table ms)))
      ≡ unblocked blocked (of_table table ms)
unfolding group_mutations_by_table lookup
group_lem table blocked ms =
    lookup-without_blocked table blocked (group_into [] ms)
    ∙ ap (unblocked blocked) (group_into_lem table [] ms)

sent_for :
    (table y : String) (blocked : List String) (ms : List SyncMutation)
    → All (λ m. m.table_name ≡ table) ms
    → contains (ids ms) y ≡ true
    → contains blocked y ≡ false
    → contains (ids (unblocked blocked (of_table table ms))) y ≡ true
sent_for table y blocked [] same h free = h
sent_for table y blocked (m ∷ ms) same h free = elim (Bool-cases (m.id == y)) [
  | inl e ↦ ground arith
  | inr e ↦ ground (arith, sent_for table y blocked ms same.1)
]

sent_somewhere :
    (y : String) (blocked : List String) (ms : List SyncMutation)
    → contains (ids ms) y ≡ true
    → contains blocked y ≡ false
    → (table : String) × (contains (ids (unblocked blocked (of_table table ms))) y ≡ true)
sent_somewhere y blocked [] h free = ("", h)
sent_somewhere y blocked (m ∷ ms) h free = elim (Bool-cases (m.id == y)) [
  | inl e ↦ (m.table_name, ground arith)
  | inr e ↦
      let (table, k) = sent_somewhere y blocked ms (ground arith) free in (table, ground arith)
]

key_of_batch :
    (table y : String) (grouped : Dict (List SyncMutation))
    → contains (ids (mutations_or_empty (lookup table grouped))) y ≡ true
    → contains (keys grouped) table ≡ true
unfolding lookup
key_of_batch table y [] h = h
key_of_batch table y ((t, ms) ∷ grouped) h = elim (Bool-cases (t == table)) [
  | inl e ↦ ground arith
  | inr e ↦ ground (arith, key_of_batch table y grouped)
]

-- The claim returned mutations of the requested table only, if one was requested.
abbrev pub IsRequested : Option String → List SyncMutation → Type 0
IsRequested none ms = Unit
IsRequested (some table) ms = All (λ m. m.table_name ≡ table) ms

-- A claimed mutation that is not blocked is in the batch of one of the tables that the sync processes.
pub tables_cover :
    (requested : Option String) (shown blocked : List String) (ms : List SyncMutation) (y : String)
    → IsRequested requested ms
    → contains (ids ms) y ≡ true
    → contains blocked y ≡ false
    → let grouped = without_blocked blocked (group_mutations_by_table ms) in
      (table : String) × (contains (tables_to_sync requested shown grouped) table ≡ true)
      × (contains (ids (mutations_or_empty (lookup table grouped))) y ≡ true)
unfolding tables_to_sync
tables_cover (some table) shown blocked ms y same h free =
    (table, ground arith, rw (group_lem table blocked ms) (sent_for table y blocked ms same h free))
tables_cover none shown blocked ms y same h free =
    let grouped = without_blocked blocked (group_mutations_by_table ms) in
    let (table, k) = sent_somewhere y blocked ms h free in
    let sent : contains (ids (mutations_or_empty (lookup table grouped))) y ≡ true =
      rw (group_lem table blocked ms) k in
    (
      table,
      ground (
        arith,
        contains-set_from (shown ++ keys grouped) table,
        contains-append shown (keys grouped) table,
        key_of_batch table y grouped sent,
      ),
      sent,
    )
