-- ===== src/Provider/Adapter/Claims.antt =====
-- What a claim of the adapter makes SYNCING, under any failure of the database.
use react_native_nitro_sync.Prelude.{
  ℕ, zero, suc, ◌≡◌, sym, subst, inl, inr, Bool, true, false, Option, some, String, List, [], ◌∷◌,
  map, filter, any, All, take, arith, contains, string_eq, Bool-cases,
}
use react_native_nitro_sync.Types.{SyncMutation, ok}
use react_native_nitro_sync.Settlement.{ids}
use react_native_nitro_sync.Storage.Tables.{QueueRow, Tables, is_due, due_rows, order_by}
use react_native_nitro_sync.Storage.Database.{Database}
use react_native_nitro_sync.Storage.{row_mutation, list_pending_mutations}
use react_native_nitro_sync.Storage.Queue.{time, order_by-All}
use react_native_nitro_sync.Storage.Claimed.{claimed_lem}
use react_native_nitro_sync.Storage.Claim.{mark}
use react_native_nitro_sync.Provider.Adapter.Statements.{stuck_row, is_stuck}

-- A row that becomes SYNCING has a claimed id.
marked_stuck :
    (claimed : List String) (x : String) (rows : List QueueRow)
    → contains claimed x ≡ false
    → any (stuck_row x) rows ≡ false
    → any (stuck_row x) (map (mark claimed) rows) ≡ false
marked_stuck claimed x [] h free = free
marked_stuck claimed x (r ∷ rows) h free = ground (arith, marked_stuck claimed x rows h)

take-All : (P : QueueRow → Type 0) (n : ℕ) (rows : List QueueRow) → All P rows → All P (take n rows)
take-All P zero rows h = tt
take-All P (suc n) [] h = tt
take-All P (suc n) (r ∷ rows) h = (h.0, take-All P n rows h.1)

filter_holds : (p : QueueRow → Bool) (rows : List QueueRow) → All (λ r. p r ≡ true) (filter p rows)
filter_holds p [] = tt
filter_holds p (r ∷ rows) = elim (Bool-cases (p r)) [
  | inl e ↦ rw e (e, filter_holds p rows)
  | inr e ↦ rw e (filter_holds p rows)
]

map-All :
    (table : String) (now : ℕ) (rows : List QueueRow)
    → All (λ r. is_due now (some table) r ≡ true) rows
    → All (λ m. m.table_name ≡ table) (map row_mutation rows)
unfolding is_due row_mutation
map-All table now [] h = tt
map-All table now (r ∷ rows) h =
    let here : is_due now (some table) r ≡ true = h.0 in (ground arith, map-All table now rows h.1)

due_in_table :
    (limit : ℕ) (table : String) (now : ℕ) (t : Tables)
    → All (λ m. m.table_name ≡ table) (map row_mutation (due_rows limit (some table) now t))
unfolding due_rows
due_in_table limit table now t =
    let due = filter (is_due now (some table)) t.queue in
    map-All table now (take limit (order_by time due)) (
      take-All (λ r. is_due now (some table) r ≡ true) limit (order_by time due)
        (order_by-All (λ r. is_due now (some table) r ≡ true) due
          (filter_holds (is_due now (some table)) t.queue)))

module _ (limit : ℕ) (requested : Option String) (now : ℕ) where
  pub claim_marks :
      (d d' : Database) (ms : List SyncMutation) (x : String)
      → list_pending_mutations limit requested now d ≡ (ok ms, d')
      → is_stuck x d.tables ≡ false
      → is_stuck x d'.tables ≡ true
      → contains (ids ms) x ≡ true
  claim_marks d d' ms x e free hit = elim (Bool-cases (contains (ids ms) x)) [
    | inl k ↦ k
    | inr k ↦
        let none_ : is_stuck x d'.tables ≡ false =
          subst (λ t. is_stuck x t ≡ false) (sym (claimed_lem limit requested now d d' ms e).1)
            (marked_stuck (ids ms) x d.tables.queue k free) in
        cc
  ]

pub claim_table :
    (limit : ℕ) (table : String) (now : ℕ) (d d' : Database) (ms : List SyncMutation)
    → list_pending_mutations limit (some table) now d ≡ (ok ms, d')
    → All (λ m. m.table_name ≡ table) ms
claim_table limit table now d d' ms e =
    subst (All (λ m. m.table_name ≡ table)) (sym (claimed_lem limit (some table) now d d' ms e).0)
      (due_in_table limit table now d.tables)
