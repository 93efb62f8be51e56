-- ===== src/Storage/Claim.antt =====
-- What a claim takes from the queue, and what is due in the queue that it leaves.
use mathlib.Core.List.{Perm}
use react_native_nitro_sync.Prelude.{
  any-take, any-filter, ℕ, ◌≡◌, ◌≤◌, ◌⊎◌, refl, ap, sym, ◌∙◌, Bool, true, false, ◌&&◌, ◌||◌, Option,
  some, String, List, [], ◌∷◌, ◌++◌, arith, map, filter, any, take, drop, take-append-drop,
  take_all_or_full, length-take-le, contains, ◌==◌, string_eq, Bool-cases, inl, inr, if◌then◌else◌,
  length,
}
use react_native_nitro_sync.Types.{SyncMutation, syncing}
use react_native_nitro_sync.Settlement.{ids}
use react_native_nitro_sync.Storage.Tables.{
  QueueRow, Tables, update_queue, has_id, insert_by, order_by, is_due, due_rows,
}
use react_native_nitro_sync.Storage.{row_mutation, claim_row}
use react_native_nitro_sync.Storage.Atomic.{each_in_turn, then_effect, stating}
use react_native_nitro_sync.Storage.Writes.{claim_effect, marked}
use react_native_nitro_sync.Storage.Queue.{
  time, AllTimed, IsOrdered, order_by-perm, order_by-IsOrdered, filter-All,
}

-- A row after a claim of the mutations with the given ids.
abbrev pub mark : List String → QueueRow → QueueRow
mark claimed r = if contains claimed r.id then record r { status = syncing } else r

abbrev pub marked_queue : List String → Tables → Tables
marked_queue claimed t = record t { queue = map (mark claimed) t.queue }

map-mark :
    (m : SyncMutation) (ms : List SyncMutation) (rows : List QueueRow)
    → map
        (mark (ids ms))
        (map (λ r. if has_id m.id r then record r { status = syncing } else r) rows)
      ≡ map (mark (ids (m ∷ ms))) rows
map-mark m ms [] = refl
map-mark m ms (r ∷ rows) = ground (arith, map-mark m ms rows)

mark_none : (rows : List QueueRow) → map (mark []) rows ≡ rows
mark_none [] = refl
mark_none (r ∷ rows) = ap (◌∷◌ r) (mark_none rows)

claim_rows_lem :
    (ms : List SyncMutation) (t : Tables)
    → each_in_turn claim_row ms t ≡ some (marked_queue (ids ms) t)
unfolding claim_row update_queue
claim_rows_lem [] t = ap (λ q. some (record t { queue = q })) (sym (mark_none t.queue))
claim_rows_lem (m ∷ ms) t =
    claim_rows_lem ms (record t {
      queue = map (λ r. if has_id m.id r then record r { status = syncing } else r) t.queue;
    })
    ∙ ap (λ q. some (record t { queue = q })) (map-mark m ms t.queue)

pub marked_lem :
    (ms : List SyncMutation) (t : Tables) → marked ms t ≡ some (ms, marked_queue (ids ms) t)
marked_lem ms t = rw (claim_rows_lem ms t, marked, then_effect, stating)

-- A claim always succeeds on the tables. It returns the limit-many oldest due rows, oldest first, or
-- all of them if they are fewer: with some rest they make up all the due rows, no row of the rest is
-- older than a claimed one, and the rest is empty or there are limit-many claimed rows. In the queue
-- exactly the rows with a claimed id become SYNCING, and nothing else changes. The timestamps of
-- the queue are finite.
pub claim_lem :
    (limit : ℕ) (table : Option String) (now : ℕ) (t : Tables)
    → AllTimed t.queue
    → let rows = due_rows limit table now t in
      (rest : List QueueRow) × Perm (rows ++ rest) (filter (is_due now table) t.queue)
      × IsOrdered (rows ++ rest)
      × (length rows ≤ limit)
      × ((rest ≡ []) ⊎ (length rows ≡ limit))
      × (claim_effect limit table now t
          ≡ some (map row_mutation rows, marked_queue (ids (map row_mutation rows)) t))
unfolding due_rows
claim_lem limit table now t timed =
    let due = filter (is_due now table) t.queue in
    let sorted = order_by time due in
    (
      drop limit sorted,
      rw (take-append-drop limit sorted) (order_by-perm due),
      rw (take-append-drop limit sorted)
          (order_by-IsOrdered due (filter-All _ (is_due now table) t.queue timed)),
      length-take-le limit sorted,
      take_all_or_full limit sorted,
      marked_lem (map row_mutation (take limit sorted)) t,
    )

contains-ids :
    (rows : List QueueRow) (x : String)
    → contains (ids (map row_mutation rows)) x ≡ any (λ r. r.id == x) rows
unfolding row_mutation
contains-ids [] x = refl
contains-ids (r ∷ rows) x = ground (arith, contains-ids rows x)

any-insert_by :
    (p : QueueRow → Bool) (r : QueueRow) (rs : List QueueRow)
    → any p (insert_by time r rs) ≡ (p r || any p rs)
unfolding insert_by
any-insert_by p r [] = refl
any-insert_by p r (s ∷ rs) = ground (arith, any-insert_by p r rs)

any-order_by : (p : QueueRow → Bool) (rs : List QueueRow) → any p (order_by time rs) ≡ any p rs
unfolding order_by
any-order_by p [] = refl
any-order_by p (r ∷ rs) = ground (arith, any-order_by p rs, any-insert_by p r (order_by time rs))

-- A row that is claimed is due in the queue.
claimed_is_due :
    (limit : ℕ) (table : Option String) (now : ℕ) (t : Tables) (x : String)
    → contains (ids (map row_mutation (due_rows limit table now t))) x ≡ true
    → any (λ r. is_due now table r && (r.id == x)) t.queue ≡ true
unfolding due_rows
claimed_is_due limit table now t x h =
    let due = filter (is_due now table) t.queue in
    let here : any (λ r. r.id == x) (take limit (order_by time due)) ≡ true =
      sym (contains-ids (take limit (order_by time due)) x) ∙ h in
    sym (any-filter (λ r. r.id == x) (is_due now table) t.queue)
    ∙ sym (any-order_by (λ r. r.id == x) due)
    ∙ any-take (λ r. r.id == x) limit (order_by time due) here

marked_not_due :
    (claimed : List String) (table : Option String) (now : ℕ) (x : String) (rows : List QueueRow)
    → contains claimed x ≡ true
    → any (λ r. is_due now table r && (r.id == x)) (map (mark claimed) rows) ≡ false
unfolding is_due
marked_not_due claimed table now x [] h = refl
marked_not_due claimed table now x (r ∷ rows) h =
    ground (arith, marked_not_due claimed table now x rows h)

-- No row with a claimed id is due in the marked queue.
pub claimed_once :
    (limit : ℕ) (table : Option String) (now : ℕ) (t : Tables) (claimed : List String) (x : String)
    → contains claimed x ≡ true
    → contains (ids (map row_mutation (due_rows limit table now (marked_queue claimed t)))) x
      ≡ false
claimed_once limit table now t claimed x h =
    let again = ids (map row_mutation (due_rows limit table now (marked_queue claimed t))) in
    elim (Bool-cases (contains again x)) [
      | inl twice ↦
          let due = claimed_is_due limit table now (marked_queue claimed t) x twice in
          let free = marked_not_due claimed table now x t.queue h in absurd (cc (due, free))
      | inr once ↦ once
    ]
