-- ===== src/Storage/Queue.antt =====
-- The order of a claim, and what marking does to the queue.
use mathlib.Core.List.{Perm}
use mathlib.Core.List.Perm
use react_native_nitro_sync.Prelude.{
  ◌≡◌, inl, inr, Bool, true, List, [], ◌∷◌, All, arith, filter, string_eq, Bool-cases,
}
use react_native_nitro_sync.Value.Number.{
  Number, number_leb, is_finite, number_leb_total, number_leb_trans,
}
use react_native_nitro_sync.Storage.Tables.{QueueRow, insert_by, order_by}

abbrev pub time : QueueRow → Number
time r = r.timestamp

abbrev pub AllTimed : List QueueRow → Type 0
AllTimed rows = All (λ (r : QueueRow). is_finite r.timestamp ≡ true) rows

-- Oldest first.
abbrev pub IsOrdered : List QueueRow → Type 0
IsOrdered [] = Unit
IsOrdered (r ∷ rs) = All (λ s. number_leb (time r) (time s) ≡ true) rs × IsOrdered rs

insert_by-perm : (r : QueueRow) (rs : List QueueRow) → Perm (insert_by time r rs) (r ∷ rs)
unfolding insert_by
insert_by-perm r [] = Perm.rfl
insert_by-perm r (s ∷ rs) = elim (Bool-cases (number_leb (time r) (time s))) [
  | inl e ↦ rw e Perm.rfl
  | inr e ↦ rw e (Perm.trans (Perm.cons s (insert_by-perm r rs)) (Perm.swap r s rs))
]

pub order_by-perm : (rs : List QueueRow) → Perm (order_by time rs) rs
unfolding order_by
order_by-perm [] = Perm.nil
order_by-perm (r ∷ rs) =
    Perm.trans (insert_by-perm r (order_by time rs)) (Perm.cons r (order_by-perm rs))

module _ (P : QueueRow → Type 0) where
  insert_by-All : (r : QueueRow) (rs : List QueueRow) → P r → All P rs → All P (insert_by time r rs)
  unfolding insert_by
  insert_by-All r [] p h = (p, tt)
  insert_by-All r (s ∷ rs) p h = elim (Bool-cases (number_leb (time r) (time s))) [
    | inl e ↦ rw e (p, h)
    | inr e ↦ rw e (h.0, insert_by-All r rs p h.1)
  ]

  pub order_by-All : (rs : List QueueRow) → All P rs → All P (order_by time rs)
  unfolding order_by
  order_by-All [] h = tt
  order_by-All (r ∷ rs) h = insert_by-All r (order_by time rs) h.0 (order_by-All rs h.1)

  pub filter-All : (p : QueueRow → Bool) (rs : List QueueRow) → All P rs → All P (filter p rs)
  filter-All p [] h = tt
  filter-All p (r ∷ rs) h = elim (Bool-cases (p r)) [
    | inl e ↦ rw e (h.0, filter-All p rs h.1)
    | inr e ↦ rw e (filter-All p rs h.1)
  ]

  All-imp :
      (Q : QueueRow → Type 0) (rs : List QueueRow)
      → ((s : QueueRow) → P s → Q s)
      → All P rs
      → All Q rs
  All-imp Q [] f h = tt
  All-imp Q (r ∷ rs) f h = (f r h.0, All-imp Q rs f h.1)

insert_by-IsOrdered :
    (r : QueueRow) (rs : List QueueRow)
    → is_finite (time r) ≡ true
    → AllTimed rs
    → IsOrdered rs
    → IsOrdered (insert_by time r rs)
unfolding insert_by
insert_by-IsOrdered r [] f t o = (tt, tt)
insert_by-IsOrdered r (s ∷ rs) f t o = elim (Bool-cases (number_leb (time r) (time s))) [
  | inl e ↦ rw e (
    (
      e,
      All-imp (λ u. number_leb (time s) (time u) ≡ true) _ rs
          (λ u h. number_leb_trans (time r) (time s) (time u) e h) o.0,
    ),
    o,
  )
  | inr e ↦
      let below : number_leb (time s) (time r) ≡ true =
        ground (arith, number_leb_total (time r) (time s) f (t.0)) in
      rw e (
        insert_by-All (λ u. number_leb (time s) (time u) ≡ true) r rs below o.0,
        insert_by-IsOrdered r rs f t.1 o.1,
      )
]

pub order_by-IsOrdered : (rs : List QueueRow) → AllTimed rs → IsOrdered (order_by time rs)
unfolding order_by
order_by-IsOrdered [] t = tt
order_by-IsOrdered (r ∷ rs) t =
    insert_by-IsOrdered r (order_by time rs) t.0
      (order_by-All (λ (s : QueueRow). is_finite s.timestamp ≡ true) rs t.1)
      (order_by-IsOrdered rs t.1)
