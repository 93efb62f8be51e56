-- ===== src/Storage/Upsert.antt =====
-- Records and tombstones under last-write-wins: what a write leaves under each key.
use react_native_nitro_sync.Prelude.{
  ◌≡◌, refl, inl, inr, Bool, true, false, Option, none, some, String, List, [], ◌∷◌, arith, ◌==◌,
  string_eq, ◌&&◌, find, if◌then◌else◌, Bool-cases,
}
use react_native_nitro_sync.Value.Number.{
  Number, number_leb, is_finite, number_leb_refl, number_leb_total, number_leb_trans,
}
use react_native_nitro_sync.Value.Json.{Fields}
use react_native_nitro_sync.Types.{SyncRecord, record_id}
use react_native_nitro_sync.Storage.Tables.{
  RecordRow, Tables, Statement, has_key, upsert, upsert_record, upsert_tombstone, only_id,
}

-- The row under a primary key.
abbrev pub find_row : String → String → List RecordRow → Option RecordRow
find_row table id rows = find (has_key table id) rows

-- What an upsert makes of the row that it finds.
abbrev pub settled : (RecordRow → RecordRow) → RecordRow → Option RecordRow → Option RecordRow
settled revise row none = some row
settled revise row (some old) =
    some (if number_leb old.updated_at row.updated_at then revise old else old)

module _ (revise : RecordRow → RecordRow)
    (same_table : (r : RecordRow) → (revise r).table_name ≡ r.table_name)
    (same_id : (r : RecordRow) → (revise r).record_id ≡ r.record_id) where
  find_row-upsert :
      (table id : String) (row : RecordRow) (rows : List RecordRow)
      → find_row table id (upsert revise row rows) ≡ (
          if has_key table id row
          then settled revise row (find_row table id rows)
          else find_row table id rows)
  unfolding upsert
  find_row-upsert table id row [] = refl
  find_row-upsert table id row (r ∷ rows) =
      ground (arith, find_row-upsert table id row rows, same_table r, same_id r)

-- The two writes of a record, `saveRecord` and `removeRecord`, with their table and timestamp.
pub data Write : Type 0 where
  saves : String → SyncRecord → Number → Write
  removes : String → String → Number → Write

abbrev pub stamp : Write → Number
stamp (saves table r timestamp) = timestamp
stamp (removes table id timestamp) = timestamp

abbrev pub perform : Write → Statement
perform (saves table r timestamp) = upsert_record table r timestamp
perform (removes table id timestamp) = upsert_tombstone table id timestamp

-- The rows after a write, which never breaks a constraint.
abbrev pub written : Write → Tables → Tables
written w t = elim (perform w t) [ none ↦ t | some t' ↦ t' ]

abbrev pub writes_to : Write → String → String → Bool
writes_to (saves table r timestamp) table' id = (table == table') && (record_id r == id)
writes_to (removes table id timestamp) table' id' = (table == table') && (id == id')

abbrev pub fresh_row : Write → RecordRow
fresh_row (saves table r timestamp) = record {
  table_name = table;
  record_id = record_id r;
  payload = r;
  updated_at = timestamp;
  deleted = false;
}
fresh_row (removes table id timestamp) = record {
  table_name = table;
  record_id = id;
  payload = only_id id;
  updated_at = timestamp;
  deleted = true;
}

abbrev pub revised : Write → RecordRow → RecordRow
revised (saves table r timestamp) old = record old {
  payload = r;
  updated_at = timestamp;
  deleted = false;
}
revised (removes table id timestamp) old = record old { updated_at = timestamp; deleted = true }

abbrev pub after : Write → Option RecordRow → Option RecordRow
after w o = settled (revised w) (fresh_row w) o

pub find_row-written :
    (table id : String) (w : Write) (t : Tables)
    → find_row table id (written w t).records ≡ (
        if writes_to w table id
        then after w (find_row table id t.records)
        else find_row table id t.records)
unfolding upsert_record upsert_tombstone
find_row-written table id (saves table' r timestamp) t =
    find_row-upsert (revised (saves table' r timestamp)) (λ _. refl) (λ _. refl) table id
      (fresh_row (saves table' r timestamp)) t.records
find_row-written table id (removes table' id' timestamp) t =
    find_row-upsert (revised (removes table' id' timestamp)) (λ _. refl) (λ _. refl) table id
      (fresh_row (removes table' id' timestamp)) t.records

-- What a reader sees of a key: nothing, or the time of the last write and the record if it stands.
abbrev pub view : Option RecordRow → Option (Number × Option Fields)
view none = none
view (some r) = some (r.updated_at, if r.deleted then none else some r.payload)

after_twice :
    (w : Write) (o : Option RecordRow)
    → is_finite (stamp w) ≡ true
    → view (after w (after w o)) ≡ view (after w o)
after_twice (saves table r at) none f = ground (arith, number_leb_refl at f)
after_twice (saves table r at) (some old) f = ground (arith, number_leb_refl at f)
after_twice (removes table id at) none f = ground (arith, number_leb_refl at f)
after_twice (removes table id at) (some old) f = ground (arith, number_leb_refl at f)

after_swap :
    (w v : Write) (o : Option RecordRow)
    → is_finite (stamp w) ≡ true
    → is_finite (stamp v) ≡ true
    → number_leb (stamp v) (stamp w) ≡ false
    → view (after v (after w o)) ≡ view (after w (after v o))
after_swap (saves _ _ a) (saves _ _ b) none fw fv newer = ground (arith, number_leb_total a b fw fv)
after_swap (saves _ _ a) (removes _ _ b) none fw fv newer =
    ground (arith, number_leb_total a b fw fv)
after_swap (removes _ _ a) (saves _ _ b) none fw fv newer =
    ground (arith, number_leb_total a b fw fv)
after_swap (removes _ _ a) (removes _ _ b) none fw fv newer =
    ground (arith, number_leb_total a b fw fv)
after_swap (saves _ _ a) (saves _ _ b) (some old) fw fv newer =
    ground (arith, number_leb_total a b fw fv, number_leb_trans old.updated_at a b)
after_swap (saves _ _ a) (removes _ _ b) (some old) fw fv newer =
    ground (arith, number_leb_total a b fw fv, number_leb_trans old.updated_at a b)
after_swap (removes _ _ a) (saves _ _ b) (some old) fw fv newer =
    ground (arith, number_leb_total a b fw fv, number_leb_trans old.updated_at a b)
after_swap (removes _ _ a) (removes _ _ b) (some old) fw fv newer =
    ground (arith, number_leb_total a b fw fv, number_leb_trans old.updated_at a b)

-- A write that is repeated changes nothing that a reader sees, under any key; its timestamp is finite.
pub write_twice :
    (w : Write) (t : Tables) (table id : String)
    → is_finite (stamp w) ≡ true
    → view (find_row table id (written w (written w t)).records)
      ≡ view (find_row table id (written w t).records)
write_twice w t table id f = ground (
  arith,
  find_row-written table id w (written w t),
  find_row-written table id w t,
  after_twice w (find_row table id t.records) f,
)

-- Writes converge: two writes with different finite timestamps, saves or removals, to one key or to
-- two, leave the same under every key in whichever order they arrive.
pub write_swap :
    (w v : Write) (t : Tables) (table id : String)
    → is_finite (stamp w) ≡ true
    → is_finite (stamp v) ≡ true
    → number_leb (stamp v) (stamp w) ≡ false
    → view (find_row table id (written v (written w t)).records)
      ≡ view (find_row table id (written w (written v t)).records)
write_swap w v t table id fw fv newer =
    rw
      (
        find_row-written table id v (written w t),
        find_row-written table id w t,
        find_row-written table id w (written v t),
        find_row-written table id v t,
      )
      (elim (Bool-cases (writes_to w table id)) [
        | inl p ↦ elim (Bool-cases (writes_to v table id)) [
          | inl q ↦ rw (p, q) (after_swap w v (find_row table id t.records) fw fv newer)
          | inr q ↦ rw (p, q)
        ]
        | inr p ↦ elim (Bool-cases (writes_to v table id)) [ inl q ↦ rw (p, q) | inr q ↦ rw (p, q) ]
      ])
