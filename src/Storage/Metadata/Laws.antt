-- ===== src/Storage/Metadata/Laws.antt =====
-- What a sync writes down is what the next one reads.
use react_native_nitro_sync.Prelude.{
  ◌≡◌, true, false, Option, some, String, ◌==◌, string_eq, if◌then◌else◌, arith,
}
use Prim.Native.String.{◌++◌ as ◌<>◌}
use text.Mathlib.TextLemmas.{append_cancel_left}
use react_native_nitro_sync.Prelude.Dict.{Dict, lookup-insert}
use react_native_nitro_sync.Value.Number.{Number, is_finite}
use react_native_nitro_sync.Storage.Metadata.{
  non_empty_value, text_or_nothing, finite_number, read_server_cursor, write_server_cursor,
  read_server_version, write_server_version,
}

same_key :
    (prefix : String) (encode : String → String) (s t : String)
    → ((u v : String) → encode u ≡ encode v → u ≡ v)
    → (prefix <> encode s == prefix <> encode t) ≡ (s == t)
same_key prefix encode s t injective = elim (string_eq.dec s t) [
  | yes same ↦ rw same (ground arith)
  | no differ ↦ ground (arith, append_cancel_left prefix (encode s) (encode t), injective s t)
]

module _ (to_number : String → Number) (to_text : Number → String) (encode : String → String) where
  -- The cursor that is written for one table is read back for it, the empty one as null, and every
  -- other table reads what it did; encodeURIComponent is injective.
  pub cursor_read_back :
      (table other : String) (cursor : Option String) (d : Dict String)
      → ((u v : String) → encode u ≡ encode v → u ≡ v)
      → read_server_cursor to_number to_text encode other
          (write_server_cursor to_number to_text encode table cursor (some d))
        ≡ (if table == other
            then non_empty_value cursor
            else read_server_cursor to_number to_text encode other (some d))
  unfolding read_server_cursor write_server_cursor
  cursor_read_back table other cursor d injective =
      let same = same_key "nitro_sync.server_cursor." encode table other injective in
      let found =
        lookup-insert ("nitro_sync.server_cursor." <> encode table)
          ("nitro_sync.server_cursor." <> encode other) (text_or_nothing cursor) d in
      rw (read_server_cursor, found, same) (ground arith)

  -- A finite version that is written for one table is read back for it, and every other table reads
  -- what it did; the number survives being printed and read, its text is not empty, and
  -- encodeURIComponent is injective.
  pub version_read_back :
      (table other : String) (n : Number) (d : Dict String)
      → is_finite n ≡ true
      → to_number (to_text n) ≡ n
      → (to_text n == "") ≡ false
      → ((u v : String) → encode u ≡ encode v → u ≡ v)
      → read_server_version to_number to_text encode other
          (write_server_version to_number to_text encode table (some n) (some d))
        ≡ (if table == other
            then some n
            else read_server_version to_number to_text encode other (some d))
  unfolding read_server_version write_server_version finite_number
  version_read_back table other n d fin back printed injective =
      let same = same_key "nitro_sync.server_version." encode table other injective in
      let found =
        lookup-insert ("nitro_sync.server_version." <> encode table)
          ("nitro_sync.server_version." <> encode other) (to_text n) d in
      rw (read_server_version, found, same) (ground (arith, fin, back, printed))
