-- ===== src/Storage/Schema/Upgrade.antt =====
-- From which versions `initialize` reaches the current schema.
use react_native_nitro_sync.Prelude.{
  ℕ, zero, suc, ◌≡◌, ◌≢◌, ◌≤◌, refl, false, some, String, List, [], ◌∷◌, ◌++◌, map, All, arith,
  string_eq,
}
use react_native_nitro_sync.Types.{ok}
use react_native_nitro_sync.Storage.Tables.{QueueRow, is_syncing}
use react_native_nitro_sync.Storage.Schema.{
  Schema, first_columns, create_queue, add_column, rebuild, set_version, migrate_3, migrate_4,
  migrate_5, migrate_6, released, initialize,
}

abbrev pub retry_columns : List String
retry_columns = "next_retry_at" ∷ "rejection_code" ∷ "rejection_message" ∷ []

-- The columns of a database that stopped at a version.
abbrev pub columns_at : ℕ → List String
columns_at zero = first_columns
columns_at (suc zero) = first_columns
columns_at (suc (suc zero)) = first_columns
columns_at (suc (suc (suc zero))) = first_columns
columns_at (suc (suc (suc (suc zero)))) = first_columns ++ "schema_version" ∷ []
columns_at (suc (suc (suc (suc (suc zero))))) = first_columns ++ ("schema_version" ∷ retry_columns)
columns_at _ = first_columns ++ ("schema_version" ∷ (retry_columns ++ "depends_on" ∷ []))

abbrev pub stored_at : ℕ → List QueueRow → Schema
stored_at v rows = record { user_version = v; columns = some (columns_at v); rows = rows }

abbrev pub IsReleased : List QueueRow → Type 0
IsReleased rows = All (λ r. is_syncing r.status ≡ false) rows

released-IsReleased : (rows : List QueueRow) → IsReleased (map released rows)
released-IsReleased [] = tt
released-IsReleased (r ∷ rows) = (ground arith, released-IsReleased rows)

abbrev pub IsCurrent : Schema → Type 0
IsCurrent s = (s.user_version ≡ 6) × (s.columns ≡ some (columns_at 6)) × IsReleased s.rows

-- A database of any version up to 6 but 5, with that version's columns, is brought to version 6 with
-- every column of the queue, and no mutation is left SYNCING, whatever rows it holds.
pub initialize-IsCurrent :
    (v : ℕ) (rows : List QueueRow)
    → v ≤ 6
    → v ≢ 5
    → (s : Schema) × (initialize (stored_at v rows) ≡ ok s) × IsCurrent s
unfolding initialize create_queue add_column rebuild set_version migrate_3 migrate_4 migrate_5
    migrate_6 string_eq
initialize-IsCurrent zero rows h n = (_, refl, (refl, refl, released-IsReleased _))
initialize-IsCurrent (suc zero) rows h n = (_, refl, (refl, refl, released-IsReleased _))
initialize-IsCurrent (suc (suc zero)) rows h n = (_, refl, (refl, refl, released-IsReleased _))
initialize-IsCurrent (suc (suc (suc zero))) rows h n =
    (_, refl, (refl, refl, released-IsReleased _))
initialize-IsCurrent (suc (suc (suc (suc zero)))) rows h n =
    (_, refl, (refl, refl, released-IsReleased _))
initialize-IsCurrent (suc (suc (suc (suc (suc zero))))) rows h n = absurd (n refl)
initialize-IsCurrent (suc (suc (suc (suc (suc (suc zero)))))) rows h n =
    (_, refl, (refl, refl, released-IsReleased _))
initialize-IsCurrent (suc (suc (suc (suc (suc (suc (suc v))))))) rows h n = absurd (omega arith)
