-- ===== src/Provider/Access.antt =====
-- What the provider offers beside `mutate` and `sync`: the tables that it shows, and the rejected mutations.
use react_native_nitro_sync.Prelude.{suc, not, String, List}
use react_native_nitro_sync.Prelude.Dict.{lookup, insert}
use react_native_nitro_sync.Types.{SyncRecord}
use react_native_nitro_sync.Exec.{Exec, ◌>>=◌, ◌>>◌, modify, when_}
use react_native_nitro_sync.Provider.{Provider, table_or_empty}
use react_native_nitro_sync.Provider.Pull.{is_given}

-- A call on the store of the provider.
abbrev pub on_provider : {S A : Type 0} → Exec S A → Exec (Provider S) A
on_provider q p = let (r, store) = q p.store in (r, record p { store = store })

-- `setVersion((current) => current + 1)`
abbrev pub next_version : {S : Type 0} → Provider S → Provider S
next_version p = record p { version = suc p.version }

abbrev show_loaded : {S : Type 0} → String → List SyncRecord → Provider S → Provider S
show_loaded table rs p = record p { records = insert table rs p.records }

-- `load` is `loadStoredRecords`.
unfoldable pub ensure_table :
    {S : Type 0} → (String → Exec S (List SyncRecord)) → String → Exec (Provider S) (Unit {0})
ensure_table load table p =
    when_ (not (is_given (lookup table p.records)))
      (on_provider (load table) >>= λ rs. modify (show_loaded table rs) >> modify next_version) p

unfoldable pub get_records : {S : Type 0} → Provider S → String → List SyncRecord
get_records p table = table_or_empty (lookup table p.records)

-- `change` is the call on the native engine or the adapter, which throws if there is neither.
unfoldable pub retry_rejected :
    {S : Type 0} → (String → Exec S (Unit {0})) → String → Exec (Provider S) (Unit {0})
retry_rejected change id = on_provider (change id) >> modify next_version

unfoldable pub discard_rejected :
    {S : Type 0} → (String → Exec S (Unit {0})) → String → Exec (Provider S) (Unit {0})
discard_rejected change id = on_provider (change id) >> modify next_version
