-- ===== src/Types.antt =====
-- src/types.ts, with the errors that the sources throw.
use react_native_nitro_sync.Prelude.{ℕ, ◌≡◌, ◌↔◌, refl, arith, Bool, Option, none, some, String}
use react_native_nitro_sync.Value.Number.{Number}
use react_native_nitro_sync.Value.Json.{Json, Fields, get, as_string}

pub data MutationOperation : Type 0 where
  create update delete : MutationOperation

pub data MutationStatus : Type 0 where
  pending syncing failed rejected acked : MutationStatus

pub data MutationEvent : Type 0 where
  enqueued claimed ack reject retry fail recovered : MutationEvent

-- A record is a JSON object with a text under "id".
abbrev pub SyncRecord : Type 0
SyncRecord = Fields

-- `typeof record.id === 'string'`, with the id
abbrev pub string_id : Fields → Option String
string_id r = as_string (get "id" r)

abbrev pub text_or_empty : Option String → String
text_or_empty none = ""
text_or_empty (some s) = s

-- `record.id` of a value of type SyncRecord
unfoldable pub record_id : SyncRecord → String
record_id r = text_or_empty (string_id r)

pub record SyncTombstone : Type 0 where
  pub id : String
  pub timestamp : Number

pub record SyncMutationRejection : Type 0 where
  pub mutation_id : String
  pub code : String
  pub message : Option String
  pub retryable : Option Bool

-- `dependsOn` is the result of `JSON.parse` on one of its paths, so it is any JSON value.
pub record SyncMutation : Type 0 where
  pub id : String
  pub table_name : String
  pub operation : MutationOperation
  pub payload : Fields
  pub timestamp : Number
  pub schema_version : Option Number
  pub depends_on : Option Json

-- The three fields hold what a JavaScript caller may pass; the code checks them.
pub record SyncSchemaMigration : Type 0 where
  pub from_version : Number
  pub tables : Json
  pub columns : Json

-- Where the sources throw; `thrown` stands for an error of other code.
pub data Error : Type 0 where
  changed_record_id : SyncRecord → Error
  invalid_schema_version : Error
  schema_version_required : Error
  invalid_migration : Error
  migration_not_older : Error
  invalid_dependencies : String → Error
  unsupported_schema_version : Number → Number → Error
  invalid_response : String → Error
  unsupported_protocol_version : Json → Error
  invalid_concurrency : Error
  newer_database : ℕ → Error
  no_queue : Error
  missing_replace_table : Error
  thrown : String → Error

-- What a function of the sources returns, or the error that leaves it.
pub data Result {ℓ} (T : Type ℓ) : Type ℓ where
  ok : T → Result T
  err : Error → Result T

infixl 5 ◌>>=◌ ◌>>◌
abbrev pub ◌>>=◌ {ℓ κ} : {S : Type ℓ} {T : Type κ} → Result S → (S → Result T) → Result T
step >>= rest = elim step [ ok s ↦ rest s | err thrown_here ↦ err thrown_here ]

abbrev pub ◌>>◌ {ℓ} : {T : Type ℓ} → Result (Unit {0}) → Result T → Result T
step >> rest = step >>= λ _. rest

-- `if (bad) throw e`
abbrev pub throw_if : Bool → Error → Result (Unit {0})
throw_if bad e = elim bad [ Bool.true ↦ err e | Bool.false ↦ ok tt ]

pub ok-injective {ℓ} : {T : Type ℓ} (s t : T) → ok s ≡ ok t → s ≡ t
ok-injective s t same = cc

-- A chain that succeeds went through a value of its first step.
pub chain-ok {ℓ κ} :
    {S : Type ℓ} {T : Type κ} (step : Result S) (rest : S → Result T) {t : T}
    → (step >>= rest) ≡ ok t
    → (s : S) × (step ≡ ok s) × (rest s ≡ ok t)
chain-ok (err e) rest done = cc
chain-ok (ok s) rest done = (s, refl, done)

pub throw_if_iff : (bad : Bool) (e : Error) → (throw_if bad e ≡ ok tt) ↔ (bad ≡ Bool.false)
throw_if_iff bad e = ground arith

-- A check and what follows it succeed together exactly if both succeed.
pub check_iff {ℓ} :
    {T : Type ℓ} (check : Result (Unit {0})) (rest : Result T) (t : T)
    → ((check >> rest) ≡ ok t) ↔ ((check ≡ ok tt) × (rest ≡ ok t))
check_iff (ok s) rest t = (λ h. (refl, h), λ h. h.1)
check_iff (err e) rest t = (λ h. cc, λ h. cc)
