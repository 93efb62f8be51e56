-- ===== src/Value/Json.antt =====
-- JSON values. An object is its list of own properties, in order.
use react_native_nitro_sync.Prelude.{
  ◌≡◌, refl, Bool, Option, none, some, String, ◌==◌, string_eq, List, [], ◌∷◌, if◌then◌else◌, arith,
}
use react_native_nitro_sync.Value.Number.{Number}

mutual
  pub data Json : Type 0 where
    null : Json
    boolean : Bool → Json
    number : Number → Json
    string : String → Json
    array : Items → Json
    object : Fields → Json

  pub data Items : Type 0 where
    nil : Items
    item : Json → Items → Items

  pub data Fields : Type 0 where
    end : Fields
    field : String → Json → Fields → Fields

abbrev pub items : Items → List Json
items nil = []
items (item v vs) = v ∷ items vs

abbrev pub from_items : List Json → Items
from_items [] = nil
from_items (v ∷ vs) = item v (from_items vs)

-- `Object.entries(o)`
abbrev pub entries : Fields → List (String × Json)
entries end = []
entries (field k v fs) = (k, v) ∷ entries fs

-- `o[k]`; `none` is undefined
unfoldable pub get : String → Fields → Option Json
get k end = none
get k (field j v fs) = if j == k then some v else get k fs

-- `o[k] = v`
unfoldable pub set : String → Json → Fields → Fields
set k v end = field k v end
set k v (field j w fs) = if j == k then field j v fs else field j w (set k v fs)

pub get-set :
    (k j : String) (v : Json) (fs : Fields)
    → get j (set k v fs) ≡ (if k == j then some v else get j fs)
unfolding get set
get-set k j v end = refl
get-set k j v (field i w fs) = ground (arith, get-set k j v fs)

-- `{ ...a, ...b }`
unfoldable pub spread : Fields → Fields → Fields
spread a end = a
spread a (field k v b) = spread (set k v a) b

-- `typeof v === 'string'`, with the text
abbrev pub as_string : Option Json → Option String
as_string (some (string s)) = some s
as_string _ = none

-- `typeof v === 'number'`, with the number
abbrev pub as_number : Option Json → Option Number
as_number (some (number n)) = some n
as_number _ = none

-- No object, at any depth, holds a key twice.
unfoldable mutual
  pub IsWellFormed : Json → Type 0
  IsWellFormed (array vs) = AllWellFormed vs
  IsWellFormed (object fs) = HasDistinctKeys fs
  IsWellFormed _ = Unit

  pub AllWellFormed : Items → Type 0
  AllWellFormed nil = Unit
  AllWellFormed (item v vs) = IsWellFormed v × AllWellFormed vs

  pub HasDistinctKeys : Fields → Type 0
  HasDistinctKeys end = Unit
  HasDistinctKeys (field k v fs) = (get k fs ≡ none) × IsWellFormed v × HasDistinctKeys fs

pub set_present : (k : String) (v : Json) (fs : Fields) → get k fs ≡ some v → set k v fs ≡ fs
unfolding get set
set_present k v end h = cc
set_present k v (field j w fs) h = ground (arith, set_present k v fs)
