-- ===== src/Provider/Batch/Ready.antt =====
-- Which mutations a sync holds back.
use react_native_nitro_sync.Prelude.{
  ◌≡◌, refl, sym, ap, ◌∙◌, inl, inr, Bool, true, false, Option, none, some, String, List, [], ◌∷◌,
  All, contains, string_eq, if◌then◌else◌, arith, Bool-cases,
}
use react_native_nitro_sync.Types.{SyncMutation, Result, ok, err, ok-injective, ◌>>=◌}
use react_native_nitro_sync.Value.Json.{
  Json, null, boolean, number, string, array, object, Items, nil, item,
}
use react_native_nitro_sync.Settlement.{ids}
use react_native_nitro_sync.Provider.Batch.{any_claimed, set_from, waits_for, waiting, blocked_ids}
use react_native_nitro_sync.Provider.Batch.Groups.{contains-set_from, unblocked}

-- The ids that a `dependsOn` names.
abbrev pub names : Items → List String
names nil = []
names (item (string id) vs) = id ∷ names vs
names (item v vs) = names vs

abbrev pub dependencies : Option Json → List String
dependencies (some (array vs)) = names vs
dependencies _ = []

-- A mutation that names no mutation of the batch as a dependency.
abbrev pub IsReady : List SyncMutation → SyncMutation → Type 0
IsReady ms m = All (λ id. contains (dependencies m.depends_on) id ≡ false) (ids ms)

named_free :
    (claimed : List String) (vs : Items) (x : String)
    → any_claimed claimed vs ≡ false
    → contains claimed x ≡ true
    → contains (names vs) x ≡ false
named_free claimed nil x h hit = refl
named_free claimed (item (string id) vs) x h hit = ground (arith, named_free claimed vs x)
named_free claimed (item null vs) x h hit = named_free claimed vs x h hit
named_free claimed (item (boolean b) vs) x h hit = named_free claimed vs x h hit
named_free claimed (item (number n) vs) x h hit = named_free claimed vs x h hit
named_free claimed (item (array ws) vs) x h hit = named_free claimed vs x h hit
named_free claimed (item (object o) vs) x h hit = named_free claimed vs x h hit

dependency_free :
    (claimed : List String) (depends : Option Json) (x : String)
    → waits_for claimed depends ≡ ok false
    → contains claimed x ≡ true
    → contains (dependencies depends) x ≡ false
unfolding waits_for
dependency_free claimed (some (array vs)) x h hit = named_free claimed vs x (ok-injective _ _ h) hit
dependency_free claimed none x h hit = refl
dependency_free claimed (some null) x h hit = refl
dependency_free claimed (some (boolean b)) x h hit = refl
dependency_free claimed (some (number n)) x h hit = refl
dependency_free claimed (some (string t)) x h hit = refl
dependency_free claimed (some (object o)) x h hit = refl

All-contains :
    (P : String → Type 0) (xs : List String)
    → ((x : String) → contains xs x ≡ true → P x)
    → All P xs
All-contains P [] h = tt
All-contains P (x ∷ xs) h = (h x (ground arith), All-contains P xs (λ y k. h y (ground arith)))

-- The tests of the mutations, and the ids of those that wait.
abbrev WaitsAs : List String → List String → List SyncMutation → Type 0
WaitsAs claimed xs ms =
    All (λ m. contains xs m.id ≡ false → waits_for claimed m.depends_on ≡ ok false) ms

-- What one mutation adds.
abbrev with_first : Bool → String → List String → List String
with_first waits id ys = if waits then id ∷ ys else ys

abbrev list_or_nil : Result (List String) → List String
list_or_nil (ok xs) = xs
list_or_nil (err e) = []

split_first :
    (w : Result Bool) (rest : Result (List String)) (id : String) (xs : List String)
    → (w >>= λ b. rest >>= λ ys. ok (with_first b id ys)) ≡ ok xs
    → (b : Bool) × (ys : List String) × (w ≡ ok b) × (rest ≡ ok ys) × (xs ≡ with_first b id ys)
split_first (ok b) (ok ys) id xs h = (b, ys, refl, refl, sym (ap list_or_nil h))
split_first (ok b) (err e) id xs h = absurd (cc h)
split_first (err e) rest id xs h = absurd (cc h)

first_waits :
    (b : Bool) (id : String) (ys xs : List String)
    → xs ≡ with_first b id ys
    → contains xs id ≡ false
    → b ≡ false
first_waits true id ys xs h free = ground arith
first_waits false id ys xs h free = refl

weaken :
    (claimed ys xs : List String) (b : Bool) (id : String) (ms : List SyncMutation)
    → xs ≡ with_first b id ys
    → WaitsAs claimed ys ms
    → WaitsAs claimed xs ms
weaken claimed ys xs b id [] h all_ = tt
weaken claimed ys xs b id (m ∷ ms) h all_ =
    (λ free. all_.0 (ground arith), weaken claimed ys xs b id ms h all_.1)

waiting_lem :
    (claimed : List String) (ms : List SyncMutation) (xs : List String)
    → waiting claimed ms ≡ ok xs
    → WaitsAs claimed xs ms
unfolding waiting
waiting_lem claimed [] xs h = tt
waiting_lem claimed (m ∷ ms) xs h =
    let (b, ys, test, rest, sum) =
      split_first (waits_for claimed m.depends_on) (waiting claimed ms) m.id xs h in
    (
      λ free. test ∙ ap ok (first_waits b m.id ys xs sum free),
      weaken claimed ys xs b m.id ms sum (waiting_lem claimed ms ys rest),
    )

ready_part :
    (claimed blocked xs : List String) (ms : List SyncMutation)
    → ((x : String) → contains blocked x ≡ contains xs x)
    → WaitsAs claimed xs ms
    → All (λ m. waits_for claimed m.depends_on ≡ ok false) (unblocked blocked ms)
ready_part claimed blocked xs [] same all_ = tt
ready_part claimed blocked xs (m ∷ ms) same all_ = elim (Bool-cases (contains blocked m.id)) [
  | inl e ↦ rw e (ready_part claimed blocked xs ms same all_.1)
  | inr e ↦ rw e (all_.0 (sym (same m.id) ∙ e), ready_part claimed blocked xs ms same all_.1)
]

split_blocked :
    (w : Result (List String)) (blocked : List String)
    → (w >>= λ xs. ok (set_from [] xs)) ≡ ok blocked
    → (xs : List String) × (w ≡ ok xs) × (blocked ≡ set_from [] xs)
split_blocked (ok xs) blocked h = (xs, refl, sym (ap list_or_nil h))
split_blocked (err e) blocked h = absurd (cc h)

All-IsReady :
    (ms rest : List SyncMutation)
    → All (λ m. waits_for (set_from [] (ids ms)) m.depends_on ≡ ok false) rest
    → All (IsReady ms) rest
All-IsReady ms [] h = tt
All-IsReady ms (m ∷ rest) h = (
  All-contains _ (ids ms) λ x hit.
      dependency_free (set_from [] (ids ms)) m.depends_on x h.0
        (contains-set_from (ids ms) x ∙ hit),
  All-IsReady ms rest h.1,
)

-- When the blocked mutations of a batch are found, every mutation that is not among them names no
-- mutation of the batch in its `dependsOn`, at whatever position of the array.
pub unblocked-IsReady :
    (ms : List SyncMutation) (blocked : List String)
    → blocked_ids ms ≡ ok blocked
    → All (IsReady ms) (unblocked blocked ms)
unfolding blocked_ids
unblocked-IsReady ms blocked h =
    let (xs, found, same) = split_blocked (waiting (set_from [] (ids ms)) ms) blocked h in
    All-IsReady ms (unblocked blocked ms) (
      ready_part (set_from [] (ids ms)) blocked xs ms
        (λ x. ap (λ l. contains l x) same ∙ contains-set_from xs x)
        (waiting_lem (set_from [] (ids ms)) ms xs found))
