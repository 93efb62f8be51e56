-- ===== src/Exec.antt =====
-- Code that reads and changes a state and may throw; what was changed before a throw stays changed.
pub mod Keeps
pub mod Leads
use react_native_nitro_sync.Prelude.{
  ◌≡◌, refl, ap, ◌∙◌, ◌⊎◌, inl, inr, Bool, true, false, String, List, [], ◌∷◌, arith,
}
use react_native_nitro_sync.Types.{Error, Result, ok, err}

abbrev pub Exec : Type 0 → Type 0 → Type 0
Exec S A = S → Result A × S

infixl 5 ◌>>=◌ ◌>>◌
abbrev pub ◌>>=◌ : {S A B : Type 0} → Exec S A → (A → Exec S B) → Exec S B
◌>>=◌ q f s = let (r, s') = q s in elim r [ ok a ↦ f a s' | err e ↦ (err e, s') ]

abbrev pub ◌>>◌ : {S A B : Type 0} → Exec S A → Exec S B → Exec S B
q >> p = q >>= λ _. p

abbrev pub return : {S A : Type 0} → A → Exec S A
return a s = (ok a, s)

-- A part that only computes, and may throw.
abbrev pub lift : {S A : Type 0} → Result A → Exec S A
lift r s = (r, s)

abbrev pub gets : {S A : Type 0} → (S → A) → Exec S A
gets f s = (ok (f s), s)

abbrev pub modify : {S : Type 0} → (S → S) → Exec S (Unit {0})
modify f s = (ok tt, f s)

-- `if (test) { … }`
abbrev pub when_ : {S : Type 0} → Bool → Exec S (Unit {0}) → Exec S (Unit {0})
when_ true q = q
when_ false q = return tt

-- `for (const a of as) { … }`
unfoldable pub for_each : {S A : Type 0} → List A → (A → Exec S (Unit {0})) → Exec S (Unit {0})
for_each [] body = return tt
for_each (a ∷ as_) body = body a >> for_each as_ body

-- `try { … } catch (error) { … }`
abbrev pub try_catch : {S A : Type 0} → Exec S A → (Error → Exec S A) → Exec S A
try_catch q handler s = let (r, s') = q s in elim r [ ok a ↦ (ok a, s') | err e ↦ handler e s' ]

pub Result-cases :
    {A : Type 0} (r : Result A) → ((a : A) × (r ≡ ok a)) ⊎ ((e : Error) × (r ≡ err e))
Result-cases (ok a) = inl (a, refl)
Result-cases (err e) = inr (e, refl)

pub bind-ok :
    {S A B : Type 0} (q : Exec S A) (p : A → Exec S B) (s : S) (a : A)
    → (q s).0 ≡ ok a
    → (q >>= p) s ≡ p a (q s).1
bind-ok q p s a e = rw (e, ◌>>=◌)

pub bind-err :
    {S A B : Type 0} (q : Exec S A) (p : A → Exec S B) (s : S) (x : Error)
    → (q s).0 ≡ err x
    → (q >>= p) s ≡ (err x, (q s).1)
bind-err q p s x e = rw (e, ◌>>=◌)

pub bind-run :
    {S A B : Type 0} (q : Exec S A) (p : A → Exec S B) (s s' : S) (a : A)
    → q s ≡ (ok a, s')
    → (q >>= p) s ≡ p a s'
bind-run q p s s' a e = bind-ok q p s a (ap (λ r. r.0) e) ∙ ap (λ t. p a t) (ap (λ r. r.1) e)
