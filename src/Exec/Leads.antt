-- ===== src/Exec/Leads.antt =====
-- What holds when an action returns: of its result and the state that it leaves.
use react_native_nitro_sync.Prelude.{◌≡◌, sym, subst, inl, inr}
use react_native_nitro_sync.Types.{Error, Result, ok, err}
use react_native_nitro_sync.Exec.{Exec, ◌>>=◌, lift, try_catch, Result-cases, bind-ok, bind-err}
use react_native_nitro_sync.Exec.Keeps.{Keeps}

pub record Leads {S A : Type 0} (P : S → Type 0) (q : Exec S A) (Q : A → S → Type 0) : Type 0 where
  pub at : (s : S) (a : A) → P s → (q s).0 ≡ ok a → Q a (q s).1

abbrev pub Always : {S : Type 0} → S → Type 0
Always s = Unit {0}

bind_leads :
    {S A B : Type 0} {P : S → Type 0} {Q : A → S → Type 0} {R : B → S → Type 0} (q : Exec S A)
    (p : A → Exec S B)
    → Leads P q Q
    → ((a : A) → Leads (Q a) (p a) R)
    → (s : S) (b : B) → P s
    → ((q >>= p) s).0 ≡ ok b
    → R b ((q >>= p) s).1
bind_leads {R = R} q p kq kp s b h = elim (Result-cases (q s).0) [
  | inl (a, e) ↦
      subst (λ t. t.0 ≡ ok b → R b t.1) (sym (bind-ok q p s a e))
        ((kp a).at (q s).1 b (kq.at s a h e))
  | inr (x, e) ↦ subst (λ t. t.0 ≡ ok b → R b t.1) (sym (bind-err q p s x e)) (λ k. cc)
]

pub Leads-bind :
    {S A B : Type 0} {P : S → Type 0} (Q : A → S → Type 0) {R : B → S → Type 0} (q : Exec S A)
    (p : A → Exec S B)
    → Leads P q Q
    → ((a : A) → Leads (Q a) (p a) R)
    → Leads P (q >>= p) R
Leads-bind Q q p kq kp = record { at = bind_leads q p kq kp }

-- What holds in the end, whatever comes before.
pub Leads-after :
    {S A B : Type 0} {R : B → S → Type 0} (q : Exec S A) (p : A → Exec S B)
    → ((a : A) → Leads Always (p a) R)
    → Leads Always (q >>= p) R
Leads-after q p kp = Leads-bind (λ a. Always) q p record { at = λ s a h e. tt } kp

-- What is kept to the end.
pub Leads-kept :
    {S A B : Type 0} {P Q : S → Type 0} (q : Exec S A) (p : A → Exec S B)
    → Leads P q (λ a. Q)
    → ((a : A) → Keeps Q (p a))
    → Leads P (q >>= p) (λ b. Q)
Leads-kept {Q = Q} q p kq kp =
    Leads-bind (λ a. Q) q p kq λ a. record { at = λ s b h e. (kp a).at s h }

try_leads :
    {S A : Type 0} {Q : A → S → Type 0} (r : Result A) (handler : Error → Exec S A) (s : S)
    → ((a : A) → r ≡ ok a → Q a s)
    → ((e : Error) → Leads Always (handler e) Q)
    → (a : A) → (try_catch (lift r) handler s).0 ≡ ok a
    → Q a (try_catch (lift r) handler s).1
try_leads (ok b) handler s kq kh a k = kq a k
try_leads (err e) handler s kq kh a k = (kh e).at s a tt k

pub Leads-try :
    {S A : Type 0} {Q : A → S → Type 0} (q : Exec S A) (handler : Error → Exec S A)
    → Leads Always q Q
    → ((e : Error) → Leads Always (handler e) Q)
    → Leads Always (try_catch q handler) Q
Leads-try q handler kq kh = record {
  at = λ s a h k. try_leads (q s).0 handler (q s).1 (λ b e. kq.at s b tt e) kh a k;
}
