-- ===== src/Exec/Keeps.antt =====
-- Properties of the state that an action keeps, whether it returns or throws.
use react_native_nitro_sync.Prelude.{inl, inr, Bool, true, false, List, [], ◌∷◌}
use react_native_nitro_sync.Types.{Error, Result, ok, err}
use react_native_nitro_sync.Exec.{
  Exec, ◌>>=◌, ◌>>◌, return, lift, gets, modify, when_, for_each, try_catch, Result-cases, bind-ok,
  bind-err,
}

pub record Keeps {S A : Type 0} (P : S → Type 0) (q : Exec S A) : Type 0 where
  pub at : (s : S) → P s → P (q s).1

module _ {S : Type 0} {P : S → Type 0} where
  pub Keeps-return : {A : Type 0} (a : A) → Keeps P (return a)
  Keeps-return a = record { at = λ s h. h }

  pub Keeps-lift : {A : Type 0} (r : Result A) → Keeps P (lift r)
  Keeps-lift r = record { at = λ s h. h }

  pub Keeps-gets : {A : Type 0} (f : S → A) → Keeps P (gets f)
  Keeps-gets f = record { at = λ s h. h }

  pub Keeps-modify : (f : S → S) → ((s : S) → P s → P (f s)) → Keeps P (modify f)
  Keeps-modify f k = record { at = k }

  bind_at :
      {A B : Type 0} (q : Exec S A) (p : A → Exec S B)
      → Keeps P q
      → ((a : A) → Keeps P (p a))
      → (s : S) → P s
      → P ((q >>= p) s).1
  bind_at q p kq kp s h = elim (Result-cases (q s).0) [
    | inl (a, e) ↦ rw (bind-ok q p s a e) ((kp a).at (q s).1 (kq.at s h))
    | inr (x, e) ↦ rw (bind-err q p s x e) (kq.at s h)
  ]

  pub Keeps-bind :
      {A B : Type 0} (q : Exec S A) (p : A → Exec S B)
      → Keeps P q
      → ((a : A) → Keeps P (p a))
      → Keeps P (q >>= p)
  Keeps-bind q p kq kp = record { at = bind_at q p kq kp }

  pub Keeps-then :
      {A B : Type 0} (q : Exec S A) (p : Exec S B) → Keeps P q → Keeps P p → Keeps P (q >> p)
  Keeps-then q p kq kp = Keeps-bind q (λ _. p) kq (λ _. kp)

  pub Keeps-when : (b : Bool) (q : Exec S (Unit {0})) → Keeps P q → Keeps P (when_ b q)
  Keeps-when true q k = k
  Keeps-when false q k = Keeps-return tt

  pub Keeps-for_each :
      {A : Type 0} (as_ : List A) (body : A → Exec S (Unit {0}))
      → ((a : A) → Keeps P (body a))
      → Keeps P (for_each as_ body)
  unfolding for_each
  Keeps-for_each [] body k = Keeps-return tt
  Keeps-for_each (a ∷ as_) body k =
      Keeps-then (body a) (for_each as_ body) (k a) (Keeps-for_each as_ body k)

  try_at :
      {A : Type 0} (r : Result A) (handler : Error → Exec S A) (s : S)
      → ((e : Error) → Keeps P (handler e))
      → P s
      → P (try_catch (lift r) handler s).1
  try_at (ok a) handler s k h = h
  try_at (err e) handler s k h = (k e).at s h

  pub Keeps-try :
      {A : Type 0} (q : Exec S A) (handler : Error → Exec S A)
      → Keeps P q
      → ((e : Error) → Keeps P (handler e))
      → Keeps P (try_catch q handler)
  Keeps-try q handler kq kh = record { at = λ s h. try_at (q s).0 handler (q s).1 kh (kq.at s h) }
