-- ===== src/Bridge/Session/Actions.antt =====
-- Properties of the session that every part of a method keeps, and results of methods in sequence.
use huawei_solar_lib.Base.{◌≡◌, refl, Bool, true, false, if◌then◌else◌}
use huawei_solar_lib.Exceptions.{Error, Result, ok, err}
use huawei_solar_lib.Bridge.SessionState.{Session, Action, after, ◌>>=◌, handle, catching}

-- The property holds after the method if it held before.
abbrev pub Keeps : {V A : Type 0} → (Session V → Type 0) → Action V A → Type 0
Keeps {V} P m = (s : Session V) → P s → P (m s).1

module _ {V : Type 0} (P : Session V → Type 0) where
  after-Keeps :
      {A B : Type 0} (r : Result A × Session V) (next : A → Action V B)
      → P r.1
      → ((a : A) → Keeps P (next a))
      → P (after r next).1
  after-Keeps (ok a, s) next h k = k a s h
  after-Keeps (err e, s) next h k = h

  pub Keeps-bind :
      {A B : Type 0} (m : Action V A) (next : A → Action V B)
      → Keeps P m
      → ((a : A) → Keeps P (next a))
      → Keeps P (m >>= next)
  Keeps-bind m next h k s p = after-Keeps (m s) next (h s p) k

  handle-Keeps :
      {A : Type 0} (handler : Error → Action V A) (r : Result A × Session V)
      → P r.1
      → ((e : Error) → Keeps P (handler e))
      → P (handle handler r).1
  handle-Keeps handler (ok a, s) h k = h
  handle-Keeps handler (err e, s) h k = k e s h

  pub Keeps-catching :
      {A : Type 0} (m : Action V A) (handler : Error → Action V A)
      → Keeps P m
      → ((e : Error) → Keeps P (handler e))
      → Keeps P (catching m handler)
  Keeps-catching m handler h k s p = handle-Keeps handler (m s) (h s p) k

  pub Keeps-if :
      {A : Type 0} (b : Bool) (m n : Action V A)
      → Keeps P m
      → Keeps P n
      → Keeps P (if b then m else n)
  Keeps-if true m n h k = h
  Keeps-if false m n h k = k

module _ {V A B : Type 0} where
  after-eq-ok :
      (r : Result A × Session V) (next : A → Action V B) (b : B) (s' : Session V)
      → after r next ≡ (ok b, s')
      → (a : A) × (t : Session V) × (r ≡ (ok a, t)) × (next a t ≡ (ok b, s'))
  after-eq-ok (ok a, t) next b s' h = (a, t, refl, h)
  after-eq-ok (err e, t) next b s' h = absurd (cc h)

  -- A method that returns went through its first part.
  pub bind-eq-ok :
      (m : Action V A) (next : A → Action V B) (s : Session V) (b : B) (s' : Session V)
      → (m >>= next) s ≡ (ok b, s')
      → (a : A) × (t : Session V) × (m s ≡ (ok a, t)) × (next a t ≡ (ok b, s'))
  bind-eq-ok m next s b s' h = after-eq-ok (m s) next b s' h

module _ {V A : Type 0} where
  -- What a method with a handler returns comes from the method or from the handler.
  pub handle-Returns :
      (Q : A → Session V → Type 0) (r : Result A × Session V) (handler : Error → Action V A)
      → ((a : A) (t : Session V) → r ≡ (ok a, t) → Q a t)
      → ((e : Error) (t : Session V) (a : A) (s' : Session V)
          → r ≡ (err e, t)
          → handler e t ≡ (ok a, s')
          → Q a s')
      → (a : A) (s' : Session V) → handle handler r ≡ (ok a, s')
      → Q a s'
  handle-Returns Q (ok b, t) handler h k a s' e = h a s' e
  handle-Returns Q (err error, t) handler h k a s' e = k error t a s' refl e
