-- ===== src/Exceptions/Running.antt =====
-- Loops that are given a number of rounds: `none` stands for one that has not ended in them.
use huawei_solar_lib.Base.{◌≡◌, refl, Option, none, some}
use huawei_solar_lib.Exceptions.{Result, ok, err}

abbrev pub Running : Type 0 → Type 0
Running A = Option (Result A)

abbrev pub continue_with : {A B : Type 0} → Result A → (A → Running B) → Running B
continue_with (err e) next = some (err e)
continue_with (ok a) next = next a

abbrev pub and_then : {A B : Type 0} → Running A → (A → Running B) → Running B
and_then none next = none
and_then (some r) next = continue_with r next

-- The loop has ended, with a value or an error.
abbrev pub Ends : {A : Type 0} → Running A → Type 0
Ends {A} m = (r : Result A) × (m ≡ some r)

pub returned_inj : {A : Type 0} {a b : A} → some (ok a) ≡ some (ok b) → a ≡ b
returned_inj h = cc

module _ {A B : Type 0} where
  pub continue_with-Ends :
      (r : Result A) (next : A → Running B)
      → ((a : A) → r ≡ ok a → Ends (next a))
      → Ends (continue_with r next)
  continue_with-Ends (err e) next h = (err e, refl)
  continue_with-Ends (ok a) next h = h a refl

  pub and_then-Ends :
      (m : Running A) (next : A → Running B)
      → Ends m
      → ((a : A) → m ≡ some (ok a) → Ends (next a))
      → Ends (and_then m next)
  and_then-Ends none next (r, e) h = absurd (cc)
  and_then-Ends (some r) next e h = continue_with-Ends r next (λ a same. h a (rw same))

  pub continue_with-eq-ok :
      (r : Result A) (next : A → Running B) (b : B)
      → continue_with r next ≡ some (ok b)
      → (a : A) × (r ≡ ok a) × (next a ≡ some (ok b))
  continue_with-eq-ok (err e) next b h = absurd (cc h)
  continue_with-eq-ok (ok a) next b h = (a, refl, h)

  pub and_then-eq-ok :
      (m : Running A) (next : A → Running B) (b : B)
      → and_then m next ≡ some (ok b)
      → (a : A) × (m ≡ some (ok a)) × (next a ≡ some (ok b))
  and_then-eq-ok none next b h = absurd (cc h)
  and_then-eq-ok (some r) next b h =
      let (a, e, h') = continue_with-eq-ok r next b h in (a, rw e, h')

  pub continue_with_ok :
      (r : Result A) (next : A → Running B) (a : A) → r ≡ ok a → continue_with r next ≡ next a
  continue_with_ok r next a h = rw h

  pub and_then_ok :
      (m : Running A) (next : A → Running B) (a : A) → m ≡ some (ok a) → and_then m next ≡ next a
  and_then_ok m next a h = rw h
