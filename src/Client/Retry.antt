-- ===== src/Client/Retry.antt =====
-- The `backoff` package's `on_exception` decorator, which is not code of the repository: a parameter
-- with its documented behaviour, as src/huawei_solar/huawei_solar.py configures it (`max_tries`, the
-- exceptions that are retried, and an `on_giveup` handler that raises). The waits are left out.
use huawei_solar_lib.Base.{
  ℕ, zero, suc, ◌≤◌, ◌<◌, ◌≡◌, ◌∙◌, Bool, true, false, inl, inr, arith, Bool-cases,
}
use huawei_solar_lib.Exceptions.{Error, Result, ok, err, Result-cases}

-- The exceptions retried, `max_tries`, what the handler raises, and the outcome of each attempt.
abbrev pub OnException : Type 0 → Type 0
OnException A = (Error → Bool) → ℕ → Error → (ℕ → Result A) → Result A

abbrev pub later : {A : Type 0} → (ℕ → A) → ℕ → A
later attempts i = attempts (suc i)

pub record IsOnException {A : Type 0} (on_exception : OnException A) : Type 0 where
  pub returns :
      (retried : Error → Bool) (n : ℕ) (g : Error) (attempts : ℕ → Result A) (a : A)
      → attempts 0 ≡ ok a
      → on_exception retried (suc n) g attempts ≡ ok a
  pub raises :
      (retried : Error → Bool) (n : ℕ) (g : Error) (attempts : ℕ → Result A) (e : Error)
      → attempts 0 ≡ err e
      → retried e ≡ false
      → on_exception retried (suc n) g attempts ≡ err e
  pub retries :
      (retried : Error → Bool) (n : ℕ) (g : Error) (attempts : ℕ → Result A) (e : Error)
      → attempts 0 ≡ err e
      → retried e ≡ true
      → on_exception retried (suc (suc n)) g attempts
        ≡ on_exception retried (suc n) g (later attempts)
  pub gives_up :
      (retried : Error → Bool) (g : Error) (attempts : ℕ → Result A) (e : Error)
      → attempts 0 ≡ err e
      → retried e ≡ true
      → on_exception retried 1 g attempts ≡ err g

module _ {A : Type 0} (f : OnException A) (laws : IsOnException f) where
  -- A value that is returned is that of one of the attempts allowed.
  pub on_exception-eq-ok :
      (retried : Error → Bool) (n : ℕ) (g : Error) (attempts : ℕ → Result A) (a : A)
      → f retried (suc n) g attempts ≡ ok a
      → (i : ℕ) × (i ≤ n) × (attempts i ≡ ok a)
  on_exception-eq-ok retried zero g attempts a h = elim (Result-cases (attempts 0)) [
    | inl (b, e) ↦ let first = laws.returns retried 0 g attempts b e in (0, omega arith, cc)
    | inr (e, raised) ↦ elim (Bool-cases (retried e)) [
      | inr other ↦ let only = laws.raises retried 0 g attempts e raised other in absurd (cc)
      | inl retry ↦ let only = laws.gives_up retried g attempts e raised retry in absurd (cc)
    ]
  ]
  on_exception-eq-ok retried (suc n) g attempts a h = elim (Result-cases (attempts 0)) [
    | inl (b, e) ↦ let first = laws.returns retried (suc n) g attempts b e in (0, omega arith, cc)
    | inr (e, raised) ↦ elim (Bool-cases (retried e)) [
      | inr other ↦ let first = laws.raises retried (suc n) g attempts e raised other in absurd (cc)
      | inl retry ↦
          let next = laws.retries retried n g attempts e raised retry in
          let rest : f retried (suc n) g (later attempts) ≡ ok a = cc in
          let (i, few, found) = on_exception-eq-ok retried n g (later attempts) a rest in
          (suc i, omega arith, found)
    ]
  ]

  -- A value that one of the attempts allowed returns, behind attempts that are retried, is returned.
  pub on_exception_eventually :
      (retried : Error → Bool) (n : ℕ) (g : Error) (attempts : ℕ → Result A) (j : ℕ) (a : A)
      → j ≤ n
      → ((k : ℕ) → k < j → (e : Error) × (attempts k ≡ err e) × (retried e ≡ true))
      → attempts j ≡ ok a
      → f retried (suc n) g attempts ≡ ok a
  on_exception_eventually retried n g attempts zero a few before h =
      laws.returns retried n g attempts a h
  on_exception_eventually retried zero g attempts (suc j) a few before h = absurd (omega arith)
  on_exception_eventually retried (suc n) g attempts (suc j) a few before h =
      let (e, failed, retry) = before 0 (omega arith) in
      laws.retries retried n g attempts e failed retry
      ∙ on_exception_eventually retried n g (later attempts) j a (omega arith)
          (λ k less. before (suc k) (omega arith)) h
