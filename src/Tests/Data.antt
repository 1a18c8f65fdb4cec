-- ===== src/Tests/Data.antt =====
-- Floating-point numbers held in whole units, and data that the tests share.
use huawei_solar_lib.Base.{ℕ, zero, suc, ◌≡◌, refl, Bool, true, false, if◌then◌else◌}
use huawei_solar_lib.Base.Int.{ℤ, pos, nat_abs, ◌*ℤ◌}
use huawei_solar_lib.Base.Floats.{Floats}
use huawei_solar_lib.Exceptions.{Error, Result, ok, err}
use huawei_solar_lib.Client.Read.{ModbusExceptions}
use huawei_solar_lib.Client.Retry.{OnException, IsOnException, later}
use huawei_solar_lib.Registers.Days.{Days}

-- Whole numbers stand for the floating-point numbers.
abbrev pub decimals : Floats
decimals = record {
  Float = ℤ;
  int_mul = λ x n. x *ℤ n;
  int_div = λ z n. z;
  float_abs = λ x. pos (nat_abs x);
}

abbrev pub every_day : Days
every_day = record {
  day_0 = true;
  day_1 = true;
  day_2 = true;
  day_3 = true;
  day_4 = true;
  day_5 = true;
  day_6 = true;
}

abbrev pub weekend : Days
weekend = record {
  day_0 = true;
  day_1 = false;
  day_2 = false;
  day_3 = false;
  day_4 = false;
  day_5 = false;
  day_6 = true;
}

abbrev pub codes : ModbusExceptions
codes = record { slave_busy = 6; slave_failure = 4; illegal_address = 2 }

-- `on_exception` as it is documented
unfoldable pub try_for :
    {A : Type 0} → (Error → Bool) → ℕ → Error → (ℕ → Result A) → Result A → Result A
try_for retried n g attempts (ok a) = ok a
try_for retried zero g attempts (err e) = err e
try_for retried (suc zero) g attempts (err e) = if retried e then err g else err e
try_for retried (suc (suc n)) g attempts (err e) =
    let again = try_for retried (suc n) g (later attempts) (attempts 1) in
    if retried e then again else err e

abbrev pub on_exception : {A : Type 0} → OnException A
on_exception retried n g attempts = try_for retried n g attempts (attempts 0)

module _ {A : Type 0} where
  returns :
      (retried : Error → Bool) (n : ℕ) (g : Error) (attempts : ℕ → Result A) (a : A)
      → attempts 0 ≡ ok a
      → on_exception retried (suc n) g attempts ≡ ok a
  unfolding try_for
  returns retried n g attempts a h = rw h refl

  raises :
      (retried : Error → Bool) (n : ℕ) (g : Error) (attempts : ℕ → Result A) (e : Error)
      → attempts 0 ≡ err e
      → retried e ≡ false
      → on_exception retried (suc n) g attempts ≡ err e
  unfolding try_for
  raises retried zero g attempts e h other = rw (h, other) refl
  raises retried (suc n) g attempts e h other = rw (h, other) refl

  retries :
      (retried : Error → Bool) (n : ℕ) (g : Error) (attempts : ℕ → Result A) (e : Error)
      → attempts 0 ≡ err e
      → retried e ≡ true
      → on_exception retried (suc (suc n)) g attempts
        ≡ on_exception retried (suc n) g (later attempts)
  unfolding try_for
  retries retried n g attempts e h known = rw (h, known) refl

  gives_up :
      (retried : Error → Bool) (g : Error) (attempts : ℕ → Result A) (e : Error)
      → attempts 0 ≡ err e
      → retried e ≡ true
      → on_exception retried 1 g attempts ≡ err g
  unfolding try_for
  gives_up retried g attempts e h known = rw (h, known) refl

pub on_exception-IsOnException : {A : Type 0} → IsOnException {A = A} on_exception
on_exception-IsOnException = record {
  returns = returns;
  raises = raises;
  retries = retries;
  gives_up = gives_up;
}
