-- ===== src/Exceptions.antt =====
-- src/huawei_solar/exceptions.py: the errors that the library raises, with Python's and pymodbus's
-- own errors that pass through it, and results that may be an error.
pub mod Running
use Prim.Native.String.{String}
use huawei_solar_lib.Base.{ℕ, ◌≡◌, refl, Bool, true, false, Option, ◌⊎◌, inl, inr}

-- The arguments of an exception are kept where the code or a caller reads them: the text of the
-- validation errors, and the `modbus_exception_code` of read and write errors.
pub data Error : Type 0 where
  decode_error : Error
  encode_error : Error
  time_of_use_periods_exception : String → Error
  peak_periods_validation_error : String → Error
  connection_exception : Error
  read_exception : Option ℕ → Error
  connection_interrupted_exception : Error
  slave_busy_exception : Error
  slave_failure_exception : Error
  write_exception : Option ℕ → Error
  permission_denied : Error
  invalid_credentials : Error
  unsupported_device_exception : Error
  huawei_solar_exception : Error
  value_error : Error
  key_error : Error
  index_error : Error
  assertion_error : Error
  struct_error : Error
  timeout_error : Error
  type_error : Error
  not_implemented_error : Error
  pymodbus_exception : Error
  attribute_error : Error

-- `isinstance(e, HuaweiSolarException)`. `PeakPeriodsValidationError` is not a subclass.
unfoldable pub is_huawei_solar_exception : Error → Bool
is_huawei_solar_exception (peak_periods_validation_error _) = false
is_huawei_solar_exception value_error = false
is_huawei_solar_exception key_error = false
is_huawei_solar_exception index_error = false
is_huawei_solar_exception assertion_error = false
is_huawei_solar_exception struct_error = false
is_huawei_solar_exception timeout_error = false
is_huawei_solar_exception type_error = false
is_huawei_solar_exception not_implemented_error = false
is_huawei_solar_exception pymodbus_exception = false
is_huawei_solar_exception attribute_error = false
is_huawei_solar_exception _ = true

pub data Result {ℓ} (A : Type ℓ) : Type ℓ where
  ok : A → Result A
  err : Error → Result A

-- `if not test: raise e`
abbrev pub guard : Bool → Error → Result (Unit {0})
guard false e = err e
guard true _ = ok tt

pub Result-cases {ℓ} :
    {A : Type ℓ} (m : Result A) → ((a : A) × (m ≡ ok a)) ⊎ ((e : Error) × (m ≡ err e))
Result-cases (ok a) = inl (a, refl)
Result-cases (err e) = inr (e, refl)

pub ok_inj {ℓ} : {A : Type ℓ} {a b : A} → ok a ≡ ok b → a ≡ b
ok_inj h = cc

infixl 5 ◌>>=◌
-- An error ends the sequence.
abbrev pub ◌>>=◌ {κ ℓ} : {B : Type κ} {A : Type ℓ} → Result A → (A → Result B) → Result B
err raised >>= next = err raised
ok value >>= next = next value

infixl 5 ◌>>◌
abbrev pub ◌>>◌ {κ ℓ} : {B : Type κ} {A : Type ℓ} → Result A → Result B → Result B
first >> second = first >>= (λ _. second)

-- A sequence that succeeds went through its first part.
pub >>=-eq-ok {κ ℓ} :
    {B : Type κ} {A : Type ℓ} (m : Result A) (next : A → Result B) {b : B}
    → (m >>= next) ≡ ok b
    → (a : A) × (m ≡ ok a) × (next a ≡ ok b)
>>=-eq-ok (err raised) next h = absurd (cc h)
>>=-eq-ok (ok value) next h = (value, refl, h)
