-- ===== src/Registers/Codec.antt =====
-- `decode` and `encode` of any register of src/huawei_solar/registers.py, by its class.
pub mod Laws
pub mod Sizes
use huawei_solar_lib.Base.{ℕ, ◌*◌, Bool, true, false, Option, none, some, List, ◌==◌}
use huawei_solar_lib.Base.Int.{ℤ}
use huawei_solar_lib.Base.Floats.{Floats}
use huawei_solar_lib.Exceptions.{
  Result, ok, err, decode_error, assertion_error, type_error, not_implemented_error,
  write_exception,
}
use huawei_solar_lib.Payload.{Payload, Bytes, size}
use huawei_solar_lib.Payload.Emit.{Reader, ◌>>=◌, pure, lift}
use huawei_solar_lib.Registers.Utf8.{Text, decode_utf8, rstrip_nul}
use huawei_solar_lib.Registers.Definition.{
  Register, Kind, string_register, number_register, absolute_value_register, timestamp_register,
  lg_resu_registers, luna2000_registers, charge_discharge_registers, peak_setting_registers,
}
use huawei_solar_lib.Registers.Number
use huawei_solar_lib.Registers.Number.{Value, absent, int}
use huawei_solar_lib.Registers.LgResu
use huawei_solar_lib.Registers.LgResu.{LgResuTimeOfUsePeriod}
use huawei_solar_lib.Registers.Luna2000
use huawei_solar_lib.Registers.Luna2000.{HuaweiLuna2000TimeOfUsePeriod}
use huawei_solar_lib.Registers.ChargeDischarge
use huawei_solar_lib.Registers.ChargeDischarge.{ChargeDischargePeriod}
use huawei_solar_lib.Registers.Peak
use huawei_solar_lib.Registers.Peak.{PeakSettingPeriod}

-- What registers are decoded to and encoded from. A naive datetime is the number that
-- `datetime.fromtimestamp` was given.
pub data Content (F : Type 0) : Type 0 where
  characters : Text → Content F
  value : Value F → Content F
  datetime : ℤ → Content F
  lg_resu_periods : List (LgResuTimeOfUsePeriod F) → Content F
  luna2000_periods : List HuaweiLuna2000TimeOfUsePeriod → Content F
  charge_discharge_periods : List ChargeDischargePeriod → Content F
  peak_setting_periods : List PeakSettingPeriod → Content F

-- `StringRegister.decode`, behind `decode_string`
text_or_error : Option Text → Result Text
unfolding rstrip_nul
text_or_error none = err decode_error
text_or_error (some t) = ok (rstrip_nul t)

module _ (fl : Floats) (P : Payload) where
  read_string : ℕ → Reader Bytes
  read_string n bs = ok (P.decode_string n bs)

  -- `TimestampRegister.decode`, behind that of its base class
  abbrev to_datetime : Value fl.Float → Result (Content fl.Float)
  to_datetime absent = ok (value absent)
  to_datetime (int z) = ok (datetime z)
  to_datetime _ = err assertion_error

  decode_kind : Kind → ℕ → Reader (Content fl.Float)
  unfolding read_string text_or_error decode_utf8 Number.decode Number.decode_absolute LgResu.decode
      Luna2000.decode ChargeDischarge.decode Peak.decode
  decode_kind string_register length = do
    str_bytes ← read_string (length * 2)
    result ← lift (text_or_error (decode_utf8 str_bytes))
    pure (characters result)
  decode_kind (number_register r) length = do v ← Number.decode fl r P; pure (value v)
  decode_kind (absolute_value_register r) length = do
    v ← Number.decode_absolute fl r P
    pure (value v)
  decode_kind (timestamp_register r) length = do v ← Number.decode fl r P; lift (to_datetime v)
  decode_kind lg_resu_registers length = do ps ← LgResu.decode fl P; pure (lg_resu_periods ps)
  decode_kind luna2000_registers length = do ps ← Luna2000.decode P; pure (luna2000_periods ps)
  decode_kind charge_discharge_registers length = do
    ps ← ChargeDischarge.decode P
    pure (charge_discharge_periods ps)
  decode_kind peak_setting_registers length = do ps ← Peak.decode P; pure (peak_setting_periods ps)

  unfoldable pub decode_register : Register → Reader (Content fl.Float)
  unfolding decode_kind
  decode_register r = decode_kind r.kind r.length

  -- A number register given other data than a `Value` refuses it like any other type; a period
  -- register fails on data that is not a list of its periods. `StringRegister.encode` is that of the base
  -- class, which raises NotImplementedError.
  unfoldable pub encode_kind : Kind → Content fl.Float → Result Bytes
  unfolding Number.encode LgResu.encode Luna2000.encode ChargeDischarge.encode Peak.encode
  encode_kind (number_register r) (value v) = Number.encode fl r P v
  encode_kind (number_register r) _ = Number.encode fl r P absent
  encode_kind (absolute_value_register r) (value v) = Number.encode fl r P v
  encode_kind (absolute_value_register r) _ = Number.encode fl r P absent
  encode_kind (timestamp_register r) (value v) = Number.encode fl r P v
  encode_kind (timestamp_register r) _ = Number.encode fl r P absent
  encode_kind lg_resu_registers (lg_resu_periods ps) = LgResu.encode fl P ps
  encode_kind luna2000_registers (luna2000_periods ps) = Luna2000.encode P ps
  encode_kind charge_discharge_registers (charge_discharge_periods ps) = ChargeDischarge.encode P ps
  encode_kind peak_setting_registers (peak_setting_periods ps) = Peak.encode P ps
  encode_kind string_register _ = err not_implemented_error
  encode_kind _ _ = err type_error

  unfoldable pub encode_register : Register → Content fl.Float → Result Bytes
  unfolding encode_kind
  encode_register r = encode_kind r.kind

-- The number of bytes that a successful `decode` takes is twice the register's length.
abbrev pub fits_kind : Kind → ℕ → Bool
fits_kind string_register length = true
fits_kind (number_register n) length = size n.decode_function == 2 * length
fits_kind (absolute_value_register n) length = size n.decode_function == 2 * length
fits_kind (timestamp_register n) length = size n.decode_function == 2 * length
fits_kind lg_resu_registers length = length == 41
fits_kind luna2000_registers length = length == 43
fits_kind charge_discharge_registers length = length == 41
fits_kind peak_setting_registers length = false

abbrev pub fits_length : Register → Bool
fits_length r = fits_kind r.kind r.length
