-- ===== src/Registers/ChargeDischarge.antt =====
-- `ChargeDischargePeriodRegisters` of src/huawei_solar/registers.py. The power is written as an
-- unsigned number and read as a signed one.
pub mod Laws
use huawei_solar_lib.Base.{List, ℕ, [], ◌∷◌, leb}
use huawei_solar_lib.Base.Int.{ℤ, pos, leb_ℤ, pos_part}
use huawei_solar_lib.Base.Lists.{length}
use huawei_solar_lib.Exceptions.{Result, guard, assertion_error, ◌>>◌}
use huawei_solar_lib.Payload.{Payload, Bytes, uint16, uint32, int32}
use huawei_solar_lib.Payload.Emit.{Call, Reader, ◌>>=◌, pure, lift, read, emit_all, concat}
use huawei_solar_lib.Payload.Slots.{slots, read_slots}

abbrev pub charge_discharge_periods : ℕ
charge_discharge_periods = 10

pub record ChargeDischargePeriod : Type 0 where
  pub start_time : ℤ
  pub end_time : ℤ
  pub power : ℤ

abbrev pub period_calls : ChargeDischargePeriod → List Call
period_calls p = (uint16, p.start_time) ∷ (uint16, p.end_time) ∷ (uint32, p.power) ∷ []

-- "pad with empty periods"
abbrev pub empty_calls : List Call
empty_calls = (uint16, pos 0) ∷ (uint16, pos 0) ∷ (uint32, pos 0) ∷ []

-- the calls on the builder
abbrev pub calls : List ChargeDischargePeriod → List Call
calls periods =
    (uint16, pos (length periods))
    ∷ concat (slots charge_discharge_periods period_calls empty_calls periods)

unfoldable pub encode : Payload → List ChargeDischargePeriod → Result Bytes
unfolding emit_all
encode P periods =
    guard (leb (length periods) charge_discharge_periods) assertion_error
    >> emit_all P (calls periods)

unfoldable pub read_period : Payload → Reader ChargeDischargePeriod
unfolding read
read_period P = do
  start_time ← read P uint16
  end_time ← read P uint16
  power ← read P int32
  pure (record { start_time = start_time; end_time = end_time; power = power })

-- An unsigned number is never negative, so the slice takes `number_of_periods` elements.
unfoldable pub decode : Payload → Reader (List ChargeDischargePeriod)
unfolding read read_period
decode P = do
  number_of_periods ← read P uint16
  _ ← lift (guard (leb_ℤ number_of_periods (pos charge_discharge_periods)) assertion_error)
  read_slots charge_discharge_periods (pos_part number_of_periods) (read_period P)
