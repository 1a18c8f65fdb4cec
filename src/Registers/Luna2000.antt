-- ===== src/Registers/Luna2000.antt =====
-- `HUAWEI_LUNA2000_TimeOfUseRegisters` of src/huawei_solar/registers.py. That every period is a
-- `HUAWEI_LUNA2000_TimeOfUsePeriod`, which `_validate` asks first, is its type here.
pub mod Laws
use huawei_solar_lib.Base.{ℕ, List, [], ◌∷◌, leb, Bool, if◌then◌else◌}
use huawei_solar_lib.Base.Int.{ℤ, pos, eqb_ℤ, leb_ℤ, pos_part}
use huawei_solar_lib.Base.Lists.{length, filter_by}
use huawei_solar_lib.Exceptions.{Result, ok, err, guard, assertion_error, value_error, ◌>>◌}
use huawei_solar_lib.Payload.{Payload, Bytes, uint8, uint16}
use huawei_solar_lib.Payload.Emit.{Call, Reader, ◌>>=◌, pure, lift, read, emit_all, concat}
use huawei_solar_lib.Payload.Slots.{slots, read_slots}
use huawei_solar_lib.Registers.Days.{
  Days, days_effective_builder, days_effective_parser, effective_on,
}
use huawei_solar_lib.Registers.Tou.{check_periods, check_sorted_overlaps}

abbrev pub huawei_luna2000_tou_periods : ℕ
huawei_luna2000_tou_periods = 14

pub data ChargeFlag : Type 0 where
  charge discharge : ChargeFlag

-- `int(flag)`
abbrev pub flag_value : ChargeFlag → ℤ
flag_value charge = pos 0
flag_value discharge = pos 1

-- `ChargeFlag(value)`
unfoldable pub charge_flag : ℤ → Result ChargeFlag
charge_flag value =
    if eqb_ℤ value (pos 0)
    then ok charge
    else if eqb_ℤ value (pos 1)
    then ok discharge
    else err value_error

pub record HuaweiLuna2000TimeOfUsePeriod : Type 0 where
  pub start_time : ℤ
  pub end_time : ℤ
  pub charge_flag : ChargeFlag
  pub days_effective : Days

abbrev pub active : ℕ → HuaweiLuna2000TimeOfUsePeriod → Bool
active day_idx p = effective_on day_idx p.days_effective

-- one round of `for day_idx in range(7)`
unfoldable pub check_day : List HuaweiLuna2000TimeOfUsePeriod → ℕ → Result (Unit {0})
unfolding check_sorted_overlaps
check_day periods day_idx =
    check_sorted_overlaps (λ q. q.start_time) (λ q. q.end_time) (filter_by (active day_idx) periods)

check_days : List HuaweiLuna2000TimeOfUsePeriod → List ℕ → Result (Unit {0})
check_days periods [] = ok tt
check_days periods (day_idx ∷ rest) = check_day periods day_idx >> check_days periods rest

-- `range(7)`
abbrev pub week : List ℕ
week = 0 ∷ 1 ∷ 2 ∷ 3 ∷ 4 ∷ 5 ∷ 6 ∷ []

unfoldable pub validate : List HuaweiLuna2000TimeOfUsePeriod → Result (Unit {0})
unfolding check_periods check_days check_day
validate [] = ok tt
validate (p ∷ ps) =
    check_periods (λ q. q.start_time) (λ q. q.end_time) (p ∷ ps) >> check_days (p ∷ ps) week

abbrev pub period_calls : HuaweiLuna2000TimeOfUsePeriod → List Call
period_calls p =
    (uint16, p.start_time)
    ∷ (uint16, p.end_time)
    ∷ (uint8, flag_value p.charge_flag)
    ∷ (uint8, pos (days_effective_builder p.days_effective))
    ∷ []

-- "pad with empty periods"
abbrev pub empty_calls : List Call
empty_calls = (uint16, pos 0) ∷ (uint16, pos 0) ∷ (uint16, pos 0) ∷ []

-- the calls on the builder
abbrev pub calls : List HuaweiLuna2000TimeOfUsePeriod → List Call
calls periods =
    (uint16, pos (length periods))
    ∷ concat (slots huawei_luna2000_tou_periods period_calls empty_calls periods)

unfoldable pub encode : Payload → List HuaweiLuna2000TimeOfUsePeriod → Result Bytes
unfolding validate emit_all
encode P periods =
    validate periods
    >> (guard (leb (length periods) huawei_luna2000_tou_periods) assertion_error
        >> emit_all P (calls periods))

unfoldable pub read_period : Payload → Reader HuaweiLuna2000TimeOfUsePeriod
unfolding read charge_flag days_effective_parser
read_period P = do
  start_time ← read P uint16
  end_time ← read P uint16
  value ← read P uint8
  flag ← lift (charge_flag value)
  days ← read P uint8
  pure (record {
    start_time = start_time;
    end_time = end_time;
    charge_flag = flag;
    days_effective = days_effective_parser (pos_part days);
  })

-- An unsigned number is never negative, so the slice takes `number_of_periods` elements.
unfoldable pub decode : Payload → Reader (List HuaweiLuna2000TimeOfUsePeriod)
unfolding read read_period
decode P = do
  number_of_periods ← read P uint16
  _ ← lift (guard (leb_ℤ number_of_periods (pos huawei_luna2000_tou_periods)) assertion_error)
  read_slots huawei_luna2000_tou_periods (pos_part number_of_periods) (read_period P)
