-- ===== src/Registers/Peak.antt =====
-- `PeakSettingPeriodRegisters` of src/huawei_solar/registers.py. `encode` does not call `_validate`.
pub mod Coverage
pub mod Laws
use Prim.Native.Nat.{min}
use huawei_solar_lib.Base.{
  ℕ, ◌+◌, ◌-◌, ◌*◌, ◌≡◌, Bool, not, ◌&&◌, ◌||◌, List, [], ◌∷◌, if◌then◌else◌,
}
use huawei_solar_lib.Base.Int.{ℤ, pos, ◌+ℤ◌, eqb_ℤ, pos_part}
use huawei_solar_lib.Base.Lists.{length, take, filter_by}
use huawei_solar_lib.Base.Sort.{sort_by}
use huawei_solar_lib.Exceptions.{Result, ok, err, peak_periods_validation_error, ◌>>◌}
use huawei_solar_lib.Payload.{Payload, Bytes, uint8, uint16, uint32, int32}
use huawei_solar_lib.Payload.Emit.{Call, Reader, ◌>>=◌, pure, read, read_many, emit_all, concat}
use huawei_solar_lib.Payload.Slots.{slots}
use huawei_solar_lib.Registers.Days.{
  Days, days_effective_builder, days_effective_parser, effective_on,
}

abbrev pub peak_setting_periods : ℕ
peak_setting_periods = 14

pub record PeakSettingPeriod : Type 0 where
  pub start_time : ℤ
  pub end_time : ℤ
  pub power : ℤ
  pub days_effective : Days

abbrev pub active : ℕ → PeakSettingPeriod → Bool
active day_idx p = effective_on day_idx p.days_effective

-- the loop over neighbours, with the test of the last end behind it
unfoldable pub check_gaps : PeakSettingPeriod → List PeakSettingPeriod → Result (Unit {0})
check_gaps prev [] =
    if eqb_ℤ prev.end_time (pos (24 * 60 - 1)) || eqb_ℤ prev.end_time (pos (24 * 60))
    then ok tt
    else err (peak_periods_validation_error "Every day must be covered until 23:59")
check_gaps prev (cur ∷ rest) =
    if eqb_ℤ cur.start_time prev.end_time || eqb_ℤ cur.start_time (prev.end_time +ℤ pos 1)
    then check_gaps cur rest
    else err (peak_periods_validation_error "All moments of each day need to be covered")

-- the day's periods in the order of their starts
unfoldable pub check_sorted_day : List PeakSettingPeriod → Result (Unit {0})
unfolding check_gaps
check_sorted_day [] = err (peak_periods_validation_error "All days of the week need to be covered")
check_sorted_day (first ∷ rest) =
    if eqb_ℤ first.start_time (pos 0)
    then check_gaps first rest
    else err (peak_periods_validation_error "Every day must be covered from 00:00")

unfoldable pub check_day : List PeakSettingPeriod → ℕ → Result (Unit {0})
unfolding check_sorted_day
check_day periods day_idx =
    check_sorted_day (sort_by (λ p. p.start_time) (filter_by (active day_idx) periods))

unfoldable pub check_days : List PeakSettingPeriod → List ℕ → Result (Unit {0})
unfolding check_day
check_days periods [] = ok tt
check_days periods (day_idx ∷ rest) = check_day periods day_idx >> check_days periods rest

-- `range(7)`
abbrev pub week : List ℕ
week = 0 ∷ 1 ∷ 2 ∷ 3 ∷ 4 ∷ 5 ∷ 6 ∷ []

unfoldable pub validate : List PeakSettingPeriod → Result (Unit {0})
unfolding check_days
validate periods = check_days periods week

abbrev pub period_calls : PeakSettingPeriod → List Call
period_calls p =
    (uint16, p.start_time)
    ∷ (uint16, p.end_time)
    ∷ (uint32, p.power)
    ∷ (uint8, pos (days_effective_builder p.days_effective))
    ∷ []

-- "pad with empty periods"
abbrev pub empty_calls : List Call
empty_calls = (uint16, pos 0) ∷ (uint16, pos 0) ∷ (uint32, pos 0) ∷ (uint8, pos 0) ∷ []

-- the calls on the builder, for the data cut to fourteen periods
abbrev pub calls : List PeakSettingPeriod → List Call
calls periods =
    (uint16, pos (length periods))
    ∷ concat (slots peak_setting_periods period_calls empty_calls periods)

unfoldable pub encode : Payload → List PeakSettingPeriod → Result Bytes
unfolding emit_all
encode P periods = emit_all P (calls (take peak_setting_periods periods))

-- what one round of the loop reads
pub record Entry : Type 0 where
  pub start_time : ℤ
  pub end_time : ℤ
  pub peak_value : ℤ
  pub week_value : ℤ

unfoldable pub read_entry : Payload → Reader Entry
unfolding read
read_entry P = do
  start_time ← read P uint16
  end_time ← read P uint16
  peak_value ← read P int32
  week_value ← read P uint8
  pure (record {
    start_time = start_time;
    end_time = end_time;
    peak_value = peak_value;
    week_value = week_value;
  })

-- the `if` around `periods.append`, and what is appended
abbrev pub kept : Entry → Bool
kept e = not (eqb_ℤ e.start_time e.end_time) && not (eqb_ℤ e.week_value (pos 0))

abbrev pub to_period : Entry → PeakSettingPeriod
to_period e = record {
  start_time = e.start_time;
  end_time = e.end_time;
  power = e.peak_value;
  days_effective = days_effective_parser (pos_part e.week_value);
}

unfoldable pub append_kept : List Entry → List PeakSettingPeriod
append_kept [] = []
append_kept (e ∷ es) = let rest = append_kept es in if kept e then to_period e ∷ rest else rest

-- Only `number_of_periods` slots are read, at most fourteen.
unfoldable pub decode : Payload → Reader (List PeakSettingPeriod)
unfolding read read_entry read_many append_kept
decode P = do
  count ← read P uint16
  entries ← read_many (min (pos_part count) peak_setting_periods) (read_entry P)
  pure (take (min (pos_part count) peak_setting_periods) (append_kept entries))
