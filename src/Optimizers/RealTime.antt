-- ===== src/Optimizers/RealTime.antt =====
-- OptimizerRealTimeDataFile of src/huawei_solar/files.py. A time is kept as the timestamp from which
-- the code makes a datetime in the local time zone.
use Prim.Native.Nat.{bit_and}
use Prim.Native.String.{String}
use huawei_solar_lib.Base.{
  ℕ, zero, suc, ◌+◌, none, some, List, [], ◌∷◌, ◌==◌, ltb, if◌then◌else◌, Bool, map, not,
}
use huawei_solar_lib.Base.Int.{ℤ, pos, negsuc, pos_part}
use huawei_solar_lib.Base.Floats.{Floats}
use huawei_solar_lib.Base.Lists.{length, filter_by}
use huawei_solar_lib.Exceptions.{Result, ok, err, ◌>>=◌, value_error, struct_error}
use huawei_solar_lib.Exceptions.Running.{Running, continue_with, and_then}
use huawei_solar_lib.Payload.{Bytes}
use huawei_solar_lib.Struct.{
  big, little, Code, uint, int, chars, pad, Values, calcsize, pack, unpack_from,
}
use huawei_solar_lib.Optimizers.Entries.{read_entries}

abbrev pub optimizer_alarm_codes : List (ℕ × String)
optimizer_alarm_codes =
    (0x0001, "Input Overvoltage")
    ∷ (0x0002, "Input Undervoltage")
    ∷ (0x0008, "Output Overvoltage")
    ∷ (0x0010, "Overtemperature")
    ∷ (0x0020, "Output Short Circuit")
    ∷ (0x0040, "EEPROM Fault")
    ∷ (0x0080, "Internal Hardware Fault")
    ∷ (0x0100, "Abnormal Voltage To Ground")
    ∷ (0x0200, "Power-off due to heartbeat timeout")
    ∷ (0x0400, "Fast shutdown")
    ∷ (0x0800, "Request Escape Alarm")
    ∷ (0x1000, "Version mismatch alarm")
    ∷ (0x8000, "Input overvoltage")
    ∷ (0x10000, "Overtemperature")
    ∷ (0x20000, "Output short circuit")
    ∷ (0x40000, "Internal hardware fault")
    ∷ (0x80000, "Version mismatch alarm")
    ∷ (0x100000, "Backfeed alarm")
    ∷ (0x200000, "Abnormal output voltage")
    ∷ (0x400000, "Upgrade failure")
    ∷ (0x4000000, "Display bit 16 to bit 30 alarms")
    ∷ []

pub data OptimizerRunningStatus : Type 0 where
  offline standby faulty running power_off : OptimizerRunningStatus

-- `OptimizerRunningStatus(n)`
unfoldable pub running_status : ℤ → Result OptimizerRunningStatus
running_status (pos n) =
    if n == 0
    then ok offline
    else if n == 1
    then ok standby
    else if n == 3
    then ok faulty
    else if n == 4
    then ok running
    else if n == 12
    then ok power_off
    else err value_error
running_status (negsuc n) = err value_error

pub record OptimizerRealTimeData (F : Type 0) : Type 0 where
  pub optimizer_address : ℤ
  pub output_power : F
  pub voltage_to_ground : F
  pub alarm : List String
  pub output_voltage : F
  pub output_current : F
  pub input_voltage : F
  pub input_current : F
  pub temperature : F
  pub status : OptimizerRunningStatus
  pub accumulated_energy_yield : F

pub record OptimizerHistoryRealTimeDataUnit (F : Type 0) : Type 0 where
  pub time : ℤ
  pub optimizers : List (OptimizerRealTimeData F)

-- `<4s8x`, `<i4xhh` and `<3hI6hI`
abbrev pub header : List Code
header = chars 4 ∷ pad 8 ∷ []

abbrev pub optimizer_data_unit : List Code
optimizer_data_unit = int 4 ∷ pad 4 ∷ int 2 ∷ int 2 ∷ []

abbrev pub optimizer_data : List Code
optimizer_data =
    int 2 ∷ int 2 ∷ int 2 ∷ uint 4 ∷ int 2 ∷ int 2 ∷ int 2 ∷ int 2 ∷ int 2 ∷ int 2 ∷ uint 4 ∷ []

-- `alarm & bit` is not zero
abbrev pub has_bit : ℕ → ℕ → Bool
has_bit alarm bit = not (bit_and alarm bit == 0)

-- the texts of the bits that are set, in the order of the table
unfoldable pub alarms : ℕ → List String
alarms alarm =
    map (λ (c : ℕ × String). c.1) (filter_by (λ c. has_bit alarm c.0) optimizer_alarm_codes)

module _ (fl : Floats) where
  abbrev pub over : ℤ → ℕ → fl.Float
  over z n = fl.int_div z (pos n)

  unfoldable pub real_time_data : Values optimizer_data → Result (OptimizerRealTimeData fl.Float)
  unfolding running_status alarms
  real_time_data
        (
          address,
          (
            output_power,
            (
              ground,
              (
                alarm,
                (
                  output_voltage,
                  (
                    output_current,
                    (input_voltage, (input_current, (temperature, (status, (energy, _))))),
                  ),
                ),
              ),
            ),
          ),
        ) =
      running_status status >>= λ member. ok record {
        optimizer_address = address;
        output_power = over output_power 10;
        voltage_to_ground = over ground 10;
        alarm = alarms alarm;
        output_voltage = over output_voltage 10;
        output_current = over output_current 100;
        input_voltage = over input_voltage 10;
        input_current = over input_current 100;
        temperature = over temperature 10;
        status = member;
        accumulated_energy_yield = over (pos energy) 1000;
      }

  -- the optimizers behind the head of a unit; `range` of a negative number is empty
  unfoldable pub optimizers_of :
      Bytes
      → ℕ
      → Values optimizer_data_unit
      → Result (OptimizerHistoryRealTimeDataUnit fl.Float × ℕ)
  unfolding read_entries real_time_data
  optimizers_of file_data offset (time, (_, (number_of_optimizers, _))) =
      read_entries little optimizer_data real_time_data (pos_part number_of_optimizers) file_data
        (offset + calcsize optimizer_data_unit)
      >>= λ r. ok (record { time = time; optimizers = r.0 }, r.1)

  -- one round of the loop: a unit, and the offset behind it
  unfoldable pub read_unit : Bytes → ℕ → Result (OptimizerHistoryRealTimeDataUnit fl.Float × ℕ)
  unfolding unpack_from optimizers_of
  read_unit file_data offset =
      unpack_from little optimizer_data_unit file_data offset >>= optimizers_of file_data offset

  -- The `while` loop, which is entered without a test.
  unfoldable pub read_units :
      ℕ → Bytes → ℕ → Running (List (OptimizerHistoryRealTimeDataUnit fl.Float))
  unfolding read_unit
  read_units zero file_data offset = none
  read_units (suc rounds) file_data offset = continue_with (read_unit file_data offset) (λ r.
      let rest = and_then (read_units rounds file_data r.1) (λ units. some (ok (r.0 ∷ units))) in
      if ltb r.1 (length file_data) then rest else some (ok (r.0 ∷ [])))

  -- `OptimizerRealTimeDataFile(file_data).data_units`: each round reads at least the head of a unit, so
  -- that as many rounds as there are bytes are enough.
  unfoldable pub data_units : Bytes → Running (List (OptimizerHistoryRealTimeDataUnit fl.Float))
  unfolding unpack_from read_units
  data_units file_data =
      if ltb (length file_data) (calcsize header)
      then some (ok [])
      else continue_with (unpack_from little header file_data 0)
          (λ file_version. read_units (length file_data) file_data (calcsize header))

-- `query_within_timespan`; a time before 1970 is a struct.error
unfoldable pub query_within_timespan : ℤ → ℤ → Result Bytes
unfolding pack
query_within_timespan (pos start_time) (pos end_time) =
    pack big (uint 1 ∷ uint 1 ∷ uint 4 ∷ uint 4 ∷ uint 4 ∷ [])
      (0x10, (12, (start_time, (end_time, (0, tt)))))
query_within_timespan _ _ = err struct_error
