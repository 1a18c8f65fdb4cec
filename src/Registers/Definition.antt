-- ===== src/Registers/Definition.antt =====
-- The register classes of src/huawei_solar/registers.py: what their constructors store.
use Prim.Native.String.{String}
use huawei_solar_lib.Base.{ℕ, ◌-◌, ◌^◌, Bool, true, false, ◌||◌, Option, none, some, List}
use huawei_solar_lib.Base.Int.{ℤ, pos}
use huawei_solar_lib.Payload.{Format, uint16, uint32, uint64, int16, int32, int64}
use huawei_solar_lib.Registers.Values.{IntEnum, BitMeaning, Definition}

-- the flags of `TargetDevice`
pub record TargetDevice : Type 0 where
  pub sun2000 : Bool
  pub emma : Bool
  pub sdongle : Bool
  pub smartlogger : Bool

abbrev pub sun2000 : TargetDevice
sun2000 = record { sun2000 = true; emma = false; sdongle = false; smartlogger = false }

abbrev pub emma : TargetDevice
emma = record { sun2000 = false; emma = true; sdongle = false; smartlogger = false }

abbrev pub sdongle : TargetDevice
sdongle = record { sun2000 = false; emma = false; sdongle = true; smartlogger = false }

-- `a | b`
abbrev pub both_devices : TargetDevice → TargetDevice → TargetDevice
both_devices a b = record {
  sun2000 = a.sun2000 || b.sun2000;
  emma = a.emma || b.emma;
  sdongle = a.sdongle || b.sdongle;
  smartlogger = a.smartlogger || b.smartlogger;
}

-- The `unit` of a number register: nothing, a text, or what turns the number into a value, which is
-- `bool`, an enum, a bitfield decoder or a table.
pub data RegisterUnit : Type 0 where
  no_unit : RegisterUnit
  text : String → RegisterUnit
  bool : RegisterUnit
  enum : IntEnum → RegisterUnit
  bitfield : List (ℕ × BitMeaning) → RegisterUnit
  table : List (ℕ × Definition) → RegisterUnit

-- `NumberRegister`
pub record NumberRegister : Type 0 where
  pub unit : RegisterUnit
  pub gain : ℕ
  pub decode_function : Format
  pub encode_function : Format
  pub invalid_value : Option ℤ

pub data Kind : Type 0 where
  string_register : Kind
  number_register : NumberRegister → Kind
  absolute_value_register : NumberRegister → Kind
  timestamp_register : NumberRegister → Kind
  lg_resu_registers : Kind
  luna2000_registers : Kind
  charge_discharge_registers : Kind
  peak_setting_registers : Kind

-- `RegisterDefinition`
pub record Register : Type 0 where
  pub kind : Kind
  pub register : ℕ
  pub length : ℕ
  pub is_writeable : Bool
  pub is_readable : Bool
  pub target_device : TargetDevice

abbrev pub definition : Kind → ℕ → ℕ → Register
definition kind register length = record {
  kind = kind;
  register = register;
  length = length;
  is_writeable = false;
  is_readable = true;
  target_device = sun2000;
}

abbrev number : Format → ℤ → RegisterUnit → ℕ → NumberRegister
number format invalid unit gain = record {
  unit = unit;
  gain = gain;
  decode_function = format;
  encode_function = format;
  invalid_value = some invalid;
}

abbrev pub string : ℕ → ℕ → Register
string = definition string_register

abbrev pub u16 : RegisterUnit → ℕ → ℕ → Register
u16 unit gain register =
    definition (number_register (number uint16 (pos (2 ^ 16 - 1)) unit gain)) register 1

-- `U16Register` with `ignore_invalid=True`
abbrev pub u16_ignoring_invalid : RegisterUnit → ℕ → ℕ → Register
u16_ignoring_invalid unit gain register =
    definition (number_register (record (number uint16 (pos 0) unit gain) { invalid_value = none }))
      register 1

abbrev pub u32 : RegisterUnit → ℕ → ℕ → Register
u32 unit gain register =
    definition (number_register (number uint32 (pos (2 ^ 32 - 1)) unit gain)) register 2

-- The invalid value is that of the signed numbers, as in the source.
abbrev pub u64 : RegisterUnit → ℕ → ℕ → Register
u64 unit gain register =
    definition (number_register (number uint64 (pos (2 ^ 63 - 1)) unit gain)) register 4

abbrev pub i16 : RegisterUnit → ℕ → ℕ → Register
i16 unit gain register =
    definition (number_register (number int16 (pos (2 ^ 15 - 1)) unit gain)) register 1

abbrev pub i32 : RegisterUnit → ℕ → ℕ → Register
i32 unit gain register =
    definition (number_register (number int32 (pos (2 ^ 31 - 1)) unit gain)) register 2

abbrev pub i64 : RegisterUnit → ℕ → ℕ → Register
i64 unit gain register =
    definition (number_register (number int64 (pos (2 ^ 63 - 1)) unit gain)) register 4

abbrev pub i32_absolute_value : RegisterUnit → ℕ → ℕ → Register
i32_absolute_value unit gain register =
    definition (absolute_value_register (number int32 (pos (2 ^ 31 - 1)) unit gain)) register 2

abbrev pub timestamp : ℕ → Register
timestamp register =
    definition (timestamp_register (number uint32 (pos (2 ^ 32 - 1)) no_unit 1)) register 2

-- `writeable=True`, `readable=False` and `target_device=…` of a constructor's call
abbrev pub writeable : Register → Register
writeable r = record r { is_writeable = true }

abbrev pub unreadable : Register → Register
unreadable r = record r { is_readable = false }

abbrev pub for_device : TargetDevice → Register → Register
for_device d r = record r { target_device = d }
