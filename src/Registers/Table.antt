-- ===== src/Registers/Table.antt =====
-- The table REGISTERS of src/huawei_solar/registers.py. A dict is an association list, the entries
-- of a later `update` in front: the first entry of a name is its value.
pub mod MainRegistersPart1
pub mod MainRegistersPart2
pub mod PvRegisters
pub mod BatteryRegistersPart1
pub mod BatteryRegistersPart2
pub mod CapacityControlRegisters
pub mod EmmaRegistersPart1
pub mod EmmaRegistersPart2
pub mod MeterRegisters
pub mod SdongleRegisters
pub mod Facts
use Prim.Native.String.{String}
use text.Mathlib.Text.{◌==◌ as str_eq}
use huawei_solar_lib.Base.{List, [], ◌∷◌, ◌++◌, Bool, Option, none, some, if◌then◌else◌}
use huawei_solar_lib.Registers.Definition.{Register}
use huawei_solar_lib.Registers.Table.MainRegistersPart1.{main_registers_part_1}
use huawei_solar_lib.Registers.Table.MainRegistersPart2.{main_registers_part_2}
use huawei_solar_lib.Registers.Table.PvRegisters.{pv_registers}
use huawei_solar_lib.Registers.Table.BatteryRegistersPart1.{battery_registers_part_1}
use huawei_solar_lib.Registers.Table.BatteryRegistersPart2.{battery_registers_part_2}
use huawei_solar_lib.Registers.Table.CapacityControlRegisters.{capacity_control_registers}
use huawei_solar_lib.Registers.Table.EmmaRegistersPart1.{emma_registers_part_1}
use huawei_solar_lib.Registers.Table.EmmaRegistersPart2.{emma_registers_part_2}
use huawei_solar_lib.Registers.Table.MeterRegisters.{meter_registers}
use huawei_solar_lib.Registers.Table.SdongleRegisters.{sdongle_registers}

unfoldable pub main_registers : List (String × Register)
unfolding main_registers_part_1 main_registers_part_2
main_registers = main_registers_part_1 ++ main_registers_part_2

unfoldable pub battery_registers : List (String × Register)
unfolding battery_registers_part_1 battery_registers_part_2
battery_registers = battery_registers_part_1 ++ battery_registers_part_2

unfoldable pub emma_registers : List (String × Register)
unfolding emma_registers_part_1 emma_registers_part_2
emma_registers = emma_registers_part_1 ++ emma_registers_part_2

unfoldable pub registers : List (String × Register)
unfolding main_registers pv_registers battery_registers capacity_control_registers emma_registers
    meter_registers sdongle_registers
registers =
    sdongle_registers
    ++ (meter_registers
        ++ (emma_registers
            ++ (capacity_control_registers
                ++ (battery_registers ++ (pv_registers ++ (main_registers))))))

-- `REGISTERS.get(name)`
unfoldable pub find : String → List (String × Register) → Option Register
find name [] = none
find name ((key, r) ∷ rest) = if str_eq key name then some r else find name rest
