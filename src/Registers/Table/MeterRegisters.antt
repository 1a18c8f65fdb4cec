-- ===== src/Registers/Table/MeterRegisters.antt =====
-- METER_REGISTERS of src/huawei_solar/registers.py.
use Prim.Native.String.{String}
use huawei_solar_lib.Base.{List, [], ◌∷◌}
use huawei_solar_lib.Registers.Definition.{
  Register, no_unit, text, enum, u16, i16, i32, i32_absolute_value,
}
use huawei_solar_lib.Registers.Values.Enums.{meter_status, meter_type, meter_type_check}

unfoldable pub meter_registers : List (String × Register)
meter_registers =
    ("meter_status", u16 (enum meter_status) 1 37100)
    ∷ ("grid_A_voltage", i32 (text "V") 10 37101)
    ∷ ("grid_B_voltage", i32 (text "V") 10 37103)
    ∷ ("grid_C_voltage", i32 (text "V") 10 37105)
    ∷ ("active_grid_A_current", i32 (text "A") 100 37107)
    ∷ ("active_grid_B_current", i32 (text "A") 100 37109)
    ∷ ("active_grid_C_current", i32 (text "A") 100 37111)
    ∷ ("power_meter_active_power", i32 (text "W") 1 37113)
    ∷ ("power_meter_reactive_power", i32 (text "var") 1 37115)
    ∷ ("active_grid_power_factor", i16 no_unit 1000 37117)
    ∷ ("active_grid_frequency", i16 (text "Hz") 100 37118)
    ∷ ("grid_exported_energy", i32_absolute_value (text "kWh") 100 37119)
    ∷ ("grid_accumulated_energy", i32 (text "kWh") 100 37121)
    ∷ ("grid_accumulated_reactive_power", i32 (text "kvarh") 100 37123)
    ∷ ("meter_type", u16 (enum meter_type) 1 37125)
    ∷ ("active_grid_A_B_voltage", i32 (text "V") 10 37126)
    ∷ ("active_grid_B_C_voltage", i32 (text "V") 10 37128)
    ∷ ("active_grid_C_A_voltage", i32 (text "V") 10 37130)
    ∷ ("active_grid_A_power", i32 (text "W") 1 37132)
    ∷ ("active_grid_B_power", i32 (text "W") 1 37134)
    ∷ ("active_grid_C_power", i32 (text "W") 1 37136)
    ∷ ("meter_type_check", u16 (enum meter_type_check) 1 37138)
    ∷ []
