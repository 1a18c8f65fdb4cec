-- ===== src/Registers/Table/CapacityControlRegisters.antt =====
-- CAPACITY_CONTROL_REGISTERS of src/huawei_solar/registers.py.
use Prim.Native.String.{String}
use huawei_solar_lib.Base.{List, [], ◌∷◌}
use huawei_solar_lib.Registers.Definition.{
  Register, text, enum, definition, u16, writeable, peak_setting_registers,
}
use huawei_solar_lib.Registers.Values.Enums.{storage_capacity_control_mode}

unfoldable pub capacity_control_registers : List (String × Register)
capacity_control_registers =
    ("storage_capacity_control_mode", writeable (u16 (enum storage_capacity_control_mode) 1 47954))
    ∷ ("storage_capacity_control_soc_peak_shaving", writeable (u16 (text "%") 10 47955))
    ∷ ("storage_capacity_control_periods", writeable (definition peak_setting_registers 47956 64))
    ∷ []
