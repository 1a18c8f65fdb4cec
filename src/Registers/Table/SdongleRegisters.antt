-- ===== src/Registers/Table/SdongleRegisters.antt =====
-- SDONGLE_REGISTERS of src/huawei_solar/registers.py.
use Prim.Native.String.{String}
use huawei_solar_lib.Base.{List, [], ◌∷◌}
use huawei_solar_lib.Registers.Definition.{Register, text, u32, i32}

unfoldable pub sdongle_registers : List (String × Register)
sdongle_registers =
    ("sdongle_total_input_power", u32 (text "W") 1 37498)
    ∷ ("sdongle_load_power", u32 (text "W") 1 37500)
    ∷ ("sdongle_grid_power", i32 (text "W") 1 37502)
    ∷ ("sdongle_total_battery_power", i32 (text "W") 1 37504)
    ∷ ("sdongle_total_active_power", i32 (text "W") 1 37516)
    ∷ []
