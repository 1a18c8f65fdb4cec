-- ===== src/Registers/Table/MainRegistersPart2.antt =====
-- REGISTERS of src/huawei_solar/registers.py, part 2 of 2.
use Prim.Native.String.{String}
use huawei_solar_lib.Base.{List, [], ◌∷◌}
use huawei_solar_lib.Registers.Definition.{
  Register, sun2000, sdongle, both_devices, no_unit, text, bool, enum, table, u16, u32, i16, i32,
  timestamp, writeable, unreadable, for_device,
}
use huawei_solar_lib.Registers.Values.GridCodes.{grid_codes}
use huawei_solar_lib.Registers.Values.Enums.{wlan_wakeup}

unfoldable pub main_registers_part_2 : List (String × Register)
main_registers_part_2 =
    ("cumulative_dc_energy_yield_mppt9", u32 (text "kWh") 100 32228)
    ∷ ("cumulative_dc_energy_yield_mppt10", u32 (text "kWh") 100 32230)
    ∷ ("capbank_running_time", u32 (text "hour") 10 35000)
    ∷ ("internal_fan_1_running_time", u32 (text "hour") 10 35002)
    ∷ ("inv_module_a_temp", i16 (text "°C") 10 35021)
    ∷ ("inv_module_b_temp", i16 (text "°C") 10 35022)
    ∷ ("inv_module_c_temp", i16 (text "°C") 10 35023)
    ∷ ("anti_reverse_module_1_temp", i16 (text "°C") 10 35024)
    ∷ ("output_board_relay_ambient_temp_max", i16 (text "°C") 10 35025)
    ∷ ("anti_reverse_module_2_temp", i16 (text "°C") 10 35027)
    ∷ ("dc_terminal_1_2_max_temp", i16 (text "°C") 10 35028)
    ∷ ("ac_terminal_1_2_3_max_temp", i16 (text "°C") 10 35029)
    ∷ ("phase_a_dc_component_dci", i16 (text "A") 1000 35038)
    ∷ ("phase_b_dc_component_dci", i16 (text "A") 1000 35039)
    ∷ ("phase_c_dc_component_dci", i16 (text "A") 1000 35040)
    ∷ ("leakage_current_rcd", i16 (text "mA") 1 35041)
    ∷ ("positive_bus_voltage", i16 (text "V") 10 35042)
    ∷ ("negative_bus_voltage", i16 (text "V") 10 35043)
    ∷ ("bus_negative_voltage_to_ground", i16 (text "V") 10 35044)
    ∷ ("nb_optimizers", u16 no_unit 1 37200)
    ∷ ("nb_online_optimizers", u16 no_unit 1 37201)
    ∷ ("system_time", timestamp 40000)
    ∷ ("system_time_raw", u32 (text "seconds") 1 40000)
    ∷ ("q_u_characteristic_curve_model", writeable (u16 no_unit 1 40037))
    ∷ ("q_u_scheduling_trigger_power_percentage", writeable (i16 no_unit 1 40038))
    ∷ ("power_factor_2", writeable (i16 no_unit 1000 40122))
    ∷ ("reactive_power_compensation", writeable (i16 no_unit 1000 40123))
    ∷ ("reactive_power_adjustment_time", writeable (u16 (text "seconds") 1 40124))
    ∷ ("active_power_percentage_derating", writeable (i16 (text "%") 10 40125))
    ∷ ("active_power_fixed_value_derating", writeable (u32 (text "W") 1 40126))
    ∷ ("reactive_power_compensation_at_night", writeable (i16 no_unit 1000 40128))
    ∷ ("fixed_reactive_power_at_night", writeable (i32 (text "var") 1 40129))
    ∷ (
      "characteristic_curve_reactive_power_adjustment_time",
      writeable (u16 (text "seconds") 1 40196),
    )
    ∷ ("percent_apparent_power", writeable (u16 (text "%") 10 40197))
    ∷ ("q_u_scheduling_exit_power_percentage", writeable (i16 (text "%") 1 40198))
    ∷ ("startup", writeable (unreadable (u16 no_unit 1 40200)))
    ∷ ("shutdown", writeable (unreadable (u16 no_unit 1 40201)))
    ∷ ("grid_code", u16 (table grid_codes) 1 42000)
    ∷ ("mppt_multimodal_scanning", writeable (u16 bool 1 42054))
    ∷ ("mppt_scanning_interval", writeable (u16 (text "minutes") 1 42055))
    ∷ ("mppt_predicted_power", u32 (text "W") 1 42056)
    ∷ (
      "daylight_saving_time",
      writeable (for_device (both_devices sun2000 sdongle) (u16 bool 1 42900)),
    )
    ∷ (
      "time_zone",
      writeable (for_device (both_devices sun2000 sdongle) (i16 (text "min") 1 43006)),
    )
    ∷ ("wlan_wakeup", writeable (i16 (enum wlan_wakeup) 1 45052))
    ∷ ("emma", writeable (u16 bool 1 48020))
    ∷ []
