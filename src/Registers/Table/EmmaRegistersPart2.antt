-- ===== src/Registers/Table/EmmaRegistersPart2.antt =====
-- EMMA_REGISTERS of src/huawei_solar/registers.py, part 2 of 2.
use Prim.Native.String.{String}
use huawei_solar_lib.Base.{List, [], ◌∷◌}
use huawei_solar_lib.Registers.Definition.{
  Register, emma, no_unit, text, bool, enum, u16, u32, i16, i32, i64, writeable, for_device,
}
use huawei_solar_lib.Registers.Values.Enums.{
  storage_excess_pv_energy_use_in_tou, active_power_control_mode, emma_ess_control_mode,
  emma_limitation_mode, emma_power_supply_configuration, emma_consider_mains_faulty_if,
}

unfoldable pub emma_registers_part_2 : List (String × Register)
emma_registers_part_2 =
    ("phase_a_voltage_external_energy_sensor", for_device emma (u32 (text "V") 100 31895))
    ∷ ("phase_b_voltage_external_energy_sensor", for_device emma (u32 (text "V") 100 31897))
    ∷ ("phase_c_voltage_external_energy_sensor", for_device emma (u32 (text "V") 100 31899))
    ∷ ("line_voltage_a_b_external_energy_sensor", for_device emma (u32 (text "V") 100 31901))
    ∷ ("line_voltage_b_c_external_energy_sensor", for_device emma (u32 (text "V") 100 31903))
    ∷ ("line_voltage_c_a_external_energy_sensor", for_device emma (u32 (text "V") 100 31905))
    ∷ ("phase_a_current_external_energy_sensor", for_device emma (i32 (text "A") 10 31907))
    ∷ ("phase_b_current_external_energy_sensor", for_device emma (i32 (text "A") 10 31909))
    ∷ ("phase_c_current_external_energy_sensor", for_device emma (i32 (text "A") 10 31911))
    ∷ ("active_power_external_energy_sensor", for_device emma (i32 (text "W") 1 31913))
    ∷ ("power_factor_external_energy_sensor", for_device emma (i32 no_unit 1000 31917))
    ∷ ("apparent_power_external_energy_sensor", for_device emma (i32 (text "VA") 1 31919))
    ∷ ("phase_a_active_power_external_energy_sensor", for_device emma (i32 (text "W") 1 31921))
    ∷ ("phase_b_active_power_external_energy_sensor", for_device emma (i32 (text "W") 1 31923))
    ∷ ("phase_c_active_power_external_energy_sensor", for_device emma (i32 (text "W") 1 31925))
    ∷ ("total_active_energy_external_energy_sensor", for_device emma (i64 (text "kWh") 100 31927))
    ∷ (
      "total_negative_active_energy_external_energy_sensor",
      for_device emma (i64 (text "kWh") 100 31935),
    )
    ∷ (
      "total_positive_active_energy_external_energy_sensor",
      for_device emma (i64 (text "kWh") 100 31943),
    )
    ∷ (
      "emma_ess_control_mode",
      writeable (for_device emma (i16 (enum emma_ess_control_mode) 1 40000)),
    )
    ∷ (
      "emma_tou_preferred_use_of_surplus_pv_power",
      writeable (for_device emma (u16 (enum storage_excess_pv_energy_use_in_tou) 1 40001)),
    )
    ∷ (
      "emma_tou_maximunm_power_for_charging_batteries_from_grid",
      writeable (u32 (text "W") 1 40002),
    )
    ∷ (
      "emma_power_control_mode_at_grid_connection_point",
      writeable (for_device emma (u16 (enum active_power_control_mode) 1 40100)),
    )
    ∷ (
      "emma_limitation_mode",
      writeable (for_device emma (u16 (enum emma_limitation_mode) 1 40101)),
    )
    ∷ ("emma_maximum_feed_grid_power_watt", writeable (for_device emma (i32 (text "W") 1 40107)))
    ∷ (
      "emma_maximum_feed_grid_power_percent",
      writeable (for_device emma (u16 (text "%") 10 40109)),
    )
    ∷ ("emma_3phase_imbalance_control", writeable (for_device emma (u16 bool 1 40110)))
    ∷ (
      "emma_power_supply_configuration",
      writeable (for_device emma (u16 (enum emma_power_supply_configuration) 1 41214)),
    )
    ∷ (
      "emma_consider_mains_faulty_if",
      writeable (for_device emma (u16 (enum emma_consider_mains_faulty_if) 1 41215)),
    )
    ∷ ("local_time_year", writeable (for_device emma (u16 no_unit 1 40490)))
    ∷ []
