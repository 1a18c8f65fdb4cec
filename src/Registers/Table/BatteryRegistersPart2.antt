-- ===== src/Registers/Table/BatteryRegistersPart2.antt =====
-- BATTERY_REGISTERS of src/huawei_solar/registers.py, part 2 of 2.
use Prim.Native.String.{String}
use huawei_solar_lib.Base.{List, [], ◌∷◌}
use huawei_solar_lib.Registers.Definition.{
  Register, no_unit, text, bool, enum, definition, u16, u32, i16, i32, writeable, lg_resu_registers,
  luna2000_registers, charge_discharge_registers,
}
use huawei_solar_lib.Registers.Values.Enums.{
  storage_working_modes_c, storage_product_model, storage_forcible_charge_discharge,
  storage_forcible_charge_discharge_target_mode, storage_excess_pv_energy_use_in_tou,
  active_power_control_mode, backup_voltage_independent_operation,
  remote_charge_discharge_control_mode,
}

unfoldable pub battery_registers_part_2 : List (String × Register)
battery_registers_part_2 =
    ("storage_lg_resu_time_of_use_price_periods", writeable (definition lg_resu_registers 47028 41))
    ∷ (
      "storage_huawei_luna2000_time_of_use_price_periods",
      writeable (definition luna2000_registers 47028 41),
    )
    ∷ ("storage_lcoe", u32 no_unit 1000 47069)
    ∷ ("storage_maximum_charging_power", writeable (u32 (text "W") 1 47075))
    ∷ ("storage_maximum_discharging_power", writeable (u32 (text "W") 1 47077))
    ∷ ("storage_power_limit_grid_tied_point", i32 (text "W") 1 47079)
    ∷ ("storage_charging_cutoff_capacity", writeable (u16 (text "%") 10 47081))
    ∷ ("storage_discharging_cutoff_capacity", writeable (u16 (text "%") 10 47082))
    ∷ ("storage_forced_charging_and_discharging_period", writeable (u16 (text "min") 1 47083))
    ∷ ("storage_forced_charging_and_discharging_power", i32 (text "W") 1 47084)
    ∷ ("storage_working_mode_settings", writeable (u16 (enum storage_working_modes_c) 1 47086))
    ∷ ("storage_charge_from_grid_function", writeable (u16 bool 1 47087))
    ∷ ("storage_grid_charge_cutoff_state_of_charge", writeable (u16 (text "%") 10 47088))
    ∷ ("storage_unit_2_product_model", u16 (enum storage_product_model) 1 47089)
    ∷ (
      "forcible_charge_discharge_write",
      writeable (u16 (enum storage_forcible_charge_discharge) 1 47100),
    )
    ∷ ("storage_forcible_charge_discharge_soc", writeable (u16 (text "%") 10 47101))
    ∷ ("storage_backup_power_state_of_charge", writeable (u16 (text "%") 10 47102))
    ∷ ("storage_unit_1_no", u16 no_unit 1 47107)
    ∷ ("storage_unit_2_no", u16 no_unit 1 47108)
    ∷ (
      "storage_fixed_charging_and_discharging_periods",
      writeable (definition charge_discharge_registers 47200 41),
    )
    ∷ ("storage_power_of_charge_from_grid", writeable (u32 (text "W") 1 47242))
    ∷ ("storage_maximum_power_of_charge_from_grid", writeable (u32 (text "W") 1 47244))
    ∷ (
      "storage_forcible_charge_discharge_setting_mode",
      writeable (u16 (enum storage_forcible_charge_discharge_target_mode) 1 47246),
    )
    ∷ ("storage_forcible_charge_power", writeable (u32 no_unit 1 47247))
    ∷ ("storage_forcible_discharge_power", writeable (u32 no_unit 1 47249))
    ∷ (
      "storage_lg_resu_time_of_use_charging_and_discharging_periods",
      writeable (definition lg_resu_registers 47255 43),
    )
    ∷ (
      "storage_huawei_luna2000_time_of_use_charging_and_discharging_periods",
      writeable (definition luna2000_registers 47255 43),
    )
    ∷ (
      "storage_excess_pv_energy_use_in_tou",
      writeable (u16 (enum storage_excess_pv_energy_use_in_tou) 1 47299),
    )
    ∷ ("active_power_control_mode", writeable (u16 (enum active_power_control_mode) 1 47415))
    ∷ ("maximum_feed_grid_power_watt", writeable (i32 (text "W") 1 47416))
    ∷ ("maximum_feed_grid_power_percent", writeable (i16 (text "%") 10 47418))
    ∷ (
      "remote_charge_discharge_control_mode",
      writeable (i16 (enum remote_charge_discharge_control_mode) 1 47589),
    )
    ∷ ("dongle_plant_maximum_charge_from_grid_power", writeable (u32 (text "W") 1 47590))
    ∷ ("backup_switch_to_off_grid", writeable (u16 no_unit 1 47604))
    ∷ (
      "backup_voltage_independent_operation",
      writeable (u16 (enum backup_voltage_independent_operation) 1 47605),
    )
    ∷ ("default_maximum_feed_in_power", writeable (i32 (text "W") 1 47675))
    ∷ ("default_active_power_change_gradient", u32 (text "%/s") 1000 47677)
    ∷ ("storage_unit_1_pack_1_no", u16 no_unit 1 47750)
    ∷ ("storage_unit_1_pack_2_no", u16 no_unit 1 47751)
    ∷ ("storage_unit_1_pack_3_no", u16 no_unit 1 47752)
    ∷ ("storage_unit_2_pack_1_no", u16 no_unit 1 47753)
    ∷ ("storage_unit_2_pack_2_no", u16 no_unit 1 47754)
    ∷ ("storage_unit_2_pack_3_no", u16 no_unit 1 47755)
    ∷ []
