-- ===== src/Registers/Names/Part3.antt =====
-- Constants of src/huawei_solar/register_names.py, part 3 of 4.
use Prim.Native.String.{String}
use huawei_solar_lib.Base.{List, [], ◌∷◌}

unfoldable pub names_part_3 : List String
names_part_3 =
    "storage_unit_1_battery_pack_1_charge_discharge_power" ∷ "storage_unit_1_battery_pack_1_voltage"
    ∷ "storage_unit_1_battery_pack_1_current" ∷ "storage_unit_1_battery_pack_1_total_charge"
    ∷ "storage_unit_1_battery_pack_1_total_discharge"
    ∷ "storage_unit_1_battery_pack_2_serial_number"
    ∷ "storage_unit_1_battery_pack_2_firmware_version"
    ∷ "storage_unit_1_battery_pack_2_working_status"
    ∷ "storage_unit_1_battery_pack_2_state_of_capacity"
    ∷ "storage_unit_1_battery_pack_2_charge_discharge_power"
    ∷ "storage_unit_1_battery_pack_2_voltage" ∷ "storage_unit_1_battery_pack_2_current"
    ∷ "storage_unit_1_battery_pack_2_total_charge" ∷ "storage_unit_1_battery_pack_2_total_discharge"
    ∷ "storage_unit_1_battery_pack_3_serial_number"
    ∷ "storage_unit_1_battery_pack_3_firmware_version"
    ∷ "storage_unit_1_battery_pack_3_working_status"
    ∷ "storage_unit_1_battery_pack_3_state_of_capacity"
    ∷ "storage_unit_1_battery_pack_3_charge_discharge_power"
    ∷ "storage_unit_1_battery_pack_3_voltage" ∷ "storage_unit_1_battery_pack_3_current"
    ∷ "storage_unit_1_battery_pack_3_total_charge" ∷ "storage_unit_1_battery_pack_3_total_discharge"
    ∷ "storage_unit_2_battery_pack_1_serial_number"
    ∷ "storage_unit_2_battery_pack_1_firmware_version"
    ∷ "storage_unit_2_battery_pack_1_working_status"
    ∷ "storage_unit_2_battery_pack_1_state_of_capacity"
    ∷ "storage_unit_2_battery_pack_1_charge_discharge_power"
    ∷ "storage_unit_2_battery_pack_1_voltage" ∷ "storage_unit_2_battery_pack_1_current"
    ∷ "storage_unit_2_battery_pack_1_total_charge" ∷ "storage_unit_2_battery_pack_1_total_discharge"
    ∷ "storage_unit_2_battery_pack_2_serial_number"
    ∷ "storage_unit_2_battery_pack_2_firmware_version"
    ∷ "storage_unit_2_battery_pack_2_working_status"
    ∷ "storage_unit_2_battery_pack_2_state_of_capacity"
    ∷ "storage_unit_2_battery_pack_2_charge_discharge_power"
    ∷ "storage_unit_2_battery_pack_2_voltage" ∷ "storage_unit_2_battery_pack_2_current"
    ∷ "storage_unit_2_battery_pack_2_total_charge" ∷ "storage_unit_2_battery_pack_2_total_discharge"
    ∷ "storage_unit_2_battery_pack_3_serial_number"
    ∷ "storage_unit_2_battery_pack_3_firmware_version"
    ∷ "storage_unit_2_battery_pack_3_working_status"
    ∷ "storage_unit_2_battery_pack_3_state_of_capacity"
    ∷ "storage_unit_2_battery_pack_3_charge_discharge_power"
    ∷ "storage_unit_2_battery_pack_3_voltage" ∷ "storage_unit_2_battery_pack_3_current"
    ∷ "storage_unit_2_battery_pack_3_total_charge" ∷ "storage_unit_2_battery_pack_3_total_discharge"
    ∷ "storage_unit_1_battery_pack_1_maximum_temperature"
    ∷ "storage_unit_1_battery_pack_1_minimum_temperature"
    ∷ "storage_unit_1_battery_pack_2_maximum_temperature"
    ∷ "storage_unit_1_battery_pack_2_minimum_temperature"
    ∷ "storage_unit_1_battery_pack_3_maximum_temperature"
    ∷ "storage_unit_1_battery_pack_3_minimum_temperature"
    ∷ "storage_unit_2_battery_pack_1_maximum_temperature"
    ∷ "storage_unit_2_battery_pack_1_minimum_temperature"
    ∷ "storage_unit_2_battery_pack_2_maximum_temperature"
    ∷ "storage_unit_2_battery_pack_2_minimum_temperature"
    ∷ "storage_unit_2_battery_pack_3_maximum_temperature"
    ∷ "storage_unit_2_battery_pack_3_minimum_temperature" ∷ "system_time" ∷ "system_time_raw"
    ∷ "q_u_characteristic_curve_model" ∷ "q_u_scheduling_trigger_power_percentage"
    ∷ "power_factor_2" ∷ "reactive_power_compensation" ∷ "reactive_power_adjustment_time"
    ∷ "active_power_percentage_derating" ∷ "active_power_fixed_value_derating"
    ∷ "reactive_power_compensation_at_night" ∷ "fixed_reactive_power_at_night"
    ∷ "characteristic_curve_reactive_power_adjustment_time" ∷ "percent_apparent_power"
    ∷ "q_u_scheduling_exit_power_percentage" ∷ "startup" ∷ "shutdown" ∷ "grid_code"
    ∷ "mppt_multimodal_scanning" ∷ "mppt_scanning_interval" ∷ "mppt_predicted_power" ∷ "time_zone"
    ∷ "wlan_wakeup" ∷ "storage_unit_1_product_model" ∷ "storage_working_mode_a"
    ∷ "storage_time_of_use_price" ∷ "storage_lg_resu_time_of_use_price_periods"
    ∷ "storage_huawei_luna2000_time_of_use_price_periods" ∷ "storage_lcoe"
    ∷ "storage_maximum_charging_power" ∷ "storage_maximum_discharging_power"
    ∷ "storage_power_limit_grid_tied_point" ∷ "storage_charging_cutoff_capacity"
    ∷ "storage_discharging_cutoff_capacity" ∷ "storage_forced_charging_and_discharging_period"
    ∷ "storage_forced_charging_and_discharging_power" ∷ "storage_working_mode_settings"
    ∷ "storage_charge_from_grid_function" ∷ "storage_grid_charge_cutoff_state_of_charge"
    ∷ "storage_unit_2_product_model" ∷ "forcible_charge_discharge_write"
    ∷ "storage_forcible_charge_discharge_soc" ∷ "storage_backup_power_state_of_charge"
    ∷ "storage_unit_1_no" ∷ "storage_unit_2_no" ∷ "storage_fixed_charging_and_discharging_periods"
    ∷ "storage_power_of_charge_from_grid" ∷ "storage_maximum_power_of_charge_from_grid"
    ∷ "storage_forcible_charge_discharge_setting_mode" ∷ "storage_forcible_charge_power"
    ∷ "storage_forcible_discharge_power"
    ∷ "storage_lg_resu_time_of_use_charging_and_discharging_periods"
    ∷ "storage_huawei_luna2000_time_of_use_charging_and_discharging_periods"
    ∷ "storage_excess_pv_energy_use_in_tou" ∷ "active_power_control_mode"
    ∷ "maximum_feed_grid_power_watt" ∷ "maximum_feed_grid_power_percent"
    ∷ "dongle_plant_maximum_charge_from_grid_power" ∷ "backup_switch_to_off_grid"
    ∷ "backup_voltage_independent_operation" ∷ "storage_unit_1_pack_1_no"
    ∷ "storage_unit_1_pack_2_no" ∷ "storage_unit_1_pack_3_no" ∷ "storage_unit_2_pack_1_no" ∷ []
