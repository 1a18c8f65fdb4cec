-- ===== src/Registers/Names/Part2.antt =====
-- Constants of src/huawei_solar/register_names.py, part 2 of 4.
use Prim.Native.String.{String}
use huawei_solar_lib.Base.{List, [], ◌∷◌}

unfoldable pub names_part_2 : List String
names_part_2 =
    "grid_current" ∷ "phase_A_current" ∷ "phase_B_current" ∷ "phase_C_current"
    ∷ "day_active_power_peak" ∷ "active_power" ∷ "reactive_power" ∷ "power_factor"
    ∷ "grid_frequency" ∷ "efficiency" ∷ "internal_temperature" ∷ "insulation_resistance"
    ∷ "device_status" ∷ "fault_code" ∷ "startup_time" ∷ "shutdown_time" ∷ "active_power_fast"
    ∷ "accumulated_yield_energy" ∷ "total_dc_input_power"
    ∷ "current_electricity_generation_statistics_time" ∷ "hourly_yield_energy"
    ∷ "daily_yield_energy" ∷ "monthly_yield_energy" ∷ "yearly_yield_energy"
    ∷ "latest_active_alarm_sn" ∷ "latest_historical_alarm_sn" ∷ "total_bus_voltage"
    ∷ "max_pv_voltage" ∷ "min_pv_voltage" ∷ "average_pv_negative_voltage_to_ground"
    ∷ "min_pv_negative_voltage_to_ground" ∷ "max_pv_negative_voltage_to_ground"
    ∷ "inverter_to_pe_voltage_tolerance" ∷ "iso_feature_information" ∷ "builtin_pid_running_status"
    ∷ "pv_negative_voltage_to_ground" ∷ "cumulative_dc_energy_yield_mppt1"
    ∷ "cumulative_dc_energy_yield_mppt2" ∷ "cumulative_dc_energy_yield_mppt3"
    ∷ "cumulative_dc_energy_yield_mppt4" ∷ "cumulative_dc_energy_yield_mppt5"
    ∷ "cumulative_dc_energy_yield_mppt6" ∷ "cumulative_dc_energy_yield_mppt7"
    ∷ "cumulative_dc_energy_yield_mppt8" ∷ "cumulative_dc_energy_yield_mppt9"
    ∷ "cumulative_dc_energy_yield_mppt10" ∷ "storage_unit_1_running_status"
    ∷ "storage_unit_1_charge_discharge_power" ∷ "storage_unit_1_bus_voltage"
    ∷ "storage_unit_1_state_of_capacity" ∷ "storage_unit_1_working_mode_b"
    ∷ "storage_unit_1_rated_charge_power" ∷ "storage_unit_1_rated_discharge_power"
    ∷ "storage_unit_1_fault_id" ∷ "storage_unit_1_current_day_charge_capacity"
    ∷ "storage_unit_1_current_day_discharge_capacity" ∷ "storage_unit_1_bus_current"
    ∷ "storage_unit_1_battery_temperature" ∷ "storage_unit_1_remaining_charge_dis_charge_time"
    ∷ "storage_unit_1_dcdc_version" ∷ "storage_unit_1_bms_version" ∷ "storage_maximum_charge_power"
    ∷ "storage_maximum_discharge_power" ∷ "storage_unit_1_serial_number"
    ∷ "storage_unit_1_total_charge" ∷ "storage_unit_1_total_discharge" ∷ "meter_status"
    ∷ "grid_A_voltage" ∷ "grid_B_voltage" ∷ "grid_C_voltage" ∷ "active_grid_A_current"
    ∷ "active_grid_B_current" ∷ "active_grid_C_current" ∷ "power_meter_active_power"
    ∷ "power_meter_reactive_power" ∷ "active_grid_power_factor" ∷ "active_grid_frequency"
    ∷ "grid_exported_energy" ∷ "grid_accumulated_energy" ∷ "grid_accumulated_reactive_power"
    ∷ "meter_type" ∷ "active_grid_A_B_voltage" ∷ "active_grid_B_C_voltage"
    ∷ "active_grid_C_A_voltage" ∷ "active_grid_A_power" ∷ "active_grid_B_power"
    ∷ "active_grid_C_power" ∷ "nb_optimizers" ∷ "meter_type_check" ∷ "nb_online_optimizers"
    ∷ "storage_unit_2_serial_number" ∷ "storage_unit_2_state_of_capacity"
    ∷ "storage_unit_2_running_status" ∷ "storage_unit_2_charge_discharge_power"
    ∷ "storage_unit_2_current_day_charge_capacity" ∷ "storage_unit_2_current_day_discharge_capacity"
    ∷ "storage_unit_2_bus_voltage" ∷ "storage_unit_2_bus_current"
    ∷ "storage_unit_2_battery_temperature" ∷ "storage_unit_2_total_charge"
    ∷ "storage_unit_2_total_discharge" ∷ "storage_rated_capacity" ∷ "storage_state_of_capacity"
    ∷ "storage_running_status" ∷ "storage_bus_voltage" ∷ "storage_bus_current"
    ∷ "storage_charge_discharge_power" ∷ "storage_total_charge" ∷ "storage_total_discharge"
    ∷ "storage_current_day_charge_capacity" ∷ "storage_current_day_discharge_capacity"
    ∷ "storage_unit_2_software_version" ∷ "storage_unit_1_software_version"
    ∷ "storage_unit_1_battery_pack_1_soh_calibration_status"
    ∷ "storage_unit_1_battery_pack_2_soh_calibration_status"
    ∷ "storage_unit_1_battery_pack_3_soh_calibration_status"
    ∷ "storage_unit_2_battery_pack_1_soh_calibration_status"
    ∷ "storage_unit_2_battery_pack_2_soh_calibration_status"
    ∷ "storage_unit_2_battery_pack_3_soh_calibration_status" ∷ "storage_unit_soh_calibration_status"
    ∷ "storage_unit_soh_calibration_release_lower_limit_of_soc"
    ∷ "storage_unit_1_battery_pack_1_serial_number"
    ∷ "storage_unit_1_battery_pack_1_firmware_version"
    ∷ "storage_unit_1_battery_pack_1_working_status"
    ∷ "storage_unit_1_battery_pack_1_state_of_capacity" ∷ []
