-- ===== src/Registers/Names/Part4.antt =====
-- Constants of src/huawei_solar/register_names.py, part 4 of 4.
use Prim.Native.String.{String}
use huawei_solar_lib.Base.{List, [], ◌∷◌}

unfoldable pub names_part_4 : List String
names_part_4 =
    "storage_unit_2_pack_2_no" ∷ "storage_unit_2_pack_3_no" ∷ "remote_charge_discharge_control_mode"
    ∷ "default_maximum_feed_in_power" ∷ "default_active_power_change_gradient"
    ∷ "storage_capacity_control_mode" ∷ "storage_capacity_control_soc_peak_shaving"
    ∷ "storage_capacity_control_periods" ∷ "emma" ∷ "emma_software_version" ∷ "emma_model"
    ∷ "inverter_total_absorbed_energy" ∷ "energy_charged_today" ∷ "total_charged_energy"
    ∷ "energy_discharged_today" ∷ "total_discharged_energy" ∷ "ess_chargeable_energy"
    ∷ "ess_dischargeable_energy" ∷ "rated_ess_capacity" ∷ "consumption_today"
    ∷ "total_energy_consumption" ∷ "feed_in_to_grid_today" ∷ "total_feed_in_to_grid"
    ∷ "supply_from_grid_today" ∷ "total_supply_from_grid" ∷ "inverter_energy_yield_today"
    ∷ "inverter_total_energy_yield" ∷ "pv_yield_today" ∷ "total_pv_energy_yield" ∷ "pv_output_power"
    ∷ "load_power" ∷ "feed_in_power" ∷ "battery_charge_discharge_power" ∷ "inverter_rated_power"
    ∷ "inverter_active_power" ∷ "state_of_capacity" ∷ "ess_chargeable_capacity"
    ∷ "ess_dischargeable_capacity" ∷ "backup_power_state_of_charge" ∷ "yield_this_month"
    ∷ "monthly_energy_consumption" ∷ "monthly_feed_in_to_grid" ∷ "yield_this_year"
    ∷ "annual_energy_consumption" ∷ "yearly_feed_in_to_grid" ∷ "monthly_supply_from_grid"
    ∷ "yearly_supply_from_grid" ∷ "backup_time_notification_threshold" ∷ "energy_charged_this_month"
    ∷ "energy_discharged_this_month" ∷ "emma_external_meter_running_status"
    ∷ "emma_external_meter_phase_a_voltage" ∷ "emma_external_meter_phase_b_voltage"
    ∷ "emma_external_meter_phase_c_voltage" ∷ "emma_external_meter_line_voltage_a_b"
    ∷ "emma_external_meter_line_voltage_b_c" ∷ "emma_external_meter_line_voltage_c_a"
    ∷ "emma_external_meter_phase_a_current" ∷ "emma_external_meter_phase_b_current"
    ∷ "emma_external_meter_phase_c_current" ∷ "emma_external_meter_active_power"
    ∷ "emma_external_meter_power_factor" ∷ "emma_external_meter_apparent_power"
    ∷ "emma_external_meter_phase_a_active_power" ∷ "emma_external_meter_phase_b_active_power"
    ∷ "emma_external_meter_phase_c_active_power" ∷ "emma_external_meter_total_active_energy"
    ∷ "emma_external_meter_total_negative_active_energy"
    ∷ "emma_external_meter_total_positive_active_energy" ∷ "number_of_inverters_found"
    ∷ "number_of_chargers_found" ∷ "phase_a_voltage_built_in_energy_sensor"
    ∷ "phase_b_voltage_built_in_energy_sensor" ∷ "phase_c_voltage_built_in_energy_sensor"
    ∷ "line_voltage_a_b_built_in_energy_sensor" ∷ "line_voltage_b_c_built_in_energy_sensor"
    ∷ "line_voltage_c_a_built_in_energy_sensor" ∷ "phase_a_current_built_in_energy_sensor"
    ∷ "phase_b_current_built_in_energy_sensor" ∷ "phase_c_current_built_in_energy_sensor"
    ∷ "active_power_built_in_energy_sensor" ∷ "power_factor_built_in_energy_sensor"
    ∷ "apparent_power_built_in_energy_sensor" ∷ "phase_a_active_power_built_in_energy_sensor"
    ∷ "phase_b_active_power_built_in_energy_sensor" ∷ "phase_c_active_power_built_in_energy_sensor"
    ∷ "total_active_energy_built_in_energy_sensor"
    ∷ "total_negative_active_energy_built_in_energy_sensor"
    ∷ "total_positive_active_energy_built_in_energy_sensor"
    ∷ "phase_a_voltage_external_energy_sensor" ∷ "phase_b_voltage_external_energy_sensor"
    ∷ "phase_c_voltage_external_energy_sensor" ∷ "line_voltage_a_b_external_energy_sensor"
    ∷ "line_voltage_b_c_external_energy_sensor" ∷ "line_voltage_c_a_external_energy_sensor"
    ∷ "phase_a_current_external_energy_sensor" ∷ "phase_b_current_external_energy_sensor"
    ∷ "phase_c_current_external_energy_sensor" ∷ "active_power_external_energy_sensor"
    ∷ "power_factor_external_energy_sensor" ∷ "apparent_power_external_energy_sensor"
    ∷ "phase_a_active_power_external_energy_sensor" ∷ "phase_b_active_power_external_energy_sensor"
    ∷ "phase_c_active_power_external_energy_sensor" ∷ "total_active_energy_external_energy_sensor"
    ∷ "total_negative_active_energy_external_energy_sensor"
    ∷ "total_positive_active_energy_external_energy_sensor" ∷ "emma_ess_control_mode"
    ∷ "emma_tou_preferred_use_of_surplus_pv_power"
    ∷ "emma_tou_maximunm_power_for_charging_batteries_from_grid"
    ∷ "emma_power_control_mode_at_grid_connection_point" ∷ "emma_limitation_mode"
    ∷ "emma_maximum_feed_grid_power_watt" ∷ "emma_maximum_feed_grid_power_percent"
    ∷ "emma_3phase_imbalance_control" ∷ "emma_power_supply_configuration"
    ∷ "emma_consider_mains_faulty_if" ∷ "local_time_year" ∷ "daylight_saving_time"
    ∷ "sdongle_total_input_power" ∷ "sdongle_load_power" ∷ "sdongle_grid_power"
    ∷ "sdongle_total_battery_power" ∷ "sdongle_total_active_power" ∷ []
