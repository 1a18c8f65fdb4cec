-- ===== src/Registers/Names/Part1.antt =====
-- Constants of src/huawei_solar/register_names.py, part 1 of 4.
use Prim.Native.String.{String}
use huawei_solar_lib.Base.{List, [], ◌∷◌}

unfoldable pub names_part_1 : List String
names_part_1 =
    "model_name" ∷ "serial_number" ∷ "pn" ∷ "firmware_version" ∷ "software_version"
    ∷ "protocol_version_modbus" ∷ "model_id" ∷ "nb_pv_strings" ∷ "nb_mpp_tracks" ∷ "rated_power"
    ∷ "P_max" ∷ "S_max" ∷ "Q_max_out" ∷ "Q_max_in" ∷ "P_max_real" ∷ "S_max_real"
    ∷ "product_sales_area" ∷ "product_software_number" ∷ "product_software_version_number"
    ∷ "grid_standard_code_protocol_version" ∷ "unique_id_of_the_software"
    ∷ "number_of_packages_to_be_upgraded" ∷ "hardware_functional_unit_conf_id"
    ∷ "subdevice_support_flag" ∷ "subdevice_in_position_flag" ∷ "feature_mask_1" ∷ "feature_mask_2"
    ∷ "feature_mask_3" ∷ "feature_mask_4" ∷ "realtime_max_active_capability"
    ∷ "realtime_max_inductive_reactive_capacity" ∷ "offering_name_of_southbound_device_1"
    ∷ "offering_name_of_southbound_device_2" ∷ "offering_name_of_southbound_device_3"
    ∷ "hardware_version" ∷ "monitoring_board_sn" ∷ "monitoring_software_version"
    ∷ "master_dsp_version" ∷ "slave_dsp_version" ∷ "cpld_version" ∷ "afci_version"
    ∷ "builtin_pid_version" ∷ "dc_mbus_version" ∷ "el_module_version" ∷ "afci_2_version" ∷ "regkey"
    ∷ "state_1" ∷ "state_2" ∷ "state_3" ∷ "alarm_1" ∷ "alarm_2" ∷ "alarm_3" ∷ "capbank_running_time"
    ∷ "internal_fan_1_running_time" ∷ "inv_module_a_temp" ∷ "inv_module_b_temp"
    ∷ "inv_module_c_temp" ∷ "anti_reverse_module_1_temp" ∷ "anti_reverse_module_2_temp"
    ∷ "output_board_relay_ambient_temp_max" ∷ "dc_terminal_1_2_max_temp"
    ∷ "ac_terminal_1_2_3_max_temp" ∷ "phase_a_dc_component_dci" ∷ "phase_b_dc_component_dci"
    ∷ "phase_c_dc_component_dci" ∷ "leakage_current_rcd" ∷ "positive_bus_voltage"
    ∷ "negative_bus_voltage" ∷ "bus_negative_voltage_to_ground" ∷ "pv_01_voltage" ∷ "pv_01_current"
    ∷ "pv_02_voltage" ∷ "pv_02_current" ∷ "pv_03_voltage" ∷ "pv_03_current" ∷ "pv_04_voltage"
    ∷ "pv_04_current" ∷ "pv_05_voltage" ∷ "pv_05_current" ∷ "pv_06_voltage" ∷ "pv_06_current"
    ∷ "pv_07_voltage" ∷ "pv_07_current" ∷ "pv_08_voltage" ∷ "pv_08_current" ∷ "pv_09_voltage"
    ∷ "pv_09_current" ∷ "pv_10_voltage" ∷ "pv_10_current" ∷ "pv_11_voltage" ∷ "pv_11_current"
    ∷ "pv_12_voltage" ∷ "pv_12_current" ∷ "pv_13_voltage" ∷ "pv_13_current" ∷ "pv_14_voltage"
    ∷ "pv_14_current" ∷ "pv_15_voltage" ∷ "pv_15_current" ∷ "pv_16_voltage" ∷ "pv_16_current"
    ∷ "pv_17_voltage" ∷ "pv_17_current" ∷ "pv_18_voltage" ∷ "pv_18_current" ∷ "pv_19_voltage"
    ∷ "pv_19_current" ∷ "pv_20_voltage" ∷ "pv_20_current" ∷ "pv_21_voltage" ∷ "pv_21_current"
    ∷ "pv_22_voltage" ∷ "pv_22_current" ∷ "pv_23_voltage" ∷ "pv_23_current" ∷ "pv_24_voltage"
    ∷ "pv_24_current" ∷ "input_power" ∷ "grid_voltage" ∷ "line_voltage_A_B" ∷ "line_voltage_B_C"
    ∷ "line_voltage_C_A" ∷ "phase_A_voltage" ∷ "phase_B_voltage" ∷ "phase_C_voltage" ∷ []
