-- ===== src/Registers/Table/MainRegistersPart1.antt =====
-- REGISTERS of src/huawei_solar/registers.py, part 1 of 2.
use Prim.Native.String.{String}
use huawei_solar_lib.Base.{List, [], ◌∷◌}
use huawei_solar_lib.Registers.Definition.{
  Register, sun2000, emma, sdongle, both_devices, no_unit, text, bitfield, table, string, u16,
  u16_ignoring_invalid, u32, i16, i32, timestamp, for_device,
}
use huawei_solar_lib.Registers.Values.Codes.{
  device_status_definitions, state_codes_1, state_codes_2, state_codes_3, alarm_codes_1,
  alarm_codes_2, alarm_codes_3,
}

unfoldable pub main_registers_part_1 : List (String × Register)
main_registers_part_1 =
    ("model_name", for_device (both_devices sun2000 emma) (string 30000 15))
    ∷ (
      "serial_number",
      for_device (both_devices (both_devices sun2000 emma) sdongle) (string 30015 10),
    )
    ∷ ("pn", string 30025 10)
    ∷ ("firmware_version", string 30035 15)
    ∷ ("software_version", for_device (both_devices sun2000 sdongle) (string 30050 15))
    ∷ ("protocol_version_modbus", u32 no_unit 1 30068)
    ∷ ("model_id", u16 no_unit 1 30070)
    ∷ ("nb_pv_strings", u16 no_unit 1 30071)
    ∷ ("nb_mpp_tracks", u16 no_unit 1 30072)
    ∷ ("rated_power", u32 (text "W") 1 30073)
    ∷ ("P_max", u32 (text "W") 1 30075)
    ∷ ("S_max", u32 (text "VA") 1 30077)
    ∷ ("Q_max_out", i32 (text "var") 1 30079)
    ∷ ("Q_max_in", i32 (text "var") 1 30081)
    ∷ ("P_max_real", u32 (text "W") 1 30083)
    ∷ ("S_max_real", u32 (text "VA") 1 30085)
    ∷ ("product_sales_area", string 30105 2)
    ∷ ("product_software_number", u16 no_unit 1 30107)
    ∷ ("product_software_version_number", u16 no_unit 1 30108)
    ∷ ("grid_standard_code_protocol_version", u16 no_unit 1 30109)
    ∷ ("unique_id_of_the_software", u16 no_unit 1 30110)
    ∷ ("number_of_packages_to_be_upgraded", u16 no_unit 1 30111)
    ∷ ("hardware_functional_unit_conf_id", u16 no_unit 1 30206)
    ∷ ("subdevice_support_flag", u32 no_unit 1 30207)
    ∷ ("subdevice_in_position_flag", u32 no_unit 1 30209)
    ∷ ("feature_mask_1", u32 no_unit 1 30211)
    ∷ ("feature_mask_2", u32 no_unit 1 30213)
    ∷ ("feature_mask_3", u32 no_unit 1 30215)
    ∷ ("feature_mask_4", u32 no_unit 1 30217)
    ∷ ("realtime_max_active_capability", i32 no_unit 1 30366)
    ∷ ("realtime_max_inductive_reactive_capacity", i32 no_unit 1 30368)
    ∷ ("offering_name_of_southbound_device_1", string 30561 15)
    ∷ ("offering_name_of_southbound_device_2", string 30576 15)
    ∷ ("offering_name_of_southbound_device_3", string 30591 15)
    ∷ ("hardware_version", string 31000 15)
    ∷ ("monitoring_board_sn", string 31015 10)
    ∷ ("monitoring_software_version", string 31025 15)
    ∷ ("master_dsp_version", string 31040 15)
    ∷ ("slave_dsp_version", string 31055 15)
    ∷ ("cpld_version", string 31070 15)
    ∷ ("afci_version", string 31085 15)
    ∷ ("builtin_pid_version", string 31100 15)
    ∷ ("dc_mbus_version", string 31115 15)
    ∷ ("el_module_version", string 31130 15)
    ∷ ("afci_2_version", string 31145 15)
    ∷ ("regkey", string 31200 10)
    ∷ ("state_1", u16 (bitfield state_codes_1) 1 32000)
    ∷ ("state_2", u16 (bitfield state_codes_2) 1 32002)
    ∷ ("state_3", u32 (bitfield state_codes_3) 1 32003)
    ∷ ("alarm_1", u16_ignoring_invalid (bitfield alarm_codes_1) 1 32008)
    ∷ ("alarm_2", u16_ignoring_invalid (bitfield alarm_codes_2) 1 32009)
    ∷ ("alarm_3", u16 (bitfield alarm_codes_3) 1 32010)
    ∷ ("input_power", i32 (text "W") 1 32064)
    ∷ ("grid_voltage", u16 (text "V") 10 32066)
    ∷ ("line_voltage_A_B", u16 (text "V") 10 32066)
    ∷ ("line_voltage_B_C", u16 (text "V") 10 32067)
    ∷ ("line_voltage_C_A", u16 (text "V") 10 32068)
    ∷ ("phase_A_voltage", u16 (text "V") 10 32069)
    ∷ ("phase_B_voltage", u16 (text "V") 10 32070)
    ∷ ("phase_C_voltage", u16 (text "V") 10 32071)
    ∷ ("grid_current", i32 (text "A") 1000 32072)
    ∷ ("phase_A_current", i32 (text "A") 1000 32072)
    ∷ ("phase_B_current", i32 (text "A") 1000 32074)
    ∷ ("phase_C_current", i32 (text "A") 1000 32076)
    ∷ ("day_active_power_peak", i32 (text "W") 1 32078)
    ∷ ("active_power", i32 (text "W") 1 32080)
    ∷ ("reactive_power", i32 (text "var") 1 32082)
    ∷ ("power_factor", i16 no_unit 1000 32084)
    ∷ ("grid_frequency", u16 (text "Hz") 100 32085)
    ∷ ("efficiency", u16 (text "%") 100 32086)
    ∷ ("internal_temperature", i16 (text "°C") 10 32087)
    ∷ ("insulation_resistance", u16 (text "MOhm") 1000 32088)
    ∷ ("device_status", u16 (table device_status_definitions) 1 32089)
    ∷ ("fault_code", u16 no_unit 1 32090)
    ∷ ("startup_time", timestamp 32091)
    ∷ ("shutdown_time", timestamp 32093)
    ∷ ("active_power_fast", i32 (text "W") 1 32095)
    ∷ ("accumulated_yield_energy", u32 (text "kWh") 100 32106)
    ∷ ("total_dc_input_power", u32 (text "kWh") 100 32108)
    ∷ ("current_electricity_generation_statistics_time", timestamp 32110)
    ∷ ("hourly_yield_energy", u32 (text "kWh") 100 32112)
    ∷ ("daily_yield_energy", u32 (text "kWh") 100 32114)
    ∷ ("monthly_yield_energy", u32 (text "kWh") 100 32116)
    ∷ ("yearly_yield_energy", u32 (text "kWh") 100 32118)
    ∷ ("latest_active_alarm_sn", u32 no_unit 1 32172)
    ∷ ("latest_historical_alarm_sn", u32 no_unit 1 32174)
    ∷ ("total_bus_voltage", i16 (text "V") 10 32176)
    ∷ ("max_pv_voltage", i16 (text "V") 10 32177)
    ∷ ("min_pv_voltage", i16 (text "V") 10 32178)
    ∷ ("average_pv_negative_voltage_to_ground", i16 (text "V") 10 32179)
    ∷ ("min_pv_negative_voltage_to_ground", i16 (text "V") 10 32180)
    ∷ ("max_pv_negative_voltage_to_ground", i16 (text "V") 10 32181)
    ∷ ("inverter_to_pe_voltage_tolerance", u16 (text "V") 1 32182)
    ∷ ("iso_feature_information", u16 no_unit 1 32183)
    ∷ ("builtin_pid_running_status", u16 no_unit 1 32190)
    ∷ ("pv_negative_voltage_to_ground", i16 (text "V") 10 32191)
    ∷ ("cumulative_dc_energy_yield_mppt1", u32 (text "kWh") 100 32212)
    ∷ ("cumulative_dc_energy_yield_mppt2", u32 (text "kWh") 100 32214)
    ∷ ("cumulative_dc_energy_yield_mppt3", u32 (text "kWh") 100 32216)
    ∷ ("cumulative_dc_energy_yield_mppt4", u32 (text "kWh") 100 32218)
    ∷ ("cumulative_dc_energy_yield_mppt5", u32 (text "kWh") 100 32220)
    ∷ ("cumulative_dc_energy_yield_mppt6", u32 (text "kWh") 100 32222)
    ∷ ("cumulative_dc_energy_yield_mppt7", u32 (text "kWh") 100 32224)
    ∷ ("cumulative_dc_energy_yield_mppt8", u32 (text "kWh") 100 32226)
    ∷ []
