-- ===== src/Registers/Table/BatteryRegistersPart1.antt =====
-- BATTERY_REGISTERS of src/huawei_solar/registers.py, part 1 of 2.
use Prim.Native.String.{String}
use huawei_solar_lib.Base.{List, [], ◌∷◌}
use huawei_solar_lib.Registers.Definition.{
  Register, no_unit, text, bool, enum, string, u16, u32, i16, i32,
}
use huawei_solar_lib.Registers.Values.Enums.{
  storage_status, storage_working_modes_a, storage_working_modes_b, storage_product_model,
}

unfoldable pub battery_registers_part_1 : List (String × Register)
battery_registers_part_1 =
    ("storage_unit_1_running_status", u16 (enum storage_status) 1 37000)
    ∷ ("storage_unit_1_charge_discharge_power", i32 (text "W") 1 37001)
    ∷ ("storage_unit_1_bus_voltage", u16 (text "V") 10 37003)
    ∷ ("storage_unit_1_state_of_capacity", u16 (text "%") 10 37004)
    ∷ ("storage_unit_1_working_mode_b", u16 (enum storage_working_modes_b) 1 37006)
    ∷ ("storage_unit_1_rated_charge_power", u32 (text "W") 1 37007)
    ∷ ("storage_unit_1_rated_discharge_power", u32 (text "W") 1 37009)
    ∷ ("storage_unit_1_fault_id", u16 no_unit 1 37014)
    ∷ ("storage_unit_1_current_day_charge_capacity", u32 (text "kWh") 100 37015)
    ∷ ("storage_unit_1_current_day_discharge_capacity", u32 (text "kWh") 100 37017)
    ∷ ("storage_unit_1_bus_current", i16 (text "A") 10 37021)
    ∷ ("storage_unit_1_battery_temperature", i16 (text "°C") 10 37022)
    ∷ ("storage_unit_1_remaining_charge_dis_charge_time", u16 (text "min") 1 37025)
    ∷ ("storage_unit_1_dcdc_version", string 37026 10)
    ∷ ("storage_unit_1_bms_version", string 37036 10)
    ∷ ("storage_maximum_charge_power", u32 (text "W") 1 37046)
    ∷ ("storage_maximum_discharge_power", u32 (text "W") 1 37048)
    ∷ ("storage_unit_1_serial_number", string 37052 10)
    ∷ ("storage_unit_1_total_charge", u32 (text "kWh") 100 37066)
    ∷ ("storage_unit_1_total_discharge", u32 (text "kWh") 100 37068)
    ∷ ("storage_unit_2_serial_number", string 37700 10)
    ∷ ("storage_unit_2_state_of_capacity", u16 (text "%") 10 37738)
    ∷ ("storage_unit_2_running_status", u16 (enum storage_status) 1 37741)
    ∷ ("storage_unit_2_charge_discharge_power", i32 (text "W") 1 37743)
    ∷ ("storage_unit_2_current_day_charge_capacity", u32 (text "kWh") 100 37746)
    ∷ ("storage_unit_2_current_day_discharge_capacity", u32 (text "kWh") 100 37748)
    ∷ ("storage_unit_2_bus_voltage", u16 (text "V") 10 37750)
    ∷ ("storage_unit_2_bus_current", i16 (text "A") 10 37751)
    ∷ ("storage_unit_2_battery_temperature", i16 (text "°C") 10 37752)
    ∷ ("storage_unit_2_total_charge", u32 (text "kWh") 100 37753)
    ∷ ("storage_unit_2_total_discharge", u32 (text "kWh") 100 37755)
    ∷ ("storage_rated_capacity", u32 (text "Wh") 1 37758)
    ∷ ("storage_state_of_capacity", u16 (text "%") 10 37760)
    ∷ ("storage_running_status", u16 (enum storage_status) 1 37762)
    ∷ ("storage_bus_voltage", u16 (text "V") 10 37763)
    ∷ ("storage_bus_current", i16 (text "A") 10 37764)
    ∷ ("storage_charge_discharge_power", i32 (text "W") 1 37765)
    ∷ ("storage_total_charge", u32 (text "kWh") 100 37780)
    ∷ ("storage_total_discharge", u32 (text "kWh") 100 37782)
    ∷ ("storage_current_day_charge_capacity", u32 (text "kWh") 100 37784)
    ∷ ("storage_current_day_discharge_capacity", u32 (text "kWh") 100 37786)
    ∷ ("storage_unit_2_software_version", string 37799 15)
    ∷ ("storage_unit_1_software_version", string 37814 15)
    ∷ ("storage_unit_1_battery_pack_1_soh_calibration_status", u16 no_unit 1 37920)
    ∷ ("storage_unit_1_battery_pack_2_soh_calibration_status", u16 no_unit 1 37921)
    ∷ ("storage_unit_1_battery_pack_3_soh_calibration_status", u16 no_unit 1 37922)
    ∷ ("storage_unit_2_battery_pack_1_soh_calibration_status", u16 no_unit 1 37923)
    ∷ ("storage_unit_2_battery_pack_2_soh_calibration_status", u16 no_unit 1 37924)
    ∷ ("storage_unit_2_battery_pack_3_soh_calibration_status", u16 no_unit 1 37925)
    ∷ ("storage_unit_soh_calibration_status", u16 no_unit 1 37926)
    ∷ ("storage_unit_soh_calibration_release_lower_limit_of_soc", u16 no_unit 1 37927)
    ∷ ("storage_unit_1_battery_pack_1_serial_number", string 38200 10)
    ∷ ("storage_unit_1_battery_pack_1_firmware_version", string 38210 15)
    ∷ ("storage_unit_1_battery_pack_1_working_status", u16 no_unit 1 38228)
    ∷ ("storage_unit_1_battery_pack_1_state_of_capacity", u16 (text "%") 10 38229)
    ∷ ("storage_unit_1_battery_pack_1_charge_discharge_power", i32 (text "W") 1 38233)
    ∷ ("storage_unit_1_battery_pack_1_voltage", u16 (text "V") 10 38235)
    ∷ ("storage_unit_1_battery_pack_1_current", i16 (text "A") 10 38236)
    ∷ ("storage_unit_1_battery_pack_1_total_charge", u32 (text "kWh") 100 38238)
    ∷ ("storage_unit_1_battery_pack_1_total_discharge", u32 (text "kWh") 100 38240)
    ∷ ("storage_unit_1_battery_pack_2_serial_number", string 38242 10)
    ∷ ("storage_unit_1_battery_pack_2_firmware_version", string 38252 15)
    ∷ ("storage_unit_1_battery_pack_2_working_status", u16 no_unit 1 38270)
    ∷ ("storage_unit_1_battery_pack_2_state_of_capacity", u16 (text "%") 10 38271)
    ∷ ("storage_unit_1_battery_pack_2_charge_discharge_power", i32 (text "W") 1 38275)
    ∷ ("storage_unit_1_battery_pack_2_voltage", u16 (text "V") 10 38277)
    ∷ ("storage_unit_1_battery_pack_2_current", i16 (text "A") 10 38278)
    ∷ ("storage_unit_1_battery_pack_2_total_charge", u32 (text "kWh") 100 38280)
    ∷ ("storage_unit_1_battery_pack_2_total_discharge", u32 (text "kWh") 100 38282)
    ∷ ("storage_unit_1_battery_pack_3_serial_number", string 38284 10)
    ∷ ("storage_unit_1_battery_pack_3_firmware_version", string 38294 15)
    ∷ ("storage_unit_1_battery_pack_3_working_status", u16 no_unit 1 38312)
    ∷ ("storage_unit_1_battery_pack_3_state_of_capacity", u16 (text "%") 10 38313)
    ∷ ("storage_unit_1_battery_pack_3_charge_discharge_power", i32 (text "W") 1 38317)
    ∷ ("storage_unit_1_battery_pack_3_voltage", u16 (text "V") 10 38319)
    ∷ ("storage_unit_1_battery_pack_3_current", i16 (text "A") 10 38320)
    ∷ ("storage_unit_1_battery_pack_3_total_charge", u32 (text "kWh") 100 38322)
    ∷ ("storage_unit_1_battery_pack_3_total_discharge", u32 (text "kWh") 100 38324)
    ∷ ("storage_unit_2_battery_pack_1_serial_number", string 38326 10)
    ∷ ("storage_unit_2_battery_pack_1_firmware_version", string 38336 15)
    ∷ ("storage_unit_2_battery_pack_1_working_status", u16 no_unit 1 38354)
    ∷ ("storage_unit_2_battery_pack_1_state_of_capacity", u16 (text "%") 10 38355)
    ∷ ("storage_unit_2_battery_pack_1_charge_discharge_power", i32 (text "W") 1 38359)
    ∷ ("storage_unit_2_battery_pack_1_voltage", u16 (text "V") 10 38361)
    ∷ ("storage_unit_2_battery_pack_1_current", i16 (text "A") 10 38362)
    ∷ ("storage_unit_2_battery_pack_1_total_charge", u32 (text "kWh") 100 38364)
    ∷ ("storage_unit_2_battery_pack_1_total_discharge", u32 (text "kWh") 100 38366)
    ∷ ("storage_unit_2_battery_pack_2_serial_number", string 38368 10)
    ∷ ("storage_unit_2_battery_pack_2_firmware_version", string 38378 15)
    ∷ ("storage_unit_2_battery_pack_2_working_status", u16 no_unit 1 38396)
    ∷ ("storage_unit_2_battery_pack_2_state_of_capacity", u16 (text "%") 10 38397)
    ∷ ("storage_unit_2_battery_pack_2_charge_discharge_power", i32 (text "W") 1 38401)
    ∷ ("storage_unit_2_battery_pack_2_voltage", u16 (text "V") 10 38403)
    ∷ ("storage_unit_2_battery_pack_2_current", i16 (text "A") 10 38404)
    ∷ ("storage_unit_2_battery_pack_2_total_charge", u32 (text "kWh") 100 38406)
    ∷ ("storage_unit_2_battery_pack_2_total_discharge", u32 (text "kWh") 100 38408)
    ∷ ("storage_unit_2_battery_pack_3_serial_number", string 38410 10)
    ∷ ("storage_unit_2_battery_pack_3_firmware_version", string 38420 15)
    ∷ ("storage_unit_2_battery_pack_3_working_status", u16 no_unit 1 38438)
    ∷ ("storage_unit_2_battery_pack_3_state_of_capacity", u16 (text "%") 10 38439)
    ∷ ("storage_unit_2_battery_pack_3_charge_discharge_power", i32 (text "W") 1 38443)
    ∷ ("storage_unit_2_battery_pack_3_voltage", u16 (text "V") 10 38445)
    ∷ ("storage_unit_2_battery_pack_3_current", i16 (text "A") 10 38446)
    ∷ ("storage_unit_2_battery_pack_3_total_charge", u32 (text "kWh") 100 38448)
    ∷ ("storage_unit_2_battery_pack_3_total_discharge", u32 (text "kWh") 100 38450)
    ∷ ("storage_unit_1_battery_pack_1_maximum_temperature", i16 (text "°C") 10 38452)
    ∷ ("storage_unit_1_battery_pack_1_minimum_temperature", i16 (text "°C") 10 38453)
    ∷ ("storage_unit_1_battery_pack_2_maximum_temperature", i16 (text "°C") 10 38454)
    ∷ ("storage_unit_1_battery_pack_2_minimum_temperature", i16 (text "°C") 10 38455)
    ∷ ("storage_unit_1_battery_pack_3_maximum_temperature", i16 (text "°C") 10 38456)
    ∷ ("storage_unit_1_battery_pack_3_minimum_temperature", i16 (text "°C") 10 38457)
    ∷ ("storage_unit_2_battery_pack_1_maximum_temperature", i16 (text "°C") 10 38458)
    ∷ ("storage_unit_2_battery_pack_1_minimum_temperature", i16 (text "°C") 10 38459)
    ∷ ("storage_unit_2_battery_pack_2_maximum_temperature", i16 (text "°C") 10 38460)
    ∷ ("storage_unit_2_battery_pack_2_minimum_temperature", i16 (text "°C") 10 38461)
    ∷ ("storage_unit_2_battery_pack_3_maximum_temperature", i16 (text "°C") 10 38462)
    ∷ ("storage_unit_2_battery_pack_3_minimum_temperature", i16 (text "°C") 10 38463)
    ∷ ("storage_unit_1_product_model", u16 (enum storage_product_model) 1 47000)
    ∷ ("storage_working_mode_a", i16 (enum storage_working_modes_a) 1 47004)
    ∷ ("storage_time_of_use_price", i16 bool 1 47027)
    ∷ []
