-- ===== src/Registers/Table/EmmaRegistersPart1.antt =====
-- EMMA_REGISTERS of src/huawei_solar/registers.py, part 1 of 2.
use Prim.Native.String.{String}
use huawei_solar_lib.Base.{List, [], ◌∷◌}
use huawei_solar_lib.Registers.Definition.{
  Register, emma, no_unit, text, enum, string, u16, u32, u64, i32, i64, for_device,
}
use huawei_solar_lib.Registers.Values.Enums.{emma_external_meter_running_status}

unfoldable pub emma_registers_part_1 : List (String × Register)
emma_registers_part_1 =
    ("emma_software_version", for_device emma (string 30035 15))
    ∷ ("emma_model", for_device emma (string 30222 20))
    ∷ ("inverter_total_absorbed_energy", for_device emma (u64 (text "kWh") 100 30302))
    ∷ ("energy_charged_today", for_device emma (u32 (text "kWh") 100 30306))
    ∷ ("total_charged_energy", for_device emma (u64 (text "kWh") 100 30308))
    ∷ ("energy_discharged_today", for_device emma (u32 (text "kWh") 100 30312))
    ∷ ("total_discharged_energy", for_device emma (u64 (text "kWh") 100 30314))
    ∷ ("ess_chargeable_energy", for_device emma (u32 (text "kWh") 1000 30318))
    ∷ ("ess_dischargeable_energy", for_device emma (u32 (text "kWh") 1000 30320))
    ∷ ("rated_ess_capacity", for_device emma (u32 (text "kWh") 1000 30322))
    ∷ ("consumption_today", for_device emma (u32 (text "kWh") 100 30324))
    ∷ ("total_energy_consumption", for_device emma (u64 (text "kWh") 100 30326))
    ∷ ("feed_in_to_grid_today", for_device emma (u32 (text "kWh") 100 30330))
    ∷ ("total_feed_in_to_grid", for_device emma (u64 (text "kWh") 100 30332))
    ∷ ("supply_from_grid_today", for_device emma (u32 (text "kWh") 100 30336))
    ∷ ("total_supply_from_grid", for_device emma (u64 (text "kWh") 100 30338))
    ∷ ("inverter_energy_yield_today", for_device emma (u32 (text "kWh") 100 30342))
    ∷ ("inverter_total_energy_yield", for_device emma (u32 (text "kWh") 100 30344))
    ∷ ("pv_yield_today", for_device emma (u32 (text "kWh") 100 30346))
    ∷ ("total_pv_energy_yield", for_device emma (u64 (text "kWh") 100 30348))
    ∷ ("pv_output_power", for_device emma (u32 (text "W") 1 30354))
    ∷ ("load_power", for_device emma (u32 (text "W") 1 30356))
    ∷ ("feed_in_power", for_device emma (i32 (text "W") 1 30358))
    ∷ ("battery_charge_discharge_power", for_device emma (i32 (text "W") 1 30360))
    ∷ ("inverter_rated_power", for_device emma (u32 (text "W") 1 30362))
    ∷ ("inverter_active_power", for_device emma (i32 (text "W") 1 30364))
    ∷ ("state_of_capacity", for_device emma (u16 (text "%") 100 30368))
    ∷ ("ess_chargeable_capacity", for_device emma (u32 (text "kWh") 1000 30369))
    ∷ ("ess_dischargeable_capacity", for_device emma (u32 (text "kWh") 1000 30371))
    ∷ ("backup_power_state_of_charge", for_device emma (u16 (text "%") 100 30373))
    ∷ ("yield_this_month", for_device emma (u32 (text "kWh") 100 30380))
    ∷ ("monthly_energy_consumption", for_device emma (u32 (text "kWh") 100 30382))
    ∷ ("monthly_feed_in_to_grid", for_device emma (u32 (text "kWh") 100 30384))
    ∷ ("yield_this_year", for_device emma (u32 (text "kWh") 100 30386))
    ∷ ("annual_energy_consumption", for_device emma (u32 (text "kWh") 100 30388))
    ∷ ("yearly_feed_in_to_grid", for_device emma (u32 (text "kWh") 100 30390))
    ∷ ("monthly_supply_from_grid", for_device emma (u32 (text "kWh") 100 30394))
    ∷ ("yearly_supply_from_grid", for_device emma (u32 (text "kWh") 100 30396))
    ∷ ("backup_time_notification_threshold", for_device emma (u16 (text "min") 1 30406))
    ∷ ("energy_charged_this_month", for_device emma (u32 (text "kWh") 100 30407))
    ∷ ("energy_discharged_this_month", for_device emma (u32 (text "kWh") 100 30409))
    ∷ (
      "emma_external_meter_running_status",
      for_device emma (u16 (enum emma_external_meter_running_status) 1 30500),
    )
    ∷ ("emma_external_meter_phase_a_voltage", for_device emma (u32 (text "V") 100 30502))
    ∷ ("emma_external_meter_phase_b_voltage", for_device emma (u32 (text "V") 100 30504))
    ∷ ("emma_external_meter_phase_c_voltage", for_device emma (u32 (text "V") 100 30506))
    ∷ ("emma_external_meter_line_voltage_a_b", for_device emma (u32 (text "V") 100 30508))
    ∷ ("emma_external_meter_line_voltage_b_c", for_device emma (u32 (text "V") 100 30510))
    ∷ ("emma_external_meter_line_voltage_c_a", for_device emma (u32 (text "V") 100 30512))
    ∷ ("emma_external_meter_phase_a_current", for_device emma (i32 (text "A") 10 30514))
    ∷ ("emma_external_meter_phase_b_current", for_device emma (i32 (text "A") 10 30516))
    ∷ ("emma_external_meter_phase_c_current", for_device emma (i32 (text "A") 10 30518))
    ∷ ("emma_external_meter_active_power", for_device emma (i32 (text "W") 1 30520))
    ∷ ("emma_external_meter_power_factor", for_device emma (i32 no_unit 1000 30524))
    ∷ ("emma_external_meter_apparent_power", for_device emma (i32 (text "VA") 1 30526))
    ∷ ("emma_external_meter_phase_a_active_power", for_device emma (i32 (text "W") 1 30528))
    ∷ ("emma_external_meter_phase_b_active_power", for_device emma (i32 (text "W") 1 30530))
    ∷ ("emma_external_meter_phase_c_active_power", for_device emma (i32 (text "W") 1 30532))
    ∷ ("emma_external_meter_total_active_energy", for_device emma (i64 (text "kWh") 100 30534))
    ∷ (
      "emma_external_meter_total_negative_active_energy",
      for_device emma (i64 (text "kWh") 100 30542),
    )
    ∷ (
      "emma_external_meter_total_positive_active_energy",
      for_device emma (i64 (text "kWh") 100 30550),
    )
    ∷ ("number_of_inverters_found", for_device emma (u16 no_unit 1 30801))
    ∷ ("number_of_chargers_found", for_device emma (u16 no_unit 1 30804))
    ∷ ("phase_a_voltage_built_in_energy_sensor", for_device emma (u32 (text "V") 100 31639))
    ∷ ("phase_b_voltage_built_in_energy_sensor", for_device emma (u32 (text "V") 100 31641))
    ∷ ("phase_c_voltage_built_in_energy_sensor", for_device emma (u32 (text "V") 100 31643))
    ∷ ("line_voltage_a_b_built_in_energy_sensor", for_device emma (u32 (text "V") 100 31645))
    ∷ ("line_voltage_b_c_built_in_energy_sensor", for_device emma (u32 (text "V") 100 31647))
    ∷ ("line_voltage_c_a_built_in_energy_sensor", for_device emma (u32 (text "V") 100 31649))
    ∷ ("phase_a_current_built_in_energy_sensor", for_device emma (i32 (text "A") 10 31651))
    ∷ ("phase_b_current_built_in_energy_sensor", for_device emma (i32 (text "A") 10 31653))
    ∷ ("phase_c_current_built_in_energy_sensor", for_device emma (i32 (text "A") 10 31655))
    ∷ ("active_power_built_in_energy_sensor", for_device emma (i32 (text "W") 1 31657))
    ∷ ("power_factor_built_in_energy_sensor", for_device emma (i32 no_unit 1000 31661))
    ∷ ("apparent_power_built_in_energy_sensor", for_device emma (i32 (text "VA") 1 31663))
    ∷ ("phase_a_active_power_built_in_energy_sensor", for_device emma (i32 (text "W") 1 31665))
    ∷ ("phase_b_active_power_built_in_energy_sensor", for_device emma (i32 (text "W") 1 31667))
    ∷ ("phase_c_active_power_built_in_energy_sensor", for_device emma (i32 (text "W") 1 31669))
    ∷ ("total_active_energy_built_in_energy_sensor", for_device emma (i64 (text "kWh") 100 31671))
    ∷ (
      "total_negative_active_energy_built_in_energy_sensor",
      for_device emma (i64 (text "kWh") 100 31679),
    )
    ∷ (
      "total_positive_active_energy_built_in_energy_sensor",
      for_device emma (i64 (text "kWh") 100 31687),
    )
    ∷ []
