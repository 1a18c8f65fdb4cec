-- ===== src/Registers/Values/Enums.antt =====
-- The enums of src/huawei_solar/register_values.py.
use huawei_solar_lib.Base.{[], ◌∷◌}
use huawei_solar_lib.Registers.Values.{IntEnum}

abbrev pub storage_status : IntEnum
storage_status = record {
  class_name = "StorageStatus";
  members =
      ("OFFLINE", 0) ∷ ("STANDBY", 1) ∷ ("RUNNING", 2) ∷ ("FAULT", 3) ∷ ("SLEEP_MODE", 4) ∷ [];
}

abbrev pub storage_working_modes_a : IntEnum
storage_working_modes_a = record {
  class_name = "StorageWorkingModesA";
  members =
      ("UNLIMITED", 0)
      ∷ ("GRID_CONNECTION_WITH_ZERO_POWER", 1)
      ∷ ("GRID_CONNECTION_WITH_LIMITED_POWER", 2)
      ∷ [];
}

abbrev pub storage_working_modes_b : IntEnum
storage_working_modes_b = record {
  class_name = "StorageWorkingModesB";
  members =
      ("NONE", 0)
      ∷ ("FORCIBLE_CHARGE_DISCHARGE", 1)
      ∷ ("TIME_OF_USE_LG", 2)
      ∷ ("FIXED_CHARGE_DISCHARGE", 3)
      ∷ ("MAXIMISE_SELF_CONSUMPTION", 4)
      ∷ ("FULLY_FED_TO_GRID", 5)
      ∷ ("TIME_OF_USE_LUNA2000", 6)
      ∷ ("REMOTE_SCHEDULING_MAXIMUM_SELF_USE", 7)
      ∷ ("REMOTE_SCHEDULING_FULL_INTERNET_ACCESS", 8)
      ∷ ("REMOTE_SCHEDULING_TOU", 9)
      ∷ ("AI_ENERGY_MANAGEMENT_AND_SCHEDULING", 10)
      ∷ ("REMOTE_SCHEDULING_AI_CONTROL", 11)
      ∷ [];
}

abbrev pub storage_working_modes_c : IntEnum
storage_working_modes_c = record {
  class_name = "StorageWorkingModesC";
  members =
      ("ADAPTIVE", 0)
      ∷ ("FIXED_CHARGE_DISCHARGE", 1)
      ∷ ("MAXIMISE_SELF_CONSUMPTION", 2)
      ∷ ("TIME_OF_USE_LG", 3)
      ∷ ("FULLY_FED_TO_GRID", 4)
      ∷ ("TIME_OF_USE_LUNA2000", 5)
      ∷ [];
}

abbrev pub storage_product_model : IntEnum
storage_product_model = record {
  class_name = "StorageProductModel";
  members = ("NONE", 0) ∷ ("LG_RESU", 1) ∷ ("HUAWEI_LUNA2000", 2) ∷ [];
}

abbrev pub storage_forcible_charge_discharge : IntEnum
storage_forcible_charge_discharge = record {
  class_name = "StorageForcibleChargeDischarge";
  members = ("STOP", 0) ∷ ("CHARGE", 1) ∷ ("DISCHARGE", 2) ∷ [];
}

abbrev pub storage_forcible_charge_discharge_target_mode : IntEnum
storage_forcible_charge_discharge_target_mode = record {
  class_name = "StorageForcibleChargeDischargeTargetMode";
  members = ("TIME", 0) ∷ ("SOC", 1) ∷ [];
}

abbrev pub storage_excess_pv_energy_use_in_tou : IntEnum
storage_excess_pv_energy_use_in_tou = record {
  class_name = "StorageExcessPvEnergyUseInTOU";
  members = ("FED_TO_GRID", 0) ∷ ("CHARGE", 1) ∷ [];
}

abbrev pub active_power_control_mode : IntEnum
active_power_control_mode = record {
  class_name = "ActivePowerControlMode";
  members =
      ("UNLIMITED", 0)
      ∷ ("DI_ACTIVE_SCHEDULING", 1)
      ∷ ("ZERO_POWER_GRID_CONNECTION", 5)
      ∷ ("POWER_LIMITED_GRID_CONNECTION_WATT", 6)
      ∷ ("POWER_LIMITED_GRID_CONNECTION_PERCENT", 7)
      ∷ [];
}

abbrev pub meter_status : IntEnum
meter_status = record { class_name = "MeterStatus"; members = ("OFFLINE", 0) ∷ ("NORMAL", 1) ∷ [] }

abbrev pub meter_type : IntEnum
meter_type = record {
  class_name = "MeterType";
  members = ("SINGLE_PHASE", 0) ∷ ("THREE_PHASE", 1) ∷ [];
}

abbrev pub meter_type_check : IntEnum
meter_type_check = record {
  class_name = "MeterTypeCheck";
  members = ("RECOGNIZING", 0) ∷ ("MATCHES_WITH_METER", 1) ∷ ("MATCHES_NOT_WITH_METER", 2) ∷ [];
}

abbrev pub backup_voltage_independent_operation : IntEnum
backup_voltage_independent_operation = record {
  class_name = "BackupVoltageIndependentOperation";
  members = ("BV_101V", 0) ∷ ("BV_202V", 1) ∷ [];
}

abbrev pub storage_capacity_control_mode : IntEnum
storage_capacity_control_mode = record {
  class_name = "StorageCapacityControlMode";
  members = ("DISABLE", 0) ∷ ("ACTIVE_CAPACITY_CONTROL", 1) ∷ ("APPARENT_POWER_LIMIT", 2) ∷ [];
}

abbrev pub wlan_wakeup : IntEnum
wlan_wakeup = record { class_name = "WlanWakeup"; members = ("WAKEN_UP", 0) ∷ ("DISABLED", 1) ∷ [] }

abbrev pub remote_charge_discharge_control_mode : IntEnum
remote_charge_discharge_control_mode = record {
  class_name = "RemoteChargeDischargeControlMode";
  members =
      ("LOCAL_CONTROL", 0)
      ∷ ("REMOTE_CONTROL_MAXIMUM_SELF_CONSUMPTION", 1)
      ∷ ("REMOTE_CONTROL_FULLY_FED_TO_GRID", 2)
      ∷ ("REMOTE_CONTROL_TOU", 3)
      ∷ ("REMOTE_CONTROL_AI_CONTROL", 4)
      ∷ [];
}

abbrev pub emma_external_meter_running_status : IntEnum
emma_external_meter_running_status = record {
  class_name = "EmmaExternalMeterRunningStatus";
  members = ("ONLINE", 0) ∷ ("OFFLINE", 1) ∷ [];
}

abbrev pub emma_ess_control_mode : IntEnum
emma_ess_control_mode = record {
  class_name = "EmmaEssControlMode";
  members =
      ("RESERVED_1", 1)
      ∷ ("MAXIMUM_SELF_CONSUMPTION", 2)
      ∷ ("RESERVED_3", 3)
      ∷ ("FULLY_FED_TO_GRID", 4)
      ∷ ("TIME_OF_USE", 5)
      ∷ ("THIRD_PARTY_DISPATCH", 6)
      ∷ [];
}

abbrev pub emma_limitation_mode : IntEnum
emma_limitation_mode = record {
  class_name = "EmmaLimitationMode";
  members = ("TOTAL_POWER", 0) ∷ ("SINGLE_PHASE_POWER", 1) ∷ [];
}

abbrev pub emma_power_supply_configuration : IntEnum
emma_power_supply_configuration = record {
  class_name = "EmmaPowerSupplyConfiguration";
  members =
      ("NONE", 0) ∷ ("MAINS_ONLY", 1) ∷ ("MAINS_AND_GENERATOR", 2) ∷ ("GENERATOR_ONLY", 3) ∷ [];
}

abbrev pub emma_consider_mains_faulty_if : IntEnum
emma_consider_mains_faulty_if = record {
  class_name = "EmmaConsiderMainsFaultyIf";
  members = ("OPEN", 0) ∷ ("CLOSED", 1) ∷ [];
}
