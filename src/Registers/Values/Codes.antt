-- ===== src/Registers/Values/Codes.antt =====
-- The tables of states and alarms of src/huawei_solar/register_values.py, in their order.
use huawei_solar_lib.Base.{ℕ, List, [], ◌∷◌}
use huawei_solar_lib.Registers.Values.{BitMeaning, status, on_off, alarm, Definition, description}

unfoldable pub device_status_definitions : List (ℕ × Definition)
device_status_definitions =
    (0, description "Standby: initializing")
    ∷ (1, description "Standby: detecting insulation resistance")
    ∷ (2, description "Standby: detecting irradiation")
    ∷ (3, description "Standby: grid detecting")
    ∷ (256, description "Starting")
    ∷ (512, description "On-grid")
    ∷ (513, description "Grid Connection: power limited")
    ∷ (514, description "Grid Connection: self-derating")
    ∷ (515, description "Off-grid mode: running")
    ∷ (768, description "Shutdown: fault")
    ∷ (769, description "Shutdown: command")
    ∷ (770, description "Shutdown: OVGR")
    ∷ (771, description "Shutdown: communication disconnected")
    ∷ (772, description "Shutdown: power limited")
    ∷ (773, description "Shutdown: manual startup required")
    ∷ (774, description "Shutdown: DC switches disconnected")
    ∷ (775, description "Shutdown: rapid cutoff")
    ∷ (776, description "Shutdown: input underpowered")
    ∷ (1025, description "Grid scheduling: cosphi-P curve")
    ∷ (1026, description "Grid scheduling: Q-U curve")
    ∷ (1027, description "Grid scheduling: PF-U curve")
    ∷ (1028, description "Grid scheduling: dry contact")
    ∷ (1029, description "Grid scheduling: Q-P curve")
    ∷ (1280, description "Spot-check ready")
    ∷ (1281, description "Spot-checking")
    ∷ (1536, description "Inspecting")
    ∷ (1792, description "AFCI self check")
    ∷ (2048, description "I-V scanning")
    ∷ (2304, description "DC input detection")
    ∷ (2560, description "Running: off-grid charging")
    ∷ (40960, description "Standby: no irradiation")
    ∷ []

unfoldable pub state_codes_1 : List (ℕ × BitMeaning)
state_codes_1 =
    (1, status "Standby")
    ∷ (2, status "Grid-Connected")
    ∷ (4, status "Grid-Connected normally")
    ∷ (8, status "Grid connection with derating due to power rationing")
    ∷ (16, status "Grid connection with derating due to internal causes of the solar inverter")
    ∷ (32, status "Normal stop")
    ∷ (64, status "Stop due to faults")
    ∷ (128, status "Stop due to power rationing")
    ∷ (256, status "Shutdown")
    ∷ (512, status "Spot check")
    ∷ []

unfoldable pub state_codes_2 : List (ℕ × BitMeaning)
state_codes_2 =
    (1, on_off (record { off_value = "Locked"; on_value = "Unlocked" }))
    ∷ (2, on_off (record { off_value = "PV disconnected"; on_value = "PV connected" }))
    ∷ (
      4,
      on_off (record { off_value = "No DSP data collection"; on_value = "DSP data collection" }),
    )
    ∷ []

unfoldable pub state_codes_3 : List (ℕ × BitMeaning)
state_codes_3 =
    (1, on_off (record { off_value = "On-grid"; on_value = "Off-grid" }))
    ∷ (
      2,
      on_off
          (record { off_value = "Off-grid switch disabled"; on_value = "Off-grid switch enabled" }),
    )
    ∷ []

unfoldable pub alarm_codes_1 : List (ℕ × BitMeaning)
alarm_codes_1 =
    (1, alarm (record { name = "High String Input Voltage"; id = 2001; level = "Major" }))
    ∷ (2, alarm (record { name = "DC Arc Fault"; id = 2002; level = "Major" }))
    ∷ (4, alarm (record { name = "String Reverse Connection"; id = 2011; level = "Major" }))
    ∷ (8, alarm (record { name = "String Current Backfeed"; id = 2012; level = "Warning" }))
    ∷ (16, alarm (record { name = "Abnormal String Power"; id = 2013; level = "Warning" }))
    ∷ (32, alarm (record { name = "AFCI Self-Check Fail"; id = 2021; level = "Major" }))
    ∷ (64, alarm (record { name = "Phase Wire Short-Circuited to PE"; id = 2031; level = "Major" }))
    ∷ (128, alarm (record { name = "Grid Loss"; id = 2032; level = "Major" }))
    ∷ (256, alarm (record { name = "Grid Undervoltage"; id = 2033; level = "Major" }))
    ∷ (512, alarm (record { name = "Grid Overvoltage"; id = 2034; level = "Major" }))
    ∷ (1024, alarm (record { name = "Grid Volt. Imbalance"; id = 2035; level = "Major" }))
    ∷ (2048, alarm (record { name = "Grid Overfrequency"; id = 2036; level = "Major" }))
    ∷ (4096, alarm (record { name = "Grid Underfrequency"; id = 2037; level = "Major" }))
    ∷ (8192, alarm (record { name = "Unstable Grid Frequency"; id = 2038; level = "Major" }))
    ∷ (16384, alarm (record { name = "Output Overcurrent"; id = 2039; level = "Major" }))
    ∷ (32768, alarm (record { name = "Output DC Component Overhigh"; id = 2040; level = "Major" }))
    ∷ []

unfoldable pub alarm_codes_2 : List (ℕ × BitMeaning)
alarm_codes_2 =
    (1, alarm (record { name = "Abnormal Residual Current"; id = 2051; level = "Major" }))
    ∷ (2, alarm (record { name = "Abnormal Grounding"; id = 2061; level = "Major" }))
    ∷ (4, alarm (record { name = "Low Insulation Resistance"; id = 2062; level = "Major" }))
    ∷ (8, alarm (record { name = "Overtemperature"; id = 2063; level = "Minor" }))
    ∷ (16, alarm (record { name = "Device Fault"; id = 2064; level = "Major" }))
    ∷ (
      32,
      alarm (record { name = "Upgrade Failed or Version Mismatch"; id = 2065; level = "Minor" }),
    )
    ∷ (64, alarm (record { name = "License Expired"; id = 2066; level = "Warning" }))
    ∷ (128, alarm (record { name = "Faulty Monitoring Unit"; id = 61440; level = "Minor" }))
    ∷ (256, alarm (record { name = "Faulty Power Collector"; id = 2067; level = "Major" }))
    ∷ (512, alarm (record { name = "Battery abnormal"; id = 2068; level = "Minor" }))
    ∷ (1024, alarm (record { name = "Active Islanding"; id = 2070; level = "Major" }))
    ∷ (2048, alarm (record { name = "Passive Islanding"; id = 2071; level = "Major" }))
    ∷ (4096, alarm (record { name = "Transient AC Overvoltage"; id = 2072; level = "Major" }))
    ∷ (
      8192,
      alarm (record { name = "Peripheral port short circuit"; id = 2075; level = "Warning" }),
    )
    ∷ (16384, alarm (record { name = "Churn output overload"; id = 2077; level = "Major" }))
    ∷ (
      32768,
      alarm (record { name = "Abnormal PV module configuration"; id = 2080; level = "Major" }),
    )
    ∷ []

unfoldable pub alarm_codes_3 : List (ℕ × BitMeaning)
alarm_codes_3 =
    (1, alarm (record { name = "Optimizer fault"; id = 2081; level = "Warning" }))
    ∷ (2, alarm (record { name = "Built-in PID operation abnormal"; id = 2085; level = "Minor" }))
    ∷ (
      4,
      alarm (record { name = "High input string voltage to ground"; id = 2014; level = "Major" }),
    )
    ∷ (8, alarm (record { name = "External Fan Abnormal"; id = 2086; level = "Major" }))
    ∷ (16, alarm (record { name = "Battery Reverse Connection"; id = 2069; level = "Major" }))
    ∷ (
      32,
      alarm (record { name = "On-grid/Off-grid controller abnormal"; id = 2082; level = "Major" }),
    )
    ∷ (64, alarm (record { name = "PV String Loss"; id = 2015; level = "Warning" }))
    ∷ (128, alarm (record { name = "Internal Fan Abnormal"; id = 2087; level = "Major" }))
    ∷ (256, alarm (record { name = "DC Protection Unit Abnormal"; id = 2088; level = "Major" }))
    ∷ (512, alarm (record { name = "EL Unit Abnormal"; id = 2089; level = "Minor" }))
    ∷ (
      1024,
      alarm
          (record { name = "Active Adjustment Instruction Abnormal"; id = 2090; level = "Major" }),
    )
    ∷ (
      2048,
      alarm (record {
        name = "Reactive Adjustment Instruction Abnormal";
        id = 2091;
        level = "Major";
      }),
    )
    ∷ (4096, alarm (record { name = "CT Wiring Abnormal"; id = 2092; level = "Major" }))
    ∷ (
      8192,
      alarm (record {
        name = "DC Arc Fault(ADMC Alarm to be clear manually)";
        id = 2003;
        level = "Major";
      }),
    )
    ∷ (16384, alarm (record { name = "DC Switch Abnormal"; id = 2093; level = "Minor" }))
    ∷ (
      32768,
      alarm (record {
        name = "Allowable discharge capacity of the battery is low";
        id = 2094;
        level = "Warning";
      }),
    )
    ∷ []
