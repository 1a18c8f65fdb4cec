-- ===== src/Registers/Table/PvRegisters.antt =====
-- PV_REGISTERS of src/huawei_solar/registers.py.
use Prim.Native.String.{String}
use huawei_solar_lib.Base.{List, [], ◌∷◌}
use huawei_solar_lib.Registers.Definition.{Register, text, i16}

unfoldable pub pv_registers : List (String × Register)
pv_registers =
    ("pv_01_voltage", i16 (text "V") 10 32016)
    ∷ ("pv_01_current", i16 (text "A") 100 32017)
    ∷ ("pv_02_voltage", i16 (text "V") 10 32018)
    ∷ ("pv_02_current", i16 (text "A") 100 32019)
    ∷ ("pv_03_voltage", i16 (text "V") 10 32020)
    ∷ ("pv_03_current", i16 (text "A") 100 32021)
    ∷ ("pv_04_voltage", i16 (text "V") 10 32022)
    ∷ ("pv_04_current", i16 (text "A") 100 32023)
    ∷ ("pv_05_voltage", i16 (text "V") 10 32024)
    ∷ ("pv_05_current", i16 (text "A") 100 32025)
    ∷ ("pv_06_voltage", i16 (text "V") 10 32026)
    ∷ ("pv_06_current", i16 (text "A") 100 32027)
    ∷ ("pv_07_voltage", i16 (text "V") 10 32028)
    ∷ ("pv_07_current", i16 (text "A") 100 32029)
    ∷ ("pv_08_voltage", i16 (text "V") 10 32030)
    ∷ ("pv_08_current", i16 (text "A") 100 32031)
    ∷ ("pv_09_voltage", i16 (text "V") 10 32032)
    ∷ ("pv_09_current", i16 (text "A") 100 32033)
    ∷ ("pv_10_voltage", i16 (text "V") 10 32034)
    ∷ ("pv_10_current", i16 (text "A") 100 32035)
    ∷ ("pv_11_voltage", i16 (text "V") 10 32036)
    ∷ ("pv_11_current", i16 (text "A") 100 32037)
    ∷ ("pv_12_voltage", i16 (text "V") 10 32038)
    ∷ ("pv_12_current", i16 (text "A") 100 32039)
    ∷ ("pv_13_voltage", i16 (text "V") 10 32040)
    ∷ ("pv_13_current", i16 (text "A") 100 32041)
    ∷ ("pv_14_voltage", i16 (text "V") 10 32042)
    ∷ ("pv_14_current", i16 (text "A") 100 32043)
    ∷ ("pv_15_voltage", i16 (text "V") 10 32044)
    ∷ ("pv_15_current", i16 (text "A") 100 32045)
    ∷ ("pv_16_voltage", i16 (text "V") 10 32046)
    ∷ ("pv_16_current", i16 (text "A") 100 32047)
    ∷ ("pv_17_voltage", i16 (text "V") 10 32048)
    ∷ ("pv_17_current", i16 (text "A") 100 32049)
    ∷ ("pv_18_voltage", i16 (text "V") 10 32050)
    ∷ ("pv_18_current", i16 (text "A") 100 32051)
    ∷ ("pv_19_voltage", i16 (text "V") 10 32052)
    ∷ ("pv_19_current", i16 (text "A") 100 32053)
    ∷ ("pv_20_voltage", i16 (text "V") 10 32054)
    ∷ ("pv_20_current", i16 (text "A") 100 32055)
    ∷ ("pv_21_voltage", i16 (text "V") 10 32056)
    ∷ ("pv_21_current", i16 (text "A") 100 32057)
    ∷ ("pv_22_voltage", i16 (text "V") 10 32058)
    ∷ ("pv_22_current", i16 (text "A") 100 32059)
    ∷ ("pv_23_voltage", i16 (text "V") 10 32060)
    ∷ ("pv_23_current", i16 (text "A") 100 32061)
    ∷ ("pv_24_voltage", i16 (text "V") 10 32062)
    ∷ ("pv_24_current", i16 (text "A") 100 32063)
    ∷ []
