-- ===== src/Tests/OptimizerFiles.antt =====
-- Optimizer files as an inverter sends them.
use huawei_solar_lib.Base.{◌≡◌, refl, some, [], ◌∷◌, ◌++◌, false}
use huawei_solar_lib.Base.Int.{pos, negsuc}
use huawei_solar_lib.Base.Lists.{replicate}
use huawei_solar_lib.Payload.{Bytes}
use huawei_solar_lib.Struct.{big, little, Values, unpacked}
use huawei_solar_lib.Struct.Laws.{Holds}
use huawei_solar_lib.Optimizers.Entries.{traverse}
use huawei_solar_lib.Optimizers.RealTime.{header, optimizer_data, data_units}
use huawei_solar_lib.Optimizers.Laws.{RawUnit, HoldsUnits, unit_of, data_units-HoldsUnits}
use huawei_solar_lib.Optimizers.SystemInformation.{v102_optimizer_feature_data, optimizers}
use huawei_solar_lib.Optimizers.Versions.{
  HoldsHeader, version_102, information_of, optimizers-HoldsAll,
}
use huawei_solar_lib.Tests.Data.{decimals}

-- the optimizer 1 with 25.8 W, the alarms of the bits 0 and 4, -0.1 degrees, and running
abbrev reading : Values optimizer_data
reading = (
  pos 1,
  (pos 258, (pos 0, (17, (pos 0, (pos 0, (pos 0, (pos 0, (negsuc 0, (pos 4, (7, tt)))))))))),
)

abbrev reading_bytes : Bytes
reading_bytes =
    1 ∷ 0 ∷ 2 ∷ 1 ∷ 0 ∷ 0 ∷ 17 ∷ 0 ∷ 0 ∷ 0 ∷ 0 ∷ 0 ∷ 0 ∷ 0 ∷ 0 ∷ 0 ∷ 0 ∷ 0 ∷ 255 ∷ 255 ∷ 4 ∷ 0 ∷ 7
    ∷ 0 ∷ 0 ∷ 0 ∷ []

abbrev unit_head : Bytes
unit_head = 100 ∷ 0 ∷ 0 ∷ 0 ∷ 0 ∷ 0 ∷ 0 ∷ 0 ∷ 26 ∷ 0 ∷ 1 ∷ 0 ∷ []

abbrev file_head : Bytes
file_head = 86 ∷ 49 ∷ 48 ∷ 49 ∷ 0 ∷ 0 ∷ 0 ∷ 0 ∷ 0 ∷ 0 ∷ 0 ∷ 0 ∷ []

abbrev unit_of_one : RawUnit
unit_of_one = (pos 100, pos 26, reading ∷ [])

file_head-Holds : Holds little header (86 ∷ 49 ∷ 48 ∷ 49 ∷ [], tt) file_head
unfolding unpacked
file_head-Holds = (refl, λ rest. refl)

reading-Holds : Holds little optimizer_data reading reading_bytes
unfolding unpacked
reading-Holds = (refl, λ rest. refl)

units-Holds : HoldsUnits (unit_of_one ∷ []) (unit_head ++ reading_bytes)
unfolding unpacked
units-Holds = (
  unit_head ++ reading_bytes,
  [],
  (
    unit_head,
    reading_bytes,
    (refl, λ rest. refl),
    refl,
    (reading_bytes, [], reading-Holds, refl, refl),
  ),
  refl,
  refl,
)

data_units-HoldsUnits_example :
    data_units decimals (file_head ++ (unit_head ++ reading_bytes))
    ≡ some (traverse (unit_of decimals) (unit_of_one ∷ []))
data_units-HoldsUnits_example =
    data_units-HoldsUnits decimals (86 ∷ 49 ∷ 48 ∷ 49 ∷ []) file_head (unit_head ++ reading_bytes)
      unit_of_one [] file_head-Holds units-Holds

-- the optimizer 258 in the string 2, whose position is not known
abbrev entry : Values v102_optimizer_feature_data
entry = (
  258,
  (
    1,
    (
      pos 2,
      (0xffff, (replicate 20 65, (replicate 30 66, (replicate 20 67, (replicate 30 68, tt))))),
    ),
  ),
)

abbrev entry_bytes : Bytes
entry_bytes =
    1
    ∷ 2
    ∷ 0
    ∷ 1
    ∷ 2
    ∷ 2
    ∷ 255
    ∷ 255
    ∷ (replicate 20 65 ++ (replicate 30 66 ++ (replicate 20 67 ++ replicate 30 68)))

abbrev information_head : Bytes
information_head = 86 ∷ 49 ∷ 48 ∷ 50 ∷ 0 ∷ 1 ∷ 0 ∷ 108 ∷ 0 ∷ 0 ∷ 0 ∷ 0 ∷ 0 ∷ 1 ∷ []

information_head-HoldsHeader : HoldsHeader (86 ∷ 49 ∷ 48 ∷ 50 ∷ []) 1 information_head
unfolding unpacked
information_head-HoldsHeader = (1, 108, false, (refl, λ rest. refl))

entry-Holds : Holds big v102_optimizer_feature_data entry entry_bytes
unfolding unpacked
entry-Holds = (refl, λ rest. refl)

optimizers-HoldsAll_example :
    optimizers (information_head ++ (entry_bytes ++ (0 ∷ [])))
    ≡ traverse (information_of version_102) (entry ∷ [])
optimizers-HoldsAll_example =
    optimizers-HoldsAll version_102 (entry ∷ []) information_head entry_bytes (0 ∷ [])
      information_head-HoldsHeader (entry_bytes, [], entry-Holds, refl, refl)
