-- ===== src/Tests/Discoveries.antt =====
-- An inverter with two pv strings.
use Prim.Native.String.{String}
use huawei_solar_lib.Base.{◌*◌, ◌≡◌, refl, List, [], ◌∷◌}
use huawei_solar_lib.Base.Int.{pos, pos_part, ◌≤ℤ◌}
use huawei_solar_lib.Base.Lists.{length, All}
use huawei_solar_lib.Bridge.Discovery.{compute_pv_registers}
use huawei_solar_lib.Bridge.Discovery.Laws.{Found, compute_pv_registers-Found}

abbrev two_strings : List String
two_strings = "pv_01_voltage" ∷ "pv_01_current" ∷ "pv_02_voltage" ∷ "pv_02_current" ∷ []

compute_pv_registers-Found_example :
    (pos 1 ≤ℤ pos 2)
    × (pos 2 ≤ℤ pos 24)
    × (length two_strings ≡ 2 * pos_part (pos 2))
    × All Found two_strings
unfolding compute_pv_registers
compute_pv_registers-Found_example = compute_pv_registers-Found (pos 2) two_strings refl
