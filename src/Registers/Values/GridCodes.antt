-- ===== src/Registers/Values/GridCodes.antt =====
-- GRID_CODES of src/huawei_solar/register_values.py, in parts.
mod Part1
mod Part2
mod Part3
unfoldable pub use Part1.{grid_codes_part_1}
unfoldable pub use Part2.{grid_codes_part_2}
unfoldable pub use Part3.{grid_codes_part_3}
use huawei_solar_lib.Base.{ℕ, List, ◌++◌}
use huawei_solar_lib.Registers.Values.{Definition}

unfoldable pub grid_codes : List (ℕ × Definition)
unfolding grid_codes_part_1 grid_codes_part_2 grid_codes_part_3
grid_codes = grid_codes_part_1 ++ (grid_codes_part_2 ++ (grid_codes_part_3))
