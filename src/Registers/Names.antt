-- ===== src/Registers/Names.antt =====
-- The constants of src/huawei_solar/register_names.py, in the order of the file: the values, by which
-- the registers are called.
mod Part1
mod Part2
mod Part3
mod Part4
unfoldable pub use Part1.{names_part_1}
unfoldable pub use Part2.{names_part_2}
unfoldable pub use Part3.{names_part_3}
unfoldable pub use Part4.{names_part_4}
use Prim.Native.String.{String}
use huawei_solar_lib.Base.{List, ◌++◌}

unfoldable pub register_names : List String
unfolding names_part_1 names_part_2 names_part_3 names_part_4
register_names = names_part_1 ++ (names_part_2 ++ (names_part_3 ++ (names_part_4)))
