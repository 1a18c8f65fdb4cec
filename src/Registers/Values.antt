-- ===== src/Registers/Values.antt =====
-- The types of src/huawei_solar/register_values.py; its enums and tables are in the children.
pub mod Enums
pub mod Codes
pub mod GridCodes
use Prim.Native.String.{String}
use huawei_solar_lib.Base.{ℕ, List}

pub record GridCode : Type 0 where
  pub standard : String
  pub country : String

pub record Alarm : Type 0 where
  pub name : String
  pub id : ℕ
  pub level : String

pub record OnOffBit : Type 0 where
  pub off_value : String
  pub on_value : String

-- a value of a bitfield's table
pub data BitMeaning : Type 0 where
  status : String → BitMeaning
  on_off : OnOffBit → BitMeaning
  alarm : Alarm → BitMeaning

-- a value of a table that is a register's unit
pub data Definition : Type 0 where
  description : String → Definition
  grid_code : GridCode → Definition

-- a subclass of IntEnum: its name, and its members in order
pub record IntEnum : Type 0 where
  pub class_name : String
  pub members : List (String × ℕ)
