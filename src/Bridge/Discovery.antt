-- ===== src/Bridge/Discovery.antt =====
-- `HuaweiSUN2000Bridge._populate_additional_fields`, `_compute_pv_registers` and `battery_type`, and the
-- choice of a bridge class in `_create`, of src/huawei_solar/bridge.py.
pub mod Laws
use Prim.Native.String.{String}
use huawei_solar_lib.Base.{
  ℕ, zero, suc, ◌*◌, ◌+◌, ◌≡◌, refl, sym, ap, ◌∙◌, inl, inr, Bool, true, false, not, ◌&&◌, Option,
  none, some, List, [], ◌∷◌, ◌==◌, if◌then◌else◌, Bool-cases, Option-cases, leb→le, ◌≤◌, arith,
}
use huawei_solar_lib.Base.Int.{ℤ, pos, negsuc, pos_part, leb_ℤ, ◌≤ℤ◌}
use huawei_solar_lib.Base.Lists.{length, take, All}
use huawei_solar_lib.Exceptions.{
  Error, Result, ok, err, ok_inj, ◌>>=◌, ◌>>◌, >>=-eq-ok, guard, type_error, assertion_error,
  read_exception, unsupported_device_exception,
}
use huawei_solar_lib.Registers.Definition.{Register}
use huawei_solar_lib.Registers.Number.{Value, absent, int, flag, member}
use huawei_solar_lib.Registers.Codec.{Content, value}
use huawei_solar_lib.Registers.Codec.Sizes.{guard-ok}
use huawei_solar_lib.Registers.Utf8.{Text}
use huawei_solar_lib.Registers.Table.{find, registers}

abbrev pub max_number_of_pv_strings : ℕ
max_number_of_pv_strings = 24

-- `getattr(rn, f"PV_{idx:02}_VOLTAGE")` and that of the current, for the indexes from 1 on
abbrev pub pv_names : List (String × String)
pv_names =
    ("pv_01_voltage", "pv_01_current")
    ∷ ("pv_02_voltage", "pv_02_current")
    ∷ ("pv_03_voltage", "pv_03_current")
    ∷ ("pv_04_voltage", "pv_04_current")
    ∷ ("pv_05_voltage", "pv_05_current")
    ∷ ("pv_06_voltage", "pv_06_current")
    ∷ ("pv_07_voltage", "pv_07_current")
    ∷ ("pv_08_voltage", "pv_08_current")
    ∷ ("pv_09_voltage", "pv_09_current")
    ∷ ("pv_10_voltage", "pv_10_current")
    ∷ ("pv_11_voltage", "pv_11_current")
    ∷ ("pv_12_voltage", "pv_12_current")
    ∷ ("pv_13_voltage", "pv_13_current")
    ∷ ("pv_14_voltage", "pv_14_current")
    ∷ ("pv_15_voltage", "pv_15_current")
    ∷ ("pv_16_voltage", "pv_16_current")
    ∷ ("pv_17_voltage", "pv_17_current")
    ∷ ("pv_18_voltage", "pv_18_current")
    ∷ ("pv_19_voltage", "pv_19_current")
    ∷ ("pv_20_voltage", "pv_20_current")
    ∷ ("pv_21_voltage", "pv_21_current")
    ∷ ("pv_22_voltage", "pv_22_current")
    ∷ ("pv_23_voltage", "pv_23_current")
    ∷ ("pv_24_voltage", "pv_24_current")
    ∷ []

abbrev pub extend_all : List (String × String) → List String
extend_all [] = []
extend_all ((voltage, current) ∷ rest) = voltage ∷ current ∷ extend_all rest

unfoldable pub compute_pv_registers : ℤ → Result (List String)
compute_pv_registers pv_string_count =
    guard (leb_ℤ (pos 1) pv_string_count && leb_ℤ pv_string_count (pos max_number_of_pv_strings))
      assertion_error
    >> ok (extend_all (take (pos_part pv_string_count) pv_names))

-- `MeterStatus.NORMAL`
abbrev pub meter_normal : ℕ
meter_normal = 1

-- `with suppress(ReadException)` around an assignment
unfoldable pub or_default : {A : Type 0} → Result A → A → Result A
or_default (ok a) default = ok a
or_default (err (read_exception code)) default = ok default
or_default (err e) default = err e

pub record Discovered (F : Type 0) : Type 0 where
  pub pv_string_count : ℤ
  pub pv_register_names : List String
  pub has_optimizers : Content F
  pub battery_1_type : Content F
  pub battery_2_type : Content F
  pub supports_capacity_control : Bool
  pub power_meter_online : Bool
  pub power_meter_type : Option (Content F)
  pub dst : Content F
  pub time_zone : Content F

module _ {F : Type 0} where
  -- the number of pv strings; None can not be compared with 1
  abbrev pub int_of : Content F → Result ℤ
  int_of (value (int z)) = ok z
  int_of _ = err type_error

  -- A member of an IntEnum is equal to its number.
  abbrev pub has_number : ℕ → Content F → Bool
  has_number k (value (member _ _ n)) = n == k
  has_number k (value (int (pos n))) = n == k
  has_number k _ = false

  -- `StorageProductModel.NONE`, with the number 0
  abbrev pub no_battery : Content F
  no_battery = value (member "StorageProductModel" "NONE" 0)

  abbrev pub battery_type : Content F → Content F → Content F
  battery_type battery_1 battery_2 = if not (has_number 0 battery_1) then battery_1 else battery_2

  -- `get name` is the value that `client.get` returns for the register, or what it raises.
  module _ (get : String → Result (Content F)) where
    unfoldable pub capacity_control : Content F → Result Bool
    unfolding or_default
    capacity_control battery =
        if has_number 0 battery
        then ok false
        else or_default (get "storage_capacity_control_mode" >>= λ _. ok true) false

    unfoldable pub meter_type : Bool → Result (Option (Content F))
    meter_type true = get "meter_type" >>= λ v. ok (some v)
    meter_type false = ok none

    unfoldable pub populate_additional_fields : Result (Discovered F)
    unfolding compute_pv_registers or_default capacity_control meter_type
    populate_additional_fields = get "nb_pv_strings" >>= int_of >>= λ count.
        compute_pv_registers count >>= λ names.
        or_default (get "nb_optimizers") (value (flag false)) >>= λ optimizers.
        or_default (get "storage_unit_1_product_model") no_battery >>= λ battery_1.
        or_default (get "storage_unit_2_product_model") no_battery >>= λ battery_2.
        capacity_control (battery_type battery_1 battery_2) >>= λ capacity.
        or_default (get "meter_status" >>= λ status. ok (has_number meter_normal status)) false
        >>= λ online. meter_type online >>= λ type_of_meter. get "daylight_saving_time" >>= λ dst.
            get "time_zone" >>= λ time_zone. ok record {
              pv_string_count = count;
              pv_register_names = names;
              has_optimizers = optimizers;
              battery_1_type = battery_1;
              battery_2_type = battery_2;
              supports_capacity_control = capacity;
              power_meter_online = online;
              power_meter_type = type_of_meter;
              dst = dst;
              time_zone = time_zone;
            }

pub data BridgeClass : Type 0 where
  huawei_sun2000_bridge huawei_emma_bridge : BridgeClass

-- `str.startswith`
abbrev pub starts_with : Text → Text → Bool
starts_with [] text = true
starts_with (c ∷ cs) [] = false
starts_with (c ∷ cs) (d ∷ ds) = c == d && starts_with cs ds

-- "SUN2000" and "SmartHEMS"
unfoldable pub supports_device : BridgeClass → Text → Bool
supports_device huawei_sun2000_bridge model_name =
    starts_with (83 ∷ 85 ∷ 78 ∷ 50 ∷ 48 ∷ 48 ∷ 48 ∷ []) model_name
supports_device huawei_emma_bridge model_name =
    starts_with (83 ∷ 109 ∷ 97 ∷ 114 ∷ 116 ∷ 72 ∷ 69 ∷ 77 ∷ 83 ∷ []) model_name

unfoldable pub first_supporting : List BridgeClass → Text → Result BridgeClass
unfolding supports_device
first_supporting [] model_name = err unsupported_device_exception
first_supporting (c ∷ cs) model_name =
    let rest = first_supporting cs model_name in if supports_device c model_name then ok c else rest

-- the class that `_create` makes a bridge of
unfoldable pub bridge_class : Text → Result BridgeClass
unfolding first_supporting
bridge_class = first_supporting (huawei_sun2000_bridge ∷ huawei_emma_bridge ∷ [])
