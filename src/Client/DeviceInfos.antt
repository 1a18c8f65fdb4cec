-- ===== src/Client/DeviceInfos.antt =====
-- `AsyncHuaweiSolar.get_device_infos` of src/huawei_solar/huawei_solar.py. A text is the list of its
-- ASCII codes.
pub mod Laws
use huawei_solar_lib.Base.{ℕ, ◌≡◌, refl, Option, none, some, List, [], ◌∷◌, ◌++◌, if◌then◌else◌}
use huawei_solar_lib.Base.Dicts.{Dict, get, pop}
use huawei_solar_lib.Base.Int.{ℤ, pos, eqb_ℤ}
use huawei_solar_lib.Base.Texts.{Codes, split, IsFree, split-IsFree, split-append, int_of}
use huawei_solar_lib.Exceptions.{Result, ok, err, ◌>>=◌, value_error, struct_error}
use huawei_solar_lib.Exceptions.Running.{Running, and_then}
use huawei_solar_lib.Payload.{Bytes}
use huawei_solar_lib.Optimizers.Entries.{traverse}
use huawei_solar_lib.Client.Read.{ModbusExceptions}
use huawei_solar_lib.Client.DeviceIdentifiers.{
  IdentifierReply, read_device_identifier_objects, ascii,
}

pub record DeviceInfo : Type 0 where
  pub model : Option Codes
  pub software_version : Option Codes
  pub interface_protocol_version : Option Codes
  pub esn : Option Codes
  pub device_id : Option ℤ
  pub feature_version : Option Codes
  pub unknown_field : Option Codes
  pub product_type : Option Codes

abbrev pub device_infos_start_object_id : ℕ
device_infos_start_object_id = 0x87

-- `raw_device_info`, a dict of which only `get` is used: the last item first
abbrev pub RawInfo : Type 0
RawInfo = List (ℤ × Codes)

abbrev pub get_field : ℤ → RawInfo → Option Codes
get_field key [] = none
get_field key ((k, value) ∷ raw) =
    let rest = get_field key raw in if eqb_ℤ k key then some value else rest

abbrev pub int_or_error : Option ℤ → Result ℤ
int_or_error none = err value_error
int_or_error (some n) = ok n

-- `key, value = …`
abbrev pub pair_of : List Codes → Result (Codes × Codes)
pair_of (key ∷ value ∷ []) = ok (key, value)
pair_of _ = err value_error

unfoldable pub read_field : Codes → Result (ℤ × Codes)
read_field entry =
    pair_of (split 61 entry) >>= λ kv. int_or_error (int_of kv.0) >>= λ key. ok (key, kv.1)

unfoldable pub read_fields : RawInfo → List Codes → Result RawInfo
unfolding read_field
read_fields raw [] = ok raw
read_fields raw (entry ∷ entries) = read_field entry >>= λ kv. read_fields (kv ∷ raw) entries

abbrev pub device_id_of : Option Codes → Result (Option ℤ)
device_id_of none = ok none
device_id_of (some text) = int_or_error (int_of text) >>= λ n. ok (some n)

unfoldable pub device_info : RawInfo → Result DeviceInfo
device_info raw = device_id_of (get_field (pos 5) raw) >>= λ device_id. ok record {
  model = get_field (pos 1) raw;
  software_version = get_field (pos 2) raw;
  interface_protocol_version = get_field (pos 3) raw;
  esn = get_field (pos 4) raw;
  device_id = device_id;
  feature_version = get_field (pos 6) raw;
  unknown_field = get_field (pos 7) raw;
  product_type = get_field (pos 8) raw;
}

-- `_parse_device_entry`
unfoldable pub parse_device_entry : Codes → Result DeviceInfo
unfolding read_fields device_info
parse_device_entry text = read_fields [] (split 59 text) >>= device_info

-- The number of devices is only compared with the number of entries, for the log.
abbrev pub check_number : Option Bytes → Result (Unit {0})
check_number none = ok tt
check_number (some (b ∷ [])) = ok tt
check_number (some _) = err struct_error

unfoldable pub device_infos : Dict Bytes → Result (List DeviceInfo)
unfolding parse_device_entry
device_infos objects = check_number (get device_infos_start_object_id objects) >>= λ _.
    traverse (λ o. ascii o.1 >>= parse_device_entry) (pop device_infos_start_object_id objects)

module _ (codes : ModbusExceptions) (execute : ℕ → Bytes → IdentifierReply) where
  unfoldable pub get_device_infos : ℕ → Running (List DeviceInfo)
  unfolding read_device_identifier_objects device_infos
  get_device_infos rounds =
      and_then (read_device_identifier_objects codes execute 3 rounds device_infos_start_object_id)
        (λ objects. some (device_infos objects))
