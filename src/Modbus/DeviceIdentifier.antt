-- ===== src/Modbus/DeviceIdentifier.antt =====
-- ReadDeviceIdentifierRequest and ReadDeviceIdentifierResponse of src/huawei_solar/modbus.py.
use huawei_solar_lib.Base.{
  ℕ, zero, suc, ◌+◌, Bool, none, some, List, [], ◌∷◌, ◌==◌, ltb, if◌then◌else◌,
}
use huawei_solar_lib.Base.Lists.{length, take, drop}
use huawei_solar_lib.Base.Dicts.{Dict, set_item}
use huawei_solar_lib.Exceptions.{Result, ok, ◌>>=◌, ◌>>◌, guard, assertion_error}
use huawei_solar_lib.Exceptions.Running.{Running, continue_with, and_then}
use huawei_solar_lib.Payload.{Bytes}
use huawei_solar_lib.Struct.{big, Code, uint, Values, nonzero, pack, unpack, unpack_from}

abbrev pub mei_type : ℕ
mei_type = 0x0e

pub record ReadDeviceIdentifierRequest : Type 0 where
  pub read_dev_id_code : ℕ
  pub object_id : ℕ

-- `>BBB`, `>BBBBBB` and `>BB`
abbrev pub request_format : List Code
request_format = uint 1 ∷ uint 1 ∷ uint 1 ∷ []

abbrev pub response_format : List Code
response_format = uint 1 ∷ uint 1 ∷ uint 1 ∷ uint 1 ∷ uint 1 ∷ uint 1 ∷ []

abbrev pub object_format : List Code
object_format = uint 1 ∷ uint 1 ∷ []

abbrev pub fields : ReadDeviceIdentifierRequest → Values request_format
fields r = (mei_type, (r.read_dev_id_code, (r.object_id, tt)))

unfoldable pub encode : ReadDeviceIdentifierRequest → Result Bytes
unfolding pack
encode r = pack big request_format (fields r)

abbrev pub checked : Values request_format → Result ReadDeviceIdentifierRequest
checked (received_mei_type, (read_dev_id_code, (object_id, _))) =
    guard (received_mei_type == mei_type) assertion_error
    >> ok record { read_dev_id_code = read_dev_id_code; object_id = object_id }

unfoldable pub decode_request : Bytes → Result ReadDeviceIdentifierRequest
unfolding unpack
decode_request received = unpack big request_format received >>= checked

-- `more` stands for the truth of the integer that was received.
pub record ReadDeviceIdentifierResponse : Type 0 where
  pub device_id_code : ℕ
  pub consistency_level : ℕ
  pub more : Bool
  pub next_object_id : ℕ
  pub objects : Dict Bytes

-- The next object: its identifier, what it holds, and the offset behind it.
abbrev pub object : Bytes → ℕ → Values object_format → ℕ × Bytes × ℕ
object received offset (obj_id, (obj_length, _)) =
    (obj_id, take obj_length (drop (offset + 2) received), offset + 2 + obj_length)

-- The `while` loop. It is `none` if it has not ended after the given number of rounds.
unfoldable pub read_objects : ℕ → Bytes → Dict Bytes → ℕ → Running (Dict Bytes)
unfolding unpack_from
read_objects zero received objects offset =
    if ltb offset (length received) then none else some (ok objects)
read_objects (suc rounds) received objects offset =
    if ltb offset (length received)
    then continue_with (unpack_from big object_format received offset) (λ v.
      let (id, bs, behind) = object received offset v in
      read_objects rounds received (set_item id bs objects) behind)
    else some (ok objects)

abbrev pub with_objects : Values response_format → Dict Bytes → ReadDeviceIdentifierResponse
with_objects (_, (device_id_code, (consistency_level, (more, (next_object_id, _))))) objects =
    record {
      device_id_code = device_id_code;
      consistency_level = consistency_level;
      more = nonzero more;
      next_object_id = next_object_id;
      objects = objects;
    }

-- Each round moves the offset, so as many rounds as there are bytes are enough.
unfoldable pub decode_response : Bytes → Running ReadDeviceIdentifierResponse
unfolding unpack_from read_objects
decode_response received = continue_with (unpack_from big response_format received 0) (λ header.
    and_then (read_objects (length received) received [] 6)
      (λ objects. some (ok (with_objects header objects))))
