-- ===== src/Modbus/StartUpload.antt =====
-- StartUploadModbusRequest and StartUploadModbusResponse of src/huawei_solar/modbus.py.
use huawei_solar_lib.Base.{ℕ, ◌+◌, Option, none, some, List, [], ◌∷◌, ◌++◌, ◌&&◌, ◌==◌}
use huawei_solar_lib.Base.Lists.{length, drop}
use huawei_solar_lib.Exceptions.{Result, ok, ◌>>=◌, ◌>>◌, guard, assertion_error}
use huawei_solar_lib.Payload.{Bytes}
use huawei_solar_lib.Struct.{big, Code, uint, Values, pack, unpack, unpack_from}

abbrev pub sub_function_code : ℕ
sub_function_code = 0x05

pub record StartUploadModbusRequest : Type 0 where
  pub file_type : ℕ
  pub customised_data : Bytes

-- `__init__`
unfoldable pub new : ℕ → Option Bytes → StartUploadModbusRequest
new t none = record { file_type = t; customised_data = [] }
new t (some bs) = record { file_type = t; customised_data = bs }

-- `>BBB` and `>BBLB`
abbrev pub request_format : List Code
request_format = uint 1 ∷ uint 1 ∷ uint 1 ∷ []

abbrev pub response_format : List Code
response_format = uint 1 ∷ uint 1 ∷ uint 4 ∷ uint 1 ∷ []

abbrev pub fields : StartUploadModbusRequest → Values request_format
fields r = (sub_function_code, (1 + length r.customised_data, (r.file_type, tt)))

unfoldable pub encode : StartUploadModbusRequest → Result Bytes
unfolding pack
encode r = pack big request_format (fields r) >>= λ packed. ok (packed ++ r.customised_data)

-- The assertion on the length, `len(self.customised_data) == data_length - 1`, is over integers.
abbrev pub checked : Bytes → Values request_format → Result StartUploadModbusRequest
checked received (code, (data_length, (file_type, _))) =
    guard (code == sub_function_code && length (drop 3 received) + 1 == data_length) assertion_error
    >> ok record { file_type = file_type; customised_data = drop 3 received }

unfoldable pub decode : Bytes → Result StartUploadModbusRequest
unfolding unpack
decode received = unpack big request_format received >>= checked received

pub record StartUploadModbusResponse : Type 0 where
  pub file_type : ℕ
  pub file_length : ℕ
  pub data_frame_length : ℕ
  pub customised_data : Bytes

abbrev pub answered : Bytes → Values response_format → Result StartUploadModbusResponse
answered received (data_length, (file_type, (file_length, (data_frame_length, _)))) =
    guard (length (drop 7 received) + 6 == data_length) assertion_error
    >> ok record {
      file_type = file_type;
      file_length = file_length;
      data_frame_length = data_frame_length;
      customised_data = drop 7 received;
    }

unfoldable pub response : Bytes → Result StartUploadModbusResponse
unfolding unpack_from
response received = unpack_from big response_format received 0 >>= answered received
