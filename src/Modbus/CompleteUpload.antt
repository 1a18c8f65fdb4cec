-- ===== src/Modbus/CompleteUpload.antt =====
-- CompleteUploadModbusRequest and CompleteUploadModbusResponse of src/huawei_solar/modbus.py.
use huawei_solar_lib.Base.{ℕ, List, [], ◌∷◌, ◌==◌}
use huawei_solar_lib.Exceptions.{Result, ok, ◌>>=◌, ◌>>◌, guard, assertion_error}
use huawei_solar_lib.Payload.{Bytes}
use huawei_solar_lib.Struct.{big, Code, uint, Values, pack, unpack, unpack_from}

abbrev pub sub_function_code : ℕ
sub_function_code = 0x0c

pub record CompleteUploadModbusRequest : Type 0 where
  pub file_type : ℕ

-- `>BBB` and `>BBH`
abbrev pub request_format : List Code
request_format = uint 1 ∷ uint 1 ∷ uint 1 ∷ []

abbrev pub response_format : List Code
response_format = uint 1 ∷ uint 1 ∷ uint 2 ∷ []

abbrev pub fields : CompleteUploadModbusRequest → Values request_format
fields r = (sub_function_code, (1, (r.file_type, tt)))

unfoldable pub encode : CompleteUploadModbusRequest → Result Bytes
unfolding pack
encode r = pack big request_format (fields r)

-- The length that was received is not looked at.
abbrev pub checked : Values request_format → Result CompleteUploadModbusRequest
checked (code, (data_length, (file_type, _))) =
    guard (code == sub_function_code) assertion_error >> ok record { file_type = file_type }

unfoldable pub decode : Bytes → Result CompleteUploadModbusRequest
unfolding unpack
decode received = unpack big request_format received >>= checked

pub record CompleteUploadModbusResponse : Type 0 where
  pub file_type : ℕ
  pub file_crc : ℕ

abbrev pub answered : Values response_format → Result CompleteUploadModbusResponse
answered (data_length, (file_type, (file_crc, _))) =
    guard (data_length == 3) assertion_error
    >> ok record { file_type = file_type; file_crc = file_crc }

unfoldable pub response : Bytes → Result CompleteUploadModbusResponse
unfolding unpack_from
response received = unpack_from big response_format received 0 >>= answered
