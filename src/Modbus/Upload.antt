-- ===== src/Modbus/Upload.antt =====
-- UploadModbusRequest and UploadModbusResponse of src/huawei_solar/modbus.py.
use huawei_solar_lib.Base.{ℕ, ◌+◌, List, [], ◌∷◌, ◌&&◌, ◌==◌}
use huawei_solar_lib.Base.Lists.{length, drop}
use huawei_solar_lib.Exceptions.{Result, ok, ◌>>=◌, ◌>>◌, guard, assertion_error}
use huawei_solar_lib.Payload.{Bytes}
use huawei_solar_lib.Struct.{big, Code, uint, Values, pack, unpack, unpack_from}

abbrev pub sub_function_code : ℕ
sub_function_code = 0x06

pub record UploadModbusRequest : Type 0 where
  pub file_type : ℕ
  pub frame_no : ℕ

-- `>BBBH` and `>BBH`
abbrev pub request_format : List Code
request_format = uint 1 ∷ uint 1 ∷ uint 1 ∷ uint 2 ∷ []

abbrev pub response_format : List Code
response_format = uint 1 ∷ uint 1 ∷ uint 2 ∷ []

abbrev pub fields : UploadModbusRequest → Values request_format
fields r = (sub_function_code, (3, (r.file_type, (r.frame_no, tt))))

unfoldable pub encode : UploadModbusRequest → Result Bytes
unfolding pack
encode r = pack big request_format (fields r)

abbrev pub checked : Values request_format → Result UploadModbusRequest
checked (code, (data_length, (file_type, (frame_no, _)))) =
    guard (code == sub_function_code && data_length == 3) assertion_error
    >> ok record { file_type = file_type; frame_no = frame_no }

unfoldable pub decode : Bytes → Result UploadModbusRequest
unfolding unpack
decode received = unpack big request_format received >>= checked

pub record UploadModbusResponse : Type 0 where
  pub file_type : ℕ
  pub frame_no : ℕ
  pub frame_data : Bytes

abbrev pub answered : Bytes → Values response_format → Result UploadModbusResponse
answered received (data_length, (file_type, (frame_no, _))) =
    guard (length (drop 4 received) + 3 == data_length) assertion_error
    >> ok record { file_type = file_type; frame_no = frame_no; frame_data = drop 4 received }

unfoldable pub response : Bytes → Result UploadModbusResponse
unfolding unpack_from
response received = unpack_from big response_format received 0 >>= answered received
