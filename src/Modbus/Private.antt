-- ===== src/Modbus/Private.antt =====
-- PrivateHuaweiModbusRequest and PrivateHuaweiModbusResponse of src/huawei_solar/modbus.py.
use huawei_solar_lib.Base.{ℕ, Bool, true, ◌&&◌, List, [], ◌∷◌, ltb, if◌then◌else◌}
use huawei_solar_lib.Exceptions.{Result, ok, err, index_error, value_error}
use huawei_solar_lib.Payload.{Bytes}

pub record PrivateHuaweiModbusRequest : Type 0 where
  pub sub_command : ℕ
  pub content : Bytes

pub record PrivateHuaweiModbusResponse : Type 0 where
  pub sub_command : ℕ
  pub content : Bytes

abbrev pub all_bytes : Bytes → Bool
all_bytes [] = true
all_bytes (b ∷ bs) = ltb b 256 && all_bytes bs

-- `bytes([…])`: an element that is no byte is a ValueError
unfoldable pub bytes : List ℕ → Result Bytes
bytes bs = if all_bytes bs then ok bs else err value_error

unfoldable pub encode : PrivateHuaweiModbusRequest → Result Bytes
unfolding bytes
encode r = bytes (r.sub_command ∷ r.content)

unfoldable pub decode_request : Bytes → Result PrivateHuaweiModbusRequest
decode_request [] = err index_error
decode_request (b ∷ bs) = ok record { sub_command = b; content = bs }

unfoldable pub decode_response : Bytes → Result PrivateHuaweiModbusResponse
decode_response [] = err index_error
decode_response (b ∷ bs) = ok record { sub_command = b; content = bs }
