-- ===== src/Tests/Requests.antt =====
-- Requests and responses that are encoded and decoded.
use huawei_solar_lib.Base.{◌^◌, ◌<◌, ◌≤◌, ◌≡◌, ◌↔◌, refl, [], ◌∷◌}
use huawei_solar_lib.Base.Lists.{length}
use huawei_solar_lib.Exceptions.{ok, err, struct_error}
use huawei_solar_lib.Modbus.Private
use huawei_solar_lib.Modbus.Private.{PrivateHuaweiModbusRequest}
use huawei_solar_lib.Modbus.StartUpload
use huawei_solar_lib.Modbus.StartUpload.{StartUploadModbusRequest}
use huawei_solar_lib.Modbus.Upload
use huawei_solar_lib.Modbus.Upload.{UploadModbusRequest}
use huawei_solar_lib.Modbus.CompleteUpload
use huawei_solar_lib.Modbus.CompleteUpload.{CompleteUploadModbusRequest}
use huawei_solar_lib.Modbus.DeviceIdentifier
use huawei_solar_lib.Modbus.DeviceIdentifier.{ReadDeviceIdentifierRequest, decode_response}
use huawei_solar_lib.Modbus.Laws.{
  start_upload_decode-encode, requests_decode-encode, Succeeds, upload_encode_iff,
}

abbrev query : StartUploadModbusRequest
query = record { file_type = 0x44; customised_data = 16 ∷ 0 ∷ [] }

-- It is sent, and a decoder of this library refuses it.
start_upload_decode-encode_example :
    StartUpload.decode (5 ∷ 3 ∷ 0x44 ∷ 16 ∷ 0 ∷ []) ≡ err struct_error
unfolding StartUpload.encode
start_upload_decode-encode_example =
    start_upload_decode-encode query (5 ∷ 3 ∷ 0x44 ∷ 16 ∷ 0 ∷ []) refl

abbrev frame_258 : UploadModbusRequest
frame_258 = record { file_type = 0x44; frame_no = 258 }

abbrev last_request : CompleteUploadModbusRequest
last_request = record { file_type = 0x45 }

abbrev identifiers : ReadDeviceIdentifierRequest
identifiers = record { read_dev_id_code = 3; object_id = 0x87 }

abbrev challenge : PrivateHuaweiModbusRequest
challenge = record { sub_command = 36; content = 1 ∷ 0 ∷ [] }

requests_decode-encode_example :
    (Upload.decode (6 ∷ 3 ∷ 0x44 ∷ 1 ∷ 2 ∷ []) ≡ ok frame_258)
    × (CompleteUpload.decode (12 ∷ 1 ∷ 0x45 ∷ []) ≡ ok last_request)
    × (DeviceIdentifier.decode_request (14 ∷ 3 ∷ 0x87 ∷ []) ≡ ok identifiers)
    × (Private.decode_request (36 ∷ 1 ∷ 0 ∷ []) ≡ ok challenge)
unfolding Upload.encode CompleteUpload.encode DeviceIdentifier.encode Private.encode
requests_decode-encode_example =
    requests_decode-encode frame_258 last_request identifiers challenge (6 ∷ 3 ∷ 0x44 ∷ 1 ∷ 2 ∷ [])
      (12 ∷ 1 ∷ 0x45 ∷ []) (14 ∷ 3 ∷ 0x87 ∷ []) (36 ∷ 1 ∷ 0 ∷ []) refl refl refl refl

upload_encode_iff_example :
    (Succeeds (StartUpload.encode query) ↔ ((0x44 < 2 ^ 8) × (length query.customised_data ≤ 254)))
    × (Succeeds (Upload.encode frame_258) ↔ ((0x44 < 2 ^ 8) × (258 < 2 ^ 16)))
upload_encode_iff_example = upload_encode_iff query frame_258

-- The second object with the identifier 0 replaces the first one.
