-- ===== src/Client/Files.antt =====
-- `AsyncHuaweiSolar.get_file` of src/huawei_solar/huawei_solar.py. The requests of one call are
-- numbered: 0 starts the upload, k + 1 asks for the frame k, and the last one completes the upload.
pub mod Requests
pub mod Frames
pub mod Laws
pub mod Served
use huawei_solar_lib.Base.{
  ℕ, zero, suc, ◌+◌, ◌*◌, ◌/◌, ◌%◌, Bool, true, false, Option, none, some, List, [], ◌++◌, ltb,
  ◌==◌, if◌then◌else◌,
}
use huawei_solar_lib.Exceptions.{
  Error, Result, ok, err, ◌>>=◌, permission_denied, slave_busy_exception, slave_failure_exception,
  timeout_error, read_exception,
}
use huawei_solar_lib.Exceptions.Running.{Running, continue_with, and_then}
use huawei_solar_lib.Payload.{Bytes}
use huawei_solar_lib.Modbus.StartUpload
use huawei_solar_lib.Modbus.StartUpload.{StartUploadModbusResponse}
use huawei_solar_lib.Modbus.Upload
use huawei_solar_lib.Modbus.CompleteUpload
use huawei_solar_lib.Modbus.CompleteUpload.{CompleteUploadModbusResponse}
use huawei_solar_lib.Client.Read.{ModbusExceptions}
use huawei_solar_lib.Client.Retry.{OnException}
use huawei_solar_lib.Client.Write.{permission_denied_exception_code}

-- What `self._client.execute` does with an encoded request: it returns a
-- PrivateHuaweiModbusResponse with this content or an ExceptionResponse, or it raises an error.
pub data ExecuteReply : Type 0 where
  private_response : Bytes → ExecuteReply
  exception_response : ℕ → ExecuteReply
  raised : Error → ExecuteReply

unfoldable pub content_of : ModbusExceptions → ExecuteReply → Result Bytes
content_of codes (private_response content) = ok content
content_of codes (exception_response code) =
    if code == permission_denied_exception_code
    then err permission_denied
    else if code == codes.slave_busy
    then err slave_busy_exception
    else if code == codes.slave_failure
    then err slave_failure_exception
    else err (read_exception (some code))
content_of codes (raised e) = err e

unfoldable pub retried_on_upload : Error → Bool
retried_on_upload timeout_error = true
retried_on_upload slave_busy_exception = true
retried_on_upload slave_failure_exception = true
retried_on_upload _ = false

abbrev pub file_upload_max_retries : ℕ
file_upload_max_retries = 6

-- ((crc << 8) & 0xFF00) | ((crc >> 8) & 0x00FF)
unfoldable pub swapped_crc : ℕ → ℕ
swapped_crc crc = crc % 256 * 256 + crc / 256 % 256

-- The frame numbers are two bytes, so that the loop ends within as many rounds and one more.
abbrev pub max_rounds : ℕ
max_rounds = 65537

-- The data of the frames read so far, and the number of the next one.
pub record Received : Type 0 where
  pub file_data : Bytes
  pub next_frame_no : ℕ

-- `execute n j bs` is what the client does with the encoded request n at its attempt j.
module _ (codes : ModbusExceptions) (on_exception : (A : Type 0) → OnException A)
    (execute : ℕ → ℕ → Bytes → ExecuteReply) where
  -- one attempt of `_perform_request`: pymodbus encodes the request, and sends it
  unfoldable pub attempt : {A : Type 0} → ℕ → Result Bytes → (Bytes → Result A) → ℕ → Result A
  unfolding content_of
  attempt n encoded response_type j =
      encoded >>= λ bs. content_of codes (execute n j bs) >>= response_type

  unfoldable pub perform_request : {A : Type 0} → ℕ → Result Bytes → (Bytes → Result A) → Result A
  unfolding attempt retried_on_upload
  perform_request {A} n encoded response_type =
      on_exception A retried_on_upload file_upload_max_retries (read_exception none)
        (attempt n encoded response_type)

  unfoldable pub start_upload : ℕ → Option Bytes → Result StartUploadModbusResponse
  unfolding perform_request StartUpload.new StartUpload.encode StartUpload.response
  start_upload file_type customized_data =
      perform_request 0 (StartUpload.encode (StartUpload.new file_type customized_data))
        StartUpload.response

  unfoldable pub request_frame : ℕ → ℕ → Result Upload.UploadModbusResponse
  unfolding perform_request Upload.encode Upload.response
  request_frame file_type frame_no =
      perform_request (suc frame_no)
        (Upload.encode record { file_type = file_type; frame_no = frame_no }) Upload.response

  unfoldable pub complete_upload : ℕ → ℕ → Result CompleteUploadModbusResponse
  unfolding perform_request CompleteUpload.encode CompleteUpload.response
  complete_upload file_type frames =
      perform_request (suc frames) (CompleteUpload.encode record { file_type = file_type })
        CompleteUpload.response

  -- The `while` loop, on the data and the frame number so far.
  unfoldable pub read_frames : ℕ → ℕ → StartUploadModbusResponse → ℕ → Bytes → Running Received
  unfolding request_frame
  read_frames zero file_type start next_frame_no file_data =
      if ltb (next_frame_no * start.data_frame_length) start.file_length
      then none
      else some (ok record { file_data = file_data; next_frame_no = next_frame_no })
  read_frames (suc rounds) file_type start next_frame_no file_data =
      if ltb (next_frame_no * start.data_frame_length) start.file_length
      then continue_with (request_frame file_type next_frame_no)
          (λ r. read_frames rounds file_type start (suc next_frame_no) (file_data ++ r.frame_data))
      else some (ok record { file_data = file_data; next_frame_no = next_frame_no })

  -- `check_crc` is pymodbus's `MessageRTU.check_CRC`.
  module _ (check_crc : Bytes → ℕ → Bool) where
    unfoldable pub check_file : Bytes → CompleteUploadModbusResponse → Result Bytes
    unfolding swapped_crc
    check_file file_data complete =
        if check_crc file_data (swapped_crc complete.file_crc)
        then ok file_data
        else err (read_exception none)

    -- `_do_read_file`
    unfoldable pub get_file : ℕ → Option Bytes → Running Bytes
    unfolding start_upload read_frames complete_upload check_file
    get_file file_type customized_data =
        continue_with (start_upload file_type customized_data) (λ start.
          and_then (read_frames max_rounds file_type start 0 []) (λ upload.
            continue_with (complete_upload file_type upload.next_frame_no)
              (λ complete. some (check_file upload.file_data complete))))
