-- ===== src/Tests/Uploads.antt =====
-- A file of three bytes that an inverter sends in frames of two bytes.
use huawei_solar_lib.Base.{
  ℕ, zero, suc, ◌*◌, ◌<◌, ◌≤◌, ◌≡◌, refl, Bool, true, none, some, [], ◌∷◌, ◌==◌, arith,
}
use huawei_solar_lib.Base.Lists.{take, drop}
use huawei_solar_lib.Exceptions.{Error, ok, err, slave_busy_exception}
use huawei_solar_lib.Exceptions.Running.{Ends}
use huawei_solar_lib.Payload.{Bytes}
use huawei_solar_lib.Modbus.StartUpload
use huawei_solar_lib.Modbus.StartUpload.{StartUploadModbusResponse}
use huawei_solar_lib.Modbus.Upload
use huawei_solar_lib.Modbus.Upload.{UploadModbusResponse}
use huawei_solar_lib.Modbus.CompleteUpload
use huawei_solar_lib.Modbus.CompleteUpload.{CompleteUploadModbusResponse}
use huawei_solar_lib.Client.Retry.{OnException, IsOnException}
use huawei_solar_lib.Client.Files.{
  ExecuteReply, private_response, exception_response, attempt, get_file, retried_on_upload,
  swapped_crc,
}
use huawei_solar_lib.Client.Files.Laws.{IsUploaded, get_file-Ends, get_file-eq-ok}
use huawei_solar_lib.Client.Files.Served.{Delivers, Serves, get_file-served}
use huawei_solar_lib.Tests.Data.{codes, on_exception, on_exception-IsOnException}

abbrev file : Bytes
file = 10 ∷ 20 ∷ 30 ∷ []

-- The device is busy at the first attempt.
abbrev device : ℕ → ℕ → Bytes → ExecuteReply
device zero zero bs = exception_response 6
device zero (suc j) bs = private_response (6 ∷ 0x44 ∷ 0 ∷ 0 ∷ 0 ∷ 3 ∷ 2 ∷ [])
device (suc zero) j bs = private_response (5 ∷ 0x44 ∷ 0 ∷ 0 ∷ 10 ∷ 20 ∷ [])
device (suc (suc zero)) j bs = private_response (4 ∷ 0x44 ∷ 0 ∷ 1 ∷ 30 ∷ [])
device (suc (suc (suc n))) j bs = private_response (3 ∷ 0x44 ∷ 0x34 ∷ 0x12 ∷ [])

abbrev check_crc : Bytes → ℕ → Bool
check_crc bs crc = crc == 0x1234

abbrev retrying : (A : Type 0) → OnException A
retrying A = on_exception

retrying-IsOnException : (A : Type 0) → IsOnException (retrying A)
retrying-IsOnException A = on_exception-IsOnException

abbrev started : StartUploadModbusResponse
started = record { file_type = 0x44; file_length = 3; data_frame_length = 2; customised_data = [] }

abbrev first_frame : UploadModbusResponse
first_frame = record { file_type = 0x44; frame_no = 0; frame_data = 10 ∷ 20 ∷ [] }

abbrev second_frame : UploadModbusResponse
second_frame = record { file_type = 0x44; frame_no = 1; frame_data = 30 ∷ [] }

abbrev completed : CompleteUploadModbusResponse
completed = record { file_type = 0x44; file_crc = 0x3412 }

starts :
    Delivers codes retrying device 0
      (StartUpload.encode (StartUpload.new 0x44 none))
      StartUpload.response
      started
unfolding attempt retried_on_upload StartUpload.encode StartUpload.new StartUpload.response
starts = (1, omega arith, λ k less. busy k less, refl)
  where
    busy :
        (k : ℕ)
        → k < 1
        → (e : Error) × (attempt codes retrying device 0
              (StartUpload.encode (StartUpload.new 0x44 none))
              StartUpload.response
              k
            ≡ err e)
          × (retried_on_upload e ≡ true)
    busy zero less = (slave_busy_exception, refl, refl)
    busy (suc k) less = absurd (omega arith)

frames_sent :
    (k : ℕ)
    → k * 2 < 3
    → (r : UploadModbusResponse) × Delivers codes retrying device
        (suc k)
        (Upload.encode record { file_type = 0x44; frame_no = k })
        Upload.response
        r
      × (r.frame_data ≡ take 2 (drop (k * 2) file))
unfolding attempt Upload.encode Upload.response
frames_sent zero short = (first_frame, (0, omega arith, λ k less. absurd (omega arith), refl), refl)
frames_sent (suc zero) short =
    (second_frame, (0, omega arith, λ k less. absurd (omega arith), refl), refl)
frames_sent (suc (suc k)) short = absurd (omega arith)

completes :
    (k : ℕ)
    → 3 ≤ k * 2
    → (c : CompleteUploadModbusResponse) × Delivers codes retrying device
        (suc k)
        (CompleteUpload.encode record { file_type = 0x44 })
        CompleteUpload.response
        c
      × (check_crc file (swapped_crc c.file_crc) ≡ true)
unfolding attempt CompleteUpload.encode CompleteUpload.response swapped_crc
completes zero past = absurd (omega arith)
completes (suc zero) past = absurd (omega arith)
completes (suc (suc k)) past =
    (completed, (0, omega arith, λ k less. absurd (omega arith), refl), refl)

device-Serves : Serves codes retrying device check_crc 0x44 none file
device-Serves = record {
  start = started;
  starts = starts;
  file_length = refl;
  frame = frames_sent;
  completes = completes;
}

get_file-served_example : get_file codes retrying device check_crc 0x44 none ≡ some (ok file)
get_file-served_example =
    get_file-served codes retrying device retrying-IsOnException check_crc 0x44 none file
      device-Serves

returned : get_file codes retrying device check_crc 0x44 none ≡ some (ok file)
unfolding get_file huawei_solar_lib.Tests.Data.try_for
returned = refl

get_file-eq-ok_example : IsUploaded device check_crc 0x44 none file
get_file-eq-ok_example =
    get_file-eq-ok codes retrying retrying-IsOnException device check_crc 0x44 none file returned

-- an inverter whose frames have no bytes
abbrev empty_frames : ℕ → ℕ → Bytes → ExecuteReply
empty_frames zero j bs = private_response (6 ∷ 0x44 ∷ 0 ∷ 0 ∷ 0 ∷ 3 ∷ 0 ∷ [])
empty_frames (suc n) j bs = private_response (3 ∷ 0x44 ∷ 0 ∷ 0 ∷ [])

get_file-Ends_example : Ends (get_file codes retrying empty_frames check_crc 0x44 none)
get_file-Ends_example =
    get_file-Ends codes retrying retrying-IsOnException empty_frames check_crc 0x44 none
