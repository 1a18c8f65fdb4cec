-- ===== src/Client/Files/Requests.antt =====
-- What a request of `get_file` that succeeded was answered with.
use huawei_solar_lib.Base.{ℕ, suc, ◌<◌, ◌≤◌, ◌≡◌, none, [], arith}
use huawei_solar_lib.Exceptions.{Result, ok, >>=-eq-ok, read_exception}
use huawei_solar_lib.Payload.{Bytes}
use huawei_solar_lib.Modbus.StartUpload
use huawei_solar_lib.Modbus.StartUpload.{StartUploadModbusResponse}
use huawei_solar_lib.Modbus.Upload
use huawei_solar_lib.Modbus.Upload.{UploadModbusRequest, UploadModbusResponse}
use huawei_solar_lib.Modbus.Laws.{upload_encode_iff}
use huawei_solar_lib.Client.Read.{ModbusExceptions}
use huawei_solar_lib.Client.Retry.{OnException, IsOnException, on_exception-eq-ok}
use huawei_solar_lib.Client.Files.{
  ExecuteReply, private_response, exception_response, raised, content_of, retried_on_upload,
  attempt, perform_request, request_frame,
}

content_of-eq-ok :
    (codes : ModbusExceptions) (reply : ExecuteReply) (content : Bytes)
    → content_of codes reply ≡ ok content
    → reply ≡ private_response content
unfolding content_of
content_of-eq-ok codes (private_response c) content h = cc
content_of-eq-ok codes (exception_response code) content h = ground arith
content_of-eq-ok codes (raised e) content h = absurd (cc h)

-- The request n, once encoded, was answered at one of six attempts with what is read as `a`.
abbrev pub Answered :
    (ℕ → ℕ → Bytes → ExecuteReply)
    → {A : Type 0} → ℕ
    → Result Bytes
    → (Bytes → Result A)
    → A
    → Type 0
Answered execute n encoded response_type a =
    (j : ℕ) × (bs : Bytes) × (content : Bytes) × (j ≤ 5)
    × (encoded ≡ ok bs)
    × (execute n j bs ≡ private_response content)
    × (response_type content ≡ ok a)

pub Answered-same :
    (execute : ℕ → ℕ → Bytes → ExecuteReply) {A : Type 0} (n m : ℕ) (encoded : Result Bytes)
    (response_type : Bytes → Result A) (a : A)
    → n ≡ m
    → Answered execute n encoded response_type a
    → Answered execute m encoded response_type a
Answered-same execute n m encoded response_type a same h = rw (← same) h

pub encoded_frame_no :
    (file_type frame_no : ℕ) (bs : Bytes)
    → Upload.encode record { file_type = file_type; frame_no = frame_no } ≡ ok bs
    → frame_no < 65536
encoded_frame_no file_type frame_no bs e =
    let request : UploadModbusRequest = record { file_type = file_type; frame_no = frame_no } in
    let start : StartUpload.StartUploadModbusRequest = record {
      file_type = 0;
      customised_data = [];
    } in
    omega (arith, ((upload_encode_iff start request).1.0 (bs, e)).1)

module _ (codes : ModbusExceptions) (on_exception : (A : Type 0) → OnException A)
    (laws : (A : Type 0) → IsOnException (on_exception A))
    (execute : ℕ → ℕ → Bytes → ExecuteReply) where
  pub perform_request-eq-ok :
      {A : Type 0} (n : ℕ) (encoded : Result Bytes) (response_type : Bytes → Result A) (a : A)
      → perform_request codes on_exception execute n encoded response_type ≡ ok a
      → Answered execute n encoded response_type a
  unfolding perform_request attempt
  perform_request-eq-ok {A} n encoded response_type a h =
      let (j, few, one) =
        on_exception-eq-ok (on_exception A) (laws A) retried_on_upload 5 (read_exception none)
          (attempt codes on_exception execute n encoded response_type) a h in
      let (bs, e, one') = >>=-eq-ok encoded _ one in
      let (content, e', e'') = >>=-eq-ok (content_of codes (execute n j bs)) response_type one' in
      (j, bs, content, few, e, content_of-eq-ok codes _ content e', e'')

  pub frame_no-fits :
      (file_type frame_no : ℕ) (r : UploadModbusResponse)
      → request_frame codes on_exception execute file_type frame_no ≡ ok r
      → frame_no < 65536
  unfolding request_frame
  frame_no-fits file_type frame_no r h =
      let (_, bs, _, _, e, _, _) = perform_request-eq-ok (suc frame_no) _ Upload.response r h in
      encoded_frame_no file_type frame_no bs e
