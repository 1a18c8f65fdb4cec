-- ===== src/Client/Files/Served.antt =====
-- What `get_file` returns when the inverter sends a file.
use huawei_solar_lib.Base.{
  ltb-false→le, ℕ, zero, suc, ◌+◌, ◌*◌, ◌<◌, ◌≤◌, ◌≡◌, refl, sym, ap, ◌∙◌, inl, inr, Bool, true,
  Option, none, some, [], ◌++◌, ltb, ltb→lt, Bool-cases, arith,
}
use huawei_solar_lib.Base.Lists.{length, take, drop, take-add, take_all}
use huawei_solar_lib.Exceptions.{Error, Result, ok, err, >>=-eq-ok, read_exception}
use huawei_solar_lib.Exceptions.Running.{continue_with_ok, and_then_ok}
use huawei_solar_lib.Payload.{Bytes}
use huawei_solar_lib.Modbus.StartUpload
use huawei_solar_lib.Modbus.StartUpload.{StartUploadModbusResponse}
use huawei_solar_lib.Modbus.Upload
use huawei_solar_lib.Modbus.Upload.{UploadModbusResponse}
use huawei_solar_lib.Modbus.CompleteUpload
use huawei_solar_lib.Modbus.CompleteUpload.{CompleteUploadModbusResponse}
use huawei_solar_lib.Client.Read.{ModbusExceptions}
use huawei_solar_lib.Client.Retry.{OnException, IsOnException, on_exception_eventually}
use huawei_solar_lib.Client.Files.{
  ExecuteReply, retried_on_upload, swapped_crc, max_rounds, attempt, perform_request, start_upload,
  request_frame, complete_upload, read_frames, check_file, get_file,
}
use huawei_solar_lib.Client.Files.Requests.{encoded_frame_no}

module _ (codes : ModbusExceptions) (on_exception : (A : Type 0) → OnException A)
    (execute : ℕ → ℕ → Bytes → ExecuteReply) where
  -- One of six attempts at the request n gives `a`, and those before it fail with a timeout or with
  -- a device that is busy.
  abbrev pub Delivers : {A : Type 0} → ℕ → Result Bytes → (Bytes → Result A) → A → Type 0
  Delivers n encoded response_type a =
      (j : ℕ) × (j ≤ 5)
      × ((k : ℕ)
          → k < j
          → (e : Error) × (attempt codes on_exception execute n encoded response_type k ≡ err e)
            × (retried_on_upload e ≡ true))
      × (attempt codes on_exception execute n encoded response_type j ≡ ok a)

  -- The inverter sends a file in frames of the length that it gives at the start, and then a CRC
  -- that matches the file.
  pub record Serves (check_crc : Bytes → ℕ → Bool) (file_type : ℕ) (customized_data : Option Bytes)
      (file : Bytes) : Type 0 where
    pub start : StartUploadModbusResponse
    pub starts :
        Delivers 0
          (StartUpload.encode (StartUpload.new file_type customized_data))
          StartUpload.response
          start
    pub file_length : start.file_length ≡ length file
    pub frame :
        (k : ℕ)
        → k * start.data_frame_length < length file
        → (r : UploadModbusResponse) × Delivers
            (suc k)
            (Upload.encode record { file_type = file_type; frame_no = k })
            Upload.response
            r
          × (r.frame_data ≡ take start.data_frame_length (drop (k * start.data_frame_length) file))
    pub completes :
        (k : ℕ)
        → length file ≤ k * start.data_frame_length
        → (c : CompleteUploadModbusResponse) × Delivers
            (suc k)
            (CompleteUpload.encode record { file_type = file_type })
            CompleteUpload.response
            c
          × (check_crc file (swapped_crc c.file_crc) ≡ true)

  check_file_valid :
      (check_crc : Bytes → ℕ → Bool) (file : Bytes) (c : CompleteUploadModbusResponse)
      → check_crc file (swapped_crc c.file_crc) ≡ true
      → check_file codes on_exception execute check_crc file c ≡ ok file
  unfolding check_file
  check_file_valid check_crc file c valid = rw valid

  module _ (laws : (A : Type 0) → IsOnException (on_exception A)) where
    perform_request-Delivers :
        {A : Type 0} (n : ℕ) (encoded : Result Bytes) (response_type : Bytes → Result A) (a : A)
        → Delivers n encoded response_type a
        → perform_request codes on_exception execute n encoded response_type ≡ ok a
    unfolding perform_request
    perform_request-Delivers {A} n encoded response_type a (j, few, before, h) =
        on_exception_eventually (on_exception A) (laws A) retried_on_upload 5 (read_exception none)
          (attempt codes on_exception execute n encoded response_type) j a few before h

    module _ (check_crc : Bytes → ℕ → Bool) (file_type : ℕ) (customized_data : Option Bytes)
        (file : Bytes) (s : Serves check_crc file_type customized_data file) where
      frame_delivered :
          (k : ℕ) (short : k * s.start.data_frame_length < length file)
          → (k < 65536)
            × (request_frame codes on_exception execute file_type k ≡ ok (s.frame k short).0)
      unfolding request_frame attempt
      frame_delivered k short =
          let (r, delivers, data_of) = s.frame k short in
          let (j, few, before, h) = delivers in
          let (bs, e, _) =
            >>=-eq-ok (Upload.encode record { file_type = file_type; frame_no = k }) _ h in
          (
            encoded_frame_no file_type k bs e,
            perform_request-Delivers (suc k) _ Upload.response r delivers,
          )

      frames_served :
          (rounds k : ℕ)
          → k ≤ 65536
          → 65537 ≤ rounds + k
          → (n : ℕ) × (length file ≤ n * s.start.data_frame_length)
            × (read_frames codes on_exception execute rounds file_type s.start k
                  (take (k * s.start.data_frame_length) file)
                ≡ some (ok record { file_data = file; next_frame_no = n }))
      unfolding read_frames
      frames_served zero k few enough = absurd (omega arith)
      frames_served (suc rounds) k few enough =
          let f : ℕ = s.start.data_frame_length in
          elim (Bool-cases (ltb (k * s.start.data_frame_length) s.start.file_length)) [
            | inr e ↦
                let past : length file ≤ k * s.start.data_frame_length =
                  rw (← s.file_length) (ltb-false→le _ _ e) in
                (k, past, rw (e, take_all (k * s.start.data_frame_length) file past) refl)
            | inl e ↦
                let short : k * s.start.data_frame_length < length file =
                  rw (← s.file_length) (ltb→lt _ _ e) in
                let (fits, read) = frame_delivered k short in
                let (n, past, rest) =
                  frames_served rounds (suc k) (omega (arith, fits)) (omega (arith, enough)) in
                let joined =
                  ap (λ d. take (k * s.start.data_frame_length) file ++ d) (s.frame k short).2
                  ∙ take-add (k * s.start.data_frame_length) s.start.data_frame_length
                      (suc k * s.start.data_frame_length) file (grind arith) in
                (n, past, rw (e, read, joined) rest)
          ]

      -- If the inverter sends the file, `get_file` returns it, though each request may be met by a
      -- timeout or a busy device five times before it is answered.
      pub get_file-served :
          get_file codes on_exception execute check_crc file_type customized_data ≡ some (ok file)
      unfolding get_file start_upload complete_upload check_file
      get_file-served =
          let started = perform_request-Delivers 0 _ StartUpload.response s.start s.starts in
          let (n, past, read) = frames_served max_rounds 0 (omega arith) (omega arith) in
          let (c, delivers, valid) = s.completes n past in
          let completed = perform_request-Delivers (suc n) _ CompleteUpload.response c delivers in
          let no_byte : 0 * s.start.data_frame_length ≡ 0 = omega arith in
          let none_yet : take (0 * s.start.data_frame_length) file ≡ [] =
            ap (λ i. take i file) no_byte in
          continue_with_ok _ _ s.start started
          ∙ and_then_ok _ _ record { file_data = file; next_frame_no = n }
              (ap (λ d. read_frames codes on_exception execute max_rounds file_type s.start 0 d)
                  (sym none_yet)
                ∙ read)
          ∙ continue_with_ok _ _ c completed
          ∙ ap some (check_file_valid check_crc file c valid)
