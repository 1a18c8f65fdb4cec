-- ===== src/Client/Files/Laws.antt =====
-- What `get_file` returns, whatever the inverter answers.
use huawei_solar_lib.Base.{
  some_inj, ℕ, zero, suc, ◌+◌, ◌*◌, ◌≤◌, ◌≡◌, refl, sym, ap, ◌∙◌, inl, inr, Bool, true, Option,
  some, List, [], ◌++◌, ltb, Bool-cases, arith,
}
use huawei_solar_lib.Base.Lists.{length}
use huawei_solar_lib.Exceptions.{ok_inj, ok}
use huawei_solar_lib.Exceptions.Running.{
  Ends, continue_with-Ends, and_then-Ends, continue_with-eq-ok, and_then-eq-ok,
}
use huawei_solar_lib.Payload.{Bytes}
use huawei_solar_lib.Payload.Emit.{concat}
use huawei_solar_lib.Modbus.StartUpload
use huawei_solar_lib.Modbus.StartUpload.{StartUploadModbusResponse}
use huawei_solar_lib.Modbus.CompleteUpload
use huawei_solar_lib.Modbus.CompleteUpload.{CompleteUploadModbusResponse}
use huawei_solar_lib.Client.Read.{ModbusExceptions}
use huawei_solar_lib.Client.Retry.{OnException, IsOnException}
use huawei_solar_lib.Client.Files.{
  ExecuteReply, swapped_crc, max_rounds, start_upload, request_frame, complete_upload, read_frames,
  check_file, get_file,
}
use huawei_solar_lib.Client.Files.Requests.{
  Answered, Answered-same, perform_request-eq-ok, frame_no-fits,
}
use huawei_solar_lib.Client.Files.Frames.{
  AreFrames, AreFrames-few, IsEnough, IsEnough-same, read_frames-eq-ok,
}

-- The inverter answered the request to start the upload, those for the frames and the last one, and
-- the file is what it sent.
abbrev pub IsUploaded :
    (ℕ → ℕ → Bytes → ExecuteReply) → (Bytes → ℕ → Bool) → ℕ → Option Bytes → Bytes → Type 0
IsUploaded execute check_crc file_type customized_data file_data =
    (start : StartUploadModbusResponse) × (fs : List Bytes)
    × (complete : CompleteUploadModbusResponse) × Answered execute 0
        (StartUpload.encode (StartUpload.new file_type customized_data)) StartUpload.response start
    × (file_data ≡ concat fs)
    × AreFrames execute file_type 0 fs
    × IsEnough start 0 (length fs)
    × (length fs ≤ 65536)
    × Answered execute (suc (length fs)) (CompleteUpload.encode record { file_type = file_type })
        CompleteUpload.response complete
    × (check_crc file_data (swapped_crc complete.file_crc) ≡ true)

module _ (codes : ModbusExceptions) (on_exception : (A : Type 0) → OnException A)
    (laws : (A : Type 0) → IsOnException (on_exception A))
    (execute : ℕ → ℕ → Bytes → ExecuteReply) where
  read_frames-Ends :
      (rounds file_type : ℕ) (start : StartUploadModbusResponse) (frame_no : ℕ) (file_data : Bytes)
      → frame_no ≤ 65536
      → 65537 ≤ rounds + frame_no
      → Ends (read_frames codes on_exception execute rounds file_type start frame_no file_data)
  unfolding read_frames
  read_frames-Ends zero file_type start frame_no file_data few enough = absurd (omega arith)
  read_frames-Ends (suc rounds) file_type start frame_no file_data few enough =
      elim (Bool-cases (ltb (frame_no * start.data_frame_length) start.file_length)) [
        | inr e ↦ (ok record { file_data = file_data; next_frame_no = frame_no }, rw e)
        | inl e ↦ rw e (
            continue_with-Ends (request_frame codes on_exception execute file_type frame_no) _
              (λ r h.
                read_frames-Ends rounds file_type start (suc frame_no) (file_data ++ r.frame_data)
                  (omega
                    (arith, frame_no-fits codes on_exception laws execute file_type frame_no r h))
                  (omega arith)))
      ]

  -- Reading a file ends, whatever the inverter answers, even where it says that a frame has no
  -- bytes: the frame numbers run out.
  pub get_file-Ends :
      (check_crc : Bytes → ℕ → Bool) (file_type : ℕ) (customized_data : Option Bytes)
      → Ends (get_file codes on_exception execute check_crc file_type customized_data)
  unfolding get_file
  get_file-Ends check_crc file_type customized_data =
      continue_with-Ends (start_upload codes on_exception execute file_type customized_data) _
        (λ start _.
          and_then-Ends (read_frames codes on_exception execute max_rounds file_type start 0 []) _
            (read_frames-Ends max_rounds file_type start 0 [] (omega arith) (omega arith))
            (λ upload _.
              continue_with-Ends
                (complete_upload codes on_exception execute file_type upload.next_frame_no) _
                (λ complete _. (
                  check_file codes on_exception execute check_crc upload.file_data complete,
                  refl,
                ))))

  check_file-eq-ok :
      (check_crc : Bytes → ℕ → Bool) (file_data : Bytes) (complete : CompleteUploadModbusResponse)
      (returned : Bytes)
      → check_file codes on_exception execute check_crc file_data complete ≡ ok returned
      → (file_data ≡ returned) × (check_crc file_data (swapped_crc complete.file_crc) ≡ true)
  unfolding check_file
  check_file-eq-ok check_crc file_data complete returned h =
      elim (Bool-cases (check_crc file_data (swapped_crc complete.file_crc))) [
        | inl e ↦ (ok_inj (rw e at h), e)
        | inr e ↦ absurd (cc (rw e at h))
      ]

  -- What `get_file` returns are the frames 0 to n - 1, one after another, for the first n at which n
  -- frames of the length given by the response to the start have at least the length of the file:
  -- each is the data of an answer, at one of six attempts, to the request for it, and there are at
  -- most 65,536 of them. Their CRC is the one in the answer to the last request.
  pub get_file-eq-ok :
      (check_crc : Bytes → ℕ → Bool) (file_type : ℕ) (customized_data : Option Bytes)
      (file_data : Bytes)
      → get_file codes on_exception execute check_crc file_type customized_data
        ≡ some (ok file_data)
      → IsUploaded execute check_crc file_type customized_data file_data
  unfolding get_file start_upload complete_upload check_file
  get_file-eq-ok check_crc file_type customized_data file_data h =
      let (start, e, h1) =
        continue_with-eq-ok (start_upload codes on_exception execute file_type customized_data) _
          file_data h in
      let (u, e', h2) =
        and_then-eq-ok (read_frames codes on_exception execute max_rounds file_type start 0 []) _
          file_data h1 in
      let (complete, e'', h3) =
        continue_with-eq-ok (complete_upload codes on_exception execute file_type u.next_frame_no) _
          file_data h2 in
      let (fs, joined, last, frames, enough) =
        read_frames-eq-ok codes on_exception laws execute max_rounds file_type start 0 [] u e' in
      let last' : u.next_frame_no ≡ length fs = omega (arith, last) in
      let (same, valid) = check_file-eq-ok check_crc u.file_data complete file_data (some_inj h3) in
      (
        start,
        fs,
        complete,
        perform_request-eq-ok codes on_exception laws execute 0 _ StartUpload.response start e,
        sym same ∙ joined,
        frames,
        IsEnough-same start 0 (0 + length fs) (length fs) (omega arith) enough,
        omega (arith, AreFrames-few execute file_type 0 fs frames (omega arith)),
        Answered-same execute (suc u.next_frame_no) (suc (length fs)) _ CompleteUpload.response
            complete (ap suc last')
            (perform_request-eq-ok codes on_exception laws execute (suc u.next_frame_no) _
              CompleteUpload.response complete e''),
        ap (λ d. check_crc d (swapped_crc complete.file_crc)) (sym same) ∙ valid,
      )
