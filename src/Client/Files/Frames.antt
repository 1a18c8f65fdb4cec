-- ===== src/Client/Files/Frames.antt =====
-- The frames that the loop of `get_file` reads.
use huawei_solar_lib.Base.{
  ◌-◌, ◌⊎◌, ltb-false→le, ℕ, zero, suc, ◌+◌, ◌*◌, ◌<◌, ◌≤◌, ◌≡◌, refl, sym, ◌∙◌, inl, inr, false,
  some, List, [], ◌∷◌, ◌++◌, ltb, ltb→lt, Bool-cases, arith,
}
use mathlib.Core.List.{append_assoc, append-nil}
use huawei_solar_lib.Base.Lists.{length}
use huawei_solar_lib.Exceptions.{ok}
use huawei_solar_lib.Exceptions.Running.{returned_inj, continue_with-eq-ok}
use huawei_solar_lib.Payload.{Bytes}
use huawei_solar_lib.Payload.Emit.{concat}
use huawei_solar_lib.Modbus.StartUpload.{StartUploadModbusResponse}
use huawei_solar_lib.Modbus.Upload
use huawei_solar_lib.Modbus.Upload.{UploadModbusRequest, UploadModbusResponse}
use huawei_solar_lib.Client.Read.{ModbusExceptions}
use huawei_solar_lib.Client.Retry.{OnException, IsOnException}
use huawei_solar_lib.Client.Files.{ExecuteReply, Received, request_frame, read_frames}
use huawei_solar_lib.Client.Files.Requests.{Answered, encoded_frame_no, perform_request-eq-ok}

-- Frames from this number on, each the data of an answer to the request for it.
abbrev pub AreFrames : (ℕ → ℕ → Bytes → ExecuteReply) → ℕ → ℕ → List Bytes → Type 0
AreFrames execute file_type frame_no [] = Unit
AreFrames execute file_type frame_no (f ∷ fs) =
    ((r : UploadModbusResponse) × Answered execute (suc frame_no)
        (Upload.encode record { file_type = file_type; frame_no = frame_no }) Upload.response r
      × (r.frame_data ≡ f))
    × AreFrames execute file_type (suc frame_no) fs

pub AreFrames-few :
    (execute : ℕ → ℕ → Bytes → ExecuteReply) (file_type frame_no : ℕ) (fs : List Bytes)
    → AreFrames execute file_type frame_no fs
    → frame_no ≤ 65536
    → frame_no + length fs ≤ 65536
AreFrames-few execute file_type frame_no [] h few = omega arith
AreFrames-few execute file_type frame_no (f ∷ fs) h few =
    let (r, (j, bs, content, _, e, _, _), _) = h.0 in
    omega (
      arith,
      AreFrames-few execute file_type (suc frame_no) fs h.1
          (omega (arith, encoded_frame_no file_type frame_no bs e)),
    )

-- Of the frame numbers from the first one, n is the first at which the frames before it have at
-- least the length of the file: those before the one before it have less.
abbrev pub IsEnough : StartUploadModbusResponse → ℕ → ℕ → Type 0
IsEnough start first n =
    (start.file_length ≤ n * start.data_frame_length)
    × ((n ≡ first) ⊎ ((n - 1) * start.data_frame_length < start.file_length))

IsEnough-now :
    (start : StartUploadModbusResponse) (first n : ℕ)
    → first ≡ n
    → ltb (first * start.data_frame_length) start.file_length ≡ false
    → IsEnough start first n
IsEnough-now start first n same past = rw (← same) (ltb-false→le _ _ past, inl refl)

pub IsEnough-same :
    (start : StartUploadModbusResponse) (first n m : ℕ)
    → n ≡ m
    → IsEnough start first n
    → IsEnough start first m
IsEnough-same start first n m same h = rw (← same) h

IsEnough-earlier :
    (start : StartUploadModbusResponse) (first n m : ℕ)
    → n ≡ m
    → first * start.data_frame_length < start.file_length
    → IsEnough start (suc first) n
    → IsEnough start first m
IsEnough-earlier start first n m same short (covered, least) = rw (← same) (
  covered,
  elim least [
    | inr less ↦ inr less
    | inl now ↦ let before : n - 1 ≡ first = omega (arith, now) in inr (rw before short)
  ],
)

-- The loop began at the frame number and the data given, and read these frames.
abbrev pub Reads :
    (ℕ → ℕ → Bytes → ExecuteReply) → ℕ → StartUploadModbusResponse → ℕ → Bytes → Received → Type 0
Reads execute file_type start frame_no file_data u =
    (fs : List Bytes) × (u.file_data ≡ file_data ++ concat fs)
    × (u.next_frame_no ≡ frame_no + length fs)
    × AreFrames execute file_type frame_no fs
    × IsEnough start frame_no (frame_no + length fs)

module _ (codes : ModbusExceptions) (on_exception : (A : Type 0) → OnException A)
    (laws : (A : Type 0) → IsOnException (on_exception A))
    (execute : ℕ → ℕ → Bytes → ExecuteReply) where
  Reads-none :
      (file_type : ℕ) (start : StartUploadModbusResponse) (frame_no : ℕ) (file_data : Bytes)
      (u : Received)
      → ltb (frame_no * start.data_frame_length) start.file_length ≡ false
      → record { file_data = file_data; next_frame_no = frame_no } ≡ u
      → Reads execute file_type start frame_no file_data u
  Reads-none file_type start frame_no file_data u past same = rw (← same) (
    [],
    sym (append-nil file_data),
    omega arith,
    tt,
    IsEnough-now start frame_no (frame_no + 0) (omega arith) past,
  )

  Reads-one :
      (file_type : ℕ) (start : StartUploadModbusResponse) (frame_no : ℕ) (file_data : Bytes)
      (r : UploadModbusResponse) (u : Received)
      → frame_no * start.data_frame_length < start.file_length
      → request_frame codes on_exception execute file_type frame_no ≡ ok r
      → Reads execute file_type start (suc frame_no) (file_data ++ r.frame_data) u
      → Reads execute file_type start frame_no file_data u
  unfolding request_frame
  Reads-one file_type start frame_no file_data r u short h (fs, joined, last, frames, enough) = (
    r.frame_data ∷ fs,
    joined ∙ append_assoc file_data r.frame_data (concat fs),
    omega (arith, last),
    (
      (
        r,
        perform_request-eq-ok codes on_exception laws execute (suc frame_no) _ Upload.response r h,
        refl,
      ),
      frames,
    ),
    IsEnough-earlier start frame_no (suc frame_no + length fs) (frame_no + suc (length fs))
        (omega arith) short enough,
  )

  pub read_frames-eq-ok :
      (rounds file_type : ℕ) (start : StartUploadModbusResponse) (frame_no : ℕ) (file_data : Bytes)
      (u : Received)
      → read_frames codes on_exception execute rounds file_type start frame_no file_data
        ≡ some (ok u)
      → Reads execute file_type start frame_no file_data u
  unfolding read_frames
  read_frames-eq-ok zero file_type start frame_no file_data u h =
      elim (Bool-cases (ltb (frame_no * start.data_frame_length) start.file_length)) [
        | inl e ↦ absurd (cc (rw e at h))
        | inr e ↦ Reads-none file_type start frame_no file_data u e (returned_inj (rw e at h))
      ]
  read_frames-eq-ok (suc rounds) file_type start frame_no file_data u h =
      elim (Bool-cases (ltb (frame_no * start.data_frame_length) start.file_length)) [
        | inr e ↦ Reads-none file_type start frame_no file_data u e (returned_inj (rw e at h))
        | inl e ↦
            let (r, answered, rest) =
              continue_with-eq-ok (request_frame codes on_exception execute file_type frame_no) _ u
                (rw e at h) in
            Reads-one file_type start frame_no file_data r u (ltb→lt _ _ e) answered (
              read_frames-eq-ok rounds file_type start (suc frame_no) (file_data ++ r.frame_data) u
                rest)
      ]
