-- ===== src/Modbus/Laws.antt =====
-- Which requests can be encoded, and what decoding an encoded request gives back.
use mathlib.Core.List.{append-nil}
use huawei_solar_lib.Base.{
  ◌∷◌, sym, ◌+◌, ◌^◌, ◌<◌, ◌≤◌, ◌≡◌, ◌↔◌, refl, ap, ◌∙◌, [], ◌++◌, ==_iff, arith,
}
use huawei_solar_lib.Base.Lists.{length}
use huawei_solar_lib.Exceptions.{ok_inj, Result, ok, err, >>=-eq-ok, struct_error}
use huawei_solar_lib.Payload.{Bytes}
use huawei_solar_lib.Payload.BigEndian.{power}
use huawei_solar_lib.Struct.{big, pack, unpack}
use huawei_solar_lib.Struct.Laws.{
  Holds, pack-Fits, pack-eq-ok, pack-Holds, unpack-Holds, unpack-longer, drop-Holds,
}
use huawei_solar_lib.Modbus.Private
use huawei_solar_lib.Modbus.Private.{PrivateHuaweiModbusRequest}
use huawei_solar_lib.Modbus.StartUpload
use huawei_solar_lib.Modbus.StartUpload.{StartUploadModbusRequest}
use huawei_solar_lib.Modbus.Upload
use huawei_solar_lib.Modbus.Upload.{UploadModbusRequest}
use huawei_solar_lib.Modbus.CompleteUpload
use huawei_solar_lib.Modbus.CompleteUpload.{CompleteUploadModbusRequest}
use huawei_solar_lib.Modbus.DeviceIdentifier
use huawei_solar_lib.Modbus.DeviceIdentifier.{ReadDeviceIdentifierRequest}

module _ (r : StartUploadModbusRequest) (packed : Bytes) where
  -- what `decode` makes of the fields, and of the bytes behind them
  checked-fields :
      Holds big StartUpload.request_format (StartUpload.fields r) packed
      → StartUpload.checked (packed ++ r.customised_data) (StartUpload.fields r) ≡ ok r
  checked-fields holds =
      let rest =
        drop-Holds big StartUpload.request_format (StartUpload.fields r) packed holds
          r.customised_data in
      rw
        (
          rest,
          (==_iff (length r.customised_data + 1) (1 + length r.customised_data)).1 (omega arith),
        )
        refl

-- what `decode` makes of an encoded request to start an upload, by its customised data
abbrev pub read_back : Bytes → StartUploadModbusRequest → Result StartUploadModbusRequest
read_back [] r = ok r
read_back (b ∷ bs) r = err struct_error

decode_packed :
    (r : StartUploadModbusRequest) (packed : Bytes)
    → Holds big StartUpload.request_format (StartUpload.fields r) packed
    → (customised_data : Bytes) → r.customised_data ≡ customised_data
    → StartUpload.decode (packed ++ r.customised_data) ≡ read_back customised_data r
unfolding StartUpload.decode
decode_packed r packed holds [] empty =
    let whole = unpack-Holds big StartUpload.request_format (StartUpload.fields r) packed holds in
    let same : packed ++ r.customised_data ≡ packed =
      ap (λ c. packed ++ c) empty ∙ append-nil packed in
    rw (ap (unpack big StartUpload.request_format) same, whole) (checked-fields r packed holds)
decode_packed r packed holds (b ∷ bs) more =
    let refused =
      unpack-longer big StartUpload.request_format (StartUpload.fields r) packed holds
        r.customised_data (λ none_there. absurd (cc)) in
    rw refused refl

-- A request to start an upload that was encoded is decoded again if it has no customised data. With
-- customised data `decode` raises struct.error, since it unpacks the whole of the data in a format
-- of three bytes.
pub start_upload_decode-encode :
    (r : StartUploadModbusRequest) (bs : Bytes)
    → StartUpload.encode r ≡ ok bs
    → StartUpload.decode bs ≡ read_back r.customised_data r
unfolding StartUpload.encode StartUpload.decode
start_upload_decode-encode r bs h =
    let (packed, e, h') =
      >>=-eq-ok (pack big StartUpload.request_format (StartUpload.fields r)) _ h in
    let holds = pack-Holds big StartUpload.request_format (StartUpload.fields r) packed tt e in
    let split : packed ++ r.customised_data ≡ bs = ok_inj h' in
    ap StartUpload.decode (sym split) ∙ decode_packed r packed holds r.customised_data refl

pub upload_decode-encode :
    (r : UploadModbusRequest) (bs : Bytes) → Upload.encode r ≡ ok bs → Upload.decode bs ≡ ok r
unfolding Upload.encode Upload.decode
upload_decode-encode r bs h =
    let holds = pack-Holds big Upload.request_format (Upload.fields r) bs tt h in
    rw (unpack-Holds big Upload.request_format (Upload.fields r) bs holds) refl

pub complete_upload_decode-encode :
    (r : CompleteUploadModbusRequest) (bs : Bytes)
    → CompleteUpload.encode r ≡ ok bs
    → CompleteUpload.decode bs ≡ ok r
unfolding CompleteUpload.encode CompleteUpload.decode
complete_upload_decode-encode r bs h =
    let holds = pack-Holds big CompleteUpload.request_format (CompleteUpload.fields r) bs tt h in
    rw (unpack-Holds big CompleteUpload.request_format (CompleteUpload.fields r) bs holds) refl

pub device_identifier_decode-encode :
    (r : ReadDeviceIdentifierRequest) (bs : Bytes)
    → DeviceIdentifier.encode r ≡ ok bs
    → DeviceIdentifier.decode_request bs ≡ ok r
unfolding DeviceIdentifier.encode DeviceIdentifier.decode_request
device_identifier_decode-encode r bs h =
    let holds =
      pack-Holds big DeviceIdentifier.request_format (DeviceIdentifier.fields r) bs tt h in
    rw (unpack-Holds big DeviceIdentifier.request_format (DeviceIdentifier.fields r) bs holds) refl

pub private_decode-encode :
    (r : PrivateHuaweiModbusRequest) (bs : Bytes)
    → Private.encode r ≡ ok bs
    → Private.decode_request bs ≡ ok r
unfolding Private.encode Private.bytes Private.decode_request
private_decode-encode r bs h = ground arith

-- What the encoding of an upload, complete upload, device identifier or private request gives is
-- decoded to that request.
pub requests_decode-encode :
    (u : UploadModbusRequest) (c : CompleteUploadModbusRequest) (d : ReadDeviceIdentifierRequest)
    (p : PrivateHuaweiModbusRequest) (upload complete device private : Bytes)
    → Upload.encode u ≡ ok upload
    → CompleteUpload.encode c ≡ ok complete
    → DeviceIdentifier.encode d ≡ ok device
    → Private.encode p ≡ ok private
    → (Upload.decode upload ≡ ok u)
      × (CompleteUpload.decode complete ≡ ok c)
      × (DeviceIdentifier.decode_request device ≡ ok d)
      × (Private.decode_request private ≡ ok p)
requests_decode-encode u c d p upload complete device private hu hc hd hp = (
  upload_decode-encode u upload hu,
  complete_upload_decode-encode c complete hc,
  device_identifier_decode-encode d device hd,
  private_decode-encode p private hp,
)

abbrev pub Succeeds : Result Bytes → Type 0
Succeeds m = (bs : Bytes) × (m ≡ ok bs)

-- A request to start an upload can be encoded exactly if its file type is a byte and it has at most
-- 254 bytes of customised data, so that their number and one more is a byte; and a request for a
-- frame exactly if its file type is a byte and the frame number fits two bytes.
pub upload_encode_iff :
    (r : StartUploadModbusRequest) (u : UploadModbusRequest)
    → (Succeeds (StartUpload.encode r) ↔ ((r.file_type < 2 ^ 8) × (length r.customised_data ≤ 254)))
      × (Succeeds (Upload.encode u) ↔ ((u.file_type < 2 ^ 8) × (u.frame_no < 2 ^ 16)))
unfolding StartUpload.encode Upload.encode power
upload_encode_iff r u = (
  (
    λ (bs, h).
        let (packed, e, _) =
          >>=-eq-ok (pack big StartUpload.request_format (StartUpload.fields r)) _ h in
        let fits = pack-eq-ok big StartUpload.request_format (StartUpload.fields r) packed tt e in
        (omega (arith, fits.1.1.0), omega (arith, fits.1.0)),
    λ (small, few).
        let (packed, e, _) =
          pack-Fits big StartUpload.request_format (StartUpload.fields r)
            (omega arith, (omega arith, (omega arith, tt))) in
        (packed ++ r.customised_data, rw e),
  ),
  (
    λ (bs, h).
        let fits = pack-eq-ok big Upload.request_format (Upload.fields u) bs tt h in
        (omega (arith, fits.1.1.0), omega (arith, fits.1.1.1.0)),
    λ (small, few).
        let (packed, e, _) =
          pack-Fits big Upload.request_format (Upload.fields u)
            (omega arith, (omega arith, (omega arith, (omega arith, tt)))) in
        (packed, e),
  ),
)
