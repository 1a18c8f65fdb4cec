-- ===== src/Client/DeviceIdentifiers.antt =====
-- `AsyncHuaweiSolar._read_device_identifier_objects` and `get_device_identifiers` of
-- src/huawei_solar/huawei_solar.py.
use huawei_solar_lib.Base.{
  ℕ, zero, suc, ◌≤◌, ◌≡◌, refl, true, false, Option, none, some, List, [], ◌∷◌, ◌==◌, if◌then◌else◌,
  arith,
}
use huawei_solar_lib.Base.Lists.{length}
use huawei_solar_lib.Base.Dicts.{Dict, get, pop, update}
use huawei_solar_lib.Exceptions.{
  Error, Result, ok, err, ◌>>=◌, permission_denied, slave_busy_exception, slave_failure_exception,
  read_exception, key_error, value_error,
}
use huawei_solar_lib.Exceptions.Running.{Running, continue_with, and_then}
use huawei_solar_lib.Payload.{Bytes}
use huawei_solar_lib.Modbus.DeviceIdentifier.{ReadDeviceIdentifierResponse, encode}
use huawei_solar_lib.Optimizers.SystemInformation.{is_ascii}
use huawei_solar_lib.Client.Read.{ModbusExceptions}
use huawei_solar_lib.Client.Write.{permission_denied_exception_code}

-- What `self._client.execute` does with an encoded request: it returns a
-- ReadDeviceIdentifierResponse or an ExceptionResponse, or it raises an error.
pub data IdentifierReply : Type 0 where
  identifier_response : ReadDeviceIdentifierResponse → IdentifierReply
  exception_response : ℕ → IdentifierReply
  raised : Error → IdentifierReply

unfoldable pub response_of :
    ModbusExceptions → IdentifierReply → Result ReadDeviceIdentifierResponse
response_of codes (identifier_response r) = ok r
response_of codes (exception_response code) =
    if code == permission_denied_exception_code
    then err permission_denied
    else if code == codes.slave_busy
    then err slave_busy_exception
    else if code == codes.slave_failure
    then err slave_failure_exception
    else err (read_exception (some code))
response_of codes (raised e) = err e

abbrev pub next_of : ReadDeviceIdentifierResponse → Option ℕ
next_of r = if r.more then some r.next_object_id else none

-- `execute n bs` is what the client does with the encoded request n of one call.
module _ (codes : ModbusExceptions) (execute : ℕ → Bytes → IdentifierReply)
    (read_dev_id_code : ℕ) where
  unfoldable pub request_objects : ℕ → ℕ → Result ReadDeviceIdentifierResponse
  unfolding encode response_of
  request_objects n object_id =
      encode record { read_dev_id_code = read_dev_id_code; object_id = object_id } >>= λ bs.
      response_of codes (execute n bs)

  -- The `while` loop; it has no bound, and is `none` if it has not ended after these rounds.
  unfoldable pub read_pages : ℕ → ℕ → Option ℕ → Dict Bytes → Running (Dict Bytes)
  unfolding request_objects
  read_pages rounds n none objects = some (ok objects)
  read_pages zero n (some object_id) objects = none
  read_pages (suc rounds) n (some object_id) objects =
      continue_with (request_objects n object_id)
        (λ r. read_pages rounds (suc n) (next_of r) (update objects r.objects))

  -- `_read_device_identifier_objects`
  unfoldable pub read_device_identifier_objects : ℕ → ℕ → Running (Dict Bytes)
  unfolding read_pages
  read_device_identifier_objects rounds object_id = read_pages rounds 0 (some object_id) []

  -- Responses to the requests from n on, each for the object that the one before it names, of which
  -- the last one says that there are no more.
  abbrev pub ArePages : ℕ → ℕ → List ReadDeviceIdentifierResponse → Type 0
  ArePages n object_id [] = ⊥
  ArePages n object_id (r ∷ []) = (request_objects n object_id ≡ ok r) × (r.more ≡ false)
  ArePages n object_id (r ∷ next ∷ rs) =
      (request_objects n object_id ≡ ok r)
      × (r.more ≡ true)
      × ArePages (suc n) r.next_object_id (next ∷ rs)

  -- the objects of all pages, of which a later one replaces an earlier one
  abbrev pub all_objects : Dict Bytes → List ReadDeviceIdentifierResponse → Dict Bytes
  all_objects objects [] = objects
  all_objects objects (r ∷ rs) = all_objects (update objects r.objects) rs

  read_pages-ArePages :
      (rs : List ReadDeviceIdentifierResponse) (rounds n object_id : ℕ) (objects : Dict Bytes)
      → ArePages n object_id rs
      → length rs ≤ rounds
      → read_pages rounds n (some object_id) objects ≡ some (ok (all_objects objects rs))
  unfolding read_pages
  read_pages-ArePages [] rounds n object_id objects h few = absurd h
  read_pages-ArePages (r ∷ rs) zero n object_id objects h few = absurd (omega arith)
  read_pages-ArePages (r ∷ []) (suc rounds) n object_id objects (answered, last) few =
      rw (answered, last) refl
  read_pages-ArePages (r ∷ next ∷ rs) (suc rounds) n object_id objects (answered, more, others)
        few =
      rw (answered, more)
        (read_pages-ArePages (next ∷ rs) rounds (suc n) r.next_object_id (update objects r.objects)
          others (omega arith))

  -- If the inverter sends the objects in pages, each naming the first object of the next one, the
  -- loop ends with the last of them and returns the objects of all of them.
  pub read_objects-ArePages :
      (rounds object_id : ℕ) (rs : List ReadDeviceIdentifierResponse)
      → ArePages 0 object_id rs
      → length rs ≤ rounds
      → read_device_identifier_objects rounds object_id ≡ some (ok (all_objects [] rs))
  unfolding read_device_identifier_objects
  read_objects-ArePages rounds object_id rs h few =
      read_pages-ArePages rs rounds 0 object_id [] h few

  -- An inverter that answers every request for an object with that object, and says that there are
  -- more, keeps the loop going for ever.
  read_pages_repeating :
      (rounds n object_id : ℕ) (r : ReadDeviceIdentifierResponse) (objects : Dict Bytes)
      → ((m : ℕ) → request_objects m object_id ≡ ok r)
      → r.more ≡ true
      → r.next_object_id ≡ object_id
      → read_pages rounds n (some object_id) objects ≡ none
  unfolding read_pages
  read_pages_repeating zero n object_id r objects h more same = refl
  read_pages_repeating (suc rounds) n object_id r objects h more same =
      rw (h n, more, same)
        (read_pages_repeating rounds (suc n) object_id r (update objects r.objects) h more same)

  pub read_objects_repeating :
      (rounds object_id : ℕ) (r : ReadDeviceIdentifierResponse)
      → ((m : ℕ) → request_objects m object_id ≡ ok r)
      → r.more ≡ true
      → r.next_object_id ≡ object_id
      → read_device_identifier_objects rounds object_id ≡ none
  unfolding read_device_identifier_objects
  read_objects_repeating rounds object_id r h more same =
      read_pages_repeating rounds 0 object_id r [] h more same

pub record DeviceIdentifier : Type 0 where
  pub vendor : Bytes
  pub product_code : Bytes
  pub main_revision_version : Bytes
  pub other_data : Dict Bytes

-- `objects.pop(id).decode("ascii")`, with what it leaves; a text is the list of its bytes
abbrev pub ascii : Bytes → Result Bytes
ascii bs = if is_ascii bs then ok bs else err value_error

abbrev pub popped : Option Bytes → Result Bytes
popped none = err key_error
popped (some bs) = ascii bs

unfoldable pub pop_text : ℕ → Dict Bytes → Result (Bytes × Dict Bytes)
pop_text id objects = popped (get id objects) >>= λ text. ok (text, pop id objects)

-- `get_device_identifiers`, behind the reading of the objects
unfoldable pub device_identifiers : Dict Bytes → Result DeviceIdentifier
unfolding pop_text
device_identifiers objects = pop_text 0 objects >>= λ v. pop_text 1 v.1 >>= λ p.
    pop_text 2 p.1 >>= λ m.
    ok record { vendor = v.0; product_code = p.0; main_revision_version = m.0; other_data = m.1 }

module _ (codes : ModbusExceptions) (execute : ℕ → Bytes → IdentifierReply) where
  unfoldable pub get_device_identifiers : ℕ → Running DeviceIdentifier
  unfolding read_device_identifier_objects device_identifiers
  get_device_identifiers rounds =
      and_then (read_device_identifier_objects codes execute 1 rounds 0)
        (λ objects. some (device_identifiers objects))
