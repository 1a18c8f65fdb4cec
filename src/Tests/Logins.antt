-- ===== src/Tests/Logins.antt =====
-- A login, and device identifiers in two pages.
use huawei_solar_lib.Base.{ℕ, zero, suc, ◌≤◌, ◌≡◌, refl, true, false, some, [], ◌∷◌, arith}
use huawei_solar_lib.Base.Lists.{take}
use huawei_solar_lib.Exceptions.{ok, timeout_error}
use huawei_solar_lib.Payload.{Bytes}
use huawei_solar_lib.Modbus.DeviceIdentifier.{ReadDeviceIdentifierResponse}
use huawei_solar_lib.Client.Files.{ExecuteReply, private_response, raised}
use huawei_solar_lib.Client.Login.{login, login_message, item, login-eq-true}
use huawei_solar_lib.Client.DeviceIdentifiers.{
  IdentifierReply, identifier_response, read_device_identifier_objects, request_objects,
  read_objects-ArePages,
}
use huawei_solar_lib.Tests.Data.{codes, on_exception, on_exception-IsOnException}

abbrev digest : Bytes → Bytes → Bytes
digest password seed = 9 ∷ seed

abbrev token : ℕ → Bytes
token j = 7 ∷ 8 ∷ []

-- The first attempt times out.
abbrev inverter : ℕ → ℕ → Bytes → ExecuteReply
inverter zero n bs = raised timeout_error
inverter (suc j) zero bs = private_response (17 ∷ 1 ∷ 2 ∷ [])
inverter (suc j) (suc n) bs = private_response (1 ∷ 0 ∷ 0 ∷ [])

accepted_login : login digest token inverter (97 ∷ []) (98 ∷ []) on_exception ≡ ok true
unfolding login huawei_solar_lib.Tests.Data.try_for
accepted_login = refl

login-eq-true_example :
    (j : ℕ) × (challenge : Bytes) × (received : Bytes) × (j ≤ 3)
    × (inverter j 0 (36 ∷ 1 ∷ 0 ∷ []) ≡ private_response (17 ∷ challenge))
    × (inverter j 1 (37 ∷ login_message (token j) (97 ∷ []) (digest (98 ∷ []) (take 16 challenge)))
        ≡ private_response received)
    × (item received 1 ≡ ok 0)
login-eq-true_example =
    login-eq-true digest token inverter (97 ∷ []) (98 ∷ []) on_exception on_exception-IsOnException
      accepted_login

abbrev first_page : ReadDeviceIdentifierResponse
first_page = record {
  device_id_code = 1;
  consistency_level = 1;
  more = true;
  next_object_id = 2;
  objects = (0, 72 ∷ []) ∷ (1, 65 ∷ []) ∷ [];
}

abbrev last_page : ReadDeviceIdentifierResponse
last_page = record {
  device_id_code = 1;
  consistency_level = 1;
  more = false;
  next_object_id = 0;
  objects = (2, 86 ∷ []) ∷ [];
}

abbrev pages : ℕ → Bytes → IdentifierReply
pages zero bs = identifier_response first_page
pages (suc n) bs = identifier_response last_page

read_objects-ArePages_example :
    read_device_identifier_objects codes pages 1 2 0
    ≡ some (ok ((0, 72 ∷ []) ∷ (1, 65 ∷ []) ∷ (2, 86 ∷ []) ∷ []))
unfolding request_objects
read_objects-ArePages_example =
    read_objects-ArePages codes pages 1 2 0 (first_page ∷ last_page ∷ []) (refl, refl, (refl, refl))
      (omega arith)
