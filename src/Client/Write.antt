-- ===== src/Client/Write.antt =====
-- `AsyncHuaweiSolar.set` and `_write_registers`, src/huawei_solar/huawei_solar.py.
pub mod Laws
use Prim.Native.String.{String}
use huawei_solar_lib.Base.{
  ℕ, zero, suc, ◌+◌, ◌*◌, ◌≤◌, ◌≡◌, refl, sym, ap, ◌∙◌, Bool, true, false, ◌&&◌, ◌||◌, not, Option,
  none, some, List, [], ◌∷◌, if◌then◌else◌, ◌==◌, arith, inl, inr, ◌⊎◌, ==_iff, Bool-cases,
}
use huawei_solar_lib.Base.Floats.{Floats}
use huawei_solar_lib.Base.Lists.{length}
use huawei_solar_lib.Exceptions.{
  Error, Result, ok, err, ◌>>=◌, ◌>>◌, guard, >>=-eq-ok, value_error, write_exception,
  permission_denied, read_exception, connection_interrupted_exception, slave_busy_exception,
  timeout_error, assertion_error,
}
use huawei_solar_lib.Payload.{Payload, IsPayload, Bytes}
use huawei_solar_lib.Registers.Definition.{Register}
use huawei_solar_lib.Registers.Codec.{Content, encode_register}
use huawei_solar_lib.Registers.Codec.Sizes.{encoded_length, length-encode_register, guard-ok}
use huawei_solar_lib.Registers.Table.{find, registers}
use huawei_solar_lib.Client.Read.{ModbusExceptions}
use huawei_solar_lib.Client.Retry.{OnException, IsOnException, on_exception-eq-ok}

abbrev pub permission_denied_exception_code : ℕ
permission_denied_exception_code = 128

-- What the Modbus client does with a request to write: it is not connected, it answers with an
-- exception response, with the address and the value of one register, or with the address and the
-- count of several, it raises pymodbus's ConnectionException, the wait times out, or it raises another
-- error, such as pymodbus's ModbusIOException.
pub data WriteReply : Type 0 where
  not_connected : WriteReply
  exception_response : ℕ → WriteReply
  wrote_single : ℕ → ℕ → WriteReply
  wrote_multiple : ℕ → ℕ → WriteReply
  connection_lost : WriteReply
  timed_out : WriteReply
  raised : Error → WriteReply

-- One value is written by `write_register`, and the others by `write_registers`, whose response is
-- of another class.
unfoldable pub confirm : ℕ → List ℕ → WriteReply → Result Bool
confirm register (value ∷ []) (wrote_single address written) =
    ok (address == register && written == value)
confirm register [] (wrote_multiple address count) = ok (address == register && count == 0)
confirm register (a ∷ b ∷ values) (wrote_multiple address count) =
    ok (address == register && count == length (a ∷ b ∷ values))
confirm register values _ = err assertion_error

unfoldable pub write_registers : ModbusExceptions → ℕ → List ℕ → WriteReply → Result Bool
unfolding confirm
write_registers codes register values not_connected = err connection_interrupted_exception
write_registers codes register values (exception_response code) =
    if code == permission_denied_exception_code
    then err permission_denied
    else if code == codes.illegal_address
    then err permission_denied
    else err (write_exception (some code))
write_registers codes register values connection_lost = err connection_interrupted_exception
write_registers codes register values timed_out = err timeout_error
write_registers codes register values (raised e) = err e
write_registers codes register values reply = confirm register values reply

-- the exceptions that `_do_set` is tried again after
unfoldable pub retried_on_set : Error → Bool
retried_on_set timeout_error = true
retried_on_set slave_busy_exception = true
retried_on_set connection_interrupted_exception = true
retried_on_set _ = false

abbrev pub max_set_tries : ℕ
max_set_tries = 3

unfoldable pub named : Option Register → Result Register
named none = err value_error
named (some r) = ok r

module _ (fl : Floats) (P : Payload) where
  -- the registers to write, behind the checks of `set`
  unfoldable pub words : String → Content fl.Float → Result (Register × List ℕ)
  unfolding named find registers encode_register
  words name content = named (find name registers) >>= λ reg.
      guard reg.is_writeable (write_exception none)
      >> (encode_register fl P reg content >>= λ bytes.
          guard (length (P.to_registers bytes) == reg.length) (write_exception none)
          >> ok (reg, P.to_registers bytes))

  -- `replies i` is what the client does with the request of the attempt i.
  unfoldable pub set :
      ModbusExceptions
      → OnException Bool
      → String
      → Content fl.Float
      → (ℕ → WriteReply)
      → Result Bool
  unfolding words write_registers retried_on_set
  set codes on_exception name content replies = words name content >>= λ w.
      on_exception retried_on_set max_set_tries (read_exception none)
        (λ i. write_registers codes w.0.register w.1 (replies i))
