-- ===== src/Client/Read.antt =====
-- `AsyncHuaweiSolar._read_registers` and its attempts (`_do_read`), src/huawei_solar/huawei_solar.py.
use huawei_solar_lib.Base.{
  ℕ, ◌≡◌, ◌≤◌, Bool, true, false, none, some, List, if◌then◌else◌, ◌==◌, arith,
}
use huawei_solar_lib.Base.Lists.{length}
use huawei_solar_lib.Exceptions.{
  Error, Result, ok, err, read_exception, connection_interrupted_exception, slave_busy_exception,
  slave_failure_exception, timeout_error,
}
use huawei_solar_lib.Client.Retry.{OnException, IsOnException, on_exception-eq-ok}

-- pymodbus's `ModbusExceptions`: the codes that the library compares with
pub record ModbusExceptions : Type 0 where
  pub slave_busy : ℕ
  pub slave_failure : ℕ
  pub illegal_address : ℕ

-- What the Modbus client does with a request to read: it is not connected, it answers with registers
-- or with an exception response, it raises pymodbus's ConnectionException, the wait times out, or it
-- raises another error, such as pymodbus's ModbusIOException.
pub data ReadReply : Type 0 where
  not_connected : ReadReply
  registers : List ℕ → ReadReply
  exception_response : ℕ → ReadReply
  connection_lost : ReadReply
  timed_out : ReadReply
  raised : Error → ReadReply

unfoldable pub do_read : ModbusExceptions → ℕ → ReadReply → Result (List ℕ)
do_read codes count not_connected = err connection_interrupted_exception
do_read codes count (registers rs) = if length rs == count then ok rs else err slave_busy_exception
do_read codes count (exception_response code) =
    if code == codes.slave_busy
    then err slave_busy_exception
    else if code == codes.slave_failure
    then err slave_failure_exception
    else err (read_exception (some code))
do_read codes count connection_lost = err connection_interrupted_exception
do_read codes count timed_out = err timeout_error
do_read codes count (raised e) = err e

unfoldable pub retried_on_read : Error → Bool
retried_on_read slave_busy_exception = true
retried_on_read slave_failure_exception = true
retried_on_read _ = false

unfoldable pub reconnected_on_read : Error → Bool
reconnected_on_read timeout_error = true
reconnected_on_read connection_interrupted_exception = true
reconnected_on_read _ = false

abbrev pub max_read_tries : ℕ
max_read_tries = 6

-- `_read_registers`: the decorator for a busy device is inside the one that reconnects. `replies i j`
-- is what the client does at the attempt j of the inner one in the attempt i of the outer one.
unfoldable pub read_registers :
    ModbusExceptions → OnException (List ℕ) → (ℕ → ℕ → ReadReply) → ℕ → Result (List ℕ)
unfolding do_read retried_on_read reconnected_on_read
read_registers codes on_exception replies count =
    on_exception reconnected_on_read max_read_tries (read_exception none) (λ i.
      on_exception retried_on_read max_read_tries (read_exception none)
        (λ j. do_read codes count (replies i j)))

do_read-eq-ok :
    (codes : ModbusExceptions) (count : ℕ) (reply : ReadReply) (rs : List ℕ)
    → do_read codes count reply ≡ ok rs
    → (reply ≡ registers rs) × (length rs ≡ count)
unfolding do_read
do_read-eq-ok codes count not_connected rs h = absurd (cc h)
do_read-eq-ok codes count (registers qs) rs h = ground arith
do_read-eq-ok codes count (exception_response code) rs h = ground arith
do_read-eq-ok codes count connection_lost rs h = absurd (cc h)
do_read-eq-ok codes count timed_out rs h = absurd (cc h)
do_read-eq-ok codes count (raised e) rs h = absurd (cc h)

-- What `_read_registers` returns is the registers of a reply, at one of at most 36 attempts, and
-- they are as many as were requested.
pub read_registers-eq-ok :
    (codes : ModbusExceptions) (on_exception : OnException (List ℕ))
    → IsOnException on_exception
    → (replies : ℕ → ℕ → ReadReply) (count : ℕ) (rs : List ℕ)
    → read_registers codes on_exception replies count ≡ ok rs
    → (i : ℕ) × (j : ℕ) × (i ≤ 5) × (j ≤ 5) × (replies i j ≡ registers rs) × (length rs ≡ count)
unfolding read_registers
read_registers-eq-ok codes on_exception laws replies count rs h =
    let (i, few, inner) = on_exception-eq-ok on_exception laws reconnected_on_read 5 _ _ rs h in
    let (j, few', one) = on_exception-eq-ok on_exception laws retried_on_read 5 _ _ rs inner in
    let (same, long) = do_read-eq-ok codes count (replies i j) rs one in
    (i, j, few, few', same, long)
