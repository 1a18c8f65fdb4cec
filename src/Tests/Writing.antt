-- ===== src/Tests/Writing.antt =====
-- Tests of writing.
use huawei_solar_lib.Base.{ℕ, zero, suc, ◌≤◌, ◌≡◌, ◌≢◌, refl, true, some, []}
use huawei_solar_lib.Base.Int.{pos, ◌*ℤ◌}
use huawei_solar_lib.Base.Lists.{length}
use huawei_solar_lib.Exceptions.{ok}
use huawei_solar_lib.Payload.{Bytes}
use huawei_solar_lib.Payload.BigEndian.{big_endian, big_endian-IsPayload}
use huawei_solar_lib.Registers.Definition.{Register, text, u16, writeable}
use huawei_solar_lib.Registers.Number
use huawei_solar_lib.Registers.Number.{int}
use huawei_solar_lib.Registers.Codec.{value, encode_register, luna2000_periods}
use huawei_solar_lib.Registers.Table.{find, registers}
use huawei_solar_lib.Client.Write.{
  WriteReply, wrote_single, timed_out, set, words, named, write_registers, confirm, retried_on_set,
}
use huawei_solar_lib.Client.Write.Laws.{set-eq-true, set-price_periods, Confirms}
use huawei_solar_lib.Tests.Data.{decimals, codes, on_exception, on_exception-IsOnException, try_for}

abbrev peak_shaving : Register
peak_shaving = writeable (u16 (text "%") 10 47955)

-- The first attempt times out, and the others are answered.
abbrev replies : ℕ → WriteReply
replies zero = timed_out
replies (suc i) = wrote_single 47955 120

set-eq-true_example :
    (reg : Register) × (bytes : Bytes) × (i : ℕ) × (find "storage_capacity_control_soc_peak_shaving"
        registers
      ≡ some reg)
    × (reg.is_writeable ≡ true)
    × (encode_register decimals big_endian reg (value (int (pos 12))) ≡ ok bytes)
    × (length (big_endian.to_registers bytes) ≡ reg.length)
    × (i ≤ 2)
    × Confirms reg.register (big_endian.to_registers bytes) (replies i)
unfolding set words named find registers encode_register Number.encode Number.int_data big_endian
    write_registers confirm retried_on_set try_for ◌*ℤ◌
set-eq-true_example =
    set-eq-true decimals big_endian codes on_exception on_exception-IsOnException
      "storage_capacity_control_soc_peak_shaving" (value (int (pos 12))) replies refl

set-price_periods_example :
    set decimals big_endian codes on_exception "storage_huawei_luna2000_time_of_use_price_periods"
      (luna2000_periods [])
      replies
    ≢ ok true
set-price_periods_example =
    set-price_periods decimals big_endian big_endian-IsPayload codes on_exception
      (luna2000_periods []) replies true
