-- ===== src/Tests/Reading.antt =====
-- Tests of reading.
use Prim.Native.String.{String}
use huawei_solar_lib.Base.{
  ℕ, ◌≤◌, zero, suc, ◌≡◌, refl, sym, ap, ◌∙◌, ◌↔◌, some, List, [], ◌∷◌, arith,
}
use huawei_solar_lib.Base.Int.{ℤ, pos}
use huawei_solar_lib.Base.Lists.{length, replicate, length-replicate}
use huawei_solar_lib.Exceptions.{Result, ok, ◌>>=◌}
use huawei_solar_lib.Payload.BigEndian.{big_endian, big_endian-IsPayload}
use huawei_solar_lib.Registers.Definition.{Register, text, u16}
use huawei_solar_lib.Registers.Number.{float}
use huawei_solar_lib.Registers.Codec.{value}
use huawei_solar_lib.Registers.Table.{find, registers}
use huawei_solar_lib.Client.Read
use huawei_solar_lib.Client.Read.{
  ModbusExceptions, ReadReply, connection_lost, read_registers, read_registers-eq-ok,
}
use huawei_solar_lib.Client.GetMultiple.{
  Reading, find_all, found, check_readable, check_order, decode_all, get_multiple,
}
use huawei_solar_lib.Client.GetMultiple.Order.{IsIncreasing, check_order_iff}
use huawei_solar_lib.Client.GetMultiple.Ascending.{get_multiple-ascending}
use huawei_solar_lib.Client.GetMultiple.Decode.{read_each, get_multiple-read_each}
use huawei_solar_lib.Tests.Data.{decimals, codes, on_exception, on_exception-IsOnException, try_for}

abbrev grid_voltage : Register
grid_voltage = u16 (text "V") 10 32066

abbrev phase_A_voltage : Register
phase_A_voltage = u16 (text "V") 10 32069

abbrev names : List String
names = "grid_voltage" ∷ "phase_A_voltage" ∷ []

-- a device whose registers all hold 2300
abbrev device : ℕ → ℕ → Result (List ℕ)
device address count = ok (replicate count 2300)

device_counts :
    (address count : ℕ) (response : List ℕ)
    → device address count ≡ ok response
    → length response ≡ count
device_counts address count response h =
    let same : replicate count 2300 ≡ response = cc in
    ap length (sym same) ∙ length-replicate count 2300

get_multiple-read_each_example : get_multiple decimals big_endian device names ≡ (
    device 32066 4 >>= λ response.
    read_each decimals big_endian 32066
      (big_endian.from_registers response)
      (grid_voltage ∷ phase_A_voltage ∷ []))
unfolding find_all found find registers check_readable
get_multiple-read_each_example =
    get_multiple-read_each decimals big_endian big_endian-IsPayload device names grid_voltage
      (phase_A_voltage ∷ []) device_counts refl refl (omega arith) (refl, (refl, tt))

check_order_iff_example :
    (check_order (grid_voltage ∷ phase_A_voltage ∷ []) ≡ ok tt)
    ↔ IsIncreasing grid_voltage (phase_A_voltage ∷ [])
check_order_iff_example = check_order_iff grid_voltage (phase_A_voltage ∷ [])

abbrev two_words : List ℕ
two_words = 7 ∷ 8 ∷ []

-- The second attempt of the outer decorator finds the device connected again.
abbrev replies : ℕ → ℕ → ReadReply
replies zero j = connection_lost
replies (suc i) j = Read.registers two_words

read_registers-eq-ok_example :
    (i : ℕ) × (j : ℕ) × (i ≤ 5)
    × (j ≤ 5)
    × (replies i j ≡ Read.registers two_words)
    × (length two_words ≡ 2)
unfolding read_registers try_for
read_registers-eq-ok_example =
    read_registers-eq-ok codes on_exception on_exception-IsOnException replies 2 two_words refl

abbrev voltage : Reading ℤ
voltage = record { value = value (float (pos 2300)); unit = some "V" }

abbrev one_name : List String
one_name = "grid_voltage" ∷ []

get_multiple-ascending_example : get_multiple decimals big_endian device names ≡ (
    device 32066 4 >>= λ response.
    decode_all decimals big_endian grid_voltage
      (phase_A_voltage ∷ [])
      (big_endian.from_registers response)
    >>= λ found. ok found.0)
unfolding find_all found find registers check_readable
get_multiple-ascending_example =
    get_multiple-ascending decimals big_endian device names grid_voltage (phase_A_voltage ∷ []) refl
      refl (refl, (refl, tt)) (omega arith)
