-- ===== src/Tests/Numbers.antt =====
-- Tests of number registers, of the table of registers and of their codec.
use huawei_solar_lib.Base.{◌+◌, ◌*◌, ◌≤◌, ◌≡◌, refl, true, none, [], ◌∷◌, ◌++◌, arith}
use huawei_solar_lib.Base.Int.{ℤ, negsuc, ◌*ℤ◌}
use huawei_solar_lib.Base.Lists.{length}
use huawei_solar_lib.Exceptions.{ok}
use huawei_solar_lib.Payload.{Bytes, size}
use huawei_solar_lib.Payload.Takes.{Takes}
use huawei_solar_lib.Payload.BigEndian.{big_endian, big_endian-IsPayload}
use huawei_solar_lib.Registers.Definition.{Register, NumberRegister, text, u16, writeable}
use huawei_solar_lib.Registers.Number
use huawei_solar_lib.Registers.Number.{Value, int, float, member, find_member, value_of}
use huawei_solar_lib.Registers.Number.Laws.{IsReadBack, int_decode-encode}
use huawei_solar_lib.Payload.{int16}
use huawei_solar_lib.Registers.Codec.{decode_register, fits_length}
use huawei_solar_lib.Registers.Codec.Laws.{Takes-register}
use huawei_solar_lib.Registers.Table.{find, registers}
use huawei_solar_lib.Registers.Table.Facts.{find-fits_length, registers_apart}
use huawei_solar_lib.Tests.Data.{decimals}

abbrev temperature : NumberRegister
temperature = record {
  unit = text "°C";
  gain = 10;
  decode_function = int16;
  encode_function = int16;
  invalid_value = none;
}

int_decode-encode_example :
    (bs : Bytes) × (v : Value ℤ) × (Number.encode decimals temperature big_endian (int (negsuc 4))
      ≡ ok bs)
    × (length bs ≡ size int16)
    × IsReadBack decimals temperature (negsuc 4) v
    × ((rest : Bytes) → Number.decode decimals temperature big_endian (bs ++ rest) ≡ ok (v, rest))
unfolding ◌*ℤ◌
int_decode-encode_example =
    int_decode-encode decimals big_endian big_endian-IsPayload temperature (negsuc 4) refl refl
      (omega arith)

abbrev grid_voltage : Register
grid_voltage = u16 (text "V") 10 32066

Takes-register_example : Takes (decode_register decimals big_endian grid_voltage) (2 * 1)
Takes-register_example = Takes-register decimals big_endian big_endian-IsPayload grid_voltage refl

abbrev peak_shaving : Register
peak_shaving = writeable (u16 (text "%") 10 47955)

abbrev two_bytes : Bytes
two_bytes = 0 ∷ 120 ∷ []

find-fits_length_example : fits_length grid_voltage ≡ true
unfolding find registers
find-fits_length_example = find-fits_length "grid_voltage" grid_voltage refl refl

registers_apart_example : 32066 + 1 ≤ 32069
unfolding find registers
registers_apart_example =
    registers_apart "grid_voltage" "phase_A_voltage" grid_voltage (u16 (text "V") 10 32069) refl
      refl refl (omega arith)
