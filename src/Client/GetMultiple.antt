-- ===== src/Client/GetMultiple.antt =====
-- `AsyncHuaweiSolar.get_multiple`, `get` and `_decode_response`, src/huawei_solar/huawei_solar.py.
-- `_read_registers`, with the waits and retries around `Read.do_read`, is the argument
-- `read_registers`: what it returns or raises for an address and a count.
pub mod Order
pub mod Decode
pub mod Ascending
use Prim.Native.String.{String}
use huawei_solar_lib.Base.{
  ℕ, ◌+◌, ◌-◌, ◌*◌, Bool, Option, none, some, List, [], ◌∷◌, if◌then◌else◌, ltb,
}
use huawei_solar_lib.Base.Int.{pos, sub_ℕ, ltb_ℤ}
use huawei_solar_lib.Base.Floats.{Floats}
use huawei_solar_lib.Exceptions.{Result, ok, err, guard, value_error, ◌>>◌}
use huawei_solar_lib.Exceptions
use huawei_solar_lib.Payload.{Payload, Bytes}
use huawei_solar_lib.Payload.Emit.{Reader, ◌>>=◌, pure}
use huawei_solar_lib.Registers.Definition.{
  Register, Kind, RegisterUnit, text, number_register, absolute_value_register,
}
use huawei_solar_lib.Registers.Codec.{Content, decode_register}
use huawei_solar_lib.Registers.Table.{find, registers}

abbrev pub max_batched_registers_count : ℕ
max_batched_registers_count = 64

-- `Result`: a value and its unit, if that is a text
pub record Reading (F : Type 0) : Type 0 where
  pub value : Content F
  pub unit : Option String

abbrev text_of : RegisterUnit → Option String
text_of (text u) = some u
text_of _ = none

-- Strings, periods and timestamps have no unit.
abbrev pub unit_of : Kind → Option String
unit_of (number_register r) = text_of r.unit
unit_of (absolute_value_register r) = text_of r.unit
unit_of _ = none

unfoldable pub found : Option Register → Result Register
found none = err value_error
found (some r) = ok r

-- `list(map(REGISTERS.get, names))`, refused if one is missing
unfoldable pub find_all : List String → Result (List Register)
unfolding find registers found
find_all [] = ok []
find_all (name ∷ names) =
    Exceptions.◌>>=◌ (found (find name registers))
      (λ r. Exceptions.◌>>=◌ (find_all names) (λ rs. ok (r ∷ rs)))

unfoldable pub check_readable : List Register → Result (Unit {0})
check_readable [] = ok tt
check_readable (r ∷ rs) = guard r.is_readable value_error >> check_readable rs

-- the end of a register: the address behind it
abbrev pub end_of : Register → ℕ
end_of r = r.register + r.length

-- the loop over neighbours; the distance is the difference of Python's integers
unfoldable pub check_order : List Register → Result (Unit {0})
check_order [] = ok tt
check_order (prev ∷ []) = ok tt
check_order (prev ∷ cur ∷ rest) =
    if ltb cur.register (end_of prev)
    then err value_error
    else if ltb_ℤ (pos max_batched_registers_count) (sub_ℕ (end_of prev) cur.register)
    then err value_error
    else check_order (cur ∷ rest)

abbrev pub last_of : Register → List Register → Register
last_of r [] = r
last_of r (q ∷ qs) = last_of q qs

module _ (fl : Floats) (P : Payload) where
  -- `_decode_response`
  unfoldable pub decode_response : Register → Reader (Reading fl.Float)
  unfolding decode_register
  decode_response r = do
    v ← decode_register fl P r
    pure (record { value = v; unit = unit_of r.kind })

  unfoldable pub skip : ℕ → Reader (Unit {0})
  skip n bs = ok (tt, P.skip_bytes n bs)

  -- the loop behind the first register
  unfoldable pub decode_rest : Register → List Register → Reader (List (Reading fl.Float))
  unfolding decode_response skip
  decode_rest prev [] = pure []
  decode_rest prev (r ∷ rs) = do
    _ ← skip ((r.register - end_of prev) * 2)
    first ← decode_response r
    others ← decode_rest r rs
    pure (first ∷ others)

  unfoldable pub decode_all : Register → List Register → Reader (List (Reading fl.Float))
  unfolding decode_rest
  decode_all r rs = do first ← decode_response r; others ← decode_rest r rs; pure (first ∷ others)

  -- the request for all the registers at once, and the decoding of its response
  unfoldable pub request :
      (ℕ → ℕ → Result (List ℕ)) → List Register → Result (List (Reading fl.Float))
  unfolding decode_all
  request read_registers [] = err value_error
  request read_registers (r ∷ rs) =
      Exceptions.◌>>=◌ (read_registers r.register (end_of (last_of r rs) - r.register)) (λ response.
        Exceptions.◌>>=◌ (decode_all r rs (P.from_registers response)) (λ found. ok found.0))

  unfoldable pub get_multiple :
      (ℕ → ℕ → Result (List ℕ)) → List String → Result (List (Reading fl.Float))
  unfolding find_all check_readable check_order request
  get_multiple read_registers names =
      Exceptions.◌>>=◌ (find_all names)
        (λ rs. check_readable rs >> (check_order rs >> request read_registers rs))
