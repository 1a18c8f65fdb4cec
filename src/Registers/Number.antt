-- ===== src/Registers/Number.antt =====
-- `NumberRegister` and its subclasses, and `bitfield_decoder`, of src/huawei_solar/registers.py.
pub mod Laws
use Prim.Native.Nat.{bit_and}
use Prim.Native.String.{String}
use huawei_solar_lib.Base.{
  ℕ, Bool, true, false, not, Option, none, some, List, [], ◌∷◌, if◌then◌else◌, ◌==◌,
}
use huawei_solar_lib.Base.Int.{ℤ, pos, negsuc, ◌*ℤ◌, eqb_ℤ, nat_abs}
use huawei_solar_lib.Base.Floats.{Floats}
use huawei_solar_lib.Exceptions.{
  Result, ok, err, guard, assertion_error, decode_error, write_exception, type_error, ◌>>◌,
}
use huawei_solar_lib.Payload.{Payload, Bytes}
use huawei_solar_lib.Payload.Emit.{Reader, ◌>>=◌, pure, lift, read, emit_all}
use huawei_solar_lib.Registers.Values.{
  IntEnum, BitMeaning, status, on_off, alarm, Alarm, Definition,
}
use huawei_solar_lib.Registers.Definition.{
  RegisterUnit, no_unit, text, bool, enum, bitfield, table, NumberRegister,
}

-- an entry of a decoded bitfield
pub data Status : Type 0 where
  state : String → Status
  alarm_of : Alarm → Status

-- The values that pass through number registers.
pub data Value (F : Type 0) : Type 0 where
  absent : Value F
  int : ℤ → Value F
  float : F → Value F
  flag : Bool → Value F
  -- a member of an enum, by its class, its name and its number
  member : String → String → ℕ → Value F
  statuses : List Status → Value F
  defined : Definition → Value F

-- `key & bitfield` is not zero
abbrev is_set : ℕ → ℕ → Bool
is_set key bits = not (bit_and key bits == 0)

unfoldable pub bitfield_decoder : List (ℕ × BitMeaning) → ℕ → List Status
bitfield_decoder [] bits = []
bitfield_decoder ((key, on_off v) ∷ rest) bits =
    state (if is_set key bits then v.on_value else v.off_value) ∷ bitfield_decoder rest bits
bitfield_decoder ((key, status v) ∷ rest) bits =
    let others = bitfield_decoder rest bits in if is_set key bits then state v ∷ others else others
bitfield_decoder ((key, alarm v) ∷ rest) bits =
    let others = bitfield_decoder rest bits in
    if is_set key bits then alarm_of v ∷ others else others

-- `SomeEnum(value)`; `none` is ValueError
unfoldable pub find_member : List (String × ℕ) → ℤ → Option (String × ℕ)
find_member [] value = none
find_member ((name, number) ∷ rest) value =
    if eqb_ℤ (pos number) value then some (name, number) else find_member rest value

-- `self.unit[result]`; `none` is KeyError
unfoldable pub find_definition : List (ℕ × Definition) → ℤ → Option Definition
find_definition [] value = none
find_definition ((key, v) ∷ rest) value =
    if eqb_ℤ (pos key) value then some v else find_definition rest value

module _ {F : Type 0} where
  unfoldable pub member_or_error : String → Option (String × ℕ) → Result (Value F)
  member_or_error class_name none = err decode_error
  member_or_error class_name (some (name, number)) = ok (member class_name name number)

  definition_or_error : Option Definition → Result (Value F)
  definition_or_error none = err decode_error
  definition_or_error (some v) = ok (defined v)

  -- The bits of a negative number are those of its two's complement. Every bitfield register of the
  -- table reads an unsigned number, so its value is taken as it is.
  unfoldable pub convert : RegisterUnit → ℤ → Result (Value F)
  unfolding member_or_error definition_or_error find_member find_definition bitfield_decoder
  convert no_unit z = ok (int z)
  convert (text _) z = ok (int z)
  convert bool z = ok (flag (not (eqb_ℤ z (pos 0))))
  convert (enum e) z = member_or_error e.class_name (find_member e.members z)
  convert (bitfield d) z = ok (statuses (bitfield_decoder d (nat_abs z)))
  convert (table d) z = definition_or_error (find_definition d z)

-- `callable(self.unit)` or `isinstance(self.unit, dict)`
abbrev pub converts : RegisterUnit → Bool
converts no_unit = false
converts (text _) = false
converts _ = true

module _ (fl : Floats) where
  -- what `decode` does with the number that it has read
  unfoldable pub interpret : NumberRegister → ℤ → Result (Value fl.Float)
  unfolding convert
  interpret r z =
      if converts r.unit
      then (guard (r.gain == 1) assertion_error >> convert r.unit z)
      else if r.gain == 1
      then ok (int z)
      else ok (float (fl.int_div z (pos r.gain)))

  abbrev pub is_invalid : Option ℤ → ℤ → Bool
  is_invalid none z = false
  is_invalid (some v) z = eqb_ℤ z v

  unfoldable pub value_of : NumberRegister → ℤ → Result (Value fl.Float)
  unfolding interpret
  value_of r z = if is_invalid r.invalid_value z then ok absent else interpret r z

  unfoldable pub decode : NumberRegister → Payload → Reader (Value fl.Float)
  unfolding read value_of
  decode r P = do z ← read P r.decode_function; lift (value_of r z)

  -- `I32AbsoluteValueRegister.decode`
  abbrev pub absolute : Value fl.Float → Result (Value fl.Float)
  absolute absent = ok absent
  absolute (int z) = ok (int (pos (nat_abs z)))
  absolute (float x) = ok (float (fl.float_abs x))
  absolute _ = err type_error

  unfoldable pub decode_absolute : NumberRegister → Payload → Reader (Value fl.Float)
  unfolding decode
  decode_absolute r P = do v ← decode r P; lift (absolute v)

  -- Data that is neither an int nor a float. `bool` and the enums are classes of ints, so their
  -- branches are reached by other data only, and their assertions fail.
  refuse : RegisterUnit → Result ℤ
  refuse bool = err assertion_error
  refuse (enum _) = err assertion_error
  refuse _ = err (write_exception none)

  -- `int_data`. A bool and a member of an enum are instances of int.
  unfoldable pub int_data : NumberRegister → Value fl.Float → Result ℤ
  unfolding refuse
  int_data r (int z) = ok (z *ℤ pos r.gain)
  int_data r (flag b) = ok ((if b then pos 1 else pos 0) *ℤ pos r.gain)
  int_data r (member _ _ n) = ok (pos n *ℤ pos r.gain)
  int_data r (float x) = ok (fl.int_mul x (pos r.gain))
  int_data r _ = refuse r.unit

  unfoldable pub encode : NumberRegister → Payload → Value fl.Float → Result Bytes
  unfolding int_data emit_all
  encode r P v =
      huawei_solar_lib.Exceptions.◌>>=◌ (int_data r v)
        (λ z. emit_all P ((r.encode_function, z) ∷ []))
