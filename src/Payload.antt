-- ===== src/Payload.antt =====
-- pymodbus's BinaryPayloadBuilder and BinaryPayloadDecoder, which are not code of the repository:
-- a record of what src/huawei_solar/registers.py and huawei_solar.py call, and a record of their
-- documented behaviour in big-endian byte and word order. `Payload.BigEndian` meets both.
pub mod Emit
pub mod Slots
pub mod BigEndian
pub mod Takes
use huawei_solar_lib.Base.{ℕ, ◌+◌, ◌*◌, ◌^◌, ◌<◌, ◌≡◌, Option, none, some, List, [], ◌∷◌, ◌++◌}
use huawei_solar_lib.Base.Int.{ℤ, pos, negsuc}
use huawei_solar_lib.Base.Lists.{length, replicate}

abbrev pub Bytes : Type 0
Bytes = List ℕ

-- `add_8bit_uint`, `decode_8bit_uint` and so on: the methods by their number format.
pub data Format : Type 0 where
  uint8 uint16 uint32 uint64 int16 int32 int64 : Format

abbrev pub size : Format → ℕ
size uint8 = 1
size uint16 = 2
size uint32 = 4
size uint64 = 8
size int16 = 2
size int32 = 4
size int64 = 8

-- The formats hold the integers n with -lower ≤ n < upper.
abbrev pub upper : Format → ℕ
upper uint8 = 2 ^ 8
upper uint16 = 2 ^ 16
upper uint32 = 2 ^ 32
upper uint64 = 2 ^ 64
upper int16 = 2 ^ 15
upper int32 = 2 ^ 31
upper int64 = 2 ^ 63

abbrev pub lower : Format → ℕ
lower int16 = 2 ^ 15
lower int32 = 2 ^ 31
lower int64 = 2 ^ 63
lower _ = 0

abbrev pub InRange : Format → ℤ → Type 0
InRange f (pos n) = n < upper f
InRange f (negsuc n) = n < lower f

pub record Payload : Type 0 where
  -- the bytes that `builder.add_…` appends; `none` is struct.error
  pub add : Format → ℤ → Option Bytes
  -- the value and the bytes left; `none` is struct.error
  pub decode : Format → Bytes → Option (ℤ × Bytes)
  -- the slice of that many bytes, which is shorter at the end of the buffer, and the bytes left
  pub decode_string : ℕ → Bytes → Bytes × Bytes
  pub skip_bytes : ℕ → Bytes → Bytes
  -- `BinaryPayloadDecoder.fromRegisters` and `builder.to_registers`
  pub from_registers : List ℕ → Bytes
  pub to_registers : Bytes → List ℕ

pub record IsPayload (P : Payload) : Type 0 where
  pub add_fits : (f : Format) (z : ℤ) → InRange f z → (bs : Bytes) × (P.add f z ≡ some bs)
  pub add_range : (f : Format) (z : ℤ) (bs : Bytes) → P.add f z ≡ some bs → InRange f z
  pub add_size : (f : Format) (z : ℤ) (bs : Bytes) → P.add f z ≡ some bs → length bs ≡ size f
  pub decode_add :
      (f : Format) (z : ℤ) (bs rest : Bytes)
      → P.add f z ≡ some bs
      → P.decode f (bs ++ rest) ≡ some (z, rest)
  -- an integer in range of a signed and an unsigned format of one size has the same bytes in both
  pub add_agree :
      (f g : Format) (z : ℤ) → size f ≡ size g → InRange f z → InRange g z → P.add f z ≡ P.add g z
  pub add_zero : (f : Format) → P.add f (pos 0) ≡ some (replicate (size f) 0)
  -- as many bytes as the format has are a number, whatever follows them
  pub decode_takes :
      (f : Format) (own : Bytes)
      → length own ≡ size f
      → (z : ℤ) × ((rest : Bytes) → P.decode f (own ++ rest) ≡ some (z, rest))
  pub decode_string_append :
      (n : ℕ) (own rest : Bytes) → length own ≡ n → P.decode_string n (own ++ rest) ≡ (own, rest)
  pub skip_append :
      (n : ℕ) (used rest : Bytes) → length used ≡ n → P.skip_bytes n (used ++ rest) ≡ rest
  pub length-from_registers : (rs : List ℕ) → length (P.from_registers rs) ≡ 2 * length rs
  pub length-to_registers :
      (n : ℕ) (bs : Bytes) → length bs ≡ 2 * n → length (P.to_registers bs) ≡ n
