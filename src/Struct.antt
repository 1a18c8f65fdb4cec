-- ===== src/Struct.antt =====
-- Python's `struct` module, as far as src/huawei_solar/modbus.py and files.py call it: format
-- strings without native alignment, `pack`, `unpack` and `unpack_from`.
pub mod Laws
use huawei_solar_lib.Base.{
  ℕ, zero, suc, ◌+◌, ◌-◌, ◌*◌, ◌/◌, ◌%◌, ◌<◌, ◌≡◌, Bool, true, false, not, Option, none, some, List,
  [], ◌∷◌, ◌++◌, ltb, ◌==◌, if◌then◌else◌,
}
use huawei_solar_lib.Base.Int.{ℤ, pos, negsuc}
use huawei_solar_lib.Base.Lists.{length, take, drop, replicate}
use huawei_solar_lib.Exceptions.{Result, ok, err, struct_error}
use huawei_solar_lib.Exceptions
use huawei_solar_lib.Payload.{Bytes}
use huawei_solar_lib.Payload.BigEndian.{to_bytes, from_bytes, power, take_exact}
use huawei_solar_lib.Payload.Emit.{Reader, ◌>>=◌, pure}

-- `>` and `<`
pub data Order : Type 0 where
  big little : Order

-- `B`, `H`, `I` and `L` are `uint` of 1, 2 and 4 bytes, `b`, `h` and `i` are `int`, `4s` is `chars 4`,
-- `8x` is `pad 8`, and `?` is `truth`.
pub data Code : Type 0 where
  uint : ℕ → Code
  int : ℕ → Code
  chars : ℕ → Code
  pad : ℕ → Code
  truth : Code

-- what a format packs, and what it unpacks to
abbrev pub Values : List Code → Type 0
Values [] = Unit
Values (uint k ∷ cs) = ℕ × Values cs
Values (int k ∷ cs) = ℤ × Values cs
Values (chars k ∷ cs) = Bytes × Values cs
Values (pad k ∷ cs) = Values cs
Values (truth ∷ cs) = Bool × Values cs

abbrev pub width : Code → ℕ
width (uint k) = k
width (int k) = k
width (chars k) = k
width (pad k) = k
width truth = 1

abbrev pub calcsize : List Code → ℕ
calcsize [] = 0
calcsize (c ∷ cs) = width c + calcsize cs

-- the integer in its order of bytes
unfoldable pub to_little : ℕ → ℕ → Bytes
to_little zero n = []
to_little (suc k) n = n % 256 ∷ to_little k (n / 256)

unfoldable pub from_little : Bytes → ℕ
from_little [] = 0
from_little (b ∷ bs) = b + 256 * from_little bs

abbrev pub ordered : Order → ℕ → ℕ → Bytes
ordered big k n = to_bytes k n
ordered little k n = to_little k n

abbrev pub number : Order → Bytes → ℕ
number big bs = from_bytes 0 bs
number little bs = from_little bs

-- Two's complement: the integers with -half k ≤ z < half k.
abbrev pub half : ℕ → ℕ
half k = power k / 2

unfoldable pub signed : ℕ → ℕ → ℤ
unfolding power
signed k n = if ltb n (half k) then pos n else negsuc (power k - n - 1)

unfoldable pub unsigned : ℕ → ℤ → ℕ
unfolding power
unsigned k (pos n) = n
unsigned k (negsuc n) = power k - n - 1

unfoldable pub fits_int : ℕ → ℤ → Bool
unfolding power
fits_int k (pos n) = ltb n (half k)
fits_int k (negsuc n) = ltb n (half k)

-- the values that a format takes
abbrev pub IsInt : ℕ → ℤ → Type 0
IsInt k (pos n) = n < half k
IsInt k (negsuc n) = n < half k

abbrev pub Fits : (cs : List Code) → Values cs → Type 0
Fits [] vs = Unit
Fits (uint k ∷ cs) (n, vs) = (n < power k) × Fits cs vs
Fits (int k ∷ cs) (z, vs) = IsInt k z × Fits cs vs
Fits (chars k ∷ cs) (bs, vs) = (length bs ≡ k) × Fits cs vs
Fits (pad k ∷ cs) vs = Fits cs vs
Fits (truth ∷ cs) (b, vs) = Fits cs vs

abbrev pub or_error : Bool → Bytes → Result Bytes
or_error true bs = ok bs
or_error false bs = err struct_error

abbrev pub behind : Result Bytes → Result Bytes → Result Bytes
behind first rest = Exceptions.◌>>=◌ first (λ bs. Exceptions.◌>>=◌ rest (λ bs'. ok (bs ++ bs')))

-- `struct.pack`: a text is cut or filled up with zero bytes.
unfoldable pub pack : Order → (cs : List Code) → Values cs → Result Bytes
unfolding fits_int unsigned to_bytes to_little power
pack o [] vs = ok []
pack o (uint k ∷ cs) (n, vs) = behind (or_error (ltb n (power k)) (ordered o k n)) (pack o cs vs)
pack o (int k ∷ cs) (z, vs) =
    behind (or_error (fits_int k z) (ordered o k (unsigned k z))) (pack o cs vs)
pack o (chars k ∷ cs) (bs, vs) = behind (ok (take k (bs ++ replicate k 0))) (pack o cs vs)
pack o (pad k ∷ cs) vs = behind (ok (replicate k 0)) (pack o cs vs)
pack o (truth ∷ cs) (b, vs) = behind (ok ((if b then 1 else 0) ∷ [])) (pack o cs vs)

abbrev pub taken_or_error : Option (Bytes × Bytes) → Result (Bytes × Bytes)
taken_or_error none = err struct_error
taken_or_error (some r) = ok r

unfoldable pub read_bytes : ℕ → Reader Bytes
unfolding take_exact
read_bytes k bs = taken_or_error (take_exact k bs)

-- the bytes as an integer that is not zero
abbrev pub nonzero : ℕ → Bool
nonzero n = not (n == 0)

-- The values of a format at the head of the bytes.
unfoldable pub unpacked : Order → (cs : List Code) → Reader (Values cs)
unfolding read_bytes signed from_bytes from_little power
unpacked o [] = pure tt
unpacked o (uint k ∷ cs) = do bs ← read_bytes k; vs ← unpacked o cs; pure (number o bs, vs)
unpacked o (int k ∷ cs) = do
  bs ← read_bytes k
  vs ← unpacked o cs
  pure (signed k (number o bs), vs)
unpacked o (chars k ∷ cs) = do bs ← read_bytes k; vs ← unpacked o cs; pure (bs, vs)
unpacked o (pad k ∷ cs) = do _ ← read_bytes k; unpacked o cs
unpacked o (truth ∷ cs) = do bs ← read_bytes 1; vs ← unpacked o cs; pure (nonzero (number o bs), vs)

-- `struct.unpack_from(format, buffer, offset)`
unfoldable pub unpack_from : Order → (cs : List Code) → Bytes → ℕ → Result (Values cs)
unfolding unpacked
unpack_from o cs buffer offset =
    Exceptions.◌>>=◌ (unpacked o cs (drop offset buffer)) (λ r. ok (r.0))

abbrev pub exhausted {ℓ} : {A : Type ℓ} → A × Bytes → Result A
exhausted (a, []) = ok a
exhausted (a, b ∷ bs) = err struct_error

-- `struct.unpack`: the buffer has the size of the format.
unfoldable pub unpack : Order → (cs : List Code) → Bytes → Result (Values cs)
unfolding unpacked
unpack o cs buffer = Exceptions.◌>>=◌ (unpacked o cs buffer) exhausted
