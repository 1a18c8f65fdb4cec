-- ===== src/Payload/BigEndian.antt =====
-- A payload codec that meets `IsPayload`: numbers in big-endian order, negative ones in two's
-- complement. The tests and examples run the models with it.
use huawei_solar_lib.Base.{
  ℕ, zero, suc, ◌+◌, ◌-◌, ◌*◌, ◌/◌, ◌%◌, ◌≤◌, ◌<◌, ◌≡◌, refl, ap, ◌∙◌, inl, inr, Bool, true, Option,
  none, some, List, [], ◌∷◌, ◌++◌, arith, ltb, if◌then◌else◌, Bool-cases, Option-cases,
}
use huawei_solar_lib.Base.Int.{ℤ, pos, negsuc}
use huawei_solar_lib.Base.Lists.{
  length, take, drop, replicate, length-append, take-append, drop-append,
}
use huawei_solar_lib.Payload.{
  Bytes, Format, uint8, uint16, uint32, uint64, int16, int32, int64, size, upper, lower, InRange,
  Payload, IsPayload,
}

unfoldable pub to_bytes : ℕ → ℕ → Bytes
to_bytes zero n = []
to_bytes (suc k) n = to_bytes k (n / 256) ++ n % 256 ∷ []

unfoldable pub from_bytes : ℕ → Bytes → ℕ
from_bytes acc [] = acc
from_bytes acc (b ∷ bs) = from_bytes (acc * 256 + b) bs

from_bytes-snoc :
    (acc b : ℕ) (bs : Bytes) → from_bytes acc (bs ++ b ∷ []) ≡ from_bytes acc bs * 256 + b
unfolding from_bytes
from_bytes-snoc acc b [] = refl
from_bytes-snoc acc b (c ∷ bs) = from_bytes-snoc (acc * 256 + c) b bs

unfoldable pub power : ℕ → ℕ
power zero = 1
power (suc k) = power k * 256

pub from_bytes-to_bytes : (k n : ℕ) → n < power k → from_bytes 0 (to_bytes k n) ≡ n
unfolding from_bytes to_bytes power
from_bytes-to_bytes zero n h = omega arith
from_bytes-to_bytes (suc k) n h = omega (
  arith,
  from_bytes-snoc 0 (n % 256) (to_bytes k (n / 256)),
  from_bytes-to_bytes k (n / 256) (omega arith),
)

pub length-to_bytes : (k n : ℕ) → length (to_bytes k n) ≡ k
unfolding to_bytes
length-to_bytes zero n = refl
length-to_bytes (suc k) n =
    omega (arith, length-append (to_bytes k (n / 256)) (n % 256 ∷ []), length-to_bytes k (n / 256))

-- the bit pattern of an integer, and the integer of a bit pattern
raw : Format → ℤ → ℕ
unfolding power
raw f (pos n) = n
raw f (negsuc n) = power (size f) - n - 1

value : Format → ℕ → ℤ
unfolding power
value f r = if ltb r (upper f) then pos r else negsuc (power (size f) - r - 1)

in_range : Format → ℤ → Bool
in_range f (pos n) = ltb n (upper f)
in_range f (negsuc n) = ltb n (lower f)

in_range_sound : (f : Format) (z : ℤ) → in_range f z ≡ true → InRange f z
unfolding in_range
in_range_sound f (pos n) h = ground arith
in_range_sound f (negsuc n) h = ground arith

in_range_complete : (f : Format) (z : ℤ) → InRange f z → in_range f z ≡ true
unfolding in_range
in_range_complete f (pos n) h = ground arith
in_range_complete f (negsuc n) h = ground arith

upper-le-power : (f : Format) → (upper f ≤ power (size f)) × (upper f + lower f ≤ power (size f))
unfolding power
upper-le-power uint8 = omega arith
upper-le-power uint16 = omega arith
upper-le-power uint32 = omega arith
upper-le-power uint64 = omega arith
upper-le-power int16 = omega arith
upper-le-power int32 = omega arith
upper-le-power int64 = omega arith

raw-lt : (f : Format) (z : ℤ) → InRange f z → raw f z < power (size f)
unfolding raw
raw-lt f (pos n) h = omega (arith, (upper-le-power f).0)
raw-lt f (negsuc n) h = omega (arith, (upper-le-power f).1)

value-raw : (f : Format) (z : ℤ) → InRange f z → value f (raw f z) ≡ z
unfolding value raw
value-raw f (pos n) h = ground arith
value-raw f (negsuc n) h = ground (arith, (upper-le-power f).1)

-- the first n bytes and the others, if there are as many
unfoldable pub take_exact : ℕ → Bytes → Option (Bytes × Bytes)
take_exact zero bs = some ([], bs)
take_exact (suc n) [] = none
take_exact (suc n) (b ∷ bs) = elim (take_exact n bs) [
  | none ↦ none
  | some (used, rest) ↦ some (b ∷ used, rest)
]

pub take_exact-append : (xs ys : Bytes) → take_exact (length xs) (xs ++ ys) ≡ some (xs, ys)
unfolding take_exact
take_exact-append [] ys = refl
take_exact-append (x ∷ xs) ys = ground (arith, take_exact-append xs ys)

pub take_exact-eq-some :
    (n : ℕ) (bs used rest : Bytes)
    → take_exact n bs ≡ some (used, rest)
    → (bs ≡ used ++ rest) × (length used ≡ n)
unfolding take_exact
take_exact-eq-some zero bs used rest h =
    let e : used ≡ [] = cc in let e' : bs ≡ rest = cc in rw (e, e') (refl, refl)
take_exact-eq-some (suc n) [] used rest h = cc
take_exact-eq-some (suc n) (b ∷ bs) used rest h = elim (Option-cases (take_exact n bs)) [
  | inl e ↦ absurd (cc (rw e at h))
  | inr ((xs, ys), e) ↦
      let found : some (b ∷ xs, ys) ≡ some (used, rest) = rw e at h in
      let e' : used ≡ b ∷ xs = cc in
      let e'' : rest ≡ ys = cc in
      let (split, long) = take_exact-eq-some n bs xs ys e in
      rw (e', e'') (ap (◌∷◌ b) split, ap suc long)
]

registers_to_bytes : List ℕ → Bytes
registers_to_bytes [] = []
registers_to_bytes (r ∷ rs) = r / 256 % 256 ∷ r % 256 ∷ registers_to_bytes rs

bytes_to_registers : Bytes → List ℕ
bytes_to_registers [] = []
bytes_to_registers (b ∷ []) = b * 256 ∷ []
bytes_to_registers (b ∷ c ∷ bs) = (b * 256 + c) ∷ bytes_to_registers bs

length-registers_to_bytes : (rs : List ℕ) → length (registers_to_bytes rs) ≡ 2 * length rs
unfolding registers_to_bytes
length-registers_to_bytes [] = refl
length-registers_to_bytes (r ∷ rs) = omega (arith, length-registers_to_bytes rs)

length-bytes_to_registers :
    (n : ℕ) (bs : Bytes) → length bs ≡ 2 * n → length (bytes_to_registers bs) ≡ n
unfolding bytes_to_registers
length-bytes_to_registers zero [] h = refl
length-bytes_to_registers (suc n) [] h = absurd (omega arith)
length-bytes_to_registers n (b ∷ []) h = absurd (omega arith)
length-bytes_to_registers zero (b ∷ c ∷ bs) h = absurd (omega arith)
length-bytes_to_registers (suc n) (b ∷ c ∷ bs) h =
    omega (arith, length-bytes_to_registers n bs (omega arith))

to_value : Format → Option (Bytes × Bytes) → Option (ℤ × Bytes)
unfolding value from_bytes
to_value f none = none
to_value f (some (used, rest)) = some (value f (from_bytes 0 used), rest)

decode_bytes : Format → Bytes → Option (ℤ × Bytes)
unfolding take_exact to_value
decode_bytes f bs = to_value f (take_exact (size f) bs)

add_bytes : Format → ℤ → Option Bytes
unfolding in_range to_bytes raw
add_bytes f z = if in_range f z then some (to_bytes (size f) (raw f z)) else none

unfoldable pub big_endian : Payload
unfolding add_bytes decode_bytes take_exact registers_to_bytes bytes_to_registers
big_endian = record {
  add = add_bytes;
  decode = decode_bytes;
  decode_string = λ n bs. (take n bs, drop n bs);
  skip_bytes = drop;
  from_registers = registers_to_bytes;
  to_registers = bytes_to_registers;
}

add_bytes-InRange :
    (f : Format) (z : ℤ) → InRange f z → add_bytes f z ≡ some (to_bytes (size f) (raw f z))
unfolding add_bytes
add_bytes-InRange f z h = rw (in_range_complete f z h)

add_bytes-eq-some :
    (f : Format) (z : ℤ) (bs : Bytes)
    → add_bytes f z ≡ some bs
    → InRange f z × (bs ≡ to_bytes (size f) (raw f z))
unfolding add_bytes
add_bytes-eq-some f z bs h = elim (Bool-cases (in_range f z)) [
  | inl e ↦ let h' = rw e at h in (in_range_sound f z e, cc)
  | inr e ↦ let h' = rw e at h in absurd (cc h')
]

to_value-taken :
    (f : Format) (z : ℤ) (rest : Bytes)
    → InRange f z
    → to_value f (some (to_bytes (size f) (raw f z), rest)) ≡ some (z, rest)
unfolding to_value
to_value-taken f z rest fits =
    rw (from_bytes-to_bytes (size f) (raw f z) (raw-lt f z fits), value-raw f z fits)

decode_bytes-add_bytes :
    (f : Format) (z : ℤ) (bs rest : Bytes)
    → add_bytes f z ≡ some bs
    → decode_bytes f (bs ++ rest) ≡ some (z, rest)
unfolding decode_bytes
decode_bytes-add_bytes f z bs rest h =
    let (fits, e) = add_bytes-eq-some f z bs h in
    let long : length bs ≡ size f = rw e (length-to_bytes (size f) (raw f z)) in
    let taken : take_exact (size f) (bs ++ rest) ≡ some (bs, rest) =
      rw long at (take_exact-append bs rest) in
    ap (to_value f) taken ∙ ap (λ xs. to_value f (some (xs, rest))) e ∙ to_value-taken f z rest fits

raw-agree : (f g : Format) (z : ℤ) → size f ≡ size g → raw f z ≡ raw g z
unfolding raw
raw-agree f g (pos n) h = refl
raw-agree f g (negsuc n) h = rw h

decode_bytes-takes :
    (f : Format) (own : Bytes)
    → length own ≡ size f
    → (z : ℤ) × ((rest : Bytes) → decode_bytes f (own ++ rest) ≡ some (z, rest))
unfolding decode_bytes to_value
decode_bytes-takes f own long = (
  value f (from_bytes 0 own),
  λ rest.
      let taken : take_exact (size f) (own ++ rest) ≡ some (own, rest) =
        rw long at (take_exact-append own rest) in
      ap (to_value f) taken,
)

slice-append :
    (n : ℕ) (own rest : Bytes)
    → length own ≡ n
    → ◌≡◌ {A = Bytes × Bytes} (take n (own ++ rest), drop n (own ++ rest)) (own, rest)
slice-append n own rest long = rw (← long, take-append own rest, drop-append own rest) refl

add_bytes-zero : (f : Format) → add_bytes f (pos 0) ≡ some (replicate (size f) 0)
unfolding add_bytes
add_bytes-zero uint8 = refl
add_bytes-zero uint16 = refl
add_bytes-zero uint32 = refl
add_bytes-zero uint64 = refl
add_bytes-zero int16 = refl
add_bytes-zero int32 = refl
add_bytes-zero int64 = refl

-- The codec has the documented behaviour.
pub big_endian-IsPayload : IsPayload big_endian
unfolding big_endian
big_endian-IsPayload = record {
  add_fits = λ f z h. (to_bytes (size f) (raw f z), add_bytes-InRange f z h);
  add_range = λ f z bs h. (add_bytes-eq-some f z bs h).0;
  add_size = λ f z bs h. rw ((add_bytes-eq-some f z bs h).1) (length-to_bytes (size f) (raw f z));
  decode_add = decode_bytes-add_bytes;
  add_agree = λ f g z same hf hg.
      rw (add_bytes-InRange f z hf, add_bytes-InRange g z hg, same, raw-agree f g z same);
  add_zero = add_bytes-zero;
  decode_takes = decode_bytes-takes;
  decode_string_append = slice-append;
  skip_append = λ n used rest h. rw (← h) (drop-append used rest);
  length-from_registers = length-registers_to_bytes;
  length-to_registers = length-bytes_to_registers;
}
