-- ===== src/Struct/Laws.antt =====
-- Packing and unpacking in one format are inverse to each other.
use mathlib.Core.List.{append_assoc, append-nil}
use huawei_solar_lib.Base.{
  ℕ, zero, suc, ◌+◌, ◌/◌, ◌<◌, ◌≡◌, ◌≢◌, refl, sym, ap, ◌∙◌, Bool, true, false, List, [], ◌∷◌, ◌++◌,
  ltb, lt→ltb, ltb→lt, if◌then◌else◌, arith,
}
use huawei_solar_lib.Base.Int.{ℤ, pos, negsuc}
use huawei_solar_lib.Base.Lists.{
  length, drop, replicate, length-append, length-replicate, take-append, drop-append,
}
use huawei_solar_lib.Exceptions.{ok_inj, ok, err, struct_error, >>=-eq-ok}
use huawei_solar_lib.Payload.{Bytes}
use huawei_solar_lib.Payload.BigEndian.{
  from_bytes, power, from_bytes-to_bytes, length-to_bytes, take_exact-append,
}
use huawei_solar_lib.Struct.{
  Order, big, little, Code, uint, int, chars, pad, truth, Values, calcsize, to_little, from_little,
  ordered, number, signed, unsigned, fits_int, IsInt, Fits, or_error, pack, read_bytes, nonzero,
  unpacked, unpack_from, unpack,
}

from_little-to_little : (k n : ℕ) → n < power k → from_little (to_little k n) ≡ n
unfolding from_little to_little power
from_little-to_little zero n h = omega arith
from_little-to_little (suc k) n h = omega (arith, from_little-to_little k (n / 256) (omega arith))

length-to_little : (k n : ℕ) → length (to_little k n) ≡ k
unfolding to_little
length-to_little zero n = refl
length-to_little (suc k) n = ap suc (length-to_little k (n / 256))

pub length-ordered : (o : Order) (k n : ℕ) → length (ordered o k n) ≡ k
length-ordered big k n = length-to_bytes k n
length-ordered little k n = length-to_little k n

pub number-ordered : (o : Order) (k n : ℕ) → n < power k → number o (ordered o k n) ≡ n
number-ordered big k n h = from_bytes-to_bytes k n h
number-ordered little k n h = from_little-to_little k n h

signed-unsigned : (k : ℕ) (z : ℤ) → IsInt k z → signed k (unsigned k z) ≡ z
unfolding signed unsigned
signed-unsigned k (pos n) h = ground arith
signed-unsigned k (negsuc n) h = ground arith

unsigned-lt : (k : ℕ) (z : ℤ) → IsInt k z → unsigned k z < power k
unfolding unsigned
unsigned-lt k (pos n) h = omega arith
unsigned-lt k (negsuc n) h = omega arith

fits_int-of_IsInt : (k : ℕ) (z : ℤ) → IsInt k z → fits_int k z ≡ true
unfolding fits_int
fits_int-of_IsInt k (pos n) h = ground arith
fits_int-of_IsInt k (negsuc n) h = ground arith

pub read_bytes-append :
    (k : ℕ) (bs rest : Bytes) → length bs ≡ k → read_bytes k (bs ++ rest) ≡ ok (bs, rest)
unfolding read_bytes
read_bytes-append k bs rest h = rw (← h, take_exact-append bs rest)

abbrev bit : Bool → ℕ
bit b = if b then 1 else 0

nonzero-bit : (o : Order) (b : Bool) → nonzero (number o (bit b ∷ [])) ≡ b
unfolding from_bytes from_little
nonzero-bit big true = refl
nonzero-bit big false = refl
nonzero-bit little true = refl
nonzero-bit little false = refl

-- Bytes of the format's size that it unpacks to the values, whatever follows them.
abbrev pub Holds : Order → (cs : List Code) → Values cs → Bytes → Type 0
Holds o cs vs bs =
    (length bs ≡ calcsize cs) × ((rest : Bytes) → unpacked o cs (bs ++ rest) ≡ ok (vs, rest))

module _ (o : Order) (cs : List Code) (vs : Values cs) (bs : Bytes) (h : Holds o cs vs bs) where
  longer : (k : ℕ) (first : Bytes) → length first ≡ k → length (first ++ bs) ≡ k + calcsize cs
  longer k first e = omega (arith, length-append first bs, h.0)

  next_field :
      (k : ℕ) (first rest : Bytes)
      → length first ≡ k
      → read_bytes k ((first ++ bs) ++ rest) ≡ ok (first, bs ++ rest)
  next_field k first rest e =
      rw (append_assoc first bs rest) (read_bytes-append k first (bs ++ rest) e)

  Holds-uint : (k n : ℕ) → n < power k → Holds o (uint k ∷ cs) (n, vs) (ordered o k n ++ bs)
  unfolding unpacked
  Holds-uint k n fits = (
    longer k (ordered o k n) (length-ordered o k n),
    λ rest. rw (
      next_field k (ordered o k n) rest (length-ordered o k n),
      h.1 rest,
      number-ordered o k n fits,
    ),
  )

  Holds-int :
      (k : ℕ) (z : ℤ) → IsInt k z → Holds o (int k ∷ cs) (z, vs) (ordered o k (unsigned k z) ++ bs)
  unfolding unpacked
  Holds-int k z fits = (
    longer k (ordered o k (unsigned k z)) (length-ordered o k (unsigned k z)),
    λ rest. rw (
      next_field k (ordered o k (unsigned k z)) rest (length-ordered o k (unsigned k z)),
      h.1 rest,
      number-ordered o k (unsigned k z) (unsigned-lt k z fits),
      signed-unsigned k z fits,
    ),
  )

  Holds-chars :
      (k : ℕ) (text : Bytes) → length text ≡ k → Holds o (chars k ∷ cs) (text, vs) (text ++ bs)
  unfolding unpacked
  Holds-chars k text e = (longer k text e, λ rest. rw (next_field k text rest e, h.1 rest))

  Holds-pad : (k : ℕ) → Holds o (pad k ∷ cs) vs (replicate k 0 ++ bs)
  unfolding unpacked
  Holds-pad k = (
    longer k (replicate k 0) (length-replicate k 0),
    λ rest. rw (next_field k (replicate k 0) rest (length-replicate k 0)) (h.1 rest),
  )

  Holds-truth : (b : Bool) → Holds o (truth ∷ cs) (b, vs) (bit b ∷ bs)
  unfolding unpacked
  Holds-truth b = (omega (arith, h.0), λ rest. rw (h.1 rest, nonzero-bit o b))

-- A format packs the values that it takes to bytes that it unpacks to them.
pub pack-Fits :
    (o : Order) (cs : List Code) (vs : Values cs)
    → Fits cs vs
    → (bs : Bytes) × (pack o cs vs ≡ ok bs) × Holds o cs vs bs
unfolding pack unpacked
pack-Fits o [] vs fits = ([], refl, (refl, λ rest. refl))
pack-Fits o (uint k ∷ cs) (n, vs) (fit, fits) =
    let (bs, e, holds) = pack-Fits o cs vs fits in
    (ordered o k n ++ bs, rw (lt→ltb n (power k) fit, e), Holds-uint o cs vs bs holds k n fit)
pack-Fits o (int k ∷ cs) (z, vs) (fit, fits) =
    let (bs, e, holds) = pack-Fits o cs vs fits in
    (
      ordered o k (unsigned k z) ++ bs,
      rw (fits_int-of_IsInt k z fit, e),
      Holds-int o cs vs bs holds k z fit,
    )
pack-Fits o (chars k ∷ cs) (text, vs) (fit, fits) =
    let (bs, e, holds) = pack-Fits o cs vs fits in
    (
      text ++ bs,
      rw (← fit, take-append text (replicate (length text) 0), e),
      Holds-chars o cs vs bs holds k text fit,
    )
pack-Fits o (pad k ∷ cs) vs fits =
    let (bs, e, holds) = pack-Fits o cs vs fits in
    (replicate k 0 ++ bs, rw e, Holds-pad o cs vs bs holds k)
pack-Fits o (truth ∷ cs) (b, vs) fits =
    let (bs, e, holds) = pack-Fits o cs vs fits in
    (bit b ∷ bs, rw e, Holds-truth o cs vs bs holds b)

or_error-eq-ok : (b : Bool) (bs bs' : Bytes) → or_error b bs ≡ ok bs' → (b ≡ true) × (bs ≡ bs')
or_error-eq-ok true bs bs' h = (refl, cc)
or_error-eq-ok false bs bs' h = absurd (cc h)

-- A format of unsigned integers packs nothing but the values that it takes.
abbrev pub AreUnsigned : List Code → Type 0
AreUnsigned [] = Unit
AreUnsigned (uint k ∷ cs) = AreUnsigned cs
AreUnsigned (_ ∷ cs) = ⊥

pub pack-eq-ok :
    (o : Order) (cs : List Code) (vs : Values cs) (bs : Bytes)
    → AreUnsigned cs
    → pack o cs vs ≡ ok bs
    → Fits cs vs
unfolding pack
pack-eq-ok o [] vs bs u h = tt
pack-eq-ok o (uint k ∷ cs) (n, vs) bs u h =
    let (first, e, h') = >>=-eq-ok (or_error (ltb n (power k)) (ordered o k n)) _ h in
    let (rest, e', h'') = >>=-eq-ok (pack o cs vs) _ h' in
    (ltb→lt n (power k) (or_error-eq-ok _ _ _ e).0, pack-eq-ok o cs vs rest u e')
pack-eq-ok o (int k ∷ cs) vs bs u h = absurd u
pack-eq-ok o (chars k ∷ cs) vs bs u h = absurd u
pack-eq-ok o (pad k ∷ cs) vs bs u h = absurd u
pack-eq-ok o (truth ∷ cs) vs bs u h = absurd u

pub pack-Holds :
    (o : Order) (cs : List Code) (vs : Values cs) (bs : Bytes)
    → AreUnsigned cs
    → pack o cs vs ≡ ok bs
    → Holds o cs vs bs
pack-Holds o cs vs bs u h =
    let (bs', e, holds) = pack-Fits o cs vs (pack-eq-ok o cs vs bs u h) in
    let same : bs' ≡ bs = ok_inj (sym e ∙ h) in rw (← same) holds

module _ (o : Order) (cs : List Code) (vs : Values cs) (bs : Bytes) (h : Holds o cs vs bs) where
  pub drop-Holds : (rest : Bytes) → drop (calcsize cs) (bs ++ rest) ≡ rest
  drop-Holds rest = rw (← h.0) (drop-append bs rest)

  pub unpack_from-Holds : (rest : Bytes) → unpack_from o cs (bs ++ rest) 0 ≡ ok vs
  unfolding unpack_from
  unpack_from-Holds rest = rw (h.1 rest)

  pub unpack-Holds : unpack o cs bs ≡ ok vs
  unfolding unpack
  unpack-Holds = let whole = h.1 [] in let whole' = rw (append-nil bs) at whole in rw whole'

  -- Bytes that follow the format's are refused by `unpack`.
  pub unpack-longer : (rest : Bytes) → rest ≢ [] → unpack o cs (bs ++ rest) ≡ err struct_error
  unfolding unpack
  unpack-longer [] more = absurd (more refl)
  unpack-longer (b ∷ rest) more = rw (h.1 (b ∷ rest))
