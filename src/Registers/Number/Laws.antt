-- ===== src/Registers/Number/Laws.antt =====
-- What number registers read back of what they wrote.
use Prim.Native.String.{String}
use huawei_solar_lib.Base.{
  ℕ, ◌≡◌, ◌≢◌, refl, sym, ap, ◌∙◌, ◌⊎◌, inl, inr, true, false, Option, none, some, [], ◌∷◌, ◌++◌,
  ◌==◌, ==_iff, some_inj, Bool-cases, arith,
}
use huawei_solar_lib.Base.Int.{ℤ, pos, negsuc, ◌*ℤ◌, eqb_ℤ, eqb_ℤ→eq}
use huawei_solar_lib.Base.Floats.{Floats}
use huawei_solar_lib.Base.Lists.{length}
use huawei_solar_lib.Exceptions.{Result, ok, err, Result-cases}
use huawei_solar_lib.Exceptions
use huawei_solar_lib.Payload.{Payload, IsPayload, Bytes, InRange, size}
use huawei_solar_lib.Payload.Emit.{read, emit_all-Fits, Reads-read}
use huawei_solar_lib.Registers.Values.{IntEnum}
use huawei_solar_lib.Registers.Definition.{NumberRegister, enum}
use huawei_solar_lib.Registers.Number.{
  Value, absent, int, float, converts, member, convert, member_or_error, interpret, value_of,
  decode, encode, int_data, find_member, is_invalid,
}

mul_one : (n : ℕ) → pos n *ℤ pos 1 ≡ pos n
unfolding ◌*ℤ◌
mul_one n = ground arith

mul_one_ℤ : (z : ℤ) → z *ℤ pos 1 ≡ z
unfolding ◌*ℤ◌
mul_one_ℤ (pos n) = ground arith
mul_one_ℤ (negsuc n) = ground arith

eqb_ℤ_same : (z : ℤ) → eqb_ℤ z z ≡ true
eqb_ℤ_same z = ground arith

gain-cases : (g : ℕ) → ((g ≡ 1) × ((g == 1) ≡ true)) ⊎ ((g ≢ 1) × ((g == 1) ≡ false))
gain-cases g = elim (Bool-cases (g == 1)) [
  | inl same ↦ inl ((==_iff g 1).0 same, same)
  | inr other ↦ inr (λ e. absurd (cc ((==_iff g 1).1 e, other)), other)
]

module _ (fl : Floats) where
  invalid-cases :
      (o : Option ℤ) (z : ℤ)
      → ((o ≡ some z) × (is_invalid fl o z ≡ true)) ⊎ ((o ≢ some z) × (is_invalid fl o z ≡ false))
  invalid-cases none z = inr (λ e. absurd (cc), refl)
  invalid-cases (some v) z = elim (Bool-cases (eqb_ℤ z v)) [
    | inl same ↦ inl (ap some (sym (eqb_ℤ→eq z v same)), same)
    | inr other ↦ inr (
      λ e.
          let same : z ≡ v = sym (some_inj e) in
          absurd (cc (ap (eqb_ℤ z) same, eqb_ℤ_same z, other)),
      other,
    )
  ]

  -- What the number z, multiplied by the gain of a register that does not convert, reads back as: None
  -- if the product is the invalid value, else z itself without a gain, and else the quotient by it.
  abbrev pub IsReadBack : NumberRegister → ℤ → Value fl.Float → Type 0
  IsReadBack r z v =
      ((r.invalid_value ≡ some (z *ℤ pos r.gain)) × (v ≡ absent))
      ⊎ (((r.invalid_value ≢ some (z *ℤ pos r.gain)) × (r.gain ≡ 1) × (v ≡ int z))
          ⊎ ((r.invalid_value ≢ some (z *ℤ pos r.gain))
              × (r.gain ≢ 1)
              × (v ≡ float (fl.int_div (z *ℤ pos r.gain) (pos r.gain)))))

  value_of-IsReadBack :
      (r : NumberRegister) (z : ℤ)
      → converts r.unit ≡ false
      → (v : Value fl.Float) × (value_of fl r (z *ℤ pos r.gain) ≡ ok v) × IsReadBack r z v
  unfolding value_of interpret
  value_of-IsReadBack r z plain = elim (invalid-cases r.invalid_value (z *ℤ pos r.gain)) [
    | inl (same, invalid) ↦ (absent, rw invalid refl, inl (same, refl))
    | inr (other, valid) ↦ elim (gain-cases r.gain) [
      | inl (one, is_one) ↦ (
        int z,
        rw (valid, plain, is_one) (ap (λ x. ok (int x)) (rw one (mul_one_ℤ z))),
        inr (inl (other, one, refl)),
      )
      | inr (more, is_more) ↦ (
        float (fl.int_div (z *ℤ pos r.gain) (pos r.gain)),
        rw (valid, plain, is_more) refl,
        inr (inr (other, more, refl)),
      )
    ]
  ]

module _ (fl : Floats) (P : Payload) (laws : IsPayload P) where
  -- A value whose number, the gain included, is in range of the register's format is encoded in as
  -- many bytes as the format has. Decoding the bytes, whatever follows them, takes exactly these and
  -- interprets the same number, or raises what its interpretation raises.
  pub number_decode-encode :
      (r : NumberRegister) (v : Value fl.Float) (z : ℤ)
      → r.encode_function ≡ r.decode_function
      → int_data fl r v ≡ ok z
      → InRange r.encode_function z
      → (bs : Bytes) × (encode fl r P v ≡ ok bs)
        × (length bs ≡ size r.encode_function)
        × ((rest : Bytes)
            → decode fl r P (bs ++ rest) ≡ Exceptions.◌>>=◌ (value_of fl r z) (λ x. ok (x, rest)))
  unfolding encode decode
  number_decode-encode r v z same number fits =
      let (bs, e, long) = emit_all-Fits P laws ((r.encode_function, z) ∷ []) (fits, tt) in
      (
        bs,
        rw number e,
        omega (arith, long),
        λ rest.
            let one : read P r.decode_function (bs ++ rest) ≡ ok (z, rest) =
              rw (← same) (Reads-read P laws r.encode_function z bs rest e) in
            rw one refl,
      )

  -- An integer whose product with the gain is in range of the format of a register that does not
  -- convert is encoded in as many bytes as the format has. Decoding the bytes, whatever follows them,
  -- takes exactly these and gives None if the product is the register's invalid value, the integer
  -- itself if the gain is 1, and otherwise the quotient of the product by the gain.
  pub int_decode-encode :
      (r : NumberRegister) (z : ℤ)
      → converts r.unit ≡ false
      → r.encode_function ≡ r.decode_function
      → InRange r.encode_function (z *ℤ pos r.gain)
      → (bs : Bytes) × (v : Value fl.Float) × (encode fl r P (int z) ≡ ok bs)
        × (length bs ≡ size r.encode_function)
        × IsReadBack fl r z v
        × ((rest : Bytes) → decode fl r P (bs ++ rest) ≡ ok (v, rest))
  unfolding int_data
  int_decode-encode r z plain same fits =
      let (bs, written, long, back) =
        number_decode-encode r (int z) (z *ℤ pos r.gain) same refl fits in
      let (v, found, is_back) = value_of-IsReadBack fl r z plain in
      (bs, v, written, long, is_back, λ rest. back rest ∙ rw found refl)

  -- A member of a register's enum, whose number is in range and not the invalid one, reads back as
  -- itself, where the enum is without gain and has no earlier member of the same number.
  pub enum_decode-encode :
      (r : NumberRegister) (e : IntEnum) (name : String) (n : ℕ)
      → r.unit ≡ enum e
      → r.gain ≡ 1
      → r.encode_function ≡ r.decode_function
      → InRange r.encode_function (pos n)
      → is_invalid fl r.invalid_value (pos n) ≡ false
      → find_member e.members (pos n) ≡ some (name, n)
      → (bs : Bytes) × (encode fl r P (member e.class_name name n) ≡ ok bs)
        × ((rest : Bytes) → decode fl r P (bs ++ rest) ≡ ok (member e.class_name name n, rest))
  unfolding int_data value_of interpret convert member_or_error
  enum_decode-encode r e name n is_enum plain same fits valid found =
      let number : int_data fl r (member e.class_name name n) ≡ ok (pos n) =
        rw plain (ap ok (mul_one n)) in
      let (bs, written, _, back) =
        number_decode-encode r (member e.class_name name n) (pos n) same number fits in
      (bs, written, λ rest. back rest ∙ rw (valid, is_enum, plain, found) refl)
