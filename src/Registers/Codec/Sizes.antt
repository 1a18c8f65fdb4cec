-- ===== src/Registers/Codec/Sizes.antt =====
-- How many bytes a register's `encode` gives.
use huawei_solar_lib.Base.{
  ℕ, ◌+◌, ◌*◌, ◌≤◌, ◌≡◌, refl, ◌∙◌, true, false, Bool, ==_iff, List, [], ◌∷◌, arith, leb, leb→le,
  ◌==◌,
}
use huawei_solar_lib.Base.Int.{pos}
use huawei_solar_lib.Base.Floats.{Floats}
use huawei_solar_lib.Base.Lists.{length, take, length-take}
use huawei_solar_lib.Exceptions.{Error, ok, guard, ◌>>◌, >>=-eq-ok}
use huawei_solar_lib.Payload.{Payload, IsPayload, Bytes, size, uint16}
use huawei_solar_lib.Payload.Emit.{Call, emit_all, total_size, concat, length-emit_all}
use huawei_solar_lib.Payload.Slots.{slots, total_size-slots}
use huawei_solar_lib.Registers.Definition.{
  Register, Kind, NumberRegister, string_register, number_register, absolute_value_register,
  timestamp_register, lg_resu_registers, luna2000_registers, charge_discharge_registers,
  peak_setting_registers,
}
use huawei_solar_lib.Registers.Number
use huawei_solar_lib.Registers.Number.{Value, absent}
use huawei_solar_lib.Registers.LgResu
use huawei_solar_lib.Registers.Luna2000
use huawei_solar_lib.Registers.ChargeDischarge
use huawei_solar_lib.Registers.Peak
use huawei_solar_lib.Registers.Codec.{
  Content, value, lg_resu_periods, luna2000_periods, charge_discharge_periods, peak_setting_periods,
  encode_kind, encode_register,
}

-- the registers that a class writes; a string register has no `encode`
abbrev pub encoded_length : Kind → ℕ → Bool
encoded_length string_register n = true
encoded_length (number_register r) n = size r.encode_function == 2 * n
encoded_length (absolute_value_register r) n = size r.encode_function == 2 * n
encoded_length (timestamp_register r) n = size r.encode_function == 2 * n
encoded_length lg_resu_registers n = n == 41
encoded_length luna2000_registers n = n == 43
encoded_length charge_discharge_registers n = n == 41
encoded_length peak_setting_registers n = n == 64

pub guard-ok : (b : Bool) (e : Error) → guard b e ≡ ok tt → b ≡ true
guard-ok true e h = refl
guard-ok false e h = absurd (cc h)

module _ (fl : Floats) (P : Payload) (laws : IsPayload P) where
  length-number :
      (r : NumberRegister) (v : Value fl.Float) (bs : Bytes)
      → Number.encode fl r P v ≡ ok bs
      → length bs ≡ size r.encode_function
  unfolding Number.encode
  length-number r v bs h =
      let (z, e, h') = >>=-eq-ok (Number.int_data fl r v) _ h in
      omega (arith, length-emit_all P laws ((r.encode_function, z) ∷ []) bs h')

  -- A count and the slots, behind the check of the number of elements.
  length-slots_calls :
      {A : Type 0} (n k : ℕ) (calls : A → List Call) (pad : List Call) (xs : List A) (e : Error)
      (bs : Bytes)
      → ((a : A) → total_size (calls a) ≡ k)
      → total_size pad ≡ k
      → (guard (leb (length xs) n) e
          >> emit_all P ((uint16, pos (length xs)) ∷ concat (slots n calls pad xs)))
        ≡ ok bs
      → length bs ≡ 2 + k * n
  length-slots_calls n k calls pad xs e bs each padded h =
      let (_, fits, h') = >>=-eq-ok (guard (leb (length xs) n) e) _ h in
      let few : length xs ≤ n = leb→le (length xs) n (guard-ok _ e fits) in
      omega
        (arith, total_size-slots n k calls pad xs each padded few, length-emit_all P laws _ bs h')

  length-lg :
      (ps : List (LgResu.LgResuTimeOfUsePeriod fl.Float)) (bs : Bytes)
      → LgResu.encode fl P ps ≡ ok bs
      → length bs ≡ 82
  unfolding LgResu.encode
  length-lg ps bs h =
      let (_, _, h') = >>=-eq-ok (LgResu.validate ps) _ h in
      length-slots_calls 10 8 (LgResu.period_calls fl) LgResu.empty_calls ps _ bs (λ p. refl) refl
        h'

  length-luna :
      (ps : List Luna2000.HuaweiLuna2000TimeOfUsePeriod) (bs : Bytes)
      → Luna2000.encode P ps ≡ ok bs
      → length bs ≡ 86
  unfolding Luna2000.encode
  length-luna ps bs h =
      let (_, _, h') = >>=-eq-ok (Luna2000.validate ps) _ h in
      length-slots_calls 14 6 Luna2000.period_calls Luna2000.empty_calls ps _ bs (λ p. refl) refl h'

  length-charge :
      (ps : List ChargeDischarge.ChargeDischargePeriod) (bs : Bytes)
      → ChargeDischarge.encode P ps ≡ ok bs
      → length bs ≡ 82
  unfolding ChargeDischarge.encode
  length-charge ps bs h =
      length-slots_calls 10 8 ChargeDischarge.period_calls ChargeDischarge.empty_calls ps _ bs
        (λ p. refl) refl h

  length-peak :
      (ps : List Peak.PeakSettingPeriod) (bs : Bytes) → Peak.encode P ps ≡ ok bs → length bs ≡ 128
  unfolding Peak.encode
  length-peak ps bs h =
      let few : length (take 14 ps) ≤ 14 = omega (arith, length-take 14 ps) in
      omega (
        arith,
        total_size-slots 14 9 Peak.period_calls Peak.empty_calls (take 14 ps) (λ p. refl) refl few,
        length-emit_all P laws (Peak.calls (take 14 ps)) bs h,
      )

  pub length-encode_kind :
      (k : Kind) (n : ℕ) (c : Content fl.Float) (bs : Bytes)
      → encoded_length k n ≡ true
      → encode_kind fl P k c ≡ ok bs
      → length bs ≡ 2 * n
  unfolding encode_kind
  length-encode_kind (number_register q) n (value v) bs fits h =
      length-number q v bs h ∙ (==_iff _ _).0 fits
  length-encode_kind (absolute_value_register q) n (value v) bs fits h =
      length-number q v bs h ∙ (==_iff _ _).0 fits
  length-encode_kind (timestamp_register q) n (value v) bs fits h =
      length-number q v bs h ∙ (==_iff _ _).0 fits
  length-encode_kind lg_resu_registers n (lg_resu_periods ps) bs fits h =
      omega (arith, length-lg ps bs h, (==_iff n 41).0 fits)
  length-encode_kind luna2000_registers n (luna2000_periods ps) bs fits h =
      omega (arith, length-luna ps bs h, (==_iff n 43).0 fits)
  length-encode_kind charge_discharge_registers n (charge_discharge_periods ps) bs fits h =
      omega (arith, length-charge ps bs h, (==_iff n 41).0 fits)
  length-encode_kind peak_setting_registers n (peak_setting_periods ps) bs fits h =
      omega (arith, length-peak ps bs h, (==_iff n 64).0 fits)
  length-encode_kind (number_register q) n _ bs fits h =
      length-number q absent bs h ∙ (==_iff _ _).0 fits
  length-encode_kind (absolute_value_register q) n _ bs fits h =
      length-number q absent bs h ∙ (==_iff _ _).0 fits
  length-encode_kind (timestamp_register q) n _ bs fits h =
      length-number q absent bs h ∙ (==_iff _ _).0 fits
  length-encode_kind _ n _ bs fits h = absurd (cc h)

  -- What `encode` gives for a register of the length of its class has two bytes for each of the
  -- register's 16-bit words.
  pub length-encode_register :
      (r : Register) (c : Content fl.Float) (bs : Bytes)
      → encoded_length r.kind r.length ≡ true
      → encode_register fl P r c ≡ ok bs
      → length bs ≡ 2 * r.length
  unfolding encode_register
  length-encode_register r c bs fits h = length-encode_kind r.kind r.length c bs fits h
