-- ===== src/Registers/ChargeDischarge/Laws.antt =====
-- `ChargeDischargePeriodRegisters` decodes what it encoded, where the power is not negative, and
-- cannot encode a negative power.
use huawei_solar_lib.Base.{
  ◌+◌, ◌*◌, ◌≤◌, ◌≡◌, refl, ap, ◌∙◌, inl, inr, List, ◌++◌, map, [], ◌∷◌, leb, arith, le→leb,
}
use huawei_solar_lib.Base.Int.{ℤ, pos, negsuc, ◌<ℤ◌}
use huawei_solar_lib.Base.Lists.{length, map-id, All, Any}
use huawei_solar_lib.Exceptions.{ok, err, struct_error}
use huawei_solar_lib.Payload.{Payload, IsPayload, Bytes, InRange, uint16, uint32, int32}
use huawei_solar_lib.Payload.Emit.{
  Call, concat, Reads, Reads-then, Reads-then_other, Reads-pure, Reads-guard, Fits, emit_all-Fits,
  emit_all-refuses,
}
use huawei_solar_lib.Payload.Slots.{slots, slots-Reads, total_size-slots, Fits-slots, Any-slots}
use huawei_solar_lib.Registers.ChargeDischarge.{
  ChargeDischargePeriod, charge_discharge_periods, period_calls, empty_calls, calls, encode,
  read_period, decode,
}

-- Times that fit 16 bits, and a power that both the unsigned and the signed format hold.
abbrev pub IsStorable : ChargeDischargePeriod → Type 0
IsStorable p =
    InRange uint16 p.start_time
    × InRange uint16 p.end_time
    × InRange uint32 p.power
    × InRange int32 p.power

-- Times that fit 16 bits, and a power that the signed format holds.
abbrev pub IsSent : ChargeDischargePeriod → Type 0
IsSent p = InRange uint16 p.start_time × InRange uint16 p.end_time × InRange int32 p.power

period-Fits : (p : ChargeDischargePeriod) → IsStorable p → Fits (period_calls p)
period-Fits p h = (h.0, (h.1, (h.2, tt)))

negative_unfit : (z : ℤ) → z <ℤ pos 0 → ¬ InRange uint32 z
negative_unfit (pos n) h _ = omega arith
negative_unfit (negsuc n) h k = omega arith

module _ (P : Payload) (laws : IsPayload P) where
  read_period-Reads :
      (p : ChargeDischargePeriod) → IsStorable p → Reads P (read_period P) (period_calls p) p
  unfolding read_period
  read_period-Reads p h = Reads-then P laws uint16 p.start_time _ _ p (
      Reads-then P laws uint16 p.end_time _ _ p
        (Reads-then_other P laws uint32 int32 p.power _ _ p refl h.3 (Reads-pure P laws p)))

  abbrev empty_period : ChargeDischargePeriod
  empty_period = record { start_time = pos 0; end_time = pos 0; power = pos 0 }

  calls-Fits :
      (ps : List ChargeDischargePeriod)
      → All IsStorable ps
      → length ps ≤ charge_discharge_periods
      → Fits (calls ps)
  calls-Fits ps h fits = (
    omega arith,
    Fits-slots 10 period_calls empty_calls IsStorable ps period-Fits (omega arith) h,
  )

  decode-Reads :
      (ps : List ChargeDischargePeriod)
      → All IsStorable ps
      → length ps ≤ charge_discharge_periods
      → Reads P (decode P) (calls ps) (map (λ p. p) ps)
  unfolding decode
  decode-Reads ps h fits = Reads-then P laws uint16 (pos (length ps)) _ _ (map (λ p. p) ps) (
      Reads-guard P laws (leb (length ps + 0) (10 + 0)) _ _ _ (map (λ p. p) ps) (ground arith) (
        slots-Reads P laws (read_period P) period_calls (λ p. p) empty_calls empty_period IsStorable
          read_period-Reads (read_period-Reads empty_period (omega arith)) charge_discharge_periods
          ps fits h))

  -- At most ten periods with 16-bit times and a power from 0 to 2^31 - 1 are encoded, in 41
  -- registers, and decoding the bytes, whatever follows them, gives back the same periods and
  -- leaves what follows.
  pub charge_decode-encode :
      (ps : List ChargeDischargePeriod)
      → All IsStorable ps
      → length ps ≤ charge_discharge_periods
      → (bs : Bytes) × (encode P ps ≡ ok bs)
        × (length bs ≡ 2 * 41)
        × ((rest : Bytes) → decode P (bs ++ rest) ≡ ok (ps, rest))
  unfolding encode
  charge_decode-encode ps h fits =
      let (bs, e, size) = emit_all-Fits P laws (calls ps) (calls-Fits ps h fits) in
      (
        bs,
        rw (le→leb (length ps) 10 fits, e),
        omega
            (arith, size, total_size-slots 10 8 period_calls empty_calls ps (λ p. refl) refl fits),
        λ rest. decode-Reads ps h fits bs rest e ∙ ap (λ qs. ok (qs, rest)) (map-id ps),
      )

  encode_negative_power :
      (ps : List ChargeDischargePeriod)
      → length ps ≤ charge_discharge_periods
      → Any (λ p. p.power <ℤ pos 0) ps
      → encode P ps ≡ err struct_error
  unfolding encode
  encode_negative_power ps fits h = rw (le→leb (length ps) 10 fits) (
      emit_all-refuses P laws (calls ps) (
        inr (
          Any-slots 10 period_calls empty_calls (λ (c : Call). ¬ InRange c.0 c.1) ps
            (λ p. p.power <ℤ pos 0) (λ p k. inr (inr (inl (negative_unfit p.power k)))) h)))

  -- what a device sends for a period whose power is signed
  abbrev signed_calls : ChargeDischargePeriod → List Call
  signed_calls p = (uint16, p.start_time) ∷ (uint16, p.end_time) ∷ (int32, p.power) ∷ []

  signed-Reads : (p : ChargeDischargePeriod) → IsSent p → Reads P (read_period P) (signed_calls p) p
  unfolding read_period
  signed-Reads p h = Reads-then P laws uint16 p.start_time _ _ p (
      Reads-then P laws uint16 p.end_time _ _ p
        (Reads-then P laws int32 p.power _ _ p (Reads-pure P laws p)))

  sent_calls : List ChargeDischargePeriod → List Call
  sent_calls ps = (uint16, pos (length ps)) ∷ concat (slots 10 signed_calls empty_calls ps)

  sent_calls-Reads :
      (ps : List ChargeDischargePeriod)
      → All IsSent ps
      → length ps ≤ charge_discharge_periods
      → Reads P (decode P) (sent_calls ps) (map (λ p. p) ps)
  unfolding decode sent_calls
  sent_calls-Reads ps h fits = Reads-then P laws uint16 (pos (length ps)) _ _ (map (λ p. p) ps) (
      Reads-guard P laws (leb (length ps + 0) (10 + 0)) _ _ _ (map (λ p. p) ps) (ground arith) (
        slots-Reads P laws (read_period P) signed_calls (λ p. p) empty_calls empty_period IsSent
          signed-Reads (read_period-Reads empty_period (omega arith)) charge_discharge_periods ps
          fits h))

  -- At most ten periods with 16-bit times and signed 32-bit powers, one of which is negative, are
  -- decoded from 82 bytes, whatever follows these. Encoding the same periods raises struct.error.
  pub decode-not_encode :
      (ps : List ChargeDischargePeriod)
      → All IsSent ps
      → length ps ≤ charge_discharge_periods
      → Any (λ p. p.power <ℤ pos 0) ps
      → ((bs : Bytes) × (length bs ≡ 2 * 41)
          × ((rest : Bytes) → decode P (bs ++ rest) ≡ ok (ps, rest)))
        × (encode P ps ≡ err struct_error)
  unfolding sent_calls
  decode-not_encode ps h fits negative =
      let (bs, e, size) = emit_all-Fits P laws (sent_calls ps) (
        omega arith,
        Fits-slots 10 signed_calls empty_calls IsSent ps (λ p k. (k.0, (k.1, (k.2, tt))))
            (omega arith) h,
      ) in
      (
        (
          bs,
          omega (
            arith,
            size,
            total_size-slots 10 8 signed_calls empty_calls ps (λ p. refl) refl fits,
          ),
          λ rest. sent_calls-Reads ps h fits bs rest e ∙ ap (λ qs. ok (qs, rest)) (map-id ps),
        ),
        encode_negative_power ps fits negative,
      )
