-- ===== src/Registers/LgResu/Laws.antt =====
-- What `LG_RESU_TimeOfUseRegisters` accepts, and that it decodes what it encoded.
use huawei_solar_lib.Base.{
  ◌+◌, ◌*◌, ◌≤◌, ◌≡◌, refl, ◌↔◌, List, [], ◌∷◌, ◌++◌, map, leb, arith, le→leb,
}
use huawei_solar_lib.Base.Int.{pos}
use huawei_solar_lib.Base.Floats.{Floats}
use huawei_solar_lib.Base.Lists.{length, All, AllPairs, All-both, All-Unit}
use huawei_solar_lib.Exceptions.{ok, >>=-eq-ok}
use huawei_solar_lib.Payload.{Payload, IsPayload, Bytes, InRange, uint16, uint32}
use huawei_solar_lib.Payload.Emit.{Reads, Reads-then, Reads-pure, Reads-guard, Fits, emit_all-Fits}
use huawei_solar_lib.Payload.Slots.{slots-Reads, total_size-slots, Fits-slots}
use huawei_solar_lib.Registers.Tou.{
  DayMinute-InRange, IsPeriod, Disjoint, check_periods, check_periods_sound, check_periods_complete,
  check_sorted_overlaps_sound, check_sorted_overlaps_complete,
}
use huawei_solar_lib.Registers.LgResu.{
  LgResuTimeOfUsePeriod, lg_resu_tou_periods, validate, period_calls, empty_calls, calls, encode,
  read_period, decode,
}

-- each period within one day, and no two of them at one time
abbrev pub IsSchedule : {F : Type 0} → List (LgResuTimeOfUsePeriod F) → Type 0
IsSchedule {F} ps =
    All (IsPeriod {A = LgResuTimeOfUsePeriod F} (λ q. q.start_time) (λ q. q.end_time)) ps
    × AllPairs (Disjoint {A = LgResuTimeOfUsePeriod F} (λ q. q.start_time) (λ q. q.end_time)) ps

-- `_validate` accepts exactly the lists of periods that each lie within one day, start before they
-- end, and do not overlap, whatever their order.
pub lg_validate_iff :
    {F : Type 0} (ps : List (LgResuTimeOfUsePeriod F)) → (validate ps ≡ ok tt) ↔ IsSchedule ps
unfolding validate
lg_validate_iff [] = (λ _. (tt, tt), λ _. refl)
lg_validate_iff {F} (p ∷ ps) = (sound, complete)
  where
    sound : validate (p ∷ ps) ≡ ok tt → IsSchedule (p ∷ ps)
    sound h =
        let (u, e, h') =
          >>=-eq-ok (check_periods (λ q. q.start_time) (λ q. q.end_time) (p ∷ ps)) _ h in
        let days = check_periods_sound (λ q. q.start_time) (λ q. q.end_time) (p ∷ ps) e in
        (days, check_sorted_overlaps_sound (λ q. q.start_time) (λ q. q.end_time) (p ∷ ps) days h')

    complete : IsSchedule (p ∷ ps) → validate (p ∷ ps) ≡ ok tt
    complete h =
        rw (check_periods_complete (λ q. q.start_time) (λ q. q.end_time) (p ∷ ps) h.0)
          (check_sorted_overlaps_complete (λ q. q.start_time) (λ q. q.end_time) (p ∷ ps) h.0 h.1)

module _ (fl : Floats) (P : Payload) (laws : IsPayload P) where
  -- the period as it is stored: its price in whole thousandths
  abbrev pub stored : LgResuTimeOfUsePeriod fl.Float → LgResuTimeOfUsePeriod fl.Float
  stored p = record p {
    electricity_price = fl.int_div (fl.int_mul p.electricity_price (pos 1000)) (pos 1000);
  }

  abbrev pub PriceFits : LgResuTimeOfUsePeriod fl.Float → Type 0
  PriceFits p = InRange uint32 (fl.int_mul p.electricity_price (pos 1000))

  read_period-Reads :
      (p : LgResuTimeOfUsePeriod fl.Float)
      → Reads P (read_period fl P) (period_calls fl p) (stored p)
  unfolding read_period
  read_period-Reads p = Reads-then P laws uint16 p.start_time _ _ (stored p) (
      Reads-then P laws uint16 p.end_time _ _ (stored p) (
        Reads-then P laws uint32 (fl.int_mul p.electricity_price (pos 1000)) _ _ (stored p)
          (Reads-pure P laws (stored p))))

  abbrev empty_period : LgResuTimeOfUsePeriod fl.Float
  empty_period = record {
    start_time = pos 0;
    end_time = pos 0;
    electricity_price = fl.int_div (pos 0) (pos 1000);
  }

  empty-Reads : Reads P (read_period fl P) empty_calls empty_period
  unfolding read_period
  empty-Reads = Reads-then P laws uint16 (pos 0) _ _ empty_period (
      Reads-then P laws uint16 (pos 0) _ _ empty_period
        (Reads-then P laws uint32 (pos 0) _ _ empty_period (Reads-pure P laws empty_period)))

  abbrev IsTimes : LgResuTimeOfUsePeriod fl.Float → Type 0
  IsTimes = IsPeriod (λ q. q.start_time) (λ q. q.end_time)

  -- A day's minutes and a price that fits make calls that succeed.
  period-Fits :
      (p : LgResuTimeOfUsePeriod fl.Float) → IsTimes p × PriceFits p → Fits (period_calls fl p)
  period-Fits p h = (
    DayMinute-InRange p.start_time (omega arith) (omega arith),
    (DayMinute-InRange p.end_time (omega arith) (omega arith), (h.1, tt)),
  )

  calls-Fits :
      (ps : List (LgResuTimeOfUsePeriod fl.Float))
      → All IsTimes ps
      → length ps ≤ lg_resu_tou_periods
      → All PriceFits ps
      → Fits (calls fl ps)
  calls-Fits ps times fits prices = (
    omega arith,
    Fits-slots 10 (period_calls fl) empty_calls (λ p. IsTimes p × PriceFits p) ps period-Fits
        (omega arith) (All-both IsTimes PriceFits ps times prices),
  )

  decode-Reads :
      (ps : List (LgResuTimeOfUsePeriod fl.Float))
      → length ps ≤ lg_resu_tou_periods
      → Reads P (decode fl P) (calls fl ps) (map stored ps)
  unfolding decode
  decode-Reads ps fits = Reads-then P laws uint16 (pos (length ps)) _ _ (map stored ps) (
      Reads-guard P laws (leb (length ps + 0) (10 + 0)) _ _ _ (map stored ps) (ground arith) (
        slots-Reads P laws (read_period fl P) (period_calls fl) stored empty_calls empty_period
          (λ _. Unit {0}) (λ p _. read_period-Reads p) empty-Reads lg_resu_tou_periods ps fits
          (All-Unit ps)))

  -- A schedule of at most ten periods whose prices fit 32 bits is encoded, in 41 registers, and
  -- decoding the bytes, whatever follows them, gives the periods back, each price rounded to
  -- thousandths by the two conversions, and leaves what follows.
  pub lg_decode-encode :
      (ps : List (LgResuTimeOfUsePeriod fl.Float))
      → IsSchedule ps
      → length ps ≤ lg_resu_tou_periods
      → All PriceFits ps
      → (bs : Bytes) × (encode fl P ps ≡ ok bs)
        × (length bs ≡ 2 * 41)
        × ((rest : Bytes) → decode fl P (bs ++ rest) ≡ ok (map stored ps, rest))
  unfolding encode
  lg_decode-encode ps schedule fits prices =
      let (bs, e, size) =
        emit_all-Fits P laws (calls fl ps) (calls-Fits ps schedule.0 fits prices) in
      (
        bs,
        rw ((lg_validate_iff ps).1 schedule, le→leb (length ps) 10 fits, e),
        omega (
          arith,
          size,
          total_size-slots 10 8 (period_calls fl) empty_calls ps (λ p. refl) refl fits,
        ),
        λ rest. decode-Reads ps fits bs rest e,
      )
