-- ===== src/Registers/Luna2000/Laws.antt =====
-- What `HUAWEI_LUNA2000_TimeOfUseRegisters` accepts, and that it decodes what it encoded.
use huawei_solar_lib.Base.{
  ℕ, ◌+◌, ◌*◌, ◌≤◌, ◌≡◌, refl, ap, ◌∙◌, ◌↔◌, true, List, [], ◌∷◌, ◌++◌, map, leb, arith, le→leb,
}
use huawei_solar_lib.Base.Int.{pos}
use huawei_solar_lib.Base.Lists.{
  length, filter_by, map-id, All, AllPairs, All-Unit, All-map, All-filter_by, AllPairs-filter_by,
  filter_by-AllPairs,
}
use huawei_solar_lib.Exceptions.{ok, >>=-eq-ok}
use huawei_solar_lib.Payload.{Payload, IsPayload, Bytes, InRange, uint8, uint16}
use huawei_solar_lib.Payload.Emit.{
  Reads, Reads-then, Reads-pure, Reads-guard, Reads-lift, Reads-two_bytes, Fits, emit_all-Fits,
}
use huawei_solar_lib.Payload.Slots.{slots-Reads, total_size-slots, Fits-slots}
use huawei_solar_lib.Registers.Days.{
  days_effective_builder, days_effective_parser, days_effective_parser-builder,
  days_effective_builder-lt,
}
use huawei_solar_lib.Registers.Tou.{
  DayMinute-InRange, IsPeriod, Disjoint, check_periods, check_periods_sound, check_periods_complete,
  check_sorted_overlaps_sound, check_sorted_overlaps_complete,
}
use huawei_solar_lib.Registers.Luna2000.{
  HuaweiLuna2000TimeOfUsePeriod, ChargeFlag, charge, discharge, flag_value, charge_flag, active,
  check_day, check_days, week, validate, huawei_luna2000_tou_periods, period_calls, empty_calls,
  calls, encode, read_period, decode,
}

abbrev IsTimes : HuaweiLuna2000TimeOfUsePeriod → Type 0
IsTimes = IsPeriod (λ q. q.start_time) (λ q. q.end_time)

abbrev Apart : HuaweiLuna2000TimeOfUsePeriod → HuaweiLuna2000TimeOfUsePeriod → Type 0
Apart = Disjoint (λ q. q.start_time) (λ q. q.end_time)

-- Two periods that are both effective on the day do not overlap.
abbrev ApartOn : ℕ → HuaweiLuna2000TimeOfUsePeriod → HuaweiLuna2000TimeOfUsePeriod → Type 0
ApartOn day p q = active day p ≡ true → active day q ≡ true → Apart p q

-- each period within one day, and on no day of the week two of them at one time
abbrev pub IsWeekSchedule : List HuaweiLuna2000TimeOfUsePeriod → Type 0
IsWeekSchedule ps = All IsTimes ps × All (λ (day : ℕ). AllPairs (ApartOn day) ps) week

check_day_sound :
    (ps : List HuaweiLuna2000TimeOfUsePeriod) (day : ℕ)
    → All IsTimes ps
    → check_day ps day ≡ ok tt
    → AllPairs (ApartOn day) ps
unfolding check_day
check_day_sound ps day times h = filter_by-AllPairs (active day) Apart ps (
    check_sorted_overlaps_sound (λ q. q.start_time) (λ q. q.end_time) (filter_by (active day) ps)
      (All-filter_by (active day) IsTimes ps
        (All-map IsTimes (λ p. active day p ≡ true → IsTimes p) (λ p k _. k) ps times))
      h)

check_day_complete :
    (ps : List HuaweiLuna2000TimeOfUsePeriod) (day : ℕ)
    → All IsTimes ps
    → AllPairs (ApartOn day) ps
    → check_day ps day ≡ ok tt
unfolding check_day
check_day_complete ps day times h =
    check_sorted_overlaps_complete (λ q. q.start_time) (λ q. q.end_time) (filter_by (active day) ps)
      (All-filter_by (active day) IsTimes ps
        (All-map IsTimes (λ p. active day p ≡ true → IsTimes p) (λ p k _. k) ps times))
      (AllPairs-filter_by (active day) Apart ps h)

check_days_sound :
    (ps : List HuaweiLuna2000TimeOfUsePeriod) (days : List ℕ)
    → All IsTimes ps
    → check_days ps days ≡ ok tt
    → All (λ day. AllPairs (ApartOn day) ps) days
unfolding check_days
check_days_sound ps [] times h = tt
check_days_sound ps (day ∷ days) times h =
    let (u, e, h') = >>=-eq-ok (check_day ps day) (λ _. check_days ps days) h in
    (check_day_sound ps day times e, check_days_sound ps days times h')

check_days_complete :
    (ps : List HuaweiLuna2000TimeOfUsePeriod) (days : List ℕ)
    → All IsTimes ps
    → All (λ day. AllPairs (ApartOn day) ps) days
    → check_days ps days ≡ ok tt
unfolding check_days
check_days_complete ps [] times h = refl
check_days_complete ps (day ∷ days) times h =
    rw (check_day_complete ps day times h.0) (check_days_complete ps days times h.1)

-- `_validate` accepts exactly the lists of periods that each lie within one day, start before they
-- end, and do not overlap on any day of the week on which both are effective.
pub luna_validate_iff :
    (ps : List HuaweiLuna2000TimeOfUsePeriod) → (validate ps ≡ ok tt) ↔ IsWeekSchedule ps
unfolding validate
luna_validate_iff [] = (λ _. (tt, (tt, (tt, (tt, (tt, (tt, (tt, (tt, tt)))))))), λ _. refl)
luna_validate_iff (p ∷ ps) = (sound, complete)
  where
    sound : validate (p ∷ ps) ≡ ok tt → IsWeekSchedule (p ∷ ps)
    sound h =
        let (u, e, h') =
          >>=-eq-ok (check_periods (λ q. q.start_time) (λ q. q.end_time) (p ∷ ps)) _ h in
        let times = check_periods_sound (λ q. q.start_time) (λ q. q.end_time) (p ∷ ps) e in
        (times, check_days_sound (p ∷ ps) week times h')

    complete : IsWeekSchedule (p ∷ ps) → validate (p ∷ ps) ≡ ok tt
    complete h =
        rw (check_periods_complete (λ q. q.start_time) (λ q. q.end_time) (p ∷ ps) h.0)
          (check_days_complete (p ∷ ps) week h.0 h.1)

charge_flag-flag_value : (f : ChargeFlag) → charge_flag (flag_value f) ≡ ok f
unfolding charge_flag
charge_flag-flag_value charge = refl
charge_flag-flag_value discharge = refl

flag_value-InRange : (f : ChargeFlag) → InRange uint8 (flag_value f)
flag_value-InRange charge = omega arith
flag_value-InRange discharge = omega arith

period-Fits : (p : HuaweiLuna2000TimeOfUsePeriod) → IsTimes p → Fits (period_calls p)
period-Fits p h = (
  DayMinute-InRange p.start_time (omega arith) (omega arith),
  (
    DayMinute-InRange p.end_time (omega arith) (omega arith),
    (
      flag_value-InRange p.charge_flag,
      (omega (arith, days_effective_builder-lt p.days_effective), tt),
    ),
  ),
)

module _ (P : Payload) (laws : IsPayload P) where
  read_period-Reads :
      (p : HuaweiLuna2000TimeOfUsePeriod) → Reads P (read_period P) (period_calls p) p
  unfolding read_period
  read_period-Reads p = Reads-then P laws uint16 p.start_time _ _ p (
      Reads-then P laws uint16 p.end_time _ _ p (
        Reads-then P laws uint8 (flag_value p.charge_flag) _ _ p (
          Reads-lift P laws (charge_flag (flag_value p.charge_flag)) _ _ p.charge_flag p
            (charge_flag-flag_value p.charge_flag)
            (Reads-then P laws uint8 (pos (days_effective_builder p.days_effective)) _ _ p
              (λ bs rest e.
                rw (days_effective_parser-builder p.days_effective)
                  (Reads-pure P laws p bs rest e))))))

  abbrev empty_period : HuaweiLuna2000TimeOfUsePeriod
  empty_period = record {
    start_time = pos 0;
    end_time = pos 0;
    charge_flag = charge;
    days_effective = days_effective_parser 0;
  }

  empty-Reads : Reads P (read_period P) empty_calls empty_period
  unfolding read_period charge_flag
  empty-Reads = Reads-then P laws uint16 (pos 0) _ _ empty_period (
      Reads-then P laws uint16 (pos 0) _ _ empty_period (
        Reads-two_bytes P laws _ empty_period (
          Reads-then P laws uint8 (pos 0) _ _ empty_period
            (Reads-then P laws uint8 (pos 0) _ _ empty_period (Reads-pure P laws empty_period)))))

  calls-Fits :
      (ps : List HuaweiLuna2000TimeOfUsePeriod)
      → All IsTimes ps
      → length ps ≤ huawei_luna2000_tou_periods
      → Fits (calls ps)
  calls-Fits ps times fits = (
    omega arith,
    Fits-slots 14 period_calls empty_calls IsTimes ps period-Fits (omega arith) times,
  )

  decode-Reads :
      (ps : List HuaweiLuna2000TimeOfUsePeriod)
      → length ps ≤ huawei_luna2000_tou_periods
      → Reads P (decode P) (calls ps) (map (λ p. p) ps)
  unfolding decode
  decode-Reads ps fits = Reads-then P laws uint16 (pos (length ps)) _ _ (map (λ p. p) ps) (
      Reads-guard P laws (leb (length ps + 0) (14 + 0)) _ _ _ (map (λ p. p) ps) (ground arith) (
        slots-Reads P laws (read_period P) period_calls (λ p. p) empty_calls empty_period
          (λ _. Unit {0}) (λ p _. read_period-Reads p) empty-Reads huawei_luna2000_tou_periods ps
          fits (All-Unit ps)))

  -- A week's schedule of at most fourteen periods is encoded, in 43 registers, and decoding the
  -- bytes, whatever follows them, gives back the same periods and leaves what follows.
  pub luna_decode-encode :
      (ps : List HuaweiLuna2000TimeOfUsePeriod)
      → IsWeekSchedule ps
      → length ps ≤ huawei_luna2000_tou_periods
      → (bs : Bytes) × (encode P ps ≡ ok bs)
        × (length bs ≡ 2 * 43)
        × ((rest : Bytes) → decode P (bs ++ rest) ≡ ok (ps, rest))
  unfolding encode
  luna_decode-encode ps schedule fits =
      let (bs, e, size) = emit_all-Fits P laws (calls ps) (calls-Fits ps schedule.0 fits) in
      (
        bs,
        rw ((luna_validate_iff ps).1 schedule, le→leb (length ps) 14 fits, e),
        omega
            (arith, size, total_size-slots 14 6 period_calls empty_calls ps (λ p. refl) refl fits),
        λ rest. decode-Reads ps fits bs rest e ∙ ap (λ qs. ok (qs, rest)) (map-id ps),
      )
