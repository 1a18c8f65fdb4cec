-- ===== src/Tests/Periods.antt =====
-- Tests of the period registers.
use huawei_solar_lib.Base.{ℕ, ◌-◌, ◌*◌, ◌≡◌, refl, inl, inr, ◌↔◌, List, [], ◌∷◌, ◌++◌, map, arith}
use huawei_solar_lib.Base.Int.{ℤ, pos, negsuc, ◌+ℤ◌, ◌*ℤ◌}
use huawei_solar_lib.Base.Sort.{sort_by}
use huawei_solar_lib.Base.Lists.{length, take, filter_by, All, Any}
use huawei_solar_lib.Exceptions.{ok, err, struct_error}
use huawei_solar_lib.Payload.{Bytes}
use huawei_solar_lib.Payload.BigEndian.{big_endian, big_endian-IsPayload}
use huawei_solar_lib.Registers.Tou.{check_period, overlapping}
use huawei_solar_lib.Registers.LgResu
use huawei_solar_lib.Registers.LgResu.{LgResuTimeOfUsePeriod}
use huawei_solar_lib.Registers.LgResu.Laws.{lg_validate_iff, lg_decode-encode, IsSchedule, stored}
use huawei_solar_lib.Registers.Luna2000
use huawei_solar_lib.Registers.Luna2000.{HuaweiLuna2000TimeOfUsePeriod, charge, discharge, week}
use huawei_solar_lib.Registers.Luna2000.Laws.{luna_validate_iff, luna_decode-encode, IsWeekSchedule}
use huawei_solar_lib.Registers.ChargeDischarge
use huawei_solar_lib.Registers.ChargeDischarge.{ChargeDischargePeriod}
use huawei_solar_lib.Registers.ChargeDischarge.Laws.{charge_decode-encode, decode-not_encode}
use huawei_solar_lib.Registers.Peak
use huawei_solar_lib.Registers.Peak.{PeakSettingPeriod, peak_setting_periods}
use huawei_solar_lib.Registers.Peak.Laws.{peak_decode-encode, is_kept}
use huawei_solar_lib.Registers.Peak.Coverage.{validate-CoversOn, CoversOn}
use huawei_solar_lib.Tests.Data.{decimals, every_day, weekend}

abbrev lg_periods : List (LgResuTimeOfUsePeriod ℤ)
lg_periods =
    record { start_time = pos 600; end_time = pos 660; electricity_price = pos 3 }
    ∷ record { start_time = pos 0; end_time = pos 600; electricity_price = pos 1 }
    ∷ []

lg_validate_iff_example : (LgResu.validate lg_periods ≡ ok tt) ↔ IsSchedule lg_periods
lg_validate_iff_example = lg_validate_iff lg_periods

lg_periods-IsSchedule : IsSchedule lg_periods
lg_periods-IsSchedule = ((omega arith, (omega arith, tt)), ((inr (omega arith), tt), (tt, tt)))

lg_decode-encode_example :
    (bs : Bytes) × (LgResu.encode decimals big_endian lg_periods ≡ ok bs)
    × (length bs ≡ 2 * 41)
    × ((rest : Bytes)
        → LgResu.decode decimals big_endian (bs ++ rest)
          ≡ ok (map (stored decimals big_endian big_endian-IsPayload) lg_periods, rest))
unfolding ◌*ℤ◌
lg_decode-encode_example =
    lg_decode-encode decimals big_endian big_endian-IsPayload lg_periods lg_periods-IsSchedule
      (omega arith) (omega arith)

abbrev luna_periods : List HuaweiLuna2000TimeOfUsePeriod
luna_periods =
    record {
      start_time = pos 0;
      end_time = pos 360;
      charge_flag = charge;
      days_effective = every_day;
    }
    ∷ record {
      start_time = pos 1020;
      end_time = pos 1440;
      charge_flag = discharge;
      days_effective = weekend;
    }
    ∷ []

luna_validate_iff_example : (Luna2000.validate luna_periods ≡ ok tt) ↔ IsWeekSchedule luna_periods
luna_validate_iff_example = luna_validate_iff luna_periods

luna_valid : Luna2000.validate luna_periods ≡ ok tt
unfolding Luna2000.validate check_period sort_by overlapping
luna_valid = refl

luna_decode-encode_example :
    (bs : Bytes) × (Luna2000.encode big_endian luna_periods ≡ ok bs)
    × (length bs ≡ 2 * 43)
    × ((rest : Bytes) → Luna2000.decode big_endian (bs ++ rest) ≡ ok (luna_periods, rest))
luna_decode-encode_example =
    luna_decode-encode big_endian big_endian-IsPayload luna_periods
      ((luna_validate_iff luna_periods).0 luna_valid) (omega arith)

abbrev charge_periods : List ChargeDischargePeriod
charge_periods = record { start_time = pos 60; end_time = pos 120; power = pos 2500 } ∷ []

charge_decode-encode_example :
    (bs : Bytes) × (ChargeDischarge.encode big_endian charge_periods ≡ ok bs)
    × (length bs ≡ 2 * 41)
    × ((rest : Bytes) → ChargeDischarge.decode big_endian (bs ++ rest) ≡ ok (charge_periods, rest))
charge_decode-encode_example =
    charge_decode-encode big_endian big_endian-IsPayload charge_periods (omega arith) (omega arith)

abbrev discharge_periods : List ChargeDischargePeriod
discharge_periods = record { start_time = pos 60; end_time = pos 120; power = negsuc 2499 } ∷ []

decode-not_encode_example :
    ((bs : Bytes) × (length bs ≡ 2 * 41)
      × ((rest : Bytes)
          → ChargeDischarge.decode big_endian (bs ++ rest) ≡ ok (discharge_periods, rest)))
    × (ChargeDischarge.encode big_endian discharge_periods ≡ err struct_error)
decode-not_encode_example =
    decode-not_encode big_endian big_endian-IsPayload discharge_periods (omega arith) (omega arith)
      (inl (omega arith))

abbrev peak_periods : List PeakSettingPeriod
peak_periods =
    record {
      start_time = pos 720;
      end_time = pos 1439;
      power = pos 5000;
      days_effective = every_day;
    }
    ∷ record {
      start_time = pos 0;
      end_time = pos 719;
      power = pos 3000;
      days_effective = every_day;
    }
    ∷ []

peak_decode-encode_example :
    (bs : Bytes) × (Peak.encode big_endian peak_periods ≡ ok bs)
    × (length bs ≡ 2 * 64)
    × ((rest : Bytes)
        → (unread : Bytes) × (Peak.decode big_endian (bs ++ rest)
            ≡ ok (filter_by is_kept (take peak_setting_periods peak_periods), unread ++ rest))
          × (length unread ≡ 9 * (peak_setting_periods - length peak_periods)))
peak_decode-encode_example =
    peak_decode-encode big_endian big_endian-IsPayload peak_periods (omega arith)

peak_valid : Peak.validate peak_periods ≡ ok tt
unfolding Peak.validate sort_by ◌+ℤ◌
peak_valid = refl

validate-CoversOn_example : All (λ (day : ℕ). Any (CoversOn day (pos 725)) peak_periods) week
validate-CoversOn_example =
    validate-CoversOn peak_periods (pos 725) peak_valid (omega arith) (omega arith)
