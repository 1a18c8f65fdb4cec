-- ===== src/Registers/LgResu.antt =====
-- `LG_RESU_TimeOfUseRegisters` of src/huawei_solar/registers.py.
pub mod Laws
use huawei_solar_lib.Base.{ℕ, ◌-◌, List, [], ◌∷◌, ◌++◌, map, leb}
use huawei_solar_lib.Base.Int.{ℤ, pos, leb_ℤ, pos_part}
use huawei_solar_lib.Base.Floats.{Floats}
use huawei_solar_lib.Base.Lists.{length}
use huawei_solar_lib.Exceptions.{Result, ok, guard, assertion_error, ◌>>◌}
use huawei_solar_lib.Payload.{Payload, Bytes, uint16, uint32}
use huawei_solar_lib.Payload.Emit.{Call, Reader, ◌>>=◌, pure, lift, read, emit_all, concat}
use huawei_solar_lib.Payload.Slots.{slots, read_slots}
use huawei_solar_lib.Registers.Tou.{check_periods, check_sorted_overlaps}

abbrev pub lg_resu_tou_periods : ℕ
lg_resu_tou_periods = 10

pub record LgResuTimeOfUsePeriod (Price : Type 0) : Type 0 where
  pub start_time : ℤ
  pub end_time : ℤ
  pub electricity_price : Price

unfoldable pub validate : {F : Type 0} → List (LgResuTimeOfUsePeriod F) → Result (Unit {0})
unfolding check_periods check_sorted_overlaps
validate [] = ok tt
validate (p ∷ ps) =
    check_periods (λ q. q.start_time) (λ q. q.end_time) (p ∷ ps)
    >> check_sorted_overlaps (λ q. q.start_time) (λ q. q.end_time) (p ∷ ps)

-- "pad with empty periods"
abbrev pub empty_calls : List Call
empty_calls = (uint16, pos 0) ∷ (uint16, pos 0) ∷ (uint32, pos 0) ∷ []

module _ (fl : Floats) where
  abbrev pub period_calls : LgResuTimeOfUsePeriod fl.Float → List Call
  period_calls p =
      (uint16, p.start_time)
      ∷ (uint16, p.end_time)
      ∷ (uint32, fl.int_mul p.electricity_price (pos 1000))
      ∷ []

  -- the calls on the builder
  abbrev pub calls : List (LgResuTimeOfUsePeriod fl.Float) → List Call
  calls periods =
      (uint16, pos (length periods))
      ∷ concat (slots lg_resu_tou_periods period_calls empty_calls periods)

  unfoldable pub encode : Payload → List (LgResuTimeOfUsePeriod fl.Float) → Result Bytes
  unfolding validate emit_all
  encode P periods =
      validate periods
      >> (guard (leb (length periods) lg_resu_tou_periods) assertion_error
          >> emit_all P (calls periods))

  unfoldable pub read_period : Payload → Reader (LgResuTimeOfUsePeriod fl.Float)
  unfolding read
  read_period P = do
    start_time ← read P uint16
    end_time ← read P uint16
    price ← read P uint32
    pure (record {
      start_time = start_time;
      end_time = end_time;
      electricity_price = fl.int_div price (pos 1000);
    })

  -- An unsigned number is never negative, so the slice takes `number_of_periods` elements.
  unfoldable pub decode : Payload → Reader (List (LgResuTimeOfUsePeriod fl.Float))
  unfolding read read_period
  decode P = do
    number_of_periods ← read P uint16
    _ ← lift (guard (leb_ℤ number_of_periods (pos lg_resu_tou_periods)) assertion_error)
    read_slots lg_resu_tou_periods (pos_part number_of_periods) (read_period P)
