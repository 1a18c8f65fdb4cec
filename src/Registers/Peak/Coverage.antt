-- ===== src/Registers/Peak/Coverage.antt =====
-- What `PeakSettingPeriodRegisters._validate` makes sure of.
use huawei_solar_lib.Base.{
  ℕ, ◌*◌, ◌-◌, ◌≡◌, inl, inr, true, false, List, [], ◌∷◌, arith, Bool-cases,
}
use huawei_solar_lib.Base.Int.{ℤ, pos, ◌≤ℤ◌, leb_ℤ, ◌+ℤ◌}
use huawei_solar_lib.Base.Lists.{Any, All, All-map, filter_by, Any-filter_by}
use huawei_solar_lib.Base.Sort.{sort_by, sort_by-Any}
use huawei_solar_lib.Exceptions.{ok, >>=-eq-ok}
use huawei_solar_lib.Registers.Peak.{
  PeakSettingPeriod, active, check_gaps, check_sorted_day, check_day, check_days, week, validate,
}

-- Both ends belong to the period.
abbrev pub Covers : ℤ → PeakSettingPeriod → Type 0
Covers t p = (p.start_time ≤ℤ t) × (t ≤ℤ p.end_time)

-- The next period starts no later than one minute after this one ends.
next_starts :
    (p q : PeakSettingPeriod) (qs : List PeakSettingPeriod) (t : ℤ)
    → check_gaps p (q ∷ qs) ≡ ok tt
    → leb_ℤ t p.end_time ≡ false
    → (q.start_time ≤ℤ t) × (check_gaps q qs ≡ ok tt)
unfolding check_gaps ◌+ℤ◌
next_starts p q qs t h beyond = ground arith

last_ends :
    (p : PeakSettingPeriod) (t : ℤ)
    → check_gaps p [] ≡ ok tt
    → t ≤ℤ pos (24 * 60 - 1)
    → t ≤ℤ p.end_time
unfolding check_gaps
last_ends p t h until = ground arith

check_gaps-Covers :
    (p : PeakSettingPeriod) (ps : List PeakSettingPeriod) (t : ℤ)
    → check_gaps p ps ≡ ok tt
    → p.start_time ≤ℤ t
    → t ≤ℤ pos (24 * 60 - 1)
    → Any (Covers t) (p ∷ ps)
check_gaps-Covers p [] t h from until = inl (from, last_ends p t h until)
check_gaps-Covers p (q ∷ qs) t h from until = elim (Bool-cases (leb_ℤ t p.end_time)) [
  | inl within ↦ inl (from, ground arith)
  | inr beyond ↦
      let (starts, rest) = next_starts p q qs t h beyond in
      inr (check_gaps-Covers q qs t rest starts until)
]

check_sorted_day-Covers :
    (ps : List PeakSettingPeriod) (t : ℤ)
    → check_sorted_day ps ≡ ok tt
    → pos 0 ≤ℤ t
    → t ≤ℤ pos (24 * 60 - 1)
    → Any (Covers t) ps
unfolding check_sorted_day
check_sorted_day-Covers [] t h from until = cc
check_sorted_day-Covers (p ∷ ps) t h from until =
    let (starts, rest) : (p.start_time ≤ℤ pos 0) × (check_gaps p ps ≡ ok tt) =
      (ground arith, ground arith) in
    check_gaps-Covers p ps t rest (omega arith) until

-- A period of the list that is effective on the day and covers the minute.
abbrev pub CoversOn : ℕ → ℤ → PeakSettingPeriod → Type 0
CoversOn day t p = (active day p ≡ true) × Covers t p

check_day-CoversOn :
    (ps : List PeakSettingPeriod) (day : ℕ) (t : ℤ)
    → check_day ps day ≡ ok tt
    → pos 0 ≤ℤ t
    → t ≤ℤ pos (24 * 60 - 1)
    → Any (CoversOn day t) ps
unfolding check_day
check_day-CoversOn ps day t h from until = Any-filter_by (active day) (Covers t) ps (
    sort_by-Any (λ p. p.start_time) (Covers t) (filter_by (active day) ps)
      (check_sorted_day-Covers (sort_by (λ p. p.start_time) (filter_by (active day) ps)) t h from
        until))

check_days-each :
    (ps : List PeakSettingPeriod) (days : List ℕ)
    → check_days ps days ≡ ok tt
    → All (λ day. check_day ps day ≡ ok tt) days
unfolding check_days
check_days-each ps [] h = tt
check_days-each ps (day ∷ days) h =
    let (u, e, h') = >>=-eq-ok (check_day ps day) (λ _. check_days ps days) h in
    (e, check_days-each ps days h')

-- After `_validate` has accepted a list, every minute from 00:00 to 23:59 of every day of the week
-- lies in a period of the list that is effective on that day, both ends of a period counted in.
pub validate-CoversOn :
    (ps : List PeakSettingPeriod) (t : ℤ)
    → validate ps ≡ ok tt
    → pos 0 ≤ℤ t
    → t ≤ℤ pos (24 * 60 - 1)
    → All (λ (day : ℕ). Any (CoversOn day t) ps) week
unfolding validate
validate-CoversOn ps t h from until =
    All-map (λ day. check_day ps day ≡ ok tt) (λ day. Any (CoversOn day t) ps)
      (λ day k. check_day-CoversOn ps day t k from until) week (check_days-each ps week h)
