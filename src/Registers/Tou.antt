-- ===== src/Registers/Tou.antt =====
-- The checks that `LG_RESU_TimeOfUseRegisters._validate` and
-- `HUAWEI_LUNA2000_TimeOfUseRegisters._validate` (src/huawei_solar/registers.py) have in common.
use huawei_solar_lib.Base.{
  ◌*◌, ◌≡◌, refl, ◌⊎◌, inl, inr, Bool, false, ◌&&◌, ◌||◌, List, [], ◌∷◌, if◌then◌else◌, arith,
}
use huawei_solar_lib.Base.Int.{ℤ, pos, negsuc, ◌≤ℤ◌, ◌<ℤ◌, leb_ℤ, ltb_ℤ}
use huawei_solar_lib.Base.Lists.{All, AllPairs, All-map}
use huawei_solar_lib.Base.Sort.{
  sort_by, IsSortedBy, sort_by-IsSortedBy, All-sort_by, AllPairs-sort_by, sort_by-AllPairs,
}
use huawei_solar_lib.Payload.{InRange, uint16}
use huawei_solar_lib.Exceptions.{Result, ok, err, time_of_use_periods_exception, ◌>>◌, >>=-eq-ok}

-- the body of "Sanity check of each period individually"
unfoldable pub check_period : ℤ → ℤ → Result (Unit {0})
check_period start_time end_time =
    if ltb_ℤ start_time (pos 0) || ltb_ℤ end_time (pos 0)
    then err (time_of_use_periods_exception "TOU period is invalid (Below zero)")
    else if ltb_ℤ (pos (24 * 60)) start_time || ltb_ℤ (pos (24 * 60)) end_time
    then err (time_of_use_periods_exception "TOU period is invalid (Spans over more than one day)")
    else if leb_ℤ end_time start_time
    then err (
        time_of_use_periods_exception "TOU period is invalid (start-time is greater than end-time)")
    else ok tt

-- a period within one day that is not empty
abbrev pub IsDayPeriod : ℤ → ℤ → Type 0
IsDayPeriod start_time end_time =
    (pos 0 ≤ℤ start_time) × (start_time <ℤ end_time) × (end_time ≤ℤ pos (24 * 60))

pub check_period_sound : (s e : ℤ) → check_period s e ≡ ok tt → IsDayPeriod s e
unfolding check_period
check_period_sound s e h = ground arith

pub check_period_complete : (s e : ℤ) → IsDayPeriod s e → check_period s e ≡ ok tt
unfolding check_period
check_period_complete s e h = ground arith

-- A minute of a day fits an unsigned 16-bit number.
pub DayMinute-InRange : (z : ℤ) → pos 0 ≤ℤ z → z ≤ℤ pos (24 * 60) → InRange uint16 z
DayMinute-InRange (pos n) h k = omega arith
DayMinute-InRange (negsuc n) h k = absurd (omega arith)

-- the overlap test of two neighbours in the order of their starts
unfoldable pub overlapping : ℤ → ℤ → ℤ → ℤ → Bool
overlapping prev_start prev_end start_time end_time =
    (leb_ℤ prev_start start_time && ltb_ℤ start_time prev_end)
    || (ltb_ℤ prev_start end_time && leb_ℤ end_time prev_end)

module _ {A : Type 0} (start_time end_time : A → ℤ) where
  -- `for tou_period in data`
  unfoldable pub check_periods : List A → Result (Unit {0})
  check_periods [] = ok tt
  check_periods (p ∷ ps) = check_period (start_time p) (end_time p) >> check_periods ps

  -- `for period_idx in range(1, len(…))`, over neighbours
  unfoldable pub check_overlaps : List A → Result (Unit {0})
  check_overlaps [] = ok tt
  check_overlaps (p ∷ []) = ok tt
  check_overlaps (p ∷ q ∷ ps) =
      if overlapping (start_time p) (end_time p) (start_time q) (end_time q)
      then err (time_of_use_periods_exception "TOU periods are overlapping")
      else check_overlaps (q ∷ ps)

  abbrev pub IsPeriod : A → Type 0
  IsPeriod p = IsDayPeriod (start_time p) (end_time p)

  -- One ends before the other starts.
  abbrev pub Disjoint : A → A → Type 0
  Disjoint p q = (end_time p ≤ℤ start_time q) ⊎ (end_time q ≤ℤ start_time p)

  pub Disjoint-symm : (p q : A) → Disjoint p q → Disjoint q p
  Disjoint-symm p q (inl h) = inr h
  Disjoint-symm p q (inr h) = inl h

  pub check_periods_sound : (ps : List A) → check_periods ps ≡ ok tt → All IsPeriod ps
  unfolding check_periods
  check_periods_sound [] h = tt
  check_periods_sound (p ∷ ps) h =
      let (u, e, h') =
        >>=-eq-ok (check_period (start_time p) (end_time p)) (λ _. check_periods ps) h in
      (check_period_sound (start_time p) (end_time p) e, check_periods_sound ps h')

  pub check_periods_complete : (ps : List A) → All IsPeriod ps → check_periods ps ≡ ok tt
  unfolding check_periods
  check_periods_complete [] h = refl
  check_periods_complete (p ∷ ps) h =
      rw (check_period_complete (start_time p) (end_time p) h.0) (check_periods_complete ps h.1)

  not-overlapping :
      (p q : A)
      → IsPeriod p
      → IsPeriod q
      → start_time p ≤ℤ start_time q
      → overlapping (start_time p) (end_time p) (start_time q) (end_time q) ≡ false
      → end_time p ≤ℤ start_time q
  unfolding overlapping
  not-overlapping p q hp hq sorted h = ground arith

  overlapping_of_Disjoint :
      (p q : A)
      → IsPeriod p
      → IsPeriod q
      → start_time p ≤ℤ start_time q
      → Disjoint p q
      → overlapping (start_time p) (end_time p) (start_time q) (end_time q) ≡ false
  unfolding overlapping
  overlapping_of_Disjoint p q hp hq sorted h = ground arith

  -- In the order of their starts, periods whose neighbours do not overlap follow one another.
  follows :
      (p : A) (ps : List A)
      → IsPeriod p
      → All IsPeriod ps
      → IsSortedBy start_time (p ∷ ps)
      → check_overlaps (p ∷ ps) ≡ ok tt
      → All (λ q. end_time p ≤ℤ start_time q) ps
  unfolding check_overlaps
  follows p [] hp hps sorted h = tt
  follows p (q ∷ qs) hp hqs sorted h =
      let apart : overlapping (start_time p) (end_time p) (start_time q) (end_time q) ≡ false =
        ground arith in
      let next : end_time p ≤ℤ start_time q = not-overlapping p q hp hqs.0 sorted.0.0 apart in
      let rest = follows q qs hqs.0 hqs.1 sorted.1 (rw apart at h) in
      (
        next,
        All-map (λ r. end_time q ≤ℤ start_time r) (λ r. end_time p ≤ℤ start_time r)
            (λ r k. omega (arith, hqs.0.1)) qs rest,
      )

  check_overlaps-tail :
      (p : A) (ps : List A) → check_overlaps (p ∷ ps) ≡ ok tt → check_overlaps ps ≡ ok tt
  unfolding check_overlaps
  check_overlaps-tail p [] h = refl
  check_overlaps-tail p (q ∷ qs) h = ground arith

  pub check_overlaps_sound :
      (ps : List A)
      → All IsPeriod ps
      → IsSortedBy start_time ps
      → check_overlaps ps ≡ ok tt
      → AllPairs Disjoint ps
  check_overlaps_sound [] hps sorted h = tt
  check_overlaps_sound (p ∷ ps) hps sorted h = (
    All-map (λ q. end_time p ≤ℤ start_time q) (Disjoint p) (λ q k. inl k) ps
        (follows p ps hps.0 hps.1 sorted h),
    check_overlaps_sound ps hps.1 sorted.1 (check_overlaps-tail p ps h),
  )

  pub check_overlaps_complete :
      (ps : List A)
      → All IsPeriod ps
      → IsSortedBy start_time ps
      → AllPairs Disjoint ps
      → check_overlaps ps ≡ ok tt
  unfolding check_overlaps
  check_overlaps_complete [] hps sorted h = refl
  check_overlaps_complete (p ∷ []) hps sorted h = refl
  check_overlaps_complete (p ∷ q ∷ ps) hps sorted h =
      rw (overlapping_of_Disjoint p q hps.0 hps.1.0 sorted.0.0 h.0.0)
        (check_overlaps_complete (q ∷ ps) hps.1 sorted.1 h.1)

  -- `sort` by the starts, then the loop over neighbours
  unfoldable pub check_sorted_overlaps : List A → Result (Unit {0})
  unfolding check_overlaps
  check_sorted_overlaps ps = check_overlaps (sort_by start_time ps)

  pub check_sorted_overlaps_sound :
      (ps : List A) → All IsPeriod ps → check_sorted_overlaps ps ≡ ok tt → AllPairs Disjoint ps
  unfolding check_sorted_overlaps
  check_sorted_overlaps_sound ps hps h = sort_by-AllPairs start_time Disjoint Disjoint-symm ps (
      check_overlaps_sound (sort_by start_time ps) (All-sort_by start_time IsPeriod ps hps)
        (sort_by-IsSortedBy start_time ps) h)

  pub check_sorted_overlaps_complete :
      (ps : List A) → All IsPeriod ps → AllPairs Disjoint ps → check_sorted_overlaps ps ≡ ok tt
  unfolding check_sorted_overlaps
  check_sorted_overlaps_complete ps hps h =
      check_overlaps_complete (sort_by start_time ps) (All-sort_by start_time IsPeriod ps hps)
        (sort_by-IsSortedBy start_time ps) (AllPairs-sort_by start_time Disjoint Disjoint-symm ps h)
