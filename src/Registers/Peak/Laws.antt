-- ===== src/Registers/Peak/Laws.antt =====
-- What `PeakSettingPeriodRegisters.decode` makes of an encoded list.
use Prim.Native.Nat.{min}
use mathlib.Core.List.{append_assoc}
use huawei_solar_lib.Base.{
  ◌-◌, ◌*◌, ◌≤◌, ◌≡◌, refl, ap, ◌∙◌, Bool, not, ◌&&◌, List, [], ◌∷◌, ◌++◌, map, arith,
}
use huawei_solar_lib.Base.Int.{pos, eqb_ℤ}
use huawei_solar_lib.Base.Lists.{
  length, take, replicate, filter_by, All, take_all, length-take, length-replicate,
  length-filter_by,
}
use huawei_solar_lib.Exceptions.{ok}
use huawei_solar_lib.Payload.{Payload, IsPayload, Bytes, InRange, uint8, uint16, uint32, int32}
use huawei_solar_lib.Payload.Emit.{
  Call, Reads, Reads-then, Reads-then_other, Reads-pure, Fits, emit_all-Fits, emit_all, read_many,
  read_many-Reads, ReadsEach-map, concat, total_size, emit_all-append, length-emit_all,
}
use huawei_solar_lib.Payload.Slots.{
  length-map, total_size-concat, All-replicate, concat-append, total_size-slots, Fits-slots,
}
use huawei_solar_lib.Registers.Days.{
  days_effective_builder, days_effective_builder-lt, days_effective_parser-builder,
}
use huawei_solar_lib.Registers.Peak.{
  PeakSettingPeriod, peak_setting_periods, period_calls, empty_calls, calls, encode, Entry,
  read_entry, append_kept, decode,
}

-- Times that fit 16 bits, and a power that both the unsigned and the signed format hold.
abbrev pub IsStorable : PeakSettingPeriod → Type 0
IsStorable p =
    InRange uint16 p.start_time
    × InRange uint16 p.end_time
    × InRange uint32 p.power
    × InRange int32 p.power

-- The times differ and some day is set: the test that `decode` makes before it keeps a period.
abbrev pub is_kept : PeakSettingPeriod → Bool
is_kept p =
    not (eqb_ℤ p.start_time p.end_time)
    && not (eqb_ℤ (pos (days_effective_builder p.days_effective)) (pos 0))

abbrev entry : PeakSettingPeriod → Entry
entry p = record {
  start_time = p.start_time;
  end_time = p.end_time;
  peak_value = p.power;
  week_value = pos (days_effective_builder p.days_effective);
}

append_kept-entries :
    (ps : List PeakSettingPeriod) → append_kept (map entry ps) ≡ filter_by is_kept ps
unfolding append_kept
append_kept-entries [] = refl
append_kept-entries (p ∷ ps) =
    rw (append_kept-entries ps, days_effective_parser-builder p.days_effective) refl

period-Fits : (p : PeakSettingPeriod) → IsStorable p → Fits (period_calls p)
period-Fits p h =
    (h.0, (h.1, (h.2, (omega (arith, days_effective_builder-lt p.days_effective), tt))))

module _ (P : Payload) (laws : IsPayload P) where
  read_entry-Reads :
      (p : PeakSettingPeriod) → IsStorable p → Reads P (read_entry P) (period_calls p) (entry p)
  unfolding read_entry
  read_entry-Reads p h = Reads-then P laws uint16 p.start_time _ _ (entry p) (
      Reads-then P laws uint16 p.end_time _ _ (entry p) (
        Reads-then_other P laws uint32 int32 p.power _ _ (entry p) refl h.3 (
          Reads-then P laws uint8 (pos (days_effective_builder p.days_effective)) _ _ (entry p)
            (Reads-pure P laws (entry p)))))

  entries-Reads :
      (ps : List PeakSettingPeriod)
      → All IsStorable ps
      → Reads P (read_many (length ps) (read_entry P)) (concat (map period_calls ps)) (map entry ps)
  entries-Reads ps h bs rest e = rw (length-map period_calls ps) at (
      read_many-Reads P laws (read_entry P) (map period_calls ps) (map entry ps)
        (ReadsEach-map P (read_entry P) period_calls entry IsStorable read_entry-Reads ps h) bs rest
        e)

  decode-Reads :
      (ps : List PeakSettingPeriod)
      → All IsStorable ps
      → length ps ≤ peak_setting_periods
      → Reads P
          (decode P)
          ((uint16, pos (length ps)) ∷ concat (map period_calls ps))
          (filter_by is_kept ps)
  unfolding decode
  decode-Reads ps h fits =
      Reads-then P laws uint16 (pos (length ps)) _ _ (filter_by is_kept ps) (λ bs rest e.
        let m : min (length ps) 14 ≡ length ps = omega arith in
        let short : length (filter_by is_kept ps) ≤ length ps = length-filter_by is_kept ps in
        rw (
          m,
          entries-Reads ps h bs rest e,
          append_kept-entries ps,
          take_all (length ps) (filter_by is_kept ps) short,
        ))

  calls-Fits :
      (ps : List PeakSettingPeriod)
      → All IsStorable ps
      → length ps ≤ peak_setting_periods
      → Fits (calls ps)
  calls-Fits ps h fits = (
    omega arith,
    Fits-slots 14 period_calls empty_calls IsStorable ps period-Fits (omega arith) h,
  )

  -- Storable periods, those beyond the fourteenth left out, are encoded in 64 registers. Decoding the
  -- bytes gives the encoded periods back, less those whose times are equal or that have no day.
  -- The empty slots are not read: 9 bytes for each stay in front of what follows.
  pub peak_decode-encode :
      (ps : List PeakSettingPeriod)
      → All IsStorable (take peak_setting_periods ps)
      → (bs : Bytes) × (encode P ps ≡ ok bs)
        × (length bs ≡ 2 * 64)
        × ((rest : Bytes)
            → (unread : Bytes) × (decode P (bs ++ rest)
                ≡ ok (filter_by is_kept (take peak_setting_periods ps), unread ++ rest))
              × (length unread ≡ 9 * (peak_setting_periods - length ps)))
  unfolding encode
  peak_decode-encode ps h =
      let qs = take 14 ps in
      let fits : length qs ≤ 14 = omega (arith, length-take 14 ps) in
      let (bs, e, size) = emit_all-Fits P laws (calls qs) (calls-Fits qs h fits) in
      let pads = concat (replicate (14 - length qs) empty_calls) in
      let (front, back, ef, eb, split) =
        emit_all-append P laws ((uint16, pos (length qs)) ∷ concat (map period_calls qs)) pads bs (
          rw
            (ap (λ cs. emit_all P ((uint16, pos (length qs)) ∷ cs))
              (concat-append (map period_calls qs) (replicate (14 - length qs) empty_calls)))
            at e) in
      (
        bs,
        e,
        omega
            (arith, size, total_size-slots 14 9 period_calls empty_calls qs (λ p. refl) refl fits),
        λ rest. (
          back,
          ap (λ xs. decode P (xs ++ rest)) split
              ∙ ap (decode P) (append_assoc front back rest)
              ∙ decode-Reads qs h fits front (back ++ rest) ef,
          omega (
            arith,
            length-emit_all P laws pads back eb,
            total_size-concat 9 (replicate (14 - length qs) empty_calls) (
                All-replicate (λ (cs : List Call). total_size cs ≡ 9) empty_calls refl
                  (14 - length qs)),
            length-replicate (14 - length qs) empty_calls,
            length-take 14 ps,
          ),
        ),
      )
