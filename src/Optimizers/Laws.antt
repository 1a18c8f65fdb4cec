-- ===== src/Optimizers/Laws.antt =====
-- What the optimizer files are read as.
use mathlib.Core.List.{append_assoc}
use huawei_solar_lib.Base.{
  ℕ, zero, suc, ◌+◌, ◌*◌, ◌<◌, ◌≤◌, ◌≡◌, ◌≢◌, refl, ap, ◌∙◌, inl, inr, false, some, List, [], ◌∷◌,
  ◌++◌, ltb, lt→ltb, ltb→lt, ltb-false→le, Bool-cases, arith,
}
use huawei_solar_lib.Base.Int.{ℤ, pos, pos_part}
use huawei_solar_lib.Base.Floats.{Floats}
use huawei_solar_lib.Base.Lists.{length, drop, length-drop, length-append}
use huawei_solar_lib.Exceptions.{Result, ok, err, ◌>>=◌, >>=-eq-ok, Result-cases, ok_inj}
use huawei_solar_lib.Exceptions.Running.{Ends, continue_with-Ends, and_then-Ends}
use huawei_solar_lib.Payload.{Bytes}
use huawei_solar_lib.Struct.{little, Code, Values, calcsize, unpack_from}
use huawei_solar_lib.Struct.Laws.{Holds, drop-Holds, unpack_from-Holds}
use huawei_solar_lib.Optimizers.Entries.{
  traverse, read_entries, HoldsAll, unpack_at-Holds, read_entries-HoldsAll,
}
use huawei_solar_lib.Optimizers.RealTime.{
  OptimizerHistoryRealTimeDataUnit, header, optimizer_data_unit, optimizer_data, real_time_data,
  optimizers_of, read_unit, read_units, data_units,
}

-- the time of a unit, its length field and its optimizers
abbrev pub RawUnit : Type 0
RawUnit = ℤ × ℤ × List (Values optimizer_data)

-- The bytes are those of the head of the unit, with the number of its optimizers, and of these.
abbrev pub HoldsUnit : RawUnit → Bytes → Type 0
HoldsUnit (time, size, vs) bs =
    (head : Bytes) × (rest : Bytes) × Holds little optimizer_data_unit
      (time, (size, (pos (length vs), tt))) head
    × (bs ≡ head ++ rest)
    × HoldsAll little optimizer_data vs rest

abbrev pub HoldsUnits : List RawUnit → Bytes → Type 0
HoldsUnits [] bs = bs ≡ []
HoldsUnits (u ∷ us) bs =
    (first : Bytes) × (rest : Bytes) × HoldsUnit u first × (bs ≡ first ++ rest) × HoldsUnits us rest

ltb-false : (a b : ℕ) → b ≤ a → ltb a b ≡ false
ltb-false a b h = ground arith

module _ (fl : Floats) where
  -- the unit that the code makes of it, or the error of a status that is unknown
  abbrev pub unit_of : RawUnit → Result (OptimizerHistoryRealTimeDataUnit fl.Float)
  unit_of (time, _, vs) =
      traverse (real_time_data fl) vs >>= λ os. ok record { time = time; optimizers = os }

  abbrev behind : ℕ → RawUnit → ℕ
  behind offset (_, _, vs) =
      offset + calcsize optimizer_data_unit + length vs * calcsize optimizer_data

  read_unit-HoldsUnit :
      (u : RawUnit) (file_data bs more : Bytes) (offset : ℕ)
      → HoldsUnit u bs
      → drop offset file_data ≡ bs ++ more
      → (read_unit fl file_data offset ≡ (unit_of u >>= λ x. ok (x, behind offset u)))
        × (drop (behind offset u) file_data ≡ more)
  unfolding read_unit optimizers_of
  read_unit-HoldsUnit (time, size, vs) file_data bs more offset (head, rest, one, split, all) e =
      let (unpacks, left) =
        unpack_at-Holds little optimizer_data_unit (time, (size, (pos (length vs), tt))) head one
          file_data (rest ++ more) offset
          (e ∙ ap (λ xs. xs ++ more) split ∙ append_assoc head rest more) in
      let (reads, left') =
        read_entries-HoldsAll little optimizer_data (real_time_data fl) vs file_data rest more
          (offset + calcsize optimizer_data_unit) all left in
      (
        elim (Result-cases (traverse (real_time_data fl) vs)) [
          | inl (os, found) ↦ rw (unpacks, reads, found) refl
          | inr (error, failed) ↦ rw (unpacks, reads, failed) refl
        ],
        left',
      )

  inside :
      (file_data first rest : Bytes) (offset : ℕ)
      → drop offset file_data ≡ first ++ rest
      → length first ≢ 0
      → offset < length file_data
  inside file_data first rest offset e more =
      omega (arith, length-drop offset file_data, ap length e, length-append first rest)

  length-HoldsUnit : (u : RawUnit) (bs : Bytes) → HoldsUnit u bs → 12 ≤ length bs
  length-HoldsUnit (time, size, vs) bs (head, rest, one, split, all) =
      omega (arith, ap length split, length-append head rest, one.0)

  last_unit :
      (rounds : ℕ) (file_data : Bytes) (offset far : ℕ)
      (unit : Result (OptimizerHistoryRealTimeDataUnit fl.Float))
      → read_unit fl file_data offset ≡ (unit >>= λ x. ok (x, far))
      → length file_data ≤ far
      → read_units fl (suc rounds) file_data offset ≡ some (unit >>= λ y. ok (y ∷ []))
  unfolding read_units
  last_unit rounds file_data offset far (ok x) reads past =
      rw (reads, ltb-false far (length file_data) past) refl
  last_unit rounds file_data offset far (err e) reads past = rw reads refl

  more_units :
      (rounds : ℕ) (file_data : Bytes) (offset far : ℕ)
      (unit : Result (OptimizerHistoryRealTimeDataUnit fl.Float))
      (units : Result (List (OptimizerHistoryRealTimeDataUnit fl.Float)))
      → read_unit fl file_data offset ≡ (unit >>= λ x. ok (x, far))
      → far < length file_data
      → read_units fl rounds file_data far ≡ some units
      → read_units fl (suc rounds) file_data offset
        ≡ some (unit >>= λ y. units >>= λ ys. ok (y ∷ ys))
  unfolding read_units
  more_units rounds file_data offset far (ok x) (ok xs) reads short rest =
      rw (reads, lt→ltb far (length file_data) short, rest) refl
  more_units rounds file_data offset far (ok x) (err e) reads short rest =
      rw (reads, lt→ltb far (length file_data) short, rest) refl
  more_units rounds file_data offset far (err e) units reads short rest = rw reads refl

  read_units-HoldsUnits :
      (u : RawUnit) (us : List RawUnit) (rounds : ℕ) (file_data bs : Bytes) (offset : ℕ)
      → HoldsUnits (u ∷ us) bs
      → drop offset file_data ≡ bs
      → length file_data ≤ offset + rounds
      → read_units fl rounds file_data offset ≡ some (traverse unit_of (u ∷ us))
  unfolding read_units
  read_units-HoldsUnits u us zero file_data bs offset (first, rest, one, split, others) e enough =
      absurd (
        omega (
          arith,
          inside file_data first rest offset (e ∙ split)
              (omega (arith, length-HoldsUnit u first one)),
        ))
  read_units-HoldsUnits u [] (suc rounds) file_data bs offset (first, rest, one, split, others) e
        enough =
      let (reads, left) = read_unit-HoldsUnit u file_data first rest offset one (e ∙ split) in
      last_unit rounds file_data offset (behind offset u) (unit_of u) reads
        (omega (arith, length-drop (behind offset u) file_data, ap length (left ∙ others)))
  read_units-HoldsUnits u (next ∷ us) (suc rounds) file_data bs offset
        (first, rest, one, split, (first', rest', one', split', others)) e enough =
      let (reads, left) = read_unit-HoldsUnit u file_data first rest offset one (e ∙ split) in
      more_units rounds file_data offset (behind offset u) (unit_of u)
        (traverse unit_of (next ∷ us)) reads
        (inside file_data first' rest' (behind offset u) (left ∙ split')
          (omega (arith, length-HoldsUnit next first' one')))
        (read_units-HoldsUnits next us rounds file_data rest (behind offset u)
          (first', rest', one', split', others) left (omega arith))

  -- If the bytes behind the header of a file are those of one or more units, its data units are what
  -- the code makes of them in their order, or the ValueError of the first status that it does not
  -- know.
  pub data_units-HoldsUnits :
      (version head bs : Bytes) (u : RawUnit) (us : List RawUnit)
      → Holds little header (version, tt) head
      → HoldsUnits (u ∷ us) bs
      → data_units fl (head ++ bs) ≡ some (traverse unit_of (u ∷ us))
  unfolding data_units
  data_units-HoldsUnits version head bs u us one holds =
      let long : length (head ++ bs) ≡ 12 + length bs =
        omega (arith, length-append head bs, one.0) in
      let left : drop 12 (head ++ bs) ≡ bs = drop-Holds little header (version, tt) head one bs in
      let opened = unpack_from-Holds little header (version, tt) head one bs in
      let units =
        read_units-HoldsUnits u us (length (head ++ bs)) (head ++ bs) bs 12 holds left
          (omega arith) in
      rw (ltb-false (length (head ++ bs)) 12 (omega (arith, long)), opened) units

  read_entries-moves :
      {A : Type 0} (cs : List Code) (convert : Values cs → Result A) (n : ℕ) (file_data : Bytes)
      (offset : ℕ) (r : List A × ℕ)
      → read_entries little cs convert n file_data offset ≡ ok r
      → offset ≤ r.1
  unfolding read_entries
  read_entries-moves cs convert zero file_data offset r h =
      let same : offset ≡ r.1 = ap (λ x. x.1) (ok_inj h) in omega (arith, same)
  read_entries-moves cs convert (suc n) file_data offset r h =
      let (v, _, h1) = >>=-eq-ok (unpack_from little cs file_data offset) _ h in
      let (a, _, h2) = >>=-eq-ok (convert v) _ h1 in
      let (rest, e, h3) =
        >>=-eq-ok (read_entries little cs convert n file_data (offset + calcsize cs)) _ h2 in
      let same : rest.1 ≡ r.1 = ap (λ x. x.1) (ok_inj h3) in
      omega (arith, same, read_entries-moves cs convert n file_data (offset + calcsize cs) rest e)

  read_unit-moves :
      (file_data : Bytes) (offset : ℕ) (r : OptimizerHistoryRealTimeDataUnit fl.Float × ℕ)
      → read_unit fl file_data offset ≡ ok r
      → offset + 12 ≤ r.1
  unfolding read_unit optimizers_of
  read_unit-moves file_data offset r h =
      let (v, _, h1) =
        >>=-eq-ok (unpack_from little optimizer_data_unit file_data offset)
          (optimizers_of fl file_data offset) h in
      let (rest, e, h2) =
        >>=-eq-ok
          (read_entries little optimizer_data (real_time_data fl) (pos_part v.1.1.0) file_data
            (offset + calcsize optimizer_data_unit))
          _ h1 in
      let same : rest.1 ≡ r.1 = ap (λ x. x.1) (ok_inj h2) in
      omega (
        arith,
        same,
        read_entries-moves optimizer_data (real_time_data fl) (pos_part v.1.1.0) file_data
            (offset + 12) rest e,
      )

  read_units-Ends :
      (rounds : ℕ) (file_data : Bytes) (offset : ℕ)
      → 0 < rounds
      → length file_data < offset + rounds
      → Ends (read_units fl rounds file_data offset)
  unfolding read_units
  read_units-Ends zero file_data offset some_left enough = absurd (omega arith)
  read_units-Ends (suc rounds) file_data offset some_left enough =
      continue_with-Ends (read_unit fl file_data offset) _ (λ r h.
        elim (Bool-cases (ltb r.1 (length file_data))) [
          | inr e ↦ (ok (r.0 ∷ []), rw e refl)
          | inl e ↦ rw e (
              and_then-Ends (read_units fl rounds file_data r.1) _
                (read_units-Ends rounds file_data r.1
                  (omega (arith, ltb→lt _ _ e, read_unit-moves file_data offset r h))
                  (omega (arith, read_unit-moves file_data offset r h)))
                (λ units _. (ok (r.0 ∷ units), refl)))
        ])

  -- Reading a file ends, whatever its bytes are.
  pub data_units-Ends : (file_data : Bytes) → Ends (data_units fl file_data)
  unfolding data_units
  data_units-Ends file_data = elim (Bool-cases (ltb (length file_data) 12)) [
    | inl e ↦ (ok [], rw e refl)
    | inr e ↦ rw e (
        continue_with-Ends (unpack_from little header file_data 0) _ (λ version _.
          let long = ltb-false→le _ _ e in
          read_units-Ends (length file_data) file_data 12 (omega (arith, long)) (omega arith)))
  ]
