-- ===== src/Optimizers/Versions.antt =====
-- What a system information file is read as, by its version.
use huawei_solar_lib.Base.{
  ℕ, ◌≡◌, ◌≢◌, refl, inl, inr, Bool, true, false, List, [], ◌∷◌, ◌++◌, ◌==◌, ==_iff, Bool-cases,
}
use huawei_solar_lib.Base.Lists.{length, drop}
use huawei_solar_lib.Exceptions.{Result, err, ◌>>=◌, Result-cases, huawei_solar_exception}
use huawei_solar_lib.Payload.{Bytes}
use huawei_solar_lib.Struct.{big, Code, Values}
use huawei_solar_lib.Struct.Laws.{Holds, drop-Holds, unpack_from-Holds}
use huawei_solar_lib.Optimizers.Entries.{traverse, read_entries, HoldsAll, read_entries-HoldsAll}
use huawei_solar_lib.Optimizers.SystemInformation.{
  OptimizerSystemInformation, header, v102, v103, v102_optimizer_feature_data,
  v103_optimizer_feature_data, v102_information, v103_information, eq_bytes, entries_of,
  read_version, optimizers,
}

eq_bytes-eq : (xs ys : Bytes) → eq_bytes xs ys ≡ true → xs ≡ ys
eq_bytes-eq [] [] h = refl
eq_bytes-eq [] (y ∷ ys) h = absurd (cc h)
eq_bytes-eq (x ∷ xs) [] h = absurd (cc h)
eq_bytes-eq (x ∷ xs) (y ∷ ys) h = elim (Bool-cases (x == y)) [
  | inr e ↦ absurd (cc (rw e at h))
  | inl e ↦ cc ((==_iff x y).0 e, eq_bytes-eq xs ys (rw e at h))
]

eq_bytes-false : (xs ys : Bytes) → xs ≢ ys → eq_bytes xs ys ≡ false
eq_bytes-false xs ys h = elim (Bool-cases (eq_bytes xs ys)) [
  | inl e ↦ absurd (h (eq_bytes-eq xs ys e))
  | inr e ↦ e
]

-- the header of a file with this version and number of optimizers
abbrev pub HoldsHeader : Bytes → ℕ → Bytes → Type 0
HoldsHeader version n head =
    (sequence : ℕ) × (size : ℕ) × (reserved : Bool) × Holds big header
      (version, (sequence, (size, (reserved, (n, tt))))) head

read_all :
    {A : Type 0} (cs : List Code) (convert : Values cs → Result A) (vs : List (Values cs))
    (file_data bs more : Bytes)
    → HoldsAll big cs vs bs
    → drop 14 file_data ≡ bs ++ more
    → (read_entries big cs convert (length vs) file_data 14 >>= entries_of) ≡ traverse convert vs
read_all cs convert vs file_data bs more all e =
    let (reads, _) = read_entries-HoldsAll big cs convert vs file_data bs more 14 all e in
    elim (Result-cases (traverse convert vs)) [
      | inl (found, h) ↦ rw (reads, h) refl
      | inr (error, h) ↦ rw (reads, h) refl
    ]

-- the versions that are supported, with the formats of their entries
pub data FileVersion : Type 0 where
  version_102 version_103 : FileVersion

abbrev pub name_of : FileVersion → Bytes
name_of version_102 = v102
name_of version_103 = v103

abbrev pub format_of : FileVersion → List Code
format_of version_102 = v102_optimizer_feature_data
format_of version_103 = v103_optimizer_feature_data

unfoldable pub information_of :
    (version : FileVersion) → Values (format_of version) → Result OptimizerSystemInformation
information_of version_102 v = v102_information v
information_of version_103 v = v103_information v

-- A file of a supported version with as many entries as its header says is read as what the code
-- makes of these entries, whatever follows them, or raises the ValueError of the first status that
-- is unknown.
pub optimizers-HoldsAll :
    (version : FileVersion) (vs : List (Values (format_of version))) (head bs more : Bytes)
    → HoldsHeader (name_of version) (length vs) head
    → HoldsAll big (format_of version) vs bs
    → optimizers (head ++ (bs ++ more)) ≡ traverse (information_of version) vs
unfolding optimizers read_version information_of
optimizers-HoldsAll version_102 vs head bs more (sequence, size, reserved, one) all =
    let v : Values header = (v102, (sequence, (size, (reserved, (length vs, tt))))) in
    rw (unpack_from-Holds big header v head one (bs ++ more)) (
      read_all v102_optimizer_feature_data v102_information vs (head ++ (bs ++ more)) bs more all
        (drop-Holds big header v head one (bs ++ more)))
optimizers-HoldsAll version_103 vs head bs more (sequence, size, reserved, one) all =
    let v : Values header = (v103, (sequence, (size, (reserved, (length vs, tt))))) in
    rw (unpack_from-Holds big header v head one (bs ++ more)) (
      read_all v103_optimizer_feature_data v103_information vs (head ++ (bs ++ more)) bs more all
        (drop-Holds big header v head one (bs ++ more)))

-- A file of any other version is refused.
pub optimizers_unsupported :
    (version : Bytes) (n : ℕ) (head rest : Bytes)
    → HoldsHeader version n head
    → version ≢ v102
    → version ≢ v103
    → optimizers (head ++ rest) ≡ err huawei_solar_exception
unfolding optimizers read_version
optimizers_unsupported version n head rest (sequence, size, reserved, one) other other' =
    let v : Values header = (version, (sequence, (size, (reserved, (n, tt))))) in
    rw
      (
        unpack_from-Holds big header v head one rest,
        eq_bytes-false version v102 other,
        eq_bytes-false version v103 other',
      )
      refl
