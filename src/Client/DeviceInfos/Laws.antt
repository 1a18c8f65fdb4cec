-- ===== src/Client/DeviceInfos/Laws.antt =====
-- The entries of get_device_infos that an inverter writes.
use huawei_solar_lib.Base.{
  ℕ, ◌+◌, ◌≤◌, ◌≡◌, refl, ◌∙◌, ap, false, Option, some, List, [], ◌∷◌, ◌++◌, map, ◌==◌, arith,
}
use huawei_solar_lib.Base.Int.{ℤ, pos}
use huawei_solar_lib.Base.Lists.{All}
use huawei_solar_lib.Base.Texts.{Codes, split, IsFree, split-IsFree, split-append, int_of}
use huawei_solar_lib.Exceptions.{Result, ok, err, ◌>>=◌}
use huawei_solar_lib.Client.DeviceInfos.{
  RawInfo, read_field, read_fields, device_info, parse_device_entry, int_or_error,
}

-- `key=value`, with a key of one digit, and such entries with `;` between them
abbrev pub Field : Type 0
Field = ℕ × Codes

abbrev pub entry : Field → Codes
entry f = (48 + f.0) ∷ 61 ∷ f.1

abbrev pub joined : Field → List Field → Codes
joined f [] = entry f
joined f (g ∷ fs) = entry f ++ 59 ∷ joined g fs

-- The text holds none of the two separators.
abbrev pub IsPlain : Codes → Type 0
IsPlain value = IsFree 61 value × IsFree 59 value

abbrev pub IsField : Field → Type 0
IsField f = (f.0 ≤ 9) × IsPlain f.1

abbrev collect : RawInfo → List Field → RawInfo
collect raw [] = raw
collect raw (f ∷ fs) = collect ((pos f.0, f.1) ∷ raw) fs

digit_apart : (k separator : ℕ) → k ≤ 9 → 58 ≤ separator → (48 + k == separator) ≡ false
digit_apart k separator digit behind = ground arith

entry-IsFree : (f : Field) → IsField f → IsFree 59 (entry f)
entry-IsFree f (digit, (plain, free)) = (digit_apart f.0 59 digit (omega arith), (refl, free))

split-joined :
    (f : Field) (fs : List Field)
    → All IsField (f ∷ fs)
    → split 59 (joined f fs) ≡ map entry (f ∷ fs)
split-joined f [] (h, _) = split-IsFree 59 (entry f) (entry-IsFree f h)
split-joined f (g ∷ fs) (h, others) =
    split-append 59 (entry f) (joined g fs) (entry-IsFree f h)
    ∙ ap (◌∷◌ (entry f)) (split-joined g fs others)

int_of_digit : (k : ℕ) → k ≤ 9 → int_of ((48 + k) ∷ []) ≡ some (pos k)
unfolding int_of
int_of_digit k digit = ground arith

read_field-entry : (f : Field) → IsField f → read_field (entry f) ≡ ok (pos f.0, f.1)
unfolding read_field
read_field-entry f (digit, (plain, free)) =
    rw
      (
        split-append 61 ((48 + f.0) ∷ []) f.1 (digit_apart f.0 61 digit (omega arith), tt),
        split-IsFree 61 f.1 plain,
        int_of_digit f.0 digit,
      )
      refl

read_fields-map :
    (raw : RawInfo) (fs : List Field)
    → All IsField fs
    → read_fields raw (map entry fs) ≡ ok (collect raw fs)
unfolding read_fields
read_fields-map raw [] h = refl
read_fields-map raw (f ∷ fs) (h, others) =
    rw (read_field-entry f h) (read_fields-map ((pos f.0, f.1) ∷ raw) fs others)

parse-joined :
    (f : Field) (fs : List Field)
    → All IsField (f ∷ fs)
    → parse_device_entry (joined f fs) ≡ device_info (collect [] (f ∷ fs))
unfolding parse_device_entry
parse-joined f fs h = rw (split-joined f fs h, read_fields-map [] (f ∷ fs) h) refl

with_device_id :
    {A : Type 0} (r : Result ℤ) (make : Option ℤ → Result A)
    → ((r >>= λ n. ok (some n)) >>= make) ≡ (r >>= λ n. make (some n))
with_device_id (ok n) make = refl
with_device_id (err e) make = refl

-- An entry with the eight fields, none of which holds a `;` or a `=`, is parsed to these fields, the
-- device id as the number that it stands for. If it stands for no number, ValueError is raised.
pub parse_device_entry-joined :
    (model software interface esn device_id feature unknown product : Codes)
    → All IsPlain
        (model ∷ software ∷ interface ∷ esn ∷ device_id ∷ feature ∷ unknown ∷ product ∷ [])
    → parse_device_entry (
        joined
          (1, model)
          ((2, software)
            ∷ (3, interface)
            ∷ (4, esn)
            ∷ (5, device_id)
            ∷ (6, feature)
            ∷ (7, unknown)
            ∷ (8, product)
            ∷ []))
      ≡ (int_or_error (int_of device_id) >>= λ n. ok record {
        model = some model;
        software_version = some software;
        interface_protocol_version = some interface;
        esn = some esn;
        device_id = some n;
        feature_version = some feature;
        unknown_field = some unknown;
        product_type = some product;
      })
unfolding device_info
parse_device_entry-joined m s i e d f u p (hm, (hs, (hi, (he, (hd, (hf, (hu, (hp, _)))))))) =
    parse-joined (1, m) ((2, s) ∷ (3, i) ∷ (4, e) ∷ (5, d) ∷ (6, f) ∷ (7, u) ∷ (8, p) ∷ [])
      (
        (omega arith, hm),
        (
          (omega arith, hs),
          (
            (omega arith, hi),
            (
              (omega arith, he),
              (
                (omega arith, hd),
                ((omega arith, hf), ((omega arith, hu), ((omega arith, hp), tt))),
              ),
            ),
          ),
        ),
      )
    ∙ with_device_id (int_or_error (int_of d)) _
