-- ===== src/Registers/Days.antt =====
-- `_days_effective_builder` and `_days_effective_parser` of src/huawei_solar/registers.py, which
-- stand there twice: at the top level and inside `HUAWEI_LUNA2000_TimeOfUseRegisters`.
use Prim.Native.Nat.{bit_and}
use huawei_solar_lib.Base.{
  ℕ, ◌+◌, ◌<◌, ◌≡◌, refl, Bool, true, false, not, ◌&&◌, ◌==◌, if◌then◌else◌, arith,
}

-- the tuple of seven days, Sunday first
pub record Days : Type 0 where
  pub day_0 : Bool
  pub day_1 : Bool
  pub day_2 : Bool
  pub day_3 : Bool
  pub day_4 : Bool
  pub day_5 : Bool
  pub day_6 : Bool

-- one round of the builder's loop: `mask` is added where the day is set
add_day : Bool → ℕ → ℕ → ℕ
add_day day mask result = if day then result + mask else result

-- The mask is 1, 2, 4, … 64 in the seven rounds.
unfoldable pub days_effective_builder : Days → ℕ
unfolding add_day
days_effective_builder d = add_day d.day_6 64 (
    add_day d.day_5 32 (
      add_day d.day_4 16
        (add_day d.day_3 8 (add_day d.day_2 4 (add_day d.day_1 2 (add_day d.day_0 1 0))))))

has_day : ℕ → ℕ → Bool
has_day value mask = not (bit_and value mask == 0)

unfoldable pub days_effective_parser : ℕ → Days
unfolding has_day
days_effective_parser value = record {
  day_0 = has_day value 1;
  day_1 = has_day value 2;
  day_2 = has_day value 4;
  day_3 = has_day value 8;
  day_4 = has_day value 16;
  day_5 = has_day value 32;
  day_6 = has_day value 64;
}

-- `days_effective[day_idx]` for day_idx below 7
abbrev pub effective_on : ℕ → Days → Bool
effective_on ℕ.zero d = d.day_0
effective_on (ℕ.suc ℕ.zero) d = d.day_1
effective_on (ℕ.suc (ℕ.suc ℕ.zero)) d = d.day_2
effective_on (ℕ.suc (ℕ.suc (ℕ.suc ℕ.zero))) d = d.day_3
effective_on (ℕ.suc (ℕ.suc (ℕ.suc (ℕ.suc ℕ.zero)))) d = d.day_4
effective_on (ℕ.suc (ℕ.suc (ℕ.suc (ℕ.suc (ℕ.suc ℕ.zero))))) d = d.day_5
effective_on (ℕ.suc (ℕ.suc (ℕ.suc (ℕ.suc (ℕ.suc (ℕ.suc _)))))) d = d.day_6

abbrev same_bit : Bool → Bool → Bool
same_bit true b = b
same_bit false b = not b

abbrev same_days : Days → Days → Bool
same_days c d =
    same_bit c.day_0 d.day_0
    && (same_bit c.day_1 d.day_1
        && (same_bit c.day_2 d.day_2
            && (same_bit c.day_3 d.day_3
                && (same_bit c.day_4 d.day_4
                    && (same_bit c.day_5 d.day_5 && same_bit c.day_6 d.day_6)))))

same_days→eq : (c d : Days) → same_days c d ≡ true → c ≡ d
same_days→eq c d h = ground arith

abbrev both : (Bool → Bool) → Bool
both p = p true && p false

both_sound : (p : Bool → Bool) → both p ≡ true → (b : Bool) → p b ≡ true
both_sound p h true = ground arith
both_sound p h false = ground arith

abbrev reparses : Bool → Bool → Bool → Bool → Bool → Bool → Bool → Bool
reparses a b c d e f g =
    let week : Days = record {
      day_0 = a;
      day_1 = b;
      day_2 = c;
      day_3 = d;
      day_4 = e;
      day_5 = f;
      day_6 = g;
    } in
    same_days (days_effective_parser (days_effective_builder week)) week

all_reparse :
    both
      (λ a. both (λ b. both (λ c. both (λ d. both (λ e. both (λ f. both (reparses a b c d e f)))))))
    ≡ true
unfolding days_effective_parser days_effective_builder
all_reparse = refl

-- Parsing what the builder made of a tuple of days gives the tuple back.
pub days_effective_parser-builder :
    (d : Days) → days_effective_parser (days_effective_builder d) ≡ d
days_effective_parser-builder w =
    let a =
      both_sound
        (λ a.
          both (λ b. both (λ c. both (λ d. both (λ e. both (λ f. both (reparses a b c d e f)))))))
        all_reparse w.day_0 in
    let b =
      both_sound
        (λ b. both (λ c. both (λ d. both (λ e. both (λ f. both (reparses w.day_0 b c d e f)))))) a
        w.day_1 in
    let c =
      both_sound (λ c. both (λ d. both (λ e. both (λ f. both (reparses w.day_0 w.day_1 c d e f)))))
        b w.day_2 in
    let d =
      both_sound (λ d. both (λ e. both (λ f. both (reparses w.day_0 w.day_1 w.day_2 d e f)))) c
        w.day_3 in
    let e =
      both_sound (λ e. both (λ f. both (reparses w.day_0 w.day_1 w.day_2 w.day_3 e f))) d w.day_4 in
    let f = both_sound (λ f. both (reparses w.day_0 w.day_1 w.day_2 w.day_3 w.day_4 f)) e w.day_5 in
    let g = both_sound (reparses w.day_0 w.day_1 w.day_2 w.day_3 w.day_4 w.day_5) f w.day_6 in
    same_days→eq (days_effective_parser (days_effective_builder w)) w g

-- The built number fits a byte.
pub days_effective_builder-lt : (d : Days) → days_effective_builder d < 128
unfolding days_effective_builder
days_effective_builder-lt d = ground arith
