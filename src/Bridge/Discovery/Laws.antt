-- ===== src/Bridge/Discovery/Laws.antt =====
-- What the discovery of a device finds.
use Prim.Native.String.{String}
use huawei_solar_lib.Base.{
  ℕ, zero, suc, ◌*◌, ◌≡◌, refl, Bool, true, false, ◌&&◌, Option, none, some, List, [], ◌∷◌, leb→le,
  ◌≤◌, arith,
}
use huawei_solar_lib.Base.Int.{ℤ, pos, negsuc, pos_part, leb_ℤ, ◌≤ℤ◌}
use huawei_solar_lib.Base.Lists.{length, take, All}
use huawei_solar_lib.Exceptions.{
  Result, ok, err, ok_inj, >>=-eq-ok, guard, assertion_error, read_exception,
}
use huawei_solar_lib.Registers.Definition.{Register}
use huawei_solar_lib.Registers.Number.{int, flag}
use huawei_solar_lib.Registers.Codec.{Content, value}
use huawei_solar_lib.Registers.Codec.Sizes.{guard-ok}
use huawei_solar_lib.Registers.Table.{find, registers}
use huawei_solar_lib.Bridge.Discovery.{
  pv_names, extend_all, compute_pv_registers, no_battery, populate_additional_fields,
}

-- a name of the table of registers
abbrev pub Found : String → Type 0
Found name = (r : Register) × (find name registers ≡ some r)

is_some : Option Register → Bool
is_some none = false
is_some (some r) = true

is_some-eq-true : (o : Option Register) → is_some o ≡ true → (r : Register) × (o ≡ some r)
unfolding is_some
is_some-eq-true none h = absurd (cc h)
is_some-eq-true (some r) h = (r, refl)

is_found : String → Bool
unfolding find registers is_some
is_found name = is_some (find name registers)

all_found : List (String × String) → Bool
unfolding is_found
all_found [] = true
all_found ((voltage, current) ∷ rest) = is_found voltage && (is_found current && all_found rest)

pv_names-found : all_found pv_names ≡ true
unfolding all_found
pv_names-found = refl

is_found-Found : (name : String) → is_found name ≡ true → Found name
unfolding is_found
is_found-Found name h = is_some-eq-true (find name registers) h

both : (a b : Bool) → (a && b) ≡ true → (a ≡ true) × (b ≡ true)
both true b h = (refl, h)
both false b h = absurd (cc h)

extend_all-Found :
    (n : ℕ) (ps : List (String × String)) → all_found ps ≡ true → All Found (extend_all (take n ps))
unfolding all_found
extend_all-Found zero ps h = tt
extend_all-Found (suc n) [] h = tt
extend_all-Found (suc n) ((voltage, current) ∷ ps) h =
    let (first, h') = both (is_found voltage) (is_found current && all_found ps) h in
    let (second, rest) = both (is_found current) (all_found ps) h' in
    (is_found-Found voltage first, (is_found-Found current second, extend_all-Found n ps rest))

length-extend_all :
    (n : ℕ) (ps : List (String × String)) → n ≤ length ps → length (extend_all (take n ps)) ≡ 2 * n
length-extend_all zero ps h = refl
length-extend_all (suc n) [] h = absurd (omega arith)
length-extend_all (suc n) ((voltage, current) ∷ ps) h =
    omega (arith, length-extend_all n ps (omega arith))

in_24 : (count : ℤ) → leb_ℤ count (pos 24) ≡ true → pos_part count ≤ 24
in_24 (pos n) h = ground arith
in_24 (negsuc n) h = omega arith

-- The registers for the pv strings are two for each string that was detected, and each of them is a
-- register of the table, so that reading them all raises no KeyError; a number of strings outside 1
-- to 24 is an error.
pub compute_pv_registers-Found :
    (count : ℤ) (names : List String)
    → compute_pv_registers count ≡ ok names
    → (pos 1 ≤ℤ count) × (count ≤ℤ pos 24) × (length names ≡ 2 * pos_part count) × All Found names
unfolding compute_pv_registers
compute_pv_registers-Found count names h =
    let (_, e, h') =
      >>=-eq-ok (guard (leb_ℤ (pos 1) count && leb_ℤ count (pos 24)) assertion_error) _ h in
    let (low, high) = both (leb_ℤ (pos 1) count) (leb_ℤ count (pos 24)) (guard-ok _ _ e) in
    let few : pos_part count ≤ 24 = in_24 count high in
    rw (← ok_inj h') (
      leb→le _ _ low,
      leb→le _ _ high,
      length-extend_all (pos_part count) pv_names few,
      extend_all-Found (pos_part count) pv_names pv_names-found,
    )

module _ {F : Type 0} (get : String → Result (Content F)) where
  -- An inverter that does not know the registers for optimizers, batteries and the power meter is
  -- still discovered: it has no optimizers, no batteries and no meter, and neither the mode of
  -- capacity control nor the type of the meter is asked for.
  pub populate_without_options :
      (count : ℤ) (names : List String) (dst time_zone : Content F) (a b c d : Option ℕ)
      → get "nb_pv_strings" ≡ ok (value (int count))
      → compute_pv_registers count ≡ ok names
      → get "nb_optimizers" ≡ err (read_exception a)
      → get "storage_unit_1_product_model" ≡ err (read_exception b)
      → get "storage_unit_2_product_model" ≡ err (read_exception c)
      → get "meter_status" ≡ err (read_exception d)
      → get "daylight_saving_time" ≡ ok dst
      → get "time_zone" ≡ ok time_zone
      → populate_additional_fields get
        ≡ ok record {
          pv_string_count = count;
          pv_register_names = names;
          has_optimizers = value (flag false);
          battery_1_type = no_battery;
          battery_2_type = no_battery;
          supports_capacity_control = false;
          power_meter_online = false;
          power_meter_type = none;
          dst = dst;
          time_zone = time_zone;
        }
  unfolding populate_additional_fields
  populate_without_options count names dst time_zone a b c d h1 h2 h3 h4 h5 h6 h7 h8 =
      rw (h1, h2, h3, h4, h5, h6, h7, h8) refl
