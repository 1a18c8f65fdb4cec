-- ===== src/Registers/Table/Facts.antt =====
-- Facts about every register of the table, checked by evaluation and stated for any name.
use Prim.Native.String.{String}
use text.Mathlib.Text.{◌==◌ as str_eq}
use text.Mathlib.TextEquality.{eq_iff}
use huawei_solar_lib.Base.{
  ◌+◌, ◌≤◌, ◌<◌, ◌≡◌, refl, Bool, true, false, not, ◌&&◌, ◌||◌, some, inl, inr, List, [], ◌∷◌,
  arith, leb, Bool-cases,
}
use huawei_solar_lib.Registers.Definition.{Register}
use huawei_solar_lib.Registers.Codec.{fits_length}
use huawei_solar_lib.Registers.Table.{registers, find}

all_entries : (String → Register → Bool) → List (String × Register) → Bool
all_entries p [] = true
all_entries p ((name, r) ∷ rest) = p name r && all_entries p rest

abbrev pub misfits : List String
misfits =
    "storage_lg_resu_time_of_use_charging_and_discharging_periods"
    ∷ "storage_huawei_luna2000_time_of_use_price_periods" ∷ "storage_capacity_control_periods" ∷ []

abbrev pub one_of : String → List String → Bool
one_of name [] = false
one_of name (n ∷ ns) = str_eq n name || one_of name ns

-- What holds of every entry holds of every register that is found.
find-all_entries :
    (p : String → Register → Bool) (entries : List (String × Register)) (name : String)
    (r : Register)
    → all_entries p entries ≡ true
    → find name entries ≡ some r
    → p name r ≡ true
unfolding all_entries find
find-all_entries p [] name r h e = cc
find-all_entries p ((key, q) ∷ rest) name r h e = elim (Bool-cases (str_eq key name)) [
  | inl same ↦
      let eq_key : key ≡ name = (eq_iff key name).0 same in
      let e' : some q ≡ some r = rw same at e in
      let eq_r : q ≡ r = cc in rw (← eq_key, ← eq_r) (ground arith)
  | inr other ↦ find-all_entries p rest name r (ground arith) (rw other at e)
]

fits_or_misfit : all_entries (λ name r. fits_length r || one_of name misfits) registers ≡ true
unfolding all_entries registers
fits_or_misfit = refl

-- Every name of the table but three belongs to a register whose length is that of the bytes which
-- its decoder takes.
pub find-fits_length :
    (name : String) (r : Register)
    → find name registers ≡ some r
    → one_of name misfits ≡ false
    → fits_length r ≡ true
find-fits_length name r found fits =
    let h : (fits_length r || one_of name misfits) ≡ true =
      find-all_entries (λ n q. fits_length q || one_of n misfits) registers name r fits_or_misfit
        found in
    ground arith

abbrev ends_before : Register → Register → Bool
ends_before r q = leb (r.register + r.length) q.register || leb q.register r.register

-- Both registers are of the SUN2000, or both of the EMMA.
abbrev pub share_device : Register → Register → Bool
share_device r q =
    (r.target_device.sun2000 && q.target_device.sun2000)
    || (r.target_device.emma && q.target_device.emma)

abbrev apart : Register → Register → Bool
apart r q = not (share_device r q) || ends_before r q

all_apart : all_entries (λ _ r. all_entries (λ _ q. apart r q) registers) registers ≡ true
unfolding all_entries registers
all_apart = refl

-- A register of the SUN2000 ends before any register of the SUN2000 with a greater address begins,
-- and so for the EMMA: registers of one device that overlap begin at the same address.
pub registers_apart :
    (name other : String) (r q : Register)
    → find name registers ≡ some r
    → find other registers ≡ some q
    → share_device r q ≡ true
    → r.register < q.register
    → r.register + r.length ≤ q.register
registers_apart name other r q found found' shared h =
    let one : all_entries (λ _ p. apart r p) registers ≡ true =
      find-all_entries (λ _ r. all_entries (λ _ q. apart r q) registers) registers name r all_apart
        found in
    let two : apart r q ≡ true = find-all_entries (λ _ p. apart r p) registers other q one found' in
    ground arith
