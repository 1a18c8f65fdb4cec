-- ===== src/Bridge/Update.antt =====
-- `batch_update` of src/huawei_solar/bridge.py, on a HuaweiSUN2000Bridge: the registers that it
-- filters out, the errors that it handles and the changes of state that it detects.
pub mod Laws
pub mod Status
use Prim.Native.String.{String}
use text.Mathlib.Text.{◌==◌ as str_eq}
use huawei_solar_lib.Base.{
  ℕ, suc, ◌==◌, Bool, true, false, not, ◌&&◌, ◌||◌, Option, none, some, List, [], ◌∷◌,
  if◌then◌else◌, map,
}
use huawei_solar_lib.Base.Int.{ℤ, pos, eqb_ℤ}
use huawei_solar_lib.Base.Lists.{length, filter_by}
use huawei_solar_lib.Exceptions.{Error, Result, ok, err, index_error, is_huawei_solar_exception}
use huawei_solar_lib.Registers.Definition.{Register}
use huawei_solar_lib.Registers.Number.{Value, absent, int, flag, member}
use huawei_solar_lib.Registers.Codec.{Content, value}
use huawei_solar_lib.Registers.Table.{find}
use huawei_solar_lib.Registers.Table.MeterRegisters.{meter_registers}
use huawei_solar_lib.Client.GetMultiple.{Reading}
use huawei_solar_lib.Bridge.Batches.{Named, named_all, sorted, batches}
use huawei_solar_lib.Bridge.Results.{Dict, get_item, update, zip_into, transform_items}

abbrev pub device_status : String
device_status = "device_status"

abbrev pub meter_status : String
meter_status = "meter_status"

-- The fields that `batch_update` reads or sets, and the number of requests made so far.
pub record Sun2000 (F : Type 0) : Type 0 where
  pub power_meter_online : Bool
  -- None is the value that is absent
  pub previous_device_status : Content F
  pub requests : ℕ

unfoldable pub is_meter : String → Bool
unfolding find meter_registers
is_meter name = elim (find name meter_registers) [ none ↦ false | some _ ↦ true ]

abbrev pub has_meter : List String → Bool
has_meter [] = false
has_meter (name ∷ names) = is_meter name || has_meter names

-- The truth of the value of METER_STATUS, which is None or a member of an IntEnum. Numbers are read
-- the same way; other values do not occur there.
abbrev pub truth : {F : Type 0} → Content F → Bool
truth (value absent) = false
truth (value (int z)) = not (eqb_ℤ z (pos 0))
truth (value (flag b)) = b
truth (value (member _ _ n)) = not (n == 0)
truth _ = true

-- `rn not in power_meter_register_names` in the lambda: `rn` is the module of that name, since the
-- `rn` of the set comprehension is not in scope there, and no set of texts has a module.
abbrev pub rn_not_in : List String → Bool
rn_not_in names = true

-- A method that changes the bridge: what it returns or raises, and the bridge afterwards.
abbrev pub Action : Type 0 → Type 0 → Type 0
Action F A = Sun2000 F → Result A × Sun2000 F

abbrev pub proceed :
    {F A B : Type 0} → Result A × Sun2000 F → (A → Action F B) → Result B × Sun2000 F
proceed (ok a, s) f = f a s
proceed (err e, s) f = (err e, s)

infixl 5 ◌>>=◌
abbrev pub ◌>>=◌ : {F A B : Type 0} → Action F A → (A → Action F B) → Action F B
◌>>=◌ m f s = proceed (m s) f

abbrev pub pure : {F A : Type 0} → A → Action F A
pure a s = (ok a, s)

abbrev pub lift : {F A : Type 0} → Result A → Action F A
lift r s = (r, s)

-- The client's `get_multiple`, by the number of requests before.
abbrev pub Client : Type 0 → Type 0
Client F = ℕ → List String → Result (List (Reading F))

module _ {F : Type 0} where
  unfoldable pub set_online : Bool → Action F (Unit {0})
  set_online b s = (ok tt, record s { power_meter_online = b })

  unfoldable pub online : Action F Bool
  online s = (ok s.power_meter_online, s)

  -- `list[0]`
  abbrev pub first : List (Reading F) → Result (Content F)
  first [] = err index_error
  first (r ∷ rs) = ok r.value

module _ {F : Type 0} (client : Client F) where
  unfoldable pub get_multiple : List String → Action F (List (Reading F))
  get_multiple names s = (client s.requests names, record s { requests = suc s.requests })

  -- `client.get`
  unfoldable pub get : String → Action F (Content F)
  unfolding get_multiple
  get name = do rs ← get_multiple (name ∷ []); lift (first rs)

  unfoldable pub check_online : Bool → Action F (Unit {0})
  unfolding get set_online
  check_online true = pure tt
  check_online false = do v ← get meter_status; set_online (truth v)

  abbrev pub without_meter : Bool → List String → List String
  without_meter true names = names
  without_meter false names =
      filter_by (λ regname. str_eq regname meter_status || rn_not_in (filter_by is_meter names))
        names

  -- `_filter_registers`
  unfoldable pub filter_registers : List String → Action F (List String)
  unfolding check_online online
  filter_registers names =
      if has_meter names
      then (do was ← online; _ ← check_online was; is ← online; pure (without_meter is names))
      else pure names

  -- `_handle_batch_read_error`, which raises the error again
  unfoldable pub handle_batch_read_error : List String → Sun2000 F → Sun2000 F
  handle_batch_read_error names s =
      if has_meter names then record s { power_meter_online = false } else s

  -- `_get_multiple_to_dict`, behind the request, and the handler around it
  unfoldable pub caught :
      List String → Result (List (Reading F)) × Sun2000 F → Result (Dict (Reading F)) × Sun2000 F
  unfolding handle_batch_read_error is_huawei_solar_exception
  caught names (ok rs, s) = (ok (zip_into [] names rs), s)
  caught names (err e, s) =
      (err e, if is_huawei_solar_exception e then handle_batch_read_error names s else s)

  unfoldable pub query : List String → Action F (Dict (Reading F))
  unfolding get_multiple caught
  query names s = caught names (get_multiple names s)

module _ {F : Type 0} (client : Client F) (eq_value : Content F → Content F → Bool) where
  -- `_detect_state_changes`; `eq_value` is Python's `==` on the values of a register
  unfoldable pub note_status : Option (Reading F) → Action F (Unit {0})
  note_status none s = (ok tt, s)
  note_status (some new) s = (
    ok tt,
    record s {
      power_meter_online =
          if eq_value s.previous_device_status new.value then s.power_meter_online else false;
      previous_device_status = new.value;
    },
  )

  unfoldable pub detect_state_changes : Dict (Reading F) → Action F (Unit {0})
  unfolding note_status
  detect_state_changes new_values = note_status (get_item device_status new_values)

  -- one round of the outer loop
  unfoldable pub update_batch : List Named → Action F (Dict (Reading F))
  unfolding filter_registers query detect_state_changes
  update_batch batch = do
    names ← filter_registers client (map (λ (r : Named). r.name) batch)
    values ← query client names
    _ ← detect_state_changes values
    pure values

  unfoldable pub update_batches : Dict (Reading F) → List (List Named) → Action F (Dict (Reading F))
  unfolding update_batch
  update_batches result [] = pure result
  update_batches result (batch ∷ rest) = do
    values ← update_batch batch
    update_batches (update result values) rest

  -- `transform` is `_transform_register_values`
  unfoldable pub batch_update :
      (String → Reading F → Reading F) → List String → Action F (Dict (Reading F))
  unfolding named_all sorted batches update_batches
  batch_update transform register_names = do
    rs ← lift (named_all register_names)
    result ← update_batches [] (batches (length (sorted rs)) (sorted rs))
    pure (transform_items transform result)
