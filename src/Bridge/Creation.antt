-- ===== src/Bridge/Creation.antt =====
-- `HuaweiSolarProductInfo`, `_create`, `create_sub_bridge` and `HuaweiEMMABridge`, of
-- src/huawei_solar/bridge.py: how a bridge is made for a device. The locks are left out.
use Prim.Native.String.{String}
use huawei_solar_lib.Base.{
  ℕ, ◌≡◌, refl, sym, ap, inl, inr, ◌∙◌, ◌⊎◌, Bool, true, false, if◌then◌else◌, not, List, [], ◌∷◌,
  ◌==◌,
}
use huawei_solar_lib.Exceptions.{
  Result, ok, err, ok_inj, ◌>>=◌, ◌>>◌, >>=-eq-ok, guard, assertion_error, attribute_error,
  value_error,
}
use huawei_solar_lib.Registers.Codec.{
  Content, characters, value, datetime, lg_resu_periods, luna2000_periods, charge_discharge_periods,
  peak_setting_periods,
}
use huawei_solar_lib.Registers.Utf8.{Text}
use huawei_solar_lib.Bridge.Discovery.{
  Discovered, populate_additional_fields, BridgeClass, huawei_sun2000_bridge, huawei_emma_bridge,
  bridge_class, first_supporting, supports_device,
}

pub record HuaweiSolarProductInfo (F : Type 0) : Type 0 where
  pub model_name : Content F
  pub serial_number : Content F
  pub product_number : Content F
  pub firmware_version : Content F
  pub software_version : Content F

abbrev pub product_info_names : List String
product_info_names =
    "model_name" ∷ "serial_number" ∷ "pn" ∷ "firmware_version" ∷ "software_version" ∷ []

-- What `_populate_additional_fields` of the class finds.
pub data Fields (F : Type 0) : Type 0 where
  sun2000_fields : Discovered F → Fields F
  emma_fields : Content F → Fields F

pub record Bridge (F : Type 0) : Type 0 where
  pub kind : BridgeClass
  pub slave_id : ℕ
  pub product_info : HuaweiSolarProductInfo F
  pub primary : Bool
  pub fields : Fields F

module _ {F : Type 0} where
  -- the values of the five results, by the order of their names
  unfoldable pub product_info : List (Content F) → Result (HuaweiSolarProductInfo F)
  product_info (model ∷ serial ∷ pn ∷ firmware ∷ software ∷ []) = ok record {
    model_name = model;
    serial_number = serial;
    product_number = pn;
    firmware_version = firmware;
    software_version = software;
  }
  product_info _ = err value_error

  -- `model_name.startswith` needs a text
  abbrev pub model_text : Content F → Result Text
  model_text (characters t) = ok t
  model_text _ = err attribute_error

  -- What `client.get_multiple` and `client.get` return or raise for the slave.
  module _ (get_multiple : ℕ → List String → Result (List (Content F)))
      (get : ℕ → String → Result (Content F)) where
    unfoldable pub retrieve_from_device : ℕ → Result (HuaweiSolarProductInfo F)
    unfolding product_info
    retrieve_from_device slave_id = get_multiple slave_id product_info_names >>= product_info

    unfoldable pub populate : BridgeClass → ℕ → Result (Fields F)
    unfolding populate_additional_fields
    populate huawei_sun2000_bridge slave_id =
        populate_additional_fields (get slave_id) >>= λ found. ok (sun2000_fields found)
    populate huawei_emma_bridge slave_id =
        get slave_id "emma_model" >>= λ model. ok (emma_fields model)

    -- `_create`, for a client of its own slave
    unfoldable pub create : ℕ → ℕ → Result (Bridge F)
    unfolding retrieve_from_device populate bridge_class
    create client_slave_id slave_id = retrieve_from_device slave_id >>= λ info.
        model_text info.model_name >>= bridge_class >>= λ kind. populate kind slave_id >>= λ fields.
        ok record {
          kind = kind;
          slave_id = slave_id;
          product_info = info;
          primary = slave_id == client_slave_id;
          fields = fields;
        }

    unfoldable pub create_sub_bridge : ℕ → Bridge F → ℕ → Result (Bridge F)
    unfolding create
    create_sub_bridge client_slave_id primary_bridge slave_id =
        guard (not (primary_bridge.slave_id == slave_id)) assertion_error
        >> create client_slave_id slave_id

-- `has_write_permission` of a HuaweiEMMABridge
abbrev pub emma_has_write_permission : Bool
emma_has_write_permission = true

chosen-eq-ok :
    (supports : Bool) (first : BridgeClass) (rest : Result BridgeClass) (kind : BridgeClass)
    → (if supports then ok first else rest) ≡ ok kind
    → ((supports ≡ true) × (first ≡ kind)) ⊎ (rest ≡ ok kind)
chosen-eq-ok true first rest kind h = inl (refl, ok_inj h)
chosen-eq-ok false first rest kind h = inr h

first_supporting-eq-ok :
    (classes : List BridgeClass) (model : Text) (kind : BridgeClass)
    → first_supporting classes model ≡ ok kind
    → supports_device kind model ≡ true
unfolding first_supporting
first_supporting-eq-ok [] model kind h = absurd (cc h)
first_supporting-eq-ok (c ∷ cs) model kind h =
    elim (chosen-eq-ok (supports_device c model) c (first_supporting cs model) kind h) [
      | inl (supported, same) ↦ ap (λ k. supports_device k model) (sym same) ∙ supported
      | inr later ↦ first_supporting-eq-ok cs model kind later
    ]

-- The values in the order of their registers.
abbrev values_of : {F : Type 0} → HuaweiSolarProductInfo F → List (Content F)
values_of i =
    i.model_name ∷ i.serial_number ∷ i.product_number ∷ i.firmware_version ∷ i.software_version ∷ []

module _ {F : Type 0} where
  product_info-eq-ok :
      (values : List (Content F)) (info : HuaweiSolarProductInfo F)
      → product_info values ≡ ok info
      → values ≡ values_of info
  unfolding product_info
  product_info-eq-ok (m ∷ s ∷ p ∷ f ∷ w ∷ []) info h = ap values_of (ok_inj h)
  product_info-eq-ok [] info h = absurd (cc h)
  product_info-eq-ok (m ∷ []) info h = absurd (cc h)
  product_info-eq-ok (m ∷ s ∷ []) info h = absurd (cc h)
  product_info-eq-ok (m ∷ s ∷ p ∷ []) info h = absurd (cc h)
  product_info-eq-ok (m ∷ s ∷ p ∷ f ∷ []) info h = absurd (cc h)
  product_info-eq-ok (m ∷ s ∷ p ∷ f ∷ w ∷ x ∷ rest) info h = absurd (cc h)

  model_text-eq-ok : (c : Content F) (t : Text) → model_text c ≡ ok t → c ≡ characters t
  model_text-eq-ok (characters t) u h = ap characters (ok_inj h)
  model_text-eq-ok (value v) u h = absurd (cc h)
  model_text-eq-ok (datetime z) u h = absurd (cc h)
  model_text-eq-ok (lg_resu_periods ps) u h = absurd (cc h)
  model_text-eq-ok (luna2000_periods ps) u h = absurd (cc h)
  model_text-eq-ok (charge_discharge_periods ps) u h = absurd (cc h)
  model_text-eq-ok (peak_setting_periods ps) u h = absurd (cc h)

  -- A bridge that was created holds the values that the device gave for its five registers, one after
  -- another, its class supports the device's model, and what it asked for at first was answered.
  pub create-eq-ok :
      (get_multiple : ℕ → List String → Result (List (Content F)))
      (get : ℕ → String → Result (Content F)) (client_slave_id slave_id : ℕ) (bridge : Bridge F)
      → create get_multiple get client_slave_id slave_id ≡ ok bridge
      → (get_multiple slave_id product_info_names ≡ ok (values_of bridge.product_info))
        × ((model : Text) × (bridge.product_info.model_name ≡ characters model)
            × (supports_device bridge.kind model ≡ true))
        × (populate get_multiple get bridge.kind slave_id ≡ ok bridge.fields)
  unfolding create retrieve_from_device bridge_class
  create-eq-ok get_multiple get c s bridge h =
      let (info, retrieved, h1) = >>=-eq-ok (retrieve_from_device get_multiple get s) _ h in
      let (values, answered, parsed) =
        >>=-eq-ok (get_multiple s product_info_names) product_info retrieved in
      let (kind, chosen, h2) = >>=-eq-ok (model_text info.model_name >>= bridge_class) _ h1 in
      let (model, named, supported) = >>=-eq-ok (model_text info.model_name) bridge_class chosen in
      let (fields, found, h3) = >>=-eq-ok (populate get_multiple get kind s) _ h2 in
      rw (sym (ok_inj h3)) (
        answered ∙ ap ok (product_info-eq-ok values info parsed),
        (
          model,
          model_text-eq-ok info.model_name model named,
          first_supporting-eq-ok (huawei_sun2000_bridge ∷ huawei_emma_bridge ∷ []) model kind
              supported,
        ),
        found,
      )
