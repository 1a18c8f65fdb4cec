-- ===== src/Bridge/Results.antt =====
-- The dicts of src/huawei_solar/bridge.py from register names to results, as association lists.
use Prim.Native.String.{String}
use text.Mathlib.Text.{◌==◌ as str_eq}
use text.Mathlib.TextEquality.{eq_iff}
use huawei_solar_lib.Base.{
  ◌≡◌, refl, true, Option, none, some, List, [], ◌∷◌, if◌then◌else◌, inl, inr, Bool-cases, arith,
}
use huawei_solar_lib.Base.Lists.{length, All}

abbrev pub Dict : Type 0 → Type 0
Dict A = List (String × A)

module _ {A : Type 0} where
  -- `d.get(key)`
  abbrev pub get_item : String → Dict A → Option A
  get_item key [] = none
  get_item key ((k, a) ∷ rest) = if str_eq k key then some a else get_item key rest

  -- `d[key] = a`, in place if the key is there
  abbrev pub set_item : String → A → Dict A → Dict A
  set_item key a [] = (key, a) ∷ []
  set_item key a ((k, b) ∷ rest) =
      let tail = set_item key a rest in if str_eq k key then (k, a) ∷ rest else (k, b) ∷ tail

  -- `d.update(other)`
  abbrev pub update : Dict A → Dict A → Dict A
  update d [] = d
  update d ((k, a) ∷ rest) = update (set_item k a d) rest

  -- `dict(zip(keys, values, strict=False))`, into a dict that is there
  abbrev pub zip_into : Dict A → List String → List A → Dict A
  zip_into d (k ∷ ks) (a ∷ vs) = zip_into (set_item k a d) ks vs
  zip_into d _ _ = d

  -- `key in d`
  abbrev pub Has : Dict A → String → Type 0
  Has d key = (a : A) × (get_item key d ≡ some a)

  set_item-Has-same : (d : Dict A) (key : String) (a : A) → get_item key (set_item key a d) ≡ some a
  set_item-Has-same [] key a = let e : str_eq key key ≡ true = (eq_iff key key).1 refl in rw e refl
  set_item-Has-same ((k, b) ∷ rest) key a = elim (Bool-cases (str_eq k key)) [
    | inl e ↦ rw (e, e) refl
    | inr e ↦ rw (e, e) (set_item-Has-same rest key a)
  ]

  set_item-Has :
      (d : Dict A) (key other : String) (a : A) → Has d other → Has (set_item key a d) other
  set_item-Has [] key other a (b, e) = absurd (cc)
  set_item-Has ((k, b) ∷ rest) key other a (c, found) = elim (Bool-cases (str_eq k other)) [
    | inl is ↦ elim (Bool-cases (str_eq k key)) [
      | inl e ↦ rw e (a, rw is refl)
      | inr e ↦ rw e (b, rw is refl)
    ]
    | inr not_it ↦
        let found' : get_item other rest ≡ some c = rw not_it at found in
        elim (Bool-cases (str_eq k key)) [
          | inl e ↦ rw e (c, rw not_it found')
          | inr e ↦
              let (x, later) = set_item-Has rest key other a (c, found') in
              rw e (x, rw not_it later)
        ]
  ]

  pub update-Has : (d e : Dict A) (key : String) → Has d key → Has (update d e) key
  update-Has d [] key h = h
  update-Has d ((k, a) ∷ rest) key h =
      update-Has (set_item k a d) rest key (set_item-Has d k key a h)

  -- What the second dict has, the update has.
  pub update-Has-new : (d e : Dict A) (key : String) → Has e key → Has (update d e) key
  update-Has-new d [] key (c, found) = absurd (cc)
  update-Has-new d ((k, a) ∷ rest) key (c, found) = elim (Bool-cases (str_eq k key)) [
    | inl e ↦
        let same : k ≡ key = (eq_iff k key).0 e in
        update-Has (set_item k a d) rest key (a, rw (← same) (set_item-Has-same d k a))
    | inr e ↦
        let found' : get_item key rest ≡ some c = rw e at found in
        update-Has-new (set_item k a d) rest key (c, found')
  ]

  zip_into-Has :
      (d : Dict A) (ks : List String) (vs : List A) (key : String)
      → Has d key
      → Has (zip_into d ks vs) key
  zip_into-Has d [] vs key h = h
  zip_into-Has d (k ∷ ks) [] key h = h
  zip_into-Has d (k ∷ ks) (a ∷ vs) key h =
      zip_into-Has (set_item k a d) ks vs key (set_item-Has d k key a h)

  -- Keys zipped with as many values are all there.
  pub zip_into-All :
      (d : Dict A) (ks : List String) (vs : List A)
      → length vs ≡ length ks
      → All (Has (zip_into d ks vs)) ks
  zip_into-All d [] vs h = tt
  zip_into-All d (k ∷ ks) [] h = absurd (omega arith)
  zip_into-All d (k ∷ ks) (a ∷ vs) h = (
    zip_into-Has (set_item k a d) ks vs k (a, set_item-Has-same d k a),
    zip_into-All (set_item k a d) ks vs (omega arith),
  )

  -- `for key, value in d.items(): d[key] = f(key, value)`
  abbrev pub transform_items : (String → A → A) → Dict A → Dict A
  transform_items f [] = []
  transform_items f ((k, a) ∷ rest) = (k, f k a) ∷ transform_items f rest

  pub transform_items-Has :
      (f : String → A → A) (d : Dict A) (key : String) → Has d key → Has (transform_items f d) key
  transform_items-Has f [] key h = h
  transform_items-Has f ((k, a) ∷ rest) key (c, found) = elim (Bool-cases (str_eq k key)) [
    | inl e ↦ (f k a, rw e refl)
    | inr e ↦
        let found' : get_item key rest ≡ some c = rw e at found in
        let (x, later) = transform_items-Has f rest key (c, found') in (x, rw e later)
  ]
