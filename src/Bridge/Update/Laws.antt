-- ===== src/Bridge/Update/Laws.antt =====
-- What `batch_update` returns, and when the power meter is taken to be offline.
use Prim.Native.String.{String}
use text.Mathlib.Text.{◌==◌ as str_eq}
use huawei_solar_lib.Base.{
  ℕ, ◌≡◌, refl, sym, ap, ◌∙◌, Bool, true, false, not, ◌||◌, inl, inr, Option, none, some, List, [],
  ◌∷◌, map, arith, Bool-cases, if◌then◌else◌,
}
use huawei_solar_lib.Base.Int.{pos}
use huawei_solar_lib.Base.Lists.{length, All, All-map, All-append, filter_by-of_All}
use huawei_solar_lib.Base.Sort.{sort_by-All}
use huawei_solar_lib.Exceptions.{
  Error, Result, ok, err, is_huawei_solar_exception, Result-cases, >>=-eq-ok,
}
use huawei_solar_lib.Exceptions
use huawei_solar_lib.Payload.Emit.{concat}
use huawei_solar_lib.Registers.Definition.{Register}
use huawei_solar_lib.Registers.Codec.{Content}
use huawei_solar_lib.Registers.Table.{find, registers}
use huawei_solar_lib.Client.GetMultiple.{Reading}
use huawei_solar_lib.Bridge.Batches.{Named, named, look_up, named_all, sorted, batches}
use huawei_solar_lib.Bridge.Batches.Laws.{concat-batches}
use huawei_solar_lib.Bridge.Results.{
  Dict, Has, update, zip_into, transform_items, zip_into-All, update-Has, update-Has-new,
  transform_items-Has,
}
use huawei_solar_lib.Bridge.Update.{
  Sun2000, Action, proceed, ◌>>=◌, caught, pure, lift, Client, has_meter, meter_status,
  without_meter, online, check_online, filter_registers, query, get_multiple,
  handle_batch_read_error, detect_state_changes, update_batch, update_batches, batch_update,
}

module _ {F A B : Type 0} where
  proceed-eq-ok :
      (p : Result A × Sun2000 F) (f : A → Action F B) (s' : Sun2000 F) (b : B)
      → proceed p f ≡ (ok b, s')
      → (a : A) × (mid : Sun2000 F) × (p ≡ (ok a, mid)) × (f a mid ≡ (ok b, s'))
  proceed-eq-ok (ok a, mid) f s' b h = (a, mid, refl, h)
  proceed-eq-ok (err e, mid) f s' b h = absurd (cc h)

  -- A sequence that returns went through its first part.
  pub bind-eq-ok :
      (m : Action F A) (f : A → Action F B) (s s' : Sun2000 F) (b : B)
      → (m >>= f) s ≡ (ok b, s')
      → (a : A) × (mid : Sun2000 F) × (m s ≡ (ok a, mid)) × (f a mid ≡ (ok b, s'))
  bind-eq-ok m f s s' b h = proceed-eq-ok (m s) f s' b h

pub result_inj :
    {F A : Type 0} {a b : A} {s t : Sun2000 F}
    → ◌≡◌ {A = Result A × Sun2000 F} (ok a, s) (ok b, t)
    → a ≡ b
result_inj h = cc

ok_inj : {A : Type 0} {a b : A} → ok a ≡ ok b → a ≡ b
ok_inj h = cc

or-true : (b : Bool) → (b || true) ≡ true
or-true true = refl
or-true false = refl

look_up-name :
    (name : String) (o : Option Register) (r : Named) → look_up name o ≡ ok r → r.name ≡ name
unfolding look_up
look_up-name name none r h = absurd (cc h)
look_up-name name (some reg) r h =
    let same : named name reg ≡ r = ok_inj h in ap (λ (q : Named). q.name) (sym same)

-- The filter for an offline power meter keeps every name.
pub without_meter-same :
    {F : Type 0} (client : Client F) (b : Bool) (names : List String)
    → without_meter client b names ≡ names
without_meter-same client true names = refl
without_meter-same client false names =
    filter_by-of_All (λ regname. str_eq regname meter_status || true) names (each names)
  where
    each : (xs : List String) → All (λ x. (str_eq x meter_status || true) ≡ true) xs
    each [] = tt
    each (x ∷ xs) = (or-true (str_eq x meter_status), each xs)

module _ {F : Type 0} (client : Client F) where
  -- `_filter_registers` returns the very names that it is given, whatever the power meter's status
  -- is: it removes no register.
  pub filter_registers-same :
      (names found : List String) (s s' : Sun2000 F)
      → filter_registers client names s ≡ (ok found, s')
      → found ≡ names
  unfolding filter_registers
  filter_registers-same names found s s' =
      elim (has_meter names)
        as (λ b.
          (if b
                then (online >>= λ was. check_online client was >>= λ _.
                    online >>= λ is. pure (without_meter client is names))
                else pure names)
              s
            ≡ (ok found, s')
          → found ≡ names) [
            | false ↦ λ h. cc
            | true ↦ λ h.
                let status : Unit {0} → Action F (List String) =
                  λ _. online >>= λ is. pure (without_meter client is names) in
                let (_, mid, _, h') =
                  bind-eq-ok (check_online client s.power_meter_online) status s s' found h in
                sym (result_inj h') ∙ without_meter-same client mid.power_meter_online names
          ]

  caught-All :
      (names : List String) (p : Result (List (Reading F)) × Sun2000 F) (d : Dict (Reading F))
      (s' : Sun2000 F)
      → ((rs : List (Reading F)) → p.0 ≡ ok rs → length rs ≡ length names)
      → caught client names p ≡ (ok d, s')
      → All (Has d) names
  unfolding caught
  caught-All names (ok rs, s) d s' counts h =
      let same : zip_into [] names rs ≡ d = result_inj h in
      rw (← same) (zip_into-All [] names rs (counts rs refl))
  caught-All names (err e, s) d s' counts h = absurd (cc h)

module _ {F : Type 0} (client : Client F) (eq_value : Content F → Content F → Bool)
    (answers : (i : ℕ) (names : List String) (rs : List (Reading F))
      → client i names ≡ ok rs
      → length rs ≡ length names) where
  update_batch-All :
      (batch : List Named) (d : Dict (Reading F)) (s s' : Sun2000 F)
      → update_batch client eq_value batch s ≡ (ok d, s')
      → All (Has d) (map (λ (r : Named). r.name) batch)
  unfolding update_batch query get_multiple
  update_batch-All batch d s s' h =
      let asked = map (λ (r : Named). r.name) batch in
      let (names, s1, e1, h1) = bind-eq-ok (filter_registers client asked) _ s s' d h in
      let (values, s2, e2, h2) = bind-eq-ok (query client names) _ s1 s' d h1 in
      let (_, s3, _, h3) = bind-eq-ok (detect_state_changes client eq_value values) _ s2 s' d h2 in
      rw (← result_inj h3, ← filter_registers-same client asked names s s1 e1)
        (caught-All client names _ values s2 (answers s1.requests names) e2)

  update_batches-All :
      (result : Dict (Reading F)) (bs : List (List Named)) (d : Dict (Reading F)) (s s' : Sun2000 F)
      → update_batches client eq_value result bs s ≡ (ok d, s')
      → ((key : String) → Has result key → Has d key)
        × All (λ (r : Named). Has d r.name) (concat bs)
  unfolding update_batches
  update_batches-All result [] d s s' h =
      let same : result ≡ d = result_inj h in rw (← same) ((λ key k. k), tt)
  update_batches-All result (batch ∷ rest) d s s' h =
      let (values, s1, e1, h1) = bind-eq-ok (update_batch client eq_value batch) _ s s' d h in
      let (older, others) = update_batches-All (update result values) rest d s1 s' h1 in
      let asked = map (λ (r : Named). r.name) batch in
      (
        λ key k. older key (update-Has result values key k),
        All-append (λ (r : Named). Has d r.name) batch (concat rest)
            (of_names batch (
              All-map (Has values) (Has d) (λ key k. older key (update-Has-new result values key k))
                asked (update_batch-All batch values s s1 e1)))
            others,
      )
    where
      of_names :
          (rs : List Named)
          → All (Has d) (map (λ (r : Named). r.name) rs)
          → All (λ (r : Named). Has d r.name) rs
      of_names [] k = tt
      of_names (r ∷ rs) k = (k.0, of_names rs k.1)

  named_all-All :
      (P : String → Type 0) (names : List String) (rs : List Named)
      → named_all names ≡ ok rs
      → All (λ (r : Named). P r.name) rs
      → All P names
  unfolding named_all
  named_all-All P [] rs h k = tt
  named_all-All P (name ∷ names) rs h k =
      let (r, e, h1) = Exceptions.>>=-eq-ok (look_up name (find name registers)) _ h in
      let (others, e1, h2) = Exceptions.>>=-eq-ok (named_all names) _ h1 in
      let same : r ∷ others ≡ rs = ok_inj h2 in
      let all : All (λ (r : Named). P r.name) (r ∷ others) = rw (← same) at k in
      (rw (← look_up-name name _ r e) all.0, named_all-All P names others e1 all.1)

  -- A dict that `batch_update` returns has a result for every register name that was passed to it,
  -- where the client answers with as many results as names, whatever the device answers otherwise.
  pub batch_update-All :
      (transform : String → Reading F → Reading F) (names : List String) (d : Dict (Reading F))
      (s s' : Sun2000 F)
      → batch_update client eq_value transform names s ≡ (ok d, s')
      → All (Has d) names
  unfolding batch_update sorted
  batch_update-All transform names d s s' h =
      let (rs, s1, e1, h1) = bind-eq-ok (lift (named_all names)) _ s s' d h in
      let found : named_all names ≡ ok rs = ap (λ (p : Result (List Named) × Sun2000 F). p.0) e1 in
      let (result, s2, e2, h2) =
        bind-eq-ok (update_batches client eq_value [] (batches (length (sorted rs)) (sorted rs))) _
          s1 s' d h1 in
      let whole = concat-batches (length (sorted rs)) (sorted rs) (omega arith) in
      let each : All (λ (r : Named). Has result r.name)
          (concat (batches (length (sorted rs)) (sorted rs))) =
        (update_batches-All [] (batches (length (sorted rs)) (sorted rs)) result s1 s2 e2).1 in
      let read : All (λ (r : Named). Has result r.name) (sorted rs) = rw whole at each in
      let asked : All (Has result) names = named_all-All (Has result) names rs found (
        sort_by-All (λ (r : Named). pos r.register_start) (λ (r : Named). Has result r.name) rs
          read) in
      let same : transform_items transform result ≡ d = result_inj h2 in
      rw (← same) (
        All-map (Has result) (Has (transform_items transform result))
          (λ key k. transform_items-Has transform result key k) names asked)

module _ {F : Type 0} (client : Client F) (eq_value : Content F → Content F → Bool) where
  -- When the power meter is marked online and a batch with one of its registers can not be read, and
  -- the error is one of the library's own, the error is raised again and the power meter is marked
  -- offline. Another error is raised as well, and leaves the mark.
  pub update_batch-fails :
      (batch : List Named) (s : Sun2000 F) (e : Error)
      → s.power_meter_online ≡ true
      → has_meter (map (λ (r : Named). r.name) batch) ≡ true
      → client s.requests (map (λ (r : Named). r.name) batch) ≡ err e
      → ((update_batch client eq_value batch s).0 ≡ err e)
        × ((update_batch client eq_value batch s).1.power_meter_online
            ≡ not (is_huawei_solar_exception e))
  unfolding update_batch filter_registers check_online online query get_multiple caught
      handle_batch_read_error
  update_batch-fails batch s e on meter fails =
      rw (meter, on, fails)
        (
          refl,
          elim (Bool-cases (is_huawei_solar_exception e)) [
            | inl known ↦ rw (known, meter) refl
            | inr other ↦ rw (other) refl
          ],
        )
