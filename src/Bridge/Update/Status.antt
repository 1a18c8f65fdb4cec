-- ===== src/Bridge/Update/Status.antt =====
-- How `batch_update` follows the status of the device.
use Prim.Native.String.{String}
use huawei_solar_lib.Base.{
  ◌≡◌, refl, sym, ap, ◌∙◌, Bool, true, false, some, List, [], ◌∷◌, map, if◌then◌else◌, ◌⊎◌, inl,
  inr, Bool-cases,
}
use huawei_solar_lib.Exceptions.{Result, ok, err}
use huawei_solar_lib.Registers.Codec.{Content}
use huawei_solar_lib.Client.GetMultiple.{Reading}
use huawei_solar_lib.Bridge.Batches.{Named}
use huawei_solar_lib.Bridge.Results.{Dict, get_item}
use huawei_solar_lib.Bridge.Update.{
  Sun2000, Action, proceed, ◌>>=◌, pure, lift, Client, has_meter, meter_status, device_status,
  without_meter, online, set_online, truth, first, get, get_multiple, check_online,
  filter_registers, caught, query, note_status, detect_state_changes, update_batch,
}
use huawei_solar_lib.Bridge.Update.Laws.{bind-eq-ok, result_inj, without_meter-same}

abbrev status_of : {F : Type 0} → Sun2000 F → Content F
status_of s = s.previous_device_status

module _ {F : Type 0} (client : Client F) (eq_value : Content F → Content F → Bool) where
  get-status :
      (name : String) (v : Content F) (s s' : Sun2000 F)
      → get client name s ≡ (ok v, s')
      → s'.previous_device_status ≡ s.previous_device_status
  unfolding get get_multiple
  get-status name v s s' h =
      let (rs, mid, e1, h1) =
        bind-eq-ok (get_multiple client (name ∷ [])) (λ rs. lift (first rs)) s s' v h in
      sym (ap status_of (ap (λ p. p.1) e1 ∙ ap (λ p. p.1) h1))

  check_online-status :
      (b : Bool) (u : Unit {0}) (s s' : Sun2000 F)
      → check_online client b s ≡ (ok u, s')
      → s'.previous_device_status ≡ s.previous_device_status
  unfolding check_online set_online
  check_online-status true u s s' h = sym (ap (λ p. status_of p.1) h)
  check_online-status false u s s' h =
      let (v, mid, e1, h1) =
        bind-eq-ok (get client meter_status) (λ v. set_online (truth v)) s s' u h in
      sym (ap (λ p. status_of p.1) h1) ∙ get-status meter_status v s mid e1

  filter_registers-status :
      (names found : List String) (s s' : Sun2000 F)
      → filter_registers client names s ≡ (ok found, s')
      → s'.previous_device_status ≡ s.previous_device_status
  unfolding filter_registers online
  filter_registers-status names found s s' =
      elim (has_meter names)
        as (λ b.
          (if b
                then (online >>= λ was. check_online client was >>= λ _.
                    online >>= λ is. pure (without_meter client is names))
                else pure names)
              s
            ≡ (ok found, s')
          → s'.previous_device_status ≡ s.previous_device_status) [
            | false ↦ λ h. sym (ap (λ p. status_of p.1) h)
            | true ↦ λ h.
                let status : Unit {0} → Action F (List String) =
                  λ _. online >>= λ is. pure (without_meter client is names) in
                let (u, mid, e1, h') =
                  bind-eq-ok (check_online client s.power_meter_online) status s s' found h in
                sym (ap (λ p. status_of p.1) h')
                ∙ check_online-status s.power_meter_online u s mid e1
          ]

  caught-status :
      (names : List String) (p : Result (List (Reading F)) × Sun2000 F) (d : Dict (Reading F))
      (s' : Sun2000 F)
      → caught client names p ≡ (ok d, s')
      → s'.previous_device_status ≡ p.1.previous_device_status
  unfolding caught
  caught-status names (ok rs, s) d s' h = sym (ap (λ p. status_of p.1) h)
  caught-status names (err e, s) d s' h = absurd (cc h)

  noted :
      (values : Dict (Reading F)) (new : Reading F) (s : Sun2000 F)
      → get_item device_status values ≡ some new
      → detect_state_changes client eq_value values s ≡ (
        ok tt,
        record s {
          power_meter_online =
              if eq_value s.previous_device_status new.value then s.power_meter_online else false;
          previous_device_status = new.value;
        },
      )
  unfolding detect_state_changes note_status
  noted values new s e = rw e refl

  remembered :
      (batch : List Named) (s s' : Sun2000 F) (d : Dict (Reading F)) (new : Reading F)
      → update_batch client eq_value batch s ≡ (ok d, s')
      → get_item device_status d ≡ some new
      → (s'.previous_device_status ≡ new.value)
        × (eq_value s.previous_device_status new.value ≡ false → s'.power_meter_online ≡ false)
  unfolding update_batch query get_multiple
  remembered batch s s' d new h status =
      let asked = map (λ (r : Named). r.name) batch in
      let (names, s1, e1, h1) = bind-eq-ok (filter_registers client asked) _ s s' d h in
      let (values, s2, e2, h2) = bind-eq-ok (query client names) _ s1 s' d h1 in
      let (_, s3, e3, h3) = bind-eq-ok (detect_state_changes client eq_value values) _ s2 s' d h2 in
      let known : get_item device_status values ≡ some new =
        ap (get_item device_status) (result_inj h3) ∙ status in
      let end : record s2 {
        power_meter_online =
            if eq_value s2.previous_device_status new.value then s2.power_meter_online else false;
        previous_device_status = new.value;
      }
          ≡ s' =
        ap (λ p. p.1) (sym (noted values new s2 known) ∙ e3) ∙ ap (λ p. p.1) h3 in
      let before : s2.previous_device_status ≡ s.previous_device_status =
        caught-status names _ values s2 e2 ∙ filter_registers-status asked names s s1 e1 in
      (
        sym (ap status_of end),
        λ differs.
            sym (ap (λ (x : Sun2000 F). x.power_meter_online) end) ∙ rw (before, differs) refl,
      )

  asked_first :
      (names : List String) (p : Result (Content F) × Sun2000 F)
      → proceed
          (proceed p (λ v. set_online (truth v)))
          (λ _. online >>= λ is. pure (without_meter client is names))
        ≡ proceed p (λ v. set_online (truth v) >>= λ _. pure names)
  unfolding set_online online
  asked_first names (ok v, s) =
      ap (λ ns. (ok ns, record s { power_meter_online = truth v }))
        (without_meter-same client (truth v) names)
  asked_first names (err e, s) = refl

  filter_registers-offline :
      (names : List String) (s : Sun2000 F)
      → has_meter names ≡ true
      → s.power_meter_online ≡ false
      → filter_registers client names s
        ≡ (get client meter_status >>= λ v. set_online (truth v) >>= λ _. pure names) s
  unfolding filter_registers online check_online
  filter_registers-offline names s meter offline =
      let rest : Unit {0} → Action F (List String) =
        λ _. online >>= λ is. pure (without_meter client is names) in
      rw meter (
        ap (λ b. proceed (check_online client b s) rest) offline
        ∙ asked_first names (get client meter_status s))

  -- When a batch that has the device status was read, the status is remembered. Where it is not equal
  -- to the one remembered before, the power meter is marked offline, and the filter for any names with
  -- one of its registers first asks for the power meter's own status and marks it accordingly.
  pub update_batch-status :
      (batch : List Named) (s s' : Sun2000 F) (d : Dict (Reading F)) (new : Reading F)
      (names : List String)
      → update_batch client eq_value batch s ≡ (ok d, s')
      → get_item device_status d ≡ some new
      → has_meter names ≡ true
      → (s'.previous_device_status ≡ new.value)
        × ((eq_value s.previous_device_status new.value ≡ true)
            ⊎ ((s'.power_meter_online ≡ false)
                × (filter_registers client names s'
                    ≡ (get client meter_status >>= λ v. set_online (truth v) >>= λ _. pure names)
                        s')))
  update_batch-status batch s s' d new names h status meter =
      let (same, marked) = remembered batch s s' d new h status in
      (
        same,
        elim (Bool-cases (eq_value s.previous_device_status new.value)) [
          | inl equal ↦ inl equal
          | inr differs ↦
              inr (marked differs, filter_registers-offline names s' meter (marked differs))
        ],
      )
