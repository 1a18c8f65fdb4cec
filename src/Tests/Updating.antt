-- ===== src/Tests/Updating.antt =====
-- Tests of `batch_update`.
use Prim.Native.String.{String}
use huawei_solar_lib.Base.{
  ℕ, ◌≡◌, refl, sym, ap, ◌∙◌, Bool, true, false, not, none, ◌⊎◌, List, [], ◌∷◌, map, arith,
}
use huawei_solar_lib.Base.Int.{ℤ, pos}
use huawei_solar_lib.Base.Lists.{length, All}
use huawei_solar_lib.Base.Sort.{sort_by}
use huawei_solar_lib.Exceptions.{ok, err, read_exception, is_huawei_solar_exception}
use huawei_solar_lib.Payload.Emit.{concat}
use huawei_solar_lib.Payload.Slots.{length-map}
use huawei_solar_lib.Registers.Number.{absent, int}
use huawei_solar_lib.Registers.Codec.{Content, value}
use huawei_solar_lib.Registers.Table.{find, registers}
use huawei_solar_lib.Registers.Table.MeterRegisters.{meter_registers}
use huawei_solar_lib.Client.GetMultiple.{Reading}
use huawei_solar_lib.Bridge.Batches.{Named, named_all, look_up, sorted, batches, extend, fits_batch}
use huawei_solar_lib.Bridge.Batches.Laws.{concat-batches, batches-AreSeparate, IsBatch, AreSeparate}
use huawei_solar_lib.Bridge.Results.{Has}
use huawei_solar_lib.Bridge.Update.{
  Sun2000, Client, ◌>>=◌, pure, truth, meter_status, is_meter, filter_registers, check_online,
  online, set_online, get, get_multiple, query, caught, note_status, detect_state_changes,
  update_batch, update_batches, batch_update,
}
use huawei_solar_lib.Bridge.Update.Status.{update_batch-status}
use huawei_solar_lib.Bridge.Update.Laws.{
  filter_registers-same, batch_update-All, update_batch-fails,
}

abbrev spread : List Named
spread =
    record { name = "a"; register_start = 100; register_end = 101 }
    ∷ record { name = "b"; register_start = 110; register_end = 110 }
    ∷ record { name = "c"; register_start = 200; register_end = 201 }
    ∷ []

concat-batches_example : concat (batches 3 spread) ≡ spread
concat-batches_example = concat-batches 3 spread (omega arith)

batches-AreSeparate_example : All IsBatch (batches 3 spread) × AreSeparate (batches 3 spread)
batches-AreSeparate_example = batches-AreSeparate 3 spread

-- Every register is 1.
abbrev one : Reading ℤ
one = record { value = value (int (pos 1)); unit = none }

abbrev client : Client ℤ
client i names = ok (map (λ _. one) names)

client_counts :
    (i : ℕ) (names : List String) (rs : List (Reading ℤ))
    → client i names ≡ ok rs
    → length rs ≡ length names
client_counts i names rs h =
    let same : map (λ _. one) names ≡ rs = cc in ap length (sym same) ∙ length-map (λ _. one) names

abbrev same_value : Content ℤ → Content ℤ → Bool
same_value _ _ = true

abbrev bridge : Sun2000 ℤ
bridge = record { power_meter_online = false; previous_device_status = value absent; requests = 0 }

abbrev asked : List String
asked = "meter_status" ∷ "grid_A_voltage" ∷ []

filter_registers-same_example : asked ≡ asked
unfolding filter_registers check_online online set_online get get_multiple is_meter find
    meter_registers
filter_registers-same_example =
    filter_registers-same client asked asked bridge
      (record { power_meter_online = true; previous_device_status = value absent; requests = 1 })
      refl

batch_update-All_example : All (Has (("meter_status", one) ∷ ("grid_A_voltage", one) ∷ [])) asked
unfolding batch_update named_all look_up find registers sorted sort_by batches extend fits_batch
    update_batches update_batch filter_registers check_online online set_online get get_multiple
    is_meter meter_registers query caught detect_state_changes note_status
batch_update-All_example =
    batch_update-All client same_value client_counts (λ name r. r) asked
      (("meter_status", one) ∷ ("grid_A_voltage", one) ∷ []) bridge
      (record { power_meter_online = true; previous_device_status = value absent; requests = 2 })
      refl

abbrev silent : Client ℤ
silent i names = err (read_exception none)

abbrev meter_batch : List Named
meter_batch = record { name = "grid_A_voltage"; register_start = 37101; register_end = 37102 } ∷ []

abbrev online_bridge : Sun2000 ℤ
online_bridge = record {
  power_meter_online = true;
  previous_device_status = value absent;
  requests = 0;
}

update_batch-fails_example :
    ((update_batch silent same_value meter_batch online_bridge).0 ≡ err (read_exception none))
    × ((update_batch silent same_value meter_batch online_bridge).1.power_meter_online
        ≡ not (is_huawei_solar_exception (read_exception none)))
unfolding is_meter find meter_registers
update_batch-fails_example =
    update_batch-fails silent same_value meter_batch online_bridge (read_exception none) refl refl
      refl

abbrev other_value : Content ℤ → Content ℤ → Bool
other_value _ _ = false

abbrev status_batch : List Named
status_batch = record { name = "device_status"; register_start = 32089; register_end = 32089 } ∷ []

abbrev after_status : Sun2000 ℤ
after_status = record {
  power_meter_online = false;
  previous_device_status = value (int (pos 1));
  requests = 1;
}

update_batch-status_example :
    (after_status.previous_device_status ≡ one.value)
    × ((other_value online_bridge.previous_device_status one.value ≡ true)
        ⊎ ((after_status.power_meter_online ≡ false)
            × (filter_registers client ("grid_A_voltage" ∷ []) after_status
                ≡ (get client meter_status >>= λ v.
                      set_online (truth v) >>= λ _. pure ("grid_A_voltage" ∷ []))
                    after_status)))
unfolding update_batch filter_registers is_meter find meter_registers query get_multiple caught
    detect_state_changes note_status
update_batch-status_example =
    update_batch-status client other_value status_batch online_bridge after_status
      (("device_status", one) ∷ []) one ("grid_A_voltage" ∷ []) refl refl refl
