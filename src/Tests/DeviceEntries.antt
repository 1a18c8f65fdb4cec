-- ===== src/Tests/DeviceEntries.antt =====
-- The entry of a device, with the number 12 behind a blank.
use huawei_solar_lib.Base.{◌≡◌, refl, some, [], ◌∷◌}
use huawei_solar_lib.Base.Int.{pos}
use huawei_solar_lib.Exceptions.{ok}
use huawei_solar_lib.Client.DeviceInfos.{parse_device_entry}
use huawei_solar_lib.Client.DeviceInfos.Laws.{joined, parse_device_entry-joined}

parse_device_entry-joined_example :
    parse_device_entry (
      joined
        (1, 83 ∷ 85 ∷ [])
        ((2, 86 ∷ [])
          ∷ (3, [])
          ∷ (4, 72 ∷ 86 ∷ [])
          ∷ (5, 32 ∷ 49 ∷ 50 ∷ [])
          ∷ (6, [])
          ∷ (7, [])
          ∷ (8, 80 ∷ [])
          ∷ []))
    ≡ ok record {
      model = some (83 ∷ 85 ∷ []);
      software_version = some (86 ∷ []);
      interface_protocol_version = some [];
      esn = some (72 ∷ 86 ∷ []);
      device_id = some (pos 12);
      feature_version = some [];
      unknown_field = some [];
      product_type = some (80 ∷ []);
    }
unfolding huawei_solar_lib.Base.Texts.int_of
parse_device_entry-joined_example =
    parse_device_entry-joined (83 ∷ 85 ∷ []) (86 ∷ []) [] (72 ∷ 86 ∷ []) (32 ∷ 49 ∷ 50 ∷ []) [] []
      (80 ∷ [])
      (
        (((refl, (refl, tt)), (refl, (refl, tt)))),
        (
          ((refl, tt), (refl, tt)),
          (
            (tt, tt),
            (
              ((refl, (refl, tt)), (refl, (refl, tt))),
              (
                ((refl, (refl, (refl, tt))), (refl, (refl, (refl, tt)))),
                ((tt, tt), ((tt, tt), (((refl, tt), (refl, tt)), tt))),
              ),
            ),
          ),
        ),
      )
