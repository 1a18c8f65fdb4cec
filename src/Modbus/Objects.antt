-- ===== src/Modbus/Objects.antt =====
-- The loop of `ReadDeviceIdentifierResponse.decode` of src/huawei_solar/modbus.py.
use huawei_solar_lib.Base.{
  ℕ, zero, suc, ◌+◌, ◌<◌, ◌≤◌, ◌≡◌, refl, sym, ap, ◌∙◌, inl, inr, some, [], ◌∷◌, ◌++◌, ltb, lt→ltb,
  ltb→lt, Bool-cases, arith,
}
use huawei_solar_lib.Base.Lists.{
  length, take, drop, length-drop, drop-drop, drop-append, take-append,
}
use huawei_solar_lib.Base.Dicts.{Dict, set_item, update}
use huawei_solar_lib.Exceptions.{Result, ok}
use huawei_solar_lib.Exceptions.Running.{
  Running, Ends, continue_with, and_then, continue_with-Ends, and_then-Ends,
}
use huawei_solar_lib.Payload.{Bytes}
use huawei_solar_lib.Struct.{big, unpack_from, Values, nonzero}
use huawei_solar_lib.Modbus.DeviceIdentifier.{
  ReadDeviceIdentifierResponse, response_format, object_format, object, read_objects, with_objects,
  decode_response,
}

-- The loop ends within as many rounds as there are bytes behind the offset.
read_objects-Ends :
    (rounds : ℕ) (received : Bytes) (objects : Dict Bytes) (offset : ℕ)
    → length received ≤ offset + rounds
    → Ends (read_objects rounds received objects offset)
unfolding read_objects
read_objects-Ends zero received objects offset h =
    elim (Bool-cases (ltb offset (length received))) [
      | inl e ↦ absurd (omega (arith, ltb→lt offset (length received) e))
      | inr e ↦ (ok objects, rw e)
    ]
read_objects-Ends (suc rounds) received objects offset h =
    elim (Bool-cases (ltb offset (length received))) [
      | inr e ↦ (ok objects, rw e)
      | inl e ↦ rw e (
          continue_with-Ends (unpack_from big object_format received offset) _ (λ v found.
            let (id, bs, behind) = object received offset v in
            read_objects-Ends rounds received (set_item id bs objects) behind (omega (arith, h))))
    ]

-- `decode` returns or raises, whatever the inverter sends.
pub decode_response-Ends : (received : Bytes) → Ends (decode_response received)
unfolding decode_response
decode_response-Ends received =
    continue_with-Ends (unpack_from big response_format received 0) _ (λ header found.
      and_then-Ends (read_objects (length received) received [] 6) _
        (read_objects-Ends (length received) received [] 6 (omega arith))
        (λ objects e. (ok (with_objects header objects), refl)))

-- An object as the inverter sends it: its identifier, its length and what it holds.
abbrev pub sent : Dict Bytes → Bytes
sent [] = []
sent ((id, bs) ∷ objects) = id ∷ length bs ∷ (bs ++ sent objects)

zero_add : (n : ℕ) → 0 + n ≡ n
zero_add n = omega arith

object-sent :
    (received : Bytes) (offset id : ℕ) (bs rest : Bytes)
    → drop offset received ≡ id ∷ length bs ∷ (bs ++ rest)
    → (unpack_from big object_format received offset ≡ ok (id, (length bs, tt)))
      × (take (length bs) (drop (offset + 2) received) ≡ bs)
      × (drop (offset + 2 + length bs) received ≡ rest)
      × (offset < length received)
unfolding unpack_from
object-sent received offset id bs rest h =
    let behind : drop (offset + 2) received ≡ bs ++ rest =
      sym (drop-drop offset 2 (offset + 2) received refl) ∙ ap (drop 2) h in
    let two : ◌≡◌ {A = Result (Values object_format)} (ok (0 + id, (0 + length bs, tt)))
        (ok (id, (length bs, tt))) =
      rw (zero_add id, zero_add (length bs)) refl in
    (
      rw h two,
      rw behind (take-append bs rest),
      sym (drop-drop (offset + 2) (length bs) (offset + 2 + length bs) received refl)
          ∙ ap (drop (length bs)) behind
          ∙ drop-append bs rest,
      omega (arith, length-drop offset received, ap length h),
    )

read_objects-done :
    (rounds : ℕ) (received : Bytes) (before : Dict Bytes) (offset : ℕ)
    → length received ≤ offset
    → read_objects rounds received before offset ≡ some (ok before)
unfolding read_objects
read_objects-done zero received before offset h = ground arith
read_objects-done (suc rounds) received before offset h =
    elim (Bool-cases (ltb offset (length received))) [
      | inl e ↦ absurd (omega (arith, ltb→lt offset (length received) e))
      | inr e ↦ rw e
    ]

header-sent :
    (a b c d e f : ℕ) (rest : Bytes)
    → unpack_from big response_format (a ∷ b ∷ c ∷ d ∷ e ∷ f ∷ rest) 0
      ≡ ok (a, (b, (c, (d, (e, (f, tt))))))
unfolding unpack_from
header-sent a b c d e f rest =
    let six : ◌≡◌ {A = Result (Values response_format)}
        (ok (0 + a, (0 + b, (0 + c, (0 + d, (0 + e, (0 + f, tt)))))))
        (ok (a, (b, (c, (d, (e, (f, tt))))))) =
      rw (zero_add a, zero_add b, zero_add c, zero_add d, zero_add e, zero_add f) refl in
    six

read_objects-sent :
    (objects : Dict Bytes) (rounds : ℕ) (received : Bytes) (before : Dict Bytes) (offset : ℕ)
    → drop offset received ≡ sent objects
    → length received ≤ offset + rounds
    → read_objects rounds received before offset ≡ some (ok (update before objects))
unfolding read_objects
read_objects-sent [] zero received before offset h k =
    read_objects-done zero received before offset (omega (arith, k))
read_objects-sent [] (suc rounds) received before offset h k =
    read_objects-done (suc rounds) received before offset
      (omega (arith, length-drop offset received, ap length h))
read_objects-sent ((id, bs) ∷ objects) zero received before offset h k =
    absurd (omega (arith, (object-sent received offset id bs (sent objects) h).3))
read_objects-sent ((id, bs) ∷ objects) (suc rounds) received before offset h k =
    let (unpacks, found, rest, inside) = object-sent received offset id bs (sent objects) h in
    rw (lt→ltb offset (length received) inside, unpacks, found)
      (read_objects-sent objects rounds received (set_item id bs before) (offset + 2 + length bs)
        rest (omega (arith, k)))

abbrev rest : Bytes → Values response_format → Running ReadDeviceIdentifierResponse
rest received header =
    and_then (read_objects (length received) received [] 6)
      (λ objects. some (ok (with_objects header objects)))

-- A response with any objects is decoded to the dict of these objects, in which a later object
-- replaces one with the same identifier, and to the fields in front of them. The number of the
-- objects is not looked at.
pub decode_response-sent :
    (device_id_code consistency_level more next_object_id count : ℕ) (objects : Dict Bytes)
    → decode_response
        (14 ∷ device_id_code ∷ consistency_level ∷ more ∷ next_object_id ∷ count ∷ sent objects)
      ≡ some (
          ok record {
            device_id_code = device_id_code;
            consistency_level = consistency_level;
            more = nonzero more;
            next_object_id = next_object_id;
            objects = update [] objects;
          })
unfolding decode_response
decode_response-sent d c m n k objects =
    let received : Bytes = 14 ∷ d ∷ c ∷ m ∷ n ∷ k ∷ sent objects in
    let header = header-sent 14 d c m n k (sent objects) in
    let all = read_objects-sent objects (length received) received [] 6 refl (omega arith) in
    ap (λ found. continue_with found (rest received)) header
    ∙ ap
        (λ found.
          and_then found
            (λ objects. some (ok (with_objects (14, (d, (c, (m, (n, (k, tt)))))) objects))))
        all
