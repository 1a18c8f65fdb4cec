-- ===== src/Client/GetMultiple/Decode.antt =====
-- What `get_multiple` decodes.
use Prim.Native.String.{String}
use huawei_solar_lib.Base.{
  ℕ, suc, ◌-◌, ◌*◌, ◌≤◌, ◌≡◌, refl, sym, ap, ◌∙◌, true, inl, inr, List, [], ◌∷◌, arith,
}
use huawei_solar_lib.Base.Floats.{Floats}
use huawei_solar_lib.Base.Lists.{
  length, take, drop, All, take-drop, drop-drop, length-take, length-drop,
}
use huawei_solar_lib.Exceptions.{Result, ok, err, ◌>>=◌, Result-cases, >>=-eq-ok}
use huawei_solar_lib.Payload.{Payload, IsPayload, Bytes}
use huawei_solar_lib.Payload.Emit
use huawei_solar_lib.Payload.Emit.{Reader, pure}
use huawei_solar_lib.Payload.Takes.{Takes, Takes-long, leaving}
use huawei_solar_lib.Registers.Definition.{Register}
use huawei_solar_lib.Registers.Table.{find, registers}
use huawei_solar_lib.Registers.Codec.{decode_register, fits_length}
use huawei_solar_lib.Registers.Codec.Laws.{Takes-register}
use huawei_solar_lib.Client.GetMultiple.{
  Reading, unit_of, end_of, last_of, decode_response, decode_rest, decode_all, skip, request,
  find_all, found, check_readable, check_order, get_multiple,
}
use huawei_solar_lib.Client.GetMultiple.Order.{IsIncreasing, check_order_iff, last_of-ge}

-- the value that a reader returns
abbrev pub value_of : {A : Type 0} → Result (A × Bytes) → Result A
value_of m = m >>= λ found. ok found.0

module _ {A B C : Type 0} where
  value_of-leaving :
      (f : A → B) (k : B → Reader C) (rest : Bytes) (g : B → Result C) (result : Result A)
      → ((b : B) → value_of (k b rest) ≡ g b)
      → value_of (Emit.◌>>=◌ (Emit.◌>>=◌ (λ _. leaving result rest) (λ a. pure (f a))) k [])
        ≡ (value_of (leaving result rest) >>= (λ a. ok (f a)) >>= g)
  value_of-leaving f k rest g (ok a) h = h (f a)
  value_of-leaving f k rest g (err e) h = refl

  -- Behind a reader that takes n bytes, the rest is read from there.
  value_of-then :
      (r : Reader A) (f : A → B) (k : B → Reader C) (n : ℕ) (g : B → Result C) (bs : Bytes)
      → Takes r n
      → n ≤ length bs
      → ((b : B) → value_of (k b (drop n bs)) ≡ g b)
      → value_of (Emit.◌>>=◌ (Emit.◌>>=◌ r (λ a. pure (f a))) k bs)
        ≡ (value_of (r bs) >>= (λ a. ok (f a)) >>= g)
  value_of-then r f k n g bs takes long h =
      let (result, reads) = Takes-long r n bs takes (length bs - n) (omega arith) in
      rw reads (value_of-leaving f k (drop n bs) g result h)

module _ {A B : Type 0} where
  value_of-pure :
      (r : Reader A) (f : A → B) (m : Result A) (bs : Bytes)
      → value_of (r bs) ≡ m
      → value_of (Emit.◌>>=◌ r (λ a. pure (f a)) bs) ≡ (m >>= λ a. ok (f a))
  value_of-pure r f m bs h = elim (Result-cases (r bs)) [
    | inl ((a, rest), e) ↦ rw (← h) (rw e refl)
    | inr (e, is_err) ↦ rw (← h) (rw is_err refl)
  ]

module _ (fl : Floats) (P : Payload) where
  -- `decode` of one register in the bytes that begin with the address `base`
  abbrev pub read_at : ℕ → Bytes → Register → Result (Reading fl.Float)
  read_at base bytes r =
      value_of (decode_register fl P r (drop (2 * (r.register - base)) bytes)) >>= λ v.
      ok (record { value = v; unit = unit_of r.kind })

  -- every register by itself, in their order
  abbrev pub read_each : ℕ → Bytes → List Register → Result (List (Reading fl.Float))
  read_each base bytes [] = ok []
  read_each base bytes (r ∷ rs) =
      read_at base bytes r >>= λ first. read_each base bytes rs >>= λ others. ok (first ∷ others)

module _ (fl : Floats) (P : Payload) (laws : IsPayload P) where
  skip-drop : (n : ℕ) (bs : Bytes) → n ≤ length bs → P.skip_bytes n bs ≡ drop n bs
  skip-drop n bs h =
      ap (P.skip_bytes n) (sym (take-drop n bs))
      ∙ laws.skip_append n (take n bs) (drop n bs) (omega (arith, length-take n bs))

  -- `_decode_response` of a register at its place, and then the rest
  value_of-response :
      {B : Type 0} (base : ℕ) (bytes : Bytes) (r : Register) (k : Reading fl.Float → Reader B)
      (g : Reading fl.Float → Result B)
      → base ≤ r.register
      → fits_length r ≡ true
      → 2 * (end_of r - base) ≤ length bytes
      → ((first : Reading fl.Float)
          → value_of (k first (drop (2 * (end_of r - base)) bytes)) ≡ g first)
      → value_of (Emit.◌>>=◌ (decode_response fl P r) k (drop (2 * (r.register - base)) bytes))
        ≡ (read_at fl P base bytes r >>= g)
  unfolding decode_response
  value_of-response base bytes r k g h fits long each =
      value_of-then (decode_register fl P r) _ k (2 * r.length) g _
        (Takes-register fl P laws r fits)
        (omega (arith, length-drop (2 * (r.register - base)) bytes))
        (λ first.
          ap (λ bs. value_of (k first bs)) (drop-drop _ (2 * r.length) _ bytes (omega arith))
          ∙ each first)

  decode_rest-read_each :
      (base : ℕ) (bytes : Bytes) (prev : Register) (rs : List Register)
      → base ≤ prev.register
      → IsIncreasing prev rs
      → All (λ q. fits_length q ≡ true) rs
      → 2 * (end_of (last_of prev rs) - base) ≤ length bytes
      → value_of (decode_rest fl P prev rs (drop (2 * (end_of prev - base)) bytes))
        ≡ read_each fl P base bytes rs
  unfolding decode_rest skip
  decode_rest-read_each base bytes prev [] h order fits long = refl
  decode_rest-read_each base bytes prev (r ∷ rs) h order fits long =
      let others : Reading fl.Float → Reader (List (Reading fl.Float)) =
        λ first. Emit.◌>>=◌ (decode_rest fl P r rs) (λ found. pure (first ∷ found)) in
      let last = last_of-ge r rs order.1 in
      ap (λ bs. value_of (Emit.◌>>=◌ (decode_response fl P r) others bs))
        (skip-drop ((r.register - end_of prev) * 2) (drop (2 * (end_of prev - base)) bytes)
            (omega (arith, length-drop (2 * (end_of prev - base)) bytes))
          ∙ drop-drop _ _ (2 * (r.register - base)) bytes (omega arith))
      ∙ value_of-response base bytes r others _ (omega arith) fits.0 (omega arith) (λ first.
        value_of-pure (decode_rest fl P r rs) _ _ _
          (decode_rest-read_each base bytes r rs (omega arith) order.1 fits.1 (omega arith)))

  decode_all-read_each :
      (r : Register) (rs : List Register) (bytes : Bytes)
      → IsIncreasing r rs
      → All (λ q. fits_length q ≡ true) (r ∷ rs)
      → length bytes ≡ 2 * (end_of (last_of r rs) - r.register)
      → value_of (decode_all fl P r rs bytes) ≡ read_each fl P r.register bytes (r ∷ rs)
  unfolding decode_all
  decode_all-read_each r rs bytes order fits long =
      let others : Reading fl.Float → Reader (List (Reading fl.Float)) =
        λ first. Emit.◌>>=◌ (decode_rest fl P r rs) (λ found. pure (first ∷ found)) in
      let last = last_of-ge r rs order in
      let at_start : 0 ≡ 2 * (r.register - r.register) = omega arith in
      ap (λ n. value_of (Emit.◌>>=◌ (decode_response fl P r) others (drop n bytes))) at_start
      ∙ value_of-response r.register bytes r others _ (omega arith) fits.0 (omega arith) (λ first.
        value_of-pure (decode_rest fl P r rs) _ _ _
          (decode_rest-read_each r.register bytes r rs (omega arith) order fits.1 (omega arith)))

  -- Registers that are found, readable and in increasing order, each of the length that its class
  -- decodes, are read by one request from the first address to the end of the last register. What
  -- `get_multiple` returns, an error included, is what decoding each register by itself returns, at
  -- its own offset of the response, where a request is answered with as many registers as it asks for.
  pub get_multiple-read_each :
      (read_registers : ℕ → ℕ → Result (List ℕ)) (names : List String) (r : Register)
      (rs : List Register)
      → ((address count : ℕ) (response : List ℕ)
          → read_registers address count ≡ ok response
          → length response ≡ count)
      → find_all names ≡ ok (r ∷ rs)
      → check_readable (r ∷ rs) ≡ ok tt
      → IsIncreasing r rs
      → All (λ q. fits_length q ≡ true) (r ∷ rs)
      → get_multiple fl P read_registers names ≡ (
          read_registers r.register (end_of (last_of r rs) - r.register) >>= λ response.
          read_each fl P r.register (P.from_registers response) (r ∷ rs))
  unfolding get_multiple request
  get_multiple-read_each read_registers names r rs counts found readable order fits =
      rw (found, readable, (check_order_iff r rs).1 order)
        (elim (Result-cases (read_registers r.register (end_of (last_of r rs) - r.register))) [
          | inl (response, e) ↦ rw e (
              decode_all-read_each r rs (P.from_registers response) order fits
                (laws.length-from_registers response ∙ ap (λ n. 2 * n) (counts _ _ response e)))
          | inr (_, e) ↦ rw e refl
        ])

ok_inj : {A : Type 0} {a b : A} → ok a ≡ ok b → a ≡ b
ok_inj h = cc

reader_inj :
    {A : Type 0} {a b : A} {s t : Bytes}
    → ◌≡◌ {A = Result (A × Bytes)} (ok (a, s)) (ok (b, t))
    → a ≡ b
reader_inj h = cc

-- The number of readings.
module _ (fl : Floats) (P : Payload) where
  length-find_all :
      (names : List String) (rs : List Register) → find_all names ≡ ok rs → length rs ≡ length names
  unfolding find_all
  length-find_all [] rs h = let e : rs ≡ [] = ok_inj (sym h) in ap length e
  length-find_all (name ∷ names) rs h =
      let (r, _, h1) = >>=-eq-ok (found (find name registers)) _ h in
      let (others, e, h2) = >>=-eq-ok (find_all names) _ h1 in
      let split : r ∷ others ≡ rs = ok_inj h2 in
      sym (ap length split) ∙ ap suc (length-find_all names others e)

  length-decode_rest :
      (prev : Register) (rs : List Register) (bs rest : Bytes) (vs : List (Reading fl.Float))
      → decode_rest fl P prev rs bs ≡ ok (vs, rest)
      → length vs ≡ length rs
  unfolding decode_rest skip
  length-decode_rest prev [] bs rest vs h = let e : [] ≡ vs = reader_inj h in sym (ap length e)
  length-decode_rest prev (r ∷ rs) bs rest vs h =
      let (first, _, h1) = >>=-eq-ok (decode_response fl P r _) _ h in
      let (others, e, h2) = >>=-eq-ok (decode_rest fl P r rs first.1) _ h1 in
      let split : first.0 ∷ others.0 ≡ vs = reader_inj h2 in
      sym (ap length split) ∙ ap suc (length-decode_rest r rs first.1 others.1 others.0 e)

  length-request :
      (read_registers : ℕ → ℕ → Result (List ℕ)) (rs : List Register) (vs : List (Reading fl.Float))
      → request fl P read_registers rs ≡ ok vs
      → length vs ≡ length rs
  unfolding request decode_all
  length-request read_registers [] vs h = absurd (cc h)
  length-request read_registers (r ∷ rs) vs h =
      let (response, _, h1) =
        >>=-eq-ok (read_registers r.register (end_of (last_of r rs) - r.register)) _ h in
      let (all, e, h2) = >>=-eq-ok (decode_all fl P r rs (P.from_registers response)) _ h1 in
      let (first, _, e1) = >>=-eq-ok (decode_response fl P r (P.from_registers response)) _ e in
      let (others, e2, h3) = >>=-eq-ok (decode_rest fl P r rs first.1) _ e1 in
      let same : all.0 ≡ vs = ok_inj h2 in
      let split : first.0 ∷ others.0 ≡ all.0 = reader_inj h3 in
      sym (ap length (split ∙ same)) ∙ ap suc (length-decode_rest r rs first.1 others.1 others.0 e2)

  -- `get_multiple` returns one reading for each name.
  pub length-get_multiple :
      (read_registers : ℕ → ℕ → Result (List ℕ)) (names : List String)
      (vs : List (Reading fl.Float))
      → get_multiple fl P read_registers names ≡ ok vs
      → length vs ≡ length names
  unfolding get_multiple
  length-get_multiple read_registers names vs h =
      let (rs, found_all, h1) = >>=-eq-ok (find_all names) _ h in
      let (_, _, h2) = >>=-eq-ok (check_readable rs) _ h1 in
      let (_, _, h3) = >>=-eq-ok (check_order rs) _ h2 in
      length-request read_registers rs vs h3 ∙ length-find_all names rs found_all
