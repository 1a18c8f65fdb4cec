-- ===== src/Client/GetMultiple/Ascending.antt =====
-- Registers of the SUN2000 in the order of their addresses.
use Prim.Native.String.{String}
use huawei_solar_lib.Base.{ℕ, ◌-◌, ◌<◌, ◌≡◌, refl, true, Option, none, some, List, [], ◌∷◌}
use huawei_solar_lib.Base.Lists.{All}
use huawei_solar_lib.Base.Floats.{Floats}
use huawei_solar_lib.Exceptions.{Result, ok, ◌>>=◌, >>=-eq-ok}
use huawei_solar_lib.Payload.{Payload}
use huawei_solar_lib.Registers.Definition.{Register}
use huawei_solar_lib.Registers.Table.{find, registers}
use huawei_solar_lib.Registers.Table.Facts.{registers_apart, share_device}
use huawei_solar_lib.Client.GetMultiple.{
  find_all, found, check_order, check_readable, end_of, last_of, decode_all, request, get_multiple,
}
use huawei_solar_lib.Client.GetMultiple.Order.{IsIncreasing, check_order_iff}

abbrev IsEntry : Register → Type 0
IsEntry r = (name : String) × (find name registers ≡ some r)

-- Each address is greater than the one before it.
abbrev pub IsAscending : Register → List Register → Type 0
IsAscending r [] = Unit
IsAscending r (q ∷ qs) = (r.register < q.register) × IsAscending q qs

ok_inj : {A : Type 0} {a b : A} → ok a ≡ ok b → a ≡ b
ok_inj h = cc

found-eq-ok : (o : Option Register) (r : Register) → found o ≡ ok r → o ≡ some r
unfolding found
found-eq-ok none r h = absurd (cc h)
found-eq-ok (some q) r h = cc

find_all-IsEntry :
    (names : List String) (rs : List Register) → find_all names ≡ ok rs → All IsEntry rs
unfolding find_all
find_all-IsEntry [] rs h = let e : [] ≡ rs = ok_inj h in rw (← e) tt
find_all-IsEntry (name ∷ names) rs h =
    let (r, e, h1) = >>=-eq-ok (found (find name registers)) _ h in
    let (others, e1, h2) = >>=-eq-ok (find_all names) _ h1 in
    let split : r ∷ others ≡ rs = ok_inj h2 in
    rw (← split) ((name, found-eq-ok (find name registers) r e), find_all-IsEntry names others e1)

sun2000-share_device :
    (r q : Register)
    → r.target_device.sun2000 ≡ true
    → q.target_device.sun2000 ≡ true
    → share_device r q ≡ true
sun2000-share_device r q h k = rw (h, k) refl

ascending-IsIncreasing :
    (r : Register) (rs : List Register)
    → All IsEntry (r ∷ rs)
    → All (λ q. q.target_device.sun2000 ≡ true) (r ∷ rs)
    → IsAscending r rs
    → IsIncreasing r rs
ascending-IsIncreasing r [] entries same h = tt
ascending-IsIncreasing r (q ∷ qs) entries same h = (
  registers_apart entries.0.0 entries.1.0.0 r q entries.0.1 entries.1.0.1
      (sun2000-share_device r q same.0 same.1.0) h.0,
  ascending-IsIncreasing q qs entries.1 same.1 h.1,
)

-- No two of the registers overlap, so their order is accepted.
check_order-ascending :
    (names : List String) (r : Register) (rs : List Register)
    → find_all names ≡ ok (r ∷ rs)
    → All (λ q. q.target_device.sun2000 ≡ true) (r ∷ rs)
    → IsAscending r rs
    → check_order (r ∷ rs) ≡ ok tt
check_order-ascending names r rs h same ascending =
    (check_order_iff r rs).1
      (ascending-IsIncreasing r rs (find_all-IsEntry names (r ∷ rs) h) same ascending)

-- For names of readable registers of the SUN2000 whose addresses ascend, `get_multiple` does not
-- refuse: it makes one request, from the first address to the end of the last register, raises what
-- that raises, and otherwise decodes its response.
pub get_multiple-ascending :
    (fl : Floats) (P : Payload) (read_registers : ℕ → ℕ → Result (List ℕ)) (names : List String)
    (r : Register) (rs : List Register)
    → find_all names ≡ ok (r ∷ rs)
    → check_readable (r ∷ rs) ≡ ok tt
    → All (λ q. q.target_device.sun2000 ≡ true) (r ∷ rs)
    → IsAscending r rs
    → get_multiple fl P read_registers names ≡ (
        read_registers r.register (end_of (last_of r rs) - r.register) >>= λ response.
        decode_all fl P r rs (P.from_registers response) >>= λ found. ok found.0)
unfolding get_multiple request
get_multiple-ascending fl P read_registers names r rs h readable same ascending =
    rw (h, readable, check_order-ascending names r rs h same ascending) refl
