-- ===== src/Client/GetMultiple/Order.antt =====
-- Which lists of registers `get_multiple` accepts.
use huawei_solar_lib.Base.{◌≤◌, ◌≡◌, refl, ◌↔◌, List, [], ◌∷◌, arith}
use huawei_solar_lib.Exceptions.{ok}
use huawei_solar_lib.Registers.Definition.{Register}
use huawei_solar_lib.Client.GetMultiple.{check_order, end_of, last_of}

-- Each register begins behind the end of the one before it, at any distance.
abbrev pub IsIncreasing : Register → List Register → Type 0
IsIncreasing prev [] = Unit
IsIncreasing prev (cur ∷ rest) = (end_of prev ≤ cur.register) × IsIncreasing cur rest

order_sound : (r : Register) (rs : List Register) → check_order (r ∷ rs) ≡ ok tt → IsIncreasing r rs
unfolding check_order
order_sound r [] h = tt
order_sound r (q ∷ qs) h = (ground arith, order_sound q qs (ground arith))

order_complete :
    (r : Register) (rs : List Register) → IsIncreasing r rs → check_order (r ∷ rs) ≡ ok tt
unfolding check_order
order_complete r [] h = refl
order_complete r (q ∷ qs) h = ground (arith, order_complete q qs h.1)

-- The order check accepts exactly the registers that begin one behind the other, however far apart:
-- the test of the gap between neighbours, made behind the test of their order, refuses nothing.
pub check_order_iff :
    (r : Register) (rs : List Register) → (check_order (r ∷ rs) ≡ ok tt) ↔ IsIncreasing r rs
check_order_iff r rs = (order_sound r rs, order_complete r rs)

pub last_of-ge :
    (r : Register) (rs : List Register) → IsIncreasing r rs → end_of r ≤ end_of (last_of r rs)
last_of-ge r [] h = omega arith
last_of-ge r (q ∷ qs) h = omega (arith, last_of-ge q qs h.1)
