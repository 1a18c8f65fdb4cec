-- ===== src/Base/Texts.antt =====
-- Python's `str.split` and `int`, on a text that is given as the list of its ASCII codes. No code of
-- the repository is modelled in this file.
use Prim.Native.Nat.{ℕ, zero, suc, ◌+◌, ◌-◌, ◌*◌}
use mathlib.Core.Path.{◌≡◌, refl}
use mathlib.Core.Bool.{Bool, true, false, ◌&&◌, ◌||◌}
use mathlib.Core.Option.{Option, none, some}
use mathlib.Core.List.{List, [], ◌∷◌, ◌++◌}
use native.Mathlib.Omega.{arith}
use huawei_solar_lib.Base.Tests.{◌==◌, leb, if◌then◌else◌}
use huawei_solar_lib.Base.Int.{ℤ, pos, negsuc}
use huawei_solar_lib.Base.Lists.{All}

abbrev pub Codes : Type 0
Codes = List ℕ

abbrev add_front : ℕ → List Codes → List Codes
add_front b [] = (b ∷ []) ∷ []
add_front b (t ∷ ts) = (b ∷ t) ∷ ts

-- `text.split(separator)`, of one character
unfoldable pub split : ℕ → Codes → List Codes
split separator [] = [] ∷ []
split separator (b ∷ bs) =
    let rest = split separator bs in if b == separator then [] ∷ rest else add_front b rest

-- The separator is not in the text.
abbrev pub IsFree : ℕ → Codes → Type 0
IsFree separator = All (λ b. (b == separator) ≡ false)

separator_same : (b : ℕ) → (b == b) ≡ true
separator_same b = ground arith

pub split-IsFree : (separator : ℕ) (t : Codes) → IsFree separator t → split separator t ≡ t ∷ []
unfolding split
split-IsFree separator [] free = refl
split-IsFree separator (b ∷ t) (other, free) = rw (split-IsFree separator t free, other) refl

pub split-append :
    (separator : ℕ) (t rest : Codes)
    → IsFree separator t
    → split separator (t ++ separator ∷ rest) ≡ t ∷ split separator rest
unfolding split
split-append separator [] rest free = rw (separator_same separator) refl
split-append separator (b ∷ t) rest (other, free) =
    rw (split-append separator t rest free, other) refl

-- Blank characters around the number are allowed.
abbrev is_blank : ℕ → Bool
is_blank b = (leb 9 b && leb b 13) || (leb 28 b && leb b 32)

abbrev lstrip : Codes → Codes
lstrip [] = []
lstrip (b ∷ bs) = let rest = lstrip bs in if is_blank b then rest else b ∷ bs

abbrev add_unless_blank : ℕ → Codes → Codes
add_unless_blank b [] = if is_blank b then [] else b ∷ []
add_unless_blank b (c ∷ rest) = b ∷ c ∷ rest

abbrev rstrip : Codes → Codes
rstrip [] = []
rstrip (b ∷ bs) = add_unless_blank b (rstrip bs)

-- The digits so far: whether one may end the number, and their value. `_` may stand between two.
abbrev next_digit : Bool → ℕ → ℕ → Option (Bool × ℕ)
next_digit after_digit n b =
    if leb 48 b && leb b 57
    then some (true, n * 10 + (b - 48))
    else if after_digit && (b == 95)
    then some (false, n)
    else none

abbrev add_digits : Option (Bool × ℕ) → Codes → Option ℕ
add_digits none bs = none
add_digits (some (true, n)) [] = some n
add_digits (some (false, n)) [] = none
add_digits (some (after_digit, n)) (b ∷ bs) = add_digits (next_digit after_digit n b) bs

abbrev negative : ℕ → ℤ
negative zero = pos 0
negative (suc n) = negsuc n

abbrev signed : (ℕ → ℤ) → Option ℕ → Option ℤ
signed sign none = none
signed sign (some n) = some (sign n)

abbrev unsigned : Codes → Option ℕ
unsigned = add_digits (some (false, 0))

abbrev number : Codes → Option ℤ
number [] = none
number (b ∷ bs) =
    if b == 43
    then signed pos (unsigned bs)
    else if b == 45
    then signed negative (unsigned bs)
    else signed pos (unsigned (b ∷ bs))

-- `int(text)`: `none` is a ValueError
unfoldable pub int_of : Codes → Option ℤ
int_of bs = number (rstrip (lstrip bs))

int_of-negative : int_of (32 ∷ 45 ∷ 49 ∷ 95 ∷ 50 ∷ 10 ∷ []) ≡ some (negsuc 11)
unfolding int_of
int_of-negative = refl

int_of-blank : int_of (49 ∷ 95 ∷ []) ≡ none
unfolding int_of
int_of-blank = refl
