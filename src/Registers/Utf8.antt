-- ===== src/Registers/Utf8.antt =====
-- `bytes.decode("utf-8")` of Python, which `StringRegister` of src/huawei_solar/registers.py calls,
-- and `rstrip("\0")`. A text is the list of its code points.
use huawei_solar_lib.Base.{
  ℕ, ◌+◌, ◌-◌, ◌*◌, ◌≡◌, refl, ◌&&◌, Option, none, some, List, [], ◌∷◌, if◌then◌else◌, leb, ltb,
  ◌==◌,
}
use huawei_solar_lib.Payload.{Bytes}

abbrev pub Text : Type 0
Text = List ℕ

-- Between characters, or inside one: the bytes that are missing after the next one, the bits so
-- far, and the range that the next byte must lie in.
pub data Pending : Type 0 where
  start : Pending
  inside : ℕ → ℕ → ℕ → ℕ → Pending

pub data Next : Type 0 where
  invalid : Next
  wait : Pending → Next
  emit : ℕ → Next

-- Overlong forms, surrogates and numbers above 0x10ffff are refused by the ranges.
lead : ℕ → Next
lead b =
    if ltb b 0x80
    then emit b
    else if ltb b 0xc2
    then invalid
    else if ltb b 0xe0
    then wait (inside 0 (b - 0xc0) 0x80 0xbf)
    else if b == 0xe0
    then wait (inside 1 0 0xa0 0xbf)
    else if b == 0xed
    then wait (inside 1 0xd 0x80 0x9f)
    else if ltb b 0xf0
    then wait (inside 1 (b - 0xe0) 0x80 0xbf)
    else if b == 0xf0
    then wait (inside 2 0 0x90 0xbf)
    else if ltb b 0xf4
    then wait (inside 2 (b - 0xf0) 0x80 0xbf)
    else if b == 0xf4
    then wait (inside 2 4 0x80 0x8f)
    else invalid

next : Pending → ℕ → Next
unfolding lead
next start b = lead b
next (inside more bits lo hi) b =
    if leb lo b && leb b hi
    then (if more == 0
        then emit (bits * 64 + (b - 0x80))
        else wait (inside (more - 1) (bits * 64 + (b - 0x80)) 0x80 0xbf))
    else invalid

decode_from : Pending → Bytes → Option Text
unfolding next
decode_from start [] = some []
decode_from (inside _ _ _ _) [] = none
decode_from p (b ∷ bs) = elim (next p b) [
  | invalid ↦ none
  | wait p' ↦ decode_from p' bs
  | emit c ↦ elim (decode_from start bs) [ none ↦ none | some cs ↦ some (c ∷ cs) ]
]

-- `none` is UnicodeDecodeError
unfoldable pub decode_utf8 : Bytes → Option Text
unfolding decode_from
decode_utf8 = decode_from start

-- `text.rstrip("\0")`
abbrev keep_nul : ℕ → Text → Text
keep_nul c [] = if c == 0 then [] else c ∷ []
keep_nul c (d ∷ cs) = c ∷ d ∷ cs

unfoldable pub rstrip_nul : Text → Text
rstrip_nul [] = []
rstrip_nul (c ∷ cs) = keep_nul c (rstrip_nul cs)

decode_utf8_runs :
    decode_utf8 (b'A' ∷ 0xc2 ∷ 0xb0 ∷ 0xe2 ∷ 0x82 ∷ 0xac ∷ []) ≡ some (b'A' ∷ 0xb0 ∷ 0x20ac ∷ [])
unfolding decode_utf8
decode_utf8_runs = refl
