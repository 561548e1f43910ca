-- ===== src/Text/Utf8.antt =====
-- `str::from_utf8`: which byte strings are well-formed UTF-8 (Unicode, table 3-7).
use secret_broker.Base.{
  ℕ, zero, suc, Bytes, Bool, false, ◌&&◌, Option, none, some, [], ◌∷◌, leb, ltb, ◌==◌,
  if◌then◌else◌,
}

-- How many continuation bytes are due, and the range of the next one.
record Due : Type 0 where
  more : ℕ
  low : ℕ
  high : ℕ

abbrev due : ℕ → ℕ → ℕ → Option Due
due n lo hi = some (record { more = n; low = lo; high = hi })

abbrev within : ℕ → ℕ → ℕ → Bool
within lo b hi = leb lo b && leb b hi

lead : ℕ → Option Due
lead b =
    if ltb b 0x80
    then due 0 0 0
    else if within 0xc2 b 0xdf
    then due 1 0x80 0xbf
    else if b == 0xe0
    then due 2 0xa0 0xbf
    else if b == 0xed
    then due 2 0x80 0x9f
    else if within 0xe1 b 0xef
    then due 2 0x80 0xbf
    else if b == 0xf0
    then due 3 0x90 0xbf
    else if within 0xf1 b 0xf3
    then due 3 0x80 0xbf
    else if b == 0xf4
    then due 3 0x80 0x8f
    else none

next : ℕ → ℕ → ℕ → ℕ → Option Due
unfolding lead
next zero lo hi b = lead b
next (suc n) lo hi b = if within lo b hi then due n 0x80 0xbf else none

scan : Due → Bytes → Bool
unfolding next
scan d [] = d.more == 0
scan d (b ∷ s) = elim (next d.more d.low d.high b) [ none ↦ false | some d' ↦ scan d' s ]

unfoldable pub utf8_valid : Bytes → Bool
unfolding scan
utf8_valid s = scan (record { more = 0; low = 0; high = 0 }) s
