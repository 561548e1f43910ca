-- ===== src/Text.antt =====
-- The `str` and number routines of the standard library that the broker calls, on UTF-8 bytes.
mod Utf8
mod Trim
pub mod Laws
mod Tests
unfoldable pub use Utf8.{utf8_valid}
unfoldable pub use Trim.{trim, nonblank}
use Prim.Native.Char.{code}
use Prim.Native.String.{String}
use mathlib.Core.Option
use secret_broker.Base.{
  ℕ, zero, suc, ◌+◌, ◌-◌, ◌*◌, ◌/◌, ◌%◌, ◌^◌, Bytes, Bool, true, false, ◌&&◌, ◌||◌, Option, none,
  some, [], ◌∷◌, ◌++◌, leb, ltb, ◌==◌, if◌then◌else◌,
}

-- An ASCII literal.
abbrev pub lit : String → Bytes
lit String.[] = []
lit (String.◌∷◌ c s) = code c ∷ lit s

-- `s.strip_prefix(p)`
unfoldable pub strip_prefix : Bytes → Bytes → Option Bytes
strip_prefix [] s = some s
strip_prefix (p ∷ ps) [] = none
strip_prefix (p ∷ ps) (c ∷ s) = if p == c then strip_prefix ps s else none

unfoldable pub starts_with : Bytes → Bytes → Bool
unfolding strip_prefix
starts_with p s = elim (strip_prefix p s) [ none ↦ false | some _ ↦ true ]

abbrev cons_left : ℕ → Bytes × Bytes → Bytes × Bytes
cons_left c (a, b) = (c ∷ a, b)

-- `s.split_once(sep)`: the parts before and after the first occurrence.
unfoldable pub split_once : Bytes → Bytes → Option (Bytes × Bytes)
unfolding strip_prefix
split_once sep [] = Option.map (λ rest. ([], rest)) (strip_prefix sep [])
split_once sep (c ∷ s) =
    let later = Option.map (cons_left c) (split_once sep s) in
    elim (strip_prefix sep (c ∷ s)) [ none ↦ later | some rest ↦ some ([], rest) ]

-- `s.contains(c)` for an ASCII character
unfoldable pub contains : ℕ → Bytes → Bool
contains c [] = false
contains c (b ∷ s) = b == c || contains c s

unfoldable pub is_empty : Bytes → Bool
is_empty [] = true
is_empty (b ∷ s) = false

digits_value : ℕ → ℕ → Bytes → Option ℕ
digits_value max acc [] = some acc
digits_value max acc (d ∷ s) =
    let next = acc * 10 + (d - 48) in
    let rest = digits_value max next s in
    if leb 48 d && leb d 57 && leb next max then rest else none

after_sign : ℕ → Bytes → Option ℕ
unfolding digits_value
after_sign max [] = none
after_sign max (d ∷ s) = digits_value max 0 (d ∷ s)

-- `s.parse::<u32>()`: an optional `+`, then one digit or more, without overflow.
unfoldable pub parse_u32 : Bytes → Option ℕ
unfolding after_sign
parse_u32 [] = none
parse_u32 (c ∷ s) = if c == b'+' then after_sign (2 ^ 32 - 1) s else after_sign (2 ^ 32 - 1) (c ∷ s)

decimal_digits : ℕ → ℕ → Bytes → Bytes
decimal_digits zero n out = out
decimal_digits (suc fuel) n out =
    let more = decimal_digits fuel (n / 10) ((48 + n % 10) ∷ out) in
    if ltb n 10 then (48 + n) ∷ out else more

-- `format!("{n}")`: a number below 2 ^ 64 has at most twenty digits.
unfoldable pub decimal : ℕ → Bytes
unfolding decimal_digits
decimal n = decimal_digits 20 n []

-- `u16::to_le_bytes` of a value that the `as u16` before it has cut to 16 bits
unfoldable pub u16_le_bytes : ℕ → Bytes
u16_le_bytes n = n % 2 ^ 8 ∷ n / 2 ^ 8 % 2 ^ 8 ∷ []

-- `u16::from_le_bytes`
unfoldable pub u16_from_le : ℕ → ℕ → ℕ
u16_from_le lo hi = lo + hi * 2 ^ 8
