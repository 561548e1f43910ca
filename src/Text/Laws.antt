-- ===== src/Text/Laws.antt =====
-- Laws of the text routines that the round trips rest on.
use secret_broker.Base.{ℕ, ◌%◌, ◌/◌, ◌^◌, ◌<◌, ◌≡◌, refl, Bytes, some, [], ◌∷◌, ◌++◌, arith}
use secret_broker.Text.{strip_prefix, u16_from_le}

pub strip_prefix-append : (p s : Bytes) → strip_prefix p (p ++ s) ≡ some s
unfolding strip_prefix
strip_prefix-append [] s = refl
strip_prefix-append (c ∷ p) s = ground (arith, strip_prefix-append p s)

-- A number below 2 ^ 16 is read back from its two bytes.
pub u16_round_trip : (n : ℕ) → n < 2 ^ 16 → u16_from_le (n % 2 ^ 8) (n / 2 ^ 8 % 2 ^ 8) ≡ n
unfolding u16_from_le
u16_round_trip n h = omega arith
