-- ===== src/Text/Tests.antt =====
-- Runs of the text routines.
use secret_broker.Base.{◌≡◌, refl, true, false, none, some, [], ◌∷◌}
use secret_broker.Text.{lit, split_once, parse_u32, decimal, utf8_valid, trim}

euro_is_valid : utf8_valid (0xe2 ∷ 0x82 ∷ 0xac ∷ b'x' ∷ []) ≡ true
unfolding utf8_valid
euro_is_valid = refl

surrogate_is_invalid : utf8_valid (0xed ∷ 0xa0 ∷ 0x80 ∷ []) ≡ false
unfolding utf8_valid
surrogate_is_invalid = refl

trims_both_ends :
    trim (0x20 ∷ 0xc2 ∷ 0xa0 ∷ b'a' ∷ 0x20 ∷ b'b' ∷ 0xe2 ∷ 0x80 ∷ 0x8a ∷ 0x0a ∷ [])
    ≡ b'a' ∷ 0x20 ∷ b'b' ∷ []
unfolding trim
trims_both_ends = refl

splits_at_the_first : split_once (lit " = ") (lit "a = b = c") ≡ some (lit "a", lit "b = c")
unfolding split_once
splits_at_the_first = refl

parses_a_number : parse_u32 (lit "+0042") ≡ some 42
unfolding parse_u32
parses_a_number = refl

rejects_overflow : parse_u32 (lit "4294967296") ≡ none
unfolding parse_u32
rejects_overflow = refl

prints_a_number : decimal 4294967295 ≡ lit "4294967295"
unfolding decimal
prints_a_number = refl
