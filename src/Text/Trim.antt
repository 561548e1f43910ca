-- ===== src/Text/Trim.antt =====
-- `str::trim`: characters with the Unicode property White_Space go, at both ends.
use secret_broker.Base.{
  ℕ, zero, suc, Bytes, Bool, true, false, Option, none, some, List, [], ◌∷◌, ◌++◌, map, reverse,
  length, ◌==◌, if◌then◌else◌,
}

abbrev one_byte : List Bytes
one_byte = (0x09 ∷ []) ∷ (0x0a ∷ []) ∷ (0x0b ∷ []) ∷ (0x0c ∷ []) ∷ (0x0d ∷ []) ∷ (0x20 ∷ []) ∷ []

abbrev two_bytes : List Bytes
two_bytes = (0xc2 ∷ 0x85 ∷ []) ∷ (0xc2 ∷ 0xa0 ∷ []) ∷ []

-- U+2000 to U+200A, U+2028, U+2029 and U+202F differ in the last byte.
abbrev general_punctuation : List Bytes
general_punctuation =
    map (λ b. 0xe2 ∷ 0x80 ∷ b ∷ [])
      (0x80 ∷ 0x81 ∷ 0x82 ∷ 0x83 ∷ 0x84 ∷ 0x85 ∷ 0x86 ∷ 0x87 ∷ 0x88 ∷ 0x89 ∷ 0x8a ∷ 0xa8 ∷ 0xa9
        ∷ 0xaf ∷ [])

-- The encodings of the characters with that property.
abbrev white_space : List Bytes
white_space =
    one_byte
    ++ (two_bytes
        ++ (general_punctuation
            ++ ((0xe1 ∷ 0x9a ∷ 0x80 ∷ [])
                ∷ (0xe2 ∷ 0x81 ∷ 0x9f ∷ [])
                ∷ (0xe3 ∷ 0x80 ∷ 0x80 ∷ [])
                ∷ [])))

is_prefix : Bytes → Bytes → Bool
is_prefix [] s = true
is_prefix (p ∷ ps) [] = false
is_prefix (p ∷ ps) (c ∷ s) = if p == c then is_prefix ps s else false

-- The length of the space that `s` begins with, or 0.
space_length : List Bytes → Bytes → ℕ
unfolding is_prefix
space_length [] s = 0
space_length (w ∷ ws) s = if is_prefix w s then length w else space_length ws s

-- The first argument counts the bytes of a space that are still to be dropped.
strip : List Bytes → ℕ → Bytes → Bytes
unfolding space_length
strip ws n [] = []
strip ws (suc n) (b ∷ s) = strip ws n s
strip ws zero (b ∷ s) = elim (space_length ws (b ∷ s)) [ zero ↦ b ∷ s | suc n ↦ strip ws n s ]

unfoldable pub trim : Bytes → Bytes
unfolding strip
trim s = reverse (strip (map reverse white_space) 0 (reverse (strip white_space 0 s)))

-- `.filter(|value| !value.is_empty())`
unfoldable pub nonblank : Bytes → Option Bytes
nonblank [] = none
nonblank (b ∷ s) = some (b ∷ s)
