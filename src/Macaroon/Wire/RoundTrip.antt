-- ===== src/Macaroon/Wire/RoundTrip.antt =====
-- A serialized macaroon is read back, and a capability string determines its macaroon.
use secret_broker.Base.{
  ◌^◌, ◌≤◌, ◌<◌, ◌≡◌, refl, Bytes, true, List, [], ◌∷◌, ◌++◌, arith, length, All, length-append,
  take-append, drop-append, take-append_of, drop-append_of, le→ltb,
}
use mathlib.Core.List.{append_assoc}
use secret_broker.Base.Result.{ok}
use secret_broker.Text.{utf8_valid, u16_le_bytes}
use secret_broker.Text.Laws.{u16_round_trip}
use secret_broker.Platform.{Platform, IsLawful}
use secret_broker.Macaroon.Types.{Macaroon}
use secret_broker.Macaroon.Wire.{
  field, write_caveats, serialize, read_text, read_caveat, read_caveats, read_body, deserialize,
}

-- A Rust string short enough for its 16-bit length field.
abbrev pub Fits : Bytes → Type 0
Fits s = (length s < 2 ^ 16) × (utf8_valid s ≡ true)

-- The signature and the identifier are arrays of the source.
pub record IsWritable (m : Macaroon) : Type 0 where
  pub identifier : length m.identifier ≡ 16
  pub signature : length m.signature ≡ 32
  pub count : length m.caveats < 2 ^ 16
  pub fits : All Fits m.caveats

pub read_text-append :
    (s rest : Bytes) → utf8_valid s ≡ true → read_text (length s) (s ++ rest) ≡ ok (s, rest)
unfolding read_text
read_text-append s rest h = rw (
  take-append s rest,
  drop-append s rest,
  h,
  le→ltb (length (s ++ rest)) (length s) (omega (arith, length-append s rest)),
)

read_caveat-field : (s rest : Bytes) → Fits s → read_caveat (field s ++ rest) ≡ ok (s, rest)
unfolding read_caveat u16_le_bytes
read_caveat-field s rest h = rw (u16_round_trip (length s) h.0) (read_text-append s rest h.1)

pub read_caveats-write_caveats :
    (cs : List Bytes) (rest : Bytes)
    → All Fits cs
    → read_caveats (length cs) (write_caveats cs ++ rest) ≡ ok (cs, rest)
unfolding read_caveats write_caveats
read_caveats-write_caveats [] rest h = refl
read_caveats-write_caveats (c ∷ cs) rest h = rw (
  append_assoc (field c) (write_caveats cs) rest,
  read_caveat-field c (write_caveats cs ++ rest) h.0,
  read_caveats-write_caveats cs rest h.1,
)

read_body-write :
    (p : Platform) (m : Macaroon)
    → IsWritable m
    → read_body m.identifier
        (u16_le_bytes (length m.caveats) ++ (write_caveats m.caveats ++ m.signature))
      ≡ ok m
unfolding read_body u16_le_bytes
read_body-write p m h = rw (
  u16_round_trip (length m.caveats) h.count,
  read_caveats-write_caveats m.caveats m.signature h.fits,
  h.signature,
)

-- What `serialize` writes, `deserialize` reads back, for an identifier of 16 bytes, a signature of
-- 32, and fewer than 2 ^ 16 caveats, each well-formed and shorter than 2 ^ 16 bytes.
pub deserialize-serialize :
    (p : Platform) (m : Macaroon) → IsLawful p → IsWritable m → deserialize p (serialize p m) ≡ ok m
unfolding deserialize serialize
deserialize-serialize p m w h =
    let header = u16_le_bytes (length m.caveats) in
    let body = write_caveats m.caveats ++ m.signature in
    let whole = m.identifier ++ (header ++ body) in
    let long : 50 ≤ length whole = omega (
      arith,
      length-append m.identifier (header ++ body),
      length-append (write_caveats m.caveats) m.signature,
      h.identifier,
      h.signature,
    ) in
    rw
      (
        w.b64_round_trip whole,
        le→ltb (length whole) 50 long,
        take-append_of 16 m.identifier (header ++ body) h.identifier,
        drop-append_of 16 m.identifier (header ++ body) h.identifier,
      )
      (read_body-write p m h)
