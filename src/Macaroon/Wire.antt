-- ===== src/Macaroon/Wire.antt =====
-- `serialize` and `deserialize` of both macaroons. The list is what `pos` has not reached in `buf`.
pub mod RoundTrip
pub mod DischargeRoundTrip
use secret_broker.Base.{
  ℕ, zero, suc, ◌+◌, ◌*◌, ◌/◌, ◌%◌, Bytes, Option, none, some, List, [], ◌∷◌, ◌++◌, ◌||◌, ltb, ◌==◌,
  not, length, take, drop, if◌then◌else◌,
}
use secret_broker.Base.Result.{Result, ok, err, ◌>>=◌, ◌>>◌, ok_or, guard}
use secret_broker.Text.{utf8_valid, u16_le_bytes, u16_from_le}
use secret_broker.Platform.{Platform, timestamp_bits, from_timestamp}
use secret_broker.Macaroon.Types.{MacaroonError, invalid_format, Macaroon, DischargeMacaroon}

-- A length field and the bytes.
abbrev pub field : Bytes → Bytes
field s = u16_le_bytes (length s) ++ s

unfoldable pub write_caveats : List Bytes → Bytes
write_caveats [] = []
write_caveats (c ∷ cs) = field c ++ write_caveats cs

unfoldable pub serialize : Platform → Macaroon → Bytes
unfolding write_caveats u16_le_bytes
serialize p m =
    p.b64_encode (
      m.identifier ++ (u16_le_bytes (length m.caveats) ++ (write_caveats m.caveats ++ m.signature)))

abbrev Read : Type 0 → Type 0
Read A = Result MacaroonError (A × Bytes)

-- `from_utf8(&buf[pos..pos + len])`, after the test that the buffer is long enough
unfoldable pub read_text : ℕ → Bytes → Read Bytes
read_text len rest =
    if ltb (length rest) len
    then err invalid_format
    else if utf8_valid (take len rest)
    then ok (take len rest, drop len rest)
    else err invalid_format

read_caveat : Bytes → Read Bytes
unfolding read_text u16_from_le
read_caveat (lo ∷ hi ∷ rest) = read_text (u16_from_le lo hi) rest
read_caveat _ = err invalid_format

unfoldable pub read_caveats : ℕ → Bytes → Read (List Bytes)
unfolding read_caveat
read_caveats zero rest = ok ([], rest)
read_caveats (suc n) rest = do
  first ← read_caveat rest
  others ← read_caveats n first.1
  ok (first.0 ∷ others.0, others.1)

-- what follows the identifier
read_body : Bytes → Bytes → Result MacaroonError Macaroon
unfolding read_caveats
read_body identifier (lo ∷ hi ∷ rest) = do
  body ← read_caveats (u16_from_le lo hi) rest
  guard (length body.1 == 32) invalid_format
  ok (record { identifier = identifier; caveats = body.0; signature = body.1 })
read_body identifier _ = err invalid_format

unfoldable pub deserialize : Platform → Bytes → Result MacaroonError Macaroon
unfolding read_body
deserialize p s = do
  buf ← ok_or (p.b64_decode s) invalid_format
  guard (not (ltb (length buf) (16 + 2 + 32))) invalid_format
  read_body (take 16 buf) (drop 16 buf)

-- `to_le_bytes` of a number given by its bits, in n bytes
unfoldable pub le_bytes : ℕ → ℕ → Bytes
le_bytes zero bits = []
le_bytes (suc n) bits = bits % 256 ∷ le_bytes n (bits / 256)

unfoldable pub from_le : Bytes → ℕ
from_le [] = 0
from_le (b ∷ s) = b + 256 * from_le s

unfoldable pub expiry_bytes : Platform → Option ℕ → Bytes
unfolding le_bytes timestamp_bits
expiry_bytes p none = []
expiry_bytes p (some t) = le_bytes 8 (timestamp_bits p t)

unfoldable pub serialize_discharge : Platform → DischargeMacaroon → Bytes
unfolding expiry_bytes u16_le_bytes
serialize_discharge p d = p.b64_encode (
    field d.location
    ++ (field d.condition ++ (expiry_bytes p d.expires_at ++ (d.discharge_signature ++ d.binding))))

-- the two signatures, after the expiry if there is one
read_signatures : Bytes → Bytes → Option ℕ → Bytes → DischargeMacaroon
read_signatures location condition expires_at rest = record {
  location = location;
  condition = condition;
  expires_at = expires_at;
  discharge_signature = take 32 rest;
  binding = drop 32 rest;
}

-- `remaining` is the length of what follows the condition, and 0 where the condition is cut off.
read_tail : Platform → Bytes → ℕ → Bytes → Result MacaroonError DischargeMacaroon
read_tail p location cond_len rest = do
  let remaining = length (drop cond_len rest)
  guard (remaining == 64 || remaining == 72) invalid_format
  guard (utf8_valid (take cond_len rest)) invalid_format
  let after = drop cond_len rest
  if remaining == 72
      then ok (
          read_signatures location (take cond_len rest) (from_timestamp p (from_le (take 8 after)))
            (drop 8 after))
      else ok (read_signatures location (take cond_len rest) none after)

read_condition : Platform → Bytes → Bytes → Result MacaroonError DischargeMacaroon
unfolding u16_from_le
read_condition p location (lo ∷ hi ∷ rest) = read_tail p location (u16_from_le lo hi) rest
read_condition p location _ = err invalid_format

read_location : Platform → Bytes → Result MacaroonError DischargeMacaroon
unfolding u16_from_le
read_location p (lo ∷ hi ∷ rest) = do
  let loc_len = u16_from_le lo hi
  guard (not (ltb (length rest) (loc_len + 2 + 64))) invalid_format
  location ← read_text loc_len rest
  read_condition p location.0 location.1
read_location p _ = err invalid_format

unfoldable pub deserialize_discharge : Platform → Bytes → Result MacaroonError DischargeMacaroon
unfolding read_location read_condition read_tail read_text read_signatures from_le from_timestamp
deserialize_discharge p s = do
  buf ← ok_or (p.b64_decode s) invalid_format
  guard (not (ltb (length buf) (4 + 64))) invalid_format
  read_location p buf
