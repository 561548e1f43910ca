-- ===== src/Platform.antt =====
-- What the broker calls and does not implement: HMAC-SHA256, SHA-256, hex, the two base64
-- alphabets and chrono. Definitions take these operations as an argument, and theorems take `IsLawful` besides.
--
-- A `DateTime<Utc>` is the number of nanoseconds since the least one that chrono can represent, so
-- its order is that of the numbers. `epoch` is the Unix epoch and `last` the greatest value, both
-- in seconds of that scale.
use secret_broker.Base.{
  ℕ, ◌+◌, ◌-◌, ◌*◌, ◌/◌, ◌%◌, ◌^◌, ◌≤◌, ◌<◌, ◌≡◌, Bytes, length, false, Option, none, some, [], leb,
  if◌then◌else◌,
}
use secret_broker.Text.{contains}

pub record Platform : Type 0 where
  pub hmac : Bytes → Bytes → Bytes
  pub sha256 : Bytes → Bytes
  pub hex_encode : Bytes → Bytes
  pub b64_encode : Bytes → Bytes
  pub b64_decode : Bytes → Option Bytes
  pub url_encode : Bytes → Bytes
  pub url_decode : Bytes → Option Bytes
  pub to_rfc3339 : ℕ → Bytes
  pub parse_rfc3339 : Bytes → Option ℕ
  pub rfc_first : ℕ
  pub rfc_last : ℕ
  pub epoch : ℕ
  pub last : ℕ

-- Documented behaviour. RFC 3339 has four digits for the year, so only times between `rfc_first`
-- and `rfc_last` are read back.
pub record IsLawful (p : Platform) : Type 0 where
  pub length-hmac : (k d : Bytes) → length (p.hmac k d) ≡ 32
  pub length-sha256 : (d : Bytes) → length (p.sha256 d) ≡ 32
  pub b64_empty : p.b64_decode [] ≡ some []
  pub b64_round_trip : (b : Bytes) → p.b64_decode (p.b64_encode b) ≡ some b
  pub url_round_trip : (b : Bytes) → p.url_decode (p.url_encode b) ≡ some b
  pub url_no_colon : (b : Bytes) → contains b':' (p.url_encode b) ≡ false
  pub rfc_round_trip :
      (t : ℕ) → p.rfc_first ≤ t → t ≤ p.rfc_last → p.parse_rfc3339 (p.to_rfc3339 t) ≡ some t
  pub epoch_fits : p.epoch < 2 ^ 62
  pub last_fits : p.last < 2 ^ 62

abbrev pub nanos : ℕ
nanos = 1_000_000_000

-- `t.timestamp()`, an `i64`, as its 64 bits.
unfoldable pub timestamp_bits : Platform → ℕ → ℕ
timestamp_bits p t = (t / nanos + 2 ^ 64 - p.epoch) % 2 ^ 64

-- `DateTime::from_timestamp(secs, 0)` of an `i64` given by its bits.
unfoldable pub from_timestamp : Platform → ℕ → Option ℕ
from_timestamp p bits =
    let secs = (bits + p.epoch) % 2 ^ 64 in if leb secs p.last then some (secs * nanos) else none
