-- ===== src/Macaroon/Wire/DischargeRoundTrip.antt =====
-- A serialized discharge is read back, with its expiry cut to whole seconds.
use secret_broker.Base.{
  ℕ, zero, suc, ◌+◌, ◌-◌, ◌*◌, ◌^◌, ◌%◌, ◌/◌, ◌≤◌, ◌<◌, ◌≡◌, refl, Bytes, true, Option, none, some,
  ◌++◌, arith, length, take, drop, length-append, take-append, drop-append, take-append_of,
  drop-append_of, le→ltb, le→leb,
}
use native.Mathlib.Nat.{pow-suc}
use secret_broker.Base.Result.{ok}
use secret_broker.Text.{utf8_valid, u16_le_bytes}
use secret_broker.Text.Laws.{u16_round_trip}
use secret_broker.Platform.{Platform, IsLawful, nanos, timestamp_bits, from_timestamp}
use secret_broker.Macaroon.Types.{DischargeMacaroon}
use secret_broker.Macaroon.Wire.{
  field, le_bytes, from_le, expiry_bytes, serialize_discharge, read_signatures, read_tail,
  read_condition, read_location, deserialize_discharge,
}
use secret_broker.Macaroon.Wire.RoundTrip.{Fits, read_text-append}

-- chrono's range
abbrev pub InRange : Platform → Option ℕ → Type 0
InRange p none = Unit {0}
InRange p (some t) = t / nanos ≤ p.last

pub record IsSendable (p : Platform) (d : DischargeMacaroon) : Type 0 where
  pub location : Fits d.location
  pub condition : Fits d.condition
  pub discharge_signature : length d.discharge_signature ≡ 32
  pub binding : length d.binding ≡ 32
  pub expires_at : InRange p d.expires_at

abbrev pub whole_seconds : Option ℕ → Option ℕ
whole_seconds none = none
whole_seconds (some t) = some (t / nanos * nanos)

from_le-le_bytes : (k n : ℕ) → n < 256 ^ k → from_le (le_bytes k n) ≡ n
unfolding from_le le_bytes
from_le-le_bytes zero n h = omega arith
from_le-le_bytes (suc k) n h =
    let q : n / 256 < 256 ^ k = omega (arith, pow-suc 256 k) in
    omega (arith, from_le-le_bytes k (n / 256) q)

length-le_bytes : (k n : ℕ) → length (le_bytes k n) ≡ k
unfolding le_bytes
length-le_bytes zero n = refl
length-le_bytes (suc k) n = omega (arith, length-le_bytes k (n / 256))

timestamp_round_trip :
    (p : Platform) (t : ℕ)
    → IsLawful p
    → t / nanos ≤ p.last
    → from_timestamp p (timestamp_bits p t) ≡ some (t / nanos * nanos)
unfolding from_timestamp timestamp_bits
timestamp_round_trip p t w h =
    let secs : (((t / nanos + 2 ^ 64 - p.epoch) % 2 ^ 64) + p.epoch) % 2 ^ 64 ≡ t / nanos =
      omega (arith, w.epoch_fits, w.last_fits) in
    rw (secs, le→leb (t / nanos) p.last h)

read_signatures-append :
    (d : DischargeMacaroon) (e : Option ℕ)
    → length d.discharge_signature ≡ 32
    → read_signatures d.location d.condition e (d.discharge_signature ++ d.binding)
      ≡ record d { expires_at = e }
unfolding read_signatures
read_signatures-append d e h = rw (
  take-append_of 32 d.discharge_signature d.binding h,
  drop-append_of 32 d.discharge_signature d.binding h,
)

module _ (p : Platform) (location condition after : Bytes)
    (valid : utf8_valid condition ≡ true) where
  read_tail_64 :
      length after ≡ 64
      → read_tail p location (length condition) (condition ++ after)
        ≡ ok (read_signatures location condition none after)
  unfolding read_tail
  read_tail_64 h = rw (take-append condition after, drop-append condition after, valid, h)

  read_tail_72 :
      length after ≡ 72
      → read_tail p location (length condition) (condition ++ after)
        ≡ ok (
            read_signatures location condition
              (from_timestamp p (from_le (take 8 after)))
              (drop 8 after))
  unfolding read_tail
  read_tail_72 h = rw (take-append condition after, drop-append condition after, valid, h)

read_expiry :
    (p : Platform) (t : ℕ) (rest : Bytes)
    → IsLawful p
    → t / nanos ≤ p.last
    → from_timestamp p (from_le (take 8 (le_bytes 8 (timestamp_bits p t) ++ rest)))
      ≡ some (t / nanos * nanos)
read_expiry p t rest w h =
    rw
      (
        take-append_of 8 (le_bytes 8 (timestamp_bits p t)) rest (length-le_bytes 8 _),
        from_le-le_bytes 8 (timestamp_bits p t) (unfold timestamp_bits in omega arith),
      )
      (timestamp_round_trip p t w h)

abbrev signatures : DischargeMacaroon → Bytes
signatures d = d.discharge_signature ++ d.binding

read_tail-write :
    (p : Platform) (d : DischargeMacaroon) (e : Option ℕ)
    → IsLawful p
    → IsSendable p d
    → InRange p e
    → read_tail p d.location
        (length d.condition)
        (d.condition ++ (expiry_bytes p e ++ signatures d))
      ≡ ok (record d { expires_at = whole_seconds e })
unfolding expiry_bytes
read_tail-write p d none w h r =
    rw
      (read_tail_64 p d.location d.condition (signatures d) h.condition.1 (
        omega
          (arith, length-append d.discharge_signature d.binding, h.discharge_signature, h.binding)))
      (rw (read_signatures-append d none h.discharge_signature))
read_tail-write p d (some t) w h r =
    let expiry = le_bytes 8 (timestamp_bits p t) in
    rw
      (read_tail_72 p d.location d.condition (expiry ++ signatures d) h.condition.1 (
        omega (
          arith,
          length-append expiry (signatures d),
          length-le_bytes 8 (timestamp_bits p t),
          length-append d.discharge_signature d.binding,
          h.discharge_signature,
          h.binding,
        )))
      (rw
        (
          read_expiry p t (signatures d) w r,
          drop-append_of 8 expiry (signatures d) (length-le_bytes 8 (timestamp_bits p t)),
        )
        (rw (read_signatures-append d (some (t / nanos * nanos)) h.discharge_signature)))

module _ (p : Platform) (d : DischargeMacaroon) (w : IsLawful p) (h : IsSendable p d) where
  abbrev tail : Bytes
  tail = expiry_bytes p d.expires_at ++ signatures d

  abbrev written : DischargeMacaroon
  written = record d { expires_at = whole_seconds d.expires_at }

  read_condition-write : read_condition p d.location (field d.condition ++ tail) ≡ ok written
  unfolding read_condition u16_le_bytes
  read_condition-write =
      rw (u16_round_trip (length d.condition) h.condition.0)
        (read_tail-write p d d.expires_at w h h.expires_at)

  tail-length : 66 ≤ length (field d.condition ++ tail)
  unfolding u16_le_bytes
  tail-length = omega (
    arith,
    length-append d.condition tail,
    length-append (expiry_bytes p d.expires_at) (signatures d),
    length-append d.discharge_signature d.binding,
    h.discharge_signature,
    h.binding,
  )

  read_location-write :
      read_location p (field d.location ++ (field d.condition ++ tail)) ≡ ok written
  unfolding read_location u16_le_bytes
  read_location-write =
      let rest = field d.condition ++ tail in
      rw (u16_round_trip (length d.location) h.location.0) (
        rw
          (le→ltb (length (d.location ++ rest)) (length d.location + 2 + 64)
            (omega (arith, length-append d.location rest, tail-length)))
          (rw (read_text-append d.location rest h.location.1) read_condition-write))

  -- A discharge token is read back, with its expiry cut to whole seconds, where its location and
  -- condition are well-formed and shorter than 2 ^ 16 bytes, its signatures have 32 bytes each and
  -- its expiry is in the range of chrono.
  pub deserialize_discharge-serialize_discharge :
      deserialize_discharge p (serialize_discharge p d)
      ≡ ok (record d { expires_at = whole_seconds d.expires_at })
  unfolding serialize_discharge deserialize_discharge
  deserialize_discharge-serialize_discharge =
      let whole = field d.location ++ (field d.condition ++ tail) in
      rw (w.b64_round_trip whole) (
        rw
          (le→ltb (length whole) 68 (
            unfold u16_le_bytes in
            omega (arith, length-append d.location (field d.condition ++ tail), tail-length)))
          read_location-write)
