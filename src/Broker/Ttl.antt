-- ===== src/Broker/Ttl.antt =====
-- `enforce_ttl`, with its cast of a `u64` to an `i64` written out.
pub mod Bounds
use secret_broker.Base.{
  ℕ, ◌+◌, ◌-◌, ◌*◌, ◌/◌, ◌^◌, Bool, false, ◌&&◌, Option, none, some, ltb, leb, ◌==◌, if◌then◌else◌,
}
use secret_broker.Base.Result.{Result, ok, err}
use secret_broker.Platform.{Platform, nanos}
use secret_broker.Broker.Context.{ServiceError, invalid_ttl}

-- The expiry and the seconds.
abbrev pub Ttl : Type 0
Ttl = Option ℕ × Option ℕ

-- an `i64`: a number, or how far it is below zero
pub data Signed : Type 0 where
  positive negative : ℕ → Signed

-- `secs as i64`
unfoldable pub as_i64 : ℕ → Signed
as_i64 secs = if leb (2 ^ 63) secs then negative (2 ^ 64 - secs) else positive secs

-- `secs > max_allowed`
unfoldable pub exceeds : Signed → ℕ → Bool
exceeds (positive secs) max_allowed = ltb max_allowed secs
exceeds (negative secs) max_allowed = false

-- chrono's greatest `Duration`, in whole seconds: `i64::MAX` milliseconds
abbrev pub longest : ℕ
longest = (2 ^ 63 - 1) / 1000

-- chrono's greatest time
abbrev pub latest : Platform → ℕ
latest p = p.last * nanos + (nanos - 1)

-- `time + Duration::seconds(secs)`; `none` is the panic on a duration or a time that chrono cannot
-- represent.
unfoldable pub plus_seconds : Platform → ℕ → Signed → Option ℕ
plus_seconds p time (positive secs) =
    if leb secs longest && leb (time + secs * nanos) (latest p)
    then some (time + secs * nanos)
    else none
plus_seconds p time (negative secs) =
    if leb secs longest && leb (secs * nanos) time then some (time - secs * nanos) else none

abbrev with_expiry : ℕ → Option ℕ → Option (Result ServiceError Ttl)
with_expiry secs none = none
with_expiry secs (some t) = some (ok (some t, some secs))

-- `max_allowed` is `state.max_handle_ttl().num_seconds()`. `none` is a panic.
unfoldable pub enforce_ttl : Platform → Option ℕ → ℕ → ℕ → Option (Result ServiceError Ttl)
unfolding as_i64 exceeds plus_seconds
enforce_ttl p none max_allowed created_at = some (ok (none, none))
enforce_ttl p (some secs) max_allowed created_at =
    if secs == 0
    then some (err invalid_ttl)
    else if exceeds (as_i64 secs) max_allowed
    then some (err invalid_ttl)
    else with_expiry secs (plus_seconds p created_at (as_i64 secs))
