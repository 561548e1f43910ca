-- ===== src/Macaroon/Discharge.antt =====
-- `DischargeMacaroon`: minting, binding and verification.
pub mod Laws
use secret_broker.Base.{ℕ, Bytes, Bool, false, Option, none, some, ltb, bytes_eq, not}
use secret_broker.Base.Result.{Result, ◌>>◌, guard}
use secret_broker.Text.{lit}
use secret_broker.Platform.{Platform}
use secret_broker.Macaroon.Types.{MacaroonError, expired, caveat_failed, DischargeMacaroon}

unfoldable pub mint_with_expiry :
    Platform → Bytes → Bytes → Bytes → Bytes → Option ℕ → DischargeMacaroon
mint_with_expiry p location condition discharge_key primary_signature expires_at =
    let signature = p.hmac discharge_key condition in
    record {
      location = location;
      condition = condition;
      expires_at = expires_at;
      discharge_signature = signature;
      binding = p.hmac primary_signature signature;
    }

unfoldable pub bind : Platform → DischargeMacaroon → Bytes → Bytes
bind p d primary_signature = p.hmac primary_signature d.discharge_signature

-- `deadline.is_some_and(|deadline| now > deadline)`
unfoldable pub is_past : ℕ → Option ℕ → Bool
is_past now none = false
is_past now (some deadline) = ltb deadline now

unfoldable pub verify :
    Platform → DischargeMacaroon → Bytes → Bytes → Bytes → ℕ → Result MacaroonError (Unit {0})
unfolding bind is_past
verify p d condition discharge_key primary_signature now = do
  guard (not (is_past now d.expires_at)) expired
  guard (bytes_eq (p.hmac discharge_key condition) d.discharge_signature)
      (caveat_failed (lit "discharge signature invalid"))
  guard (bytes_eq (bind p d primary_signature) d.binding)
      (caveat_failed (lit "discharge binding invalid"))
