-- ===== src/Broker/Context.antt =====
-- `BrokerClientContext` of mod.rs, what the broker knows of a caller, and `ServiceError`.
use secret_broker.Base.{Bytes, Bool, true, Option, none, some}
use secret_broker.Text.{trim, nonblank}

-- A wrapped error is kept as its kind.
pub data ServiceError : Type 0 where
  invalid_base64 serialization signature_invalid crypto handle_not_found invalid_handle
        expired_handle :
      ServiceError
  storage invalid_ttl exporter_binding_mismatch database : ServiceError
  unavailable : Bytes → ServiceError
  redeem_token_invalid redeem_token_expired redeem_token_used revoked_handle : ServiceError
  invalid_attenuation : Bytes → ServiceError
  unauthenticated_transport authenticated_principal_required principal_mismatch : ServiceError
  peer_cert_mismatch attestation_mismatch : ServiceError
  missing_lineage : Bytes → ServiceError
  unauthorized_discharge_principal : ServiceError

pub record BrokerClientContext : Type 0 where
  pub exporter : Bytes
  pub session_id : Option Bytes
  pub principal_id : Option Bytes
  pub authenticated_transport : Bool
  pub peer_cert_sha256 : Option Bytes
  pub attestation_digest : Option Bytes

-- `.map(str::trim).filter(|value| !value.is_empty())`
unfoldable pub cleaned : Option Bytes → Option Bytes
cleaned none = none
cleaned (some value) = nonblank (trim value)

abbrev filled : Option Bytes → Option Bytes
filled none = none
filled (some value) = nonblank value

unfoldable pub from_tls_exporter :
    Bytes → Option Bytes → Option Bytes → Option Bytes → Option Bytes → BrokerClientContext
unfolding cleaned
from_tls_exporter exporter session_id principal_id peer_cert_sha256 attestation_digest = record {
  exporter = exporter;
  session_id = session_id;
  principal_id = cleaned principal_id;
  authenticated_transport = true;
  peer_cert_sha256 = filled peer_cert_sha256;
  attestation_digest = attestation_digest;
}
