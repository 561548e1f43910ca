-- ===== src/Store/Record.antt =====
-- The records of sealed_store.rs. Base64 texts are bytes; a JSON value is its text.
use secret_broker.Base.{
  ℕ, Bytes, Bool, true, false, Option, none, some, List, ltb, ◌==◌, if◌then◌else◌,
}

pub record SecretEnvelope : Type 0 where
  pub envelope_key_id : Bytes
  pub algorithm : Bytes
  pub ciphertext : Bytes
  pub kyber_ciphertext : Bytes
  pub customer_id : Bytes
  pub exporter_binding : Option Bytes
  pub metadata : Option Bytes
  pub created_at : ℕ

pub data SecretLifecycle : Type 0 where
  single_use_unwrap renewable_lease service_bootstrap : SecretLifecycle

-- `SecretLifecycle::from_proto_i32`, on the 32 bits
unfoldable pub from_proto_i32 : ℕ → SecretLifecycle
from_proto_i32 v =
    if v == 1 then renewable_lease else if v == 2 then service_bootstrap else single_use_unwrap

unfoldable pub is_lifecycle : SecretLifecycle → SecretLifecycle → Bool
is_lifecycle single_use_unwrap single_use_unwrap = true
is_lifecycle renewable_lease renewable_lease = true
is_lifecycle service_bootstrap service_bootstrap = true
is_lifecycle _ _ = false

pub record ShareAssignment : Type 0 where
  pub custodian_id : Bytes
  pub share_index : ℕ
  pub claimed : Bool

pub record HeldShare : Type 0 where
  pub x : ℕ
  pub y_b64 : Bytes

pub record ThirdPartyCaveatKey : Type 0 where
  pub location : Bytes
  pub key_id : Bytes
  pub condition : Option Bytes
  pub secret_b64 : Bytes
  pub created_at : ℕ

pub record ClaimResult : Type 0 where
  pub x : ℕ
  pub y : Bytes
  pub commitments : List Bytes
  pub previously_claimed : Bool

pub record StoredEnvelopeRecord : Type 0 where
  pub envelope : SecretEnvelope
  pub signature : Bytes
  pub signing_key_id : Bytes
  pub signing_public_key : Bytes
  pub signing_key_expires_at : Option ℕ
  pub expires_at : Option ℕ
  pub last_accessed : Option ℕ
  pub redeem_nonce : Option Bytes
  pub redeem_binding : Option Bytes
  pub unwrap_principal_id : Option Bytes
  pub issued_with_authenticated_transport : Bool
  pub issued_by_principal_id : Option Bytes
  pub issued_by_peer_cert_sha256 : Option Bytes
  pub issued_by_attestation_digest : Option Bytes
  pub third_party_caveat_keys : Option (List ThirdPartyCaveatKey)
  pub redeem_expires_at : Option ℕ
  pub redeem_used : Bool
  pub threshold : Option ℕ
  pub threshold_commitments : Option (List Bytes)
  pub lifecycle : SecretLifecycle
  pub lease_expires_at : Option ℕ
  pub lease_renewal_count : ℕ
  pub revoked : Bool
  pub revoked_at : Option ℕ
  pub revocation_reason : Option Bytes
  pub share_assignments : Option (List ShareAssignment)
  pub held_shares : Option (List HeldShare)

-- `self.expires_at.map(|expiry| now > expiry).unwrap_or(false)`, and other deadlines alike
unfoldable pub is_after : ℕ → Option ℕ → Bool
is_after now none = false
is_after now (some deadline) = ltb deadline now

unfoldable pub is_expired : StoredEnvelopeRecord → ℕ → Bool
unfolding is_after
is_expired r now = is_after now r.expires_at
