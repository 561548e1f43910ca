-- ===== src/Broker/Wrap/Presented.antt =====
-- What the caller of a wrap for a single use presents, and what the record has to answer to it.
use secret_broker.Base.{◌≡◌, ℕ, ◌+◌, ◌≤◌, Bytes, false, Option, some, List}
use secret_broker.Base.Result.{ok}
use secret_broker.Text.{lit}
use secret_broker.Platform.{Platform}
use secret_broker.Macaroon.Types.{Macaroon, DischargeMacaroon}
use secret_broker.Macaroon.Chain.{mint}
use secret_broker.Store.Record.{StoredEnvelopeRecord, is_after}
use secret_broker.Store.Material.{
  ciphertext_bytes, kem_ciphertext_bytes, signature_bytes, exporter_binding_bytes,
}
use secret_broker.Broker.Context.{BrokerClientContext}
use secret_broker.Broker.State.{BrokerState, macaroon_root_key}
use secret_broker.Broker.Services.{Services, EncryptionResult, KeyPair}
use secret_broker.Broker.Redeem.{UnwrapV2Request, verify_handle, may_unwrap, redeem, check_exporter}
use secret_broker.Broker.Persist.{WrapDraws}
use secret_broker.Broker.Wrap.{
  WrapV2Request, WrapSecretOutcome, normalized, or_default, wrap_caveats,
}
use secret_broker.Broker.Wrap.Admitted.{Timely}

-- The request to unwrap that presents what the wrap returned, with the fields of the wrap.
abbrev pub presented : WrapV2Request → WrapSecretOutcome → List DischargeMacaroon → UnwrapV2Request
presented request answer discharges = record {
  handle = answer.handle;
  redeem_token = answer.redeem_token;
  tenant_id = normalized request.tenant_id;
  provider = normalized request.provider;
  circuit_id = normalized request.circuit_id;
  node_id = normalized request.node_id;
  discharges = discharges;
}

abbrev pub customer_of : {Tree : Type 0} → BrokerState Tree → WrapV2Request → Bytes
customer_of s request = or_default (normalized request.customer_id) s.default_customer_id

abbrev pub macaroon_of :
    {Tree : Type 0}
    → Platform
    → BrokerClientContext
    → BrokerState Tree
    → WrapV2Request
    → WrapDraws
    → Option ℕ
    → Macaroon
macaroon_of p context s request d deadline =
    mint p (macaroon_root_key p s d.handle_id) d.handle_id (wrap_caveats p context request deadline)

-- The envelope of `r` holds what the crypto service gave for the plaintext under the key, customer
-- and exporter that an unwrap decrypts it with.
pub record Sealed {Scalar Point : Type 0} (p : Platform) (v : Services Scalar Point)
    (drawn exporter plaintext : Bytes) (r : StoredEnvelopeRecord) : Type 0 where
  pub binding : Option Bytes
  pub has_binding : exporter_binding_bytes p r ≡ some binding
  pub same_exporter : check_exporter p binding exporter ≡ ok tt
  pub encryption : EncryptionResult
  pub encrypted :
      v.crypto.encrypt_pqc drawn plaintext r.envelope.envelope_key_id r.envelope.customer_id binding
      ≡ some encryption
  pub has_ciphertext : ciphertext_bytes p r ≡ some encryption.ciphertext
  pub has_kem_cipher : kem_ciphertext_bytes p r ≡ some encryption.nonce

-- `r` carries the signature of the envelope by a key that was generated for it.
pub record SignedAs {Scalar Point : Type 0} (p : Platform) (v : Services Scalar Point)
    (drawn : Bytes) (r : StoredEnvelopeRecord) : Type 0 where
  pub keys : KeyPair
  pub generated :
      v.crypto.generate_key_pair drawn (lit "dilithium5") r.envelope.customer_id ≡ some keys
  pub has_key : p.b64_decode r.signing_public_key ≡ some keys.public_key
  pub envelope : Bytes
  pub serialized : v.envelope_to_json r.envelope ≡ some envelope
  pub signature : Bytes
  pub signs : v.crypto.sign_data envelope keys.key_id ≡ some signature
  pub has_signature : signature_bytes p r ≡ some signature

-- The request passes the checks of the handle, the record and the token at `r`.
pub record Presentable {Tree Scalar Point : Type 0} (p : Platform) (v : Services Scalar Point)
    (context : BrokerClientContext) (payload : UnwrapV2Request) (now verified_at : ℕ)
    (s : BrokerState Tree) (m : Macaroon) (r : StoredEnvelopeRecord) : Type 0 where
  pub authentic : verify_handle p s payload m verified_at r ≡ ok tt
  pub in_force : may_unwrap p context now r ≡ ok tt
  pub redeemed : redeem p v s m.identifier context.exporter now payload.redeem_token r ≡ ok tt

-- The times of the wrap and of the unwrap fit: nothing has expired in between.
pub record InTime {Tree Scalar Point : Type 0} (p : Platform) (v : Services Scalar Point)
    (s : BrokerState Tree) (request : WrapV2Request) (d : WrapDraws) (answer : WrapSecretOutcome)
    (verified_at now : ℕ) : Type 0 where
  pub handle : Timely p verified_at now answer.expires_at
  pub token : now ≤ d.created_at + s.redeem_token_ttl
  pub signing_key :
      (k : KeyPair)
      → v.crypto.generate_key_pair d.key_pair (lit "dilithium5") (customer_of s request) ≡ some k
      → is_after now k.expires_at ≡ false
