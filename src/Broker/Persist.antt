-- ===== src/Broker/Persist.antt =====
-- `persist_secret_v2_with_lifecycle`. An action that answers `none` stands for a panic of chrono,
-- which comes before the store is changed.
pub mod Done
pub mod Redeemable
use secret_broker.Base.{
  ℕ, ◌+◌, ◌-◌, ◌*◌, ◌^◌, Bytes, Bool, true, false, ◌&&◌, Option, none, some, List, [], ◌∷◌, ◌++◌,
  ltb, leb, if◌then◌else◌,
}
use secret_broker.Base.Result.{Result, ok, ok_or}
use secret_broker.Text.{lit, trim, nonblank}
use secret_broker.Platform.{Platform, nanos}
use secret_broker.Macaroon.Types.{
  Caveat, Macaroon, tenant_id, provider, circuit_id, node_id, expires, action, max_uses,
}
use secret_broker.Macaroon.Chain.{mint}
use secret_broker.Macaroon.Wire.{serialize}
use secret_broker.Transparency.Json.{Json, text, num, raw, Meta, insert}
use secret_broker.Transparency.Event
use secret_broker.Transparency.Logger.{EventJson}
use secret_broker.Store.Record.{
  SecretEnvelope, SecretLifecycle, single_use_unwrap, is_lifecycle, StoredEnvelopeRecord,
}
use secret_broker.Store.Backend.{Backend}
use secret_broker.Store.Ops.{insert_with_id}
use secret_broker.Broker.Context.{ServiceError, crypto, serialization, BrokerClientContext, cleaned}
use secret_broker.Broker.Identity.{v2_unwrap_principal}
use secret_broker.Broker.State.{
  BrokerState, macaroon_root_key, compute_redeem_token, record_transparency,
}
use secret_broker.Broker.Action.{Action, ◌>>=◌, ◌>>◌, pure, lift, stored, get, modify}
use secret_broker.Broker.Meta.{
  append_context_transparency_meta, insert_some, secret_lifecycle_label,
}
use secret_broker.Broker.Ttl.{as_i64, plus_seconds}
use secret_broker.Broker.Services.{Services, EncryptionResult, KeyPair}
use secret_broker.Broker.Lifecycle.{caller}
use secret_broker.Broker.Unwrap.{unit_call}

pub record StoredSecretOutcome : Type 0 where
  pub handle_id : Bytes
  pub customer_id : Bytes
  pub expires_at : Option ℕ
  pub envelope_key_id : Bytes
  pub redeem_token : Bytes
  pub redeem_token_expires_at : Option ℕ

pub record PersistSecretV2Input : Type 0 where
  pub plaintext : Bytes
  pub customer_id : Bytes
  pub metadata : Option Bytes
  pub created_at : ℕ
  pub expires_at : Option ℕ
  pub lifecycle : SecretLifecycle
  pub initial_lease_seconds : Option ℕ
  pub unwrap_principal_id : Option Bytes

-- What a run draws, and the times that it reads.
pub record WrapDraws : Type 0 where
  pub handle_id : Bytes
  pub redeem_nonce : Bytes
  pub envelope_key_id : Bytes
  pub encryption : Bytes
  pub key_pair : Bytes
  pub nonce : Bytes
  pub created_at : ℕ
  pub recorded_at : ℕ

-- `created_at + Duration::seconds(secs as i64)`
unfoldable pub lease_end : Platform → ℕ → ℕ → Option ℕ
unfolding as_i64 plus_seconds
lease_end p created_at secs = plus_seconds p created_at (as_i64 secs)

-- The record's lease; the outer `none` is the panic.
unfoldable pub initial_lease : Platform → ℕ → Option ℕ → Option (Option ℕ)
unfolding lease_end
initial_lease p created_at none = some none
initial_lease p created_at (some secs) = elim (lease_end p created_at secs) [
  | none ↦ none
  | some t ↦ some (some t)
]

-- what the `match` on the lifecycle yields
pub record Bindings : Type 0 where
  pub binding : Bytes
  pub redeem_binding : Option Bytes
  pub exporter_binding : Option Bytes
  pub exporter_secret : Option Bytes

module _ (p : Platform) (context : BrokerClientContext) where
  unfoldable pub bindings : SecretLifecycle → Bindings
  unfolding is_lifecycle
  bindings lifecycle =
      if is_lifecycle lifecycle single_use_unwrap
      then record {
        binding = p.sha256 context.exporter;
        redeem_binding = some (p.b64_encode (p.sha256 context.exporter));
        exporter_binding = some (p.b64_encode context.exporter);
        exporter_secret = some context.exporter;
      }
      else record {
        binding = [];
        redeem_binding = none;
        exporter_binding = none;
        exporter_secret = none;
      }

  abbrev encoded : Option Bytes → Option Bytes
  encoded none = none
  encoded (some value) = some (p.b64_encode value)

  unfoldable pub new_envelope : PersistSecretV2Input → WrapDraws → EncryptionResult → SecretEnvelope
  unfolding bindings
  new_envelope input d e = record {
    envelope_key_id = d.envelope_key_id;
    algorithm = e.algorithm;
    ciphertext = p.b64_encode e.ciphertext;
    kyber_ciphertext = p.b64_encode e.nonce;
    customer_id = input.customer_id;
    exporter_binding = (bindings input.lifecycle).exporter_binding;
    metadata = input.metadata;
    created_at = input.created_at;
  }

  unfoldable pub new_record :
      PersistSecretV2Input
      → WrapDraws
      → SecretEnvelope
      → KeyPair
      → Bytes
      → ℕ
      → Option ℕ
      → StoredEnvelopeRecord
  unfolding bindings cleaned
  new_record input d envelope keys signature redeem_expires_at lease_expires_at = record {
    envelope = envelope;
    signature = p.b64_encode signature;
    signing_key_id = keys.key_id;
    signing_public_key = p.b64_encode keys.public_key;
    signing_key_expires_at = keys.expires_at;
    expires_at = input.expires_at;
    last_accessed = none;
    redeem_nonce = some (p.b64_encode d.redeem_nonce);
    redeem_binding = (bindings input.lifecycle).redeem_binding;
    unwrap_principal_id = input.unwrap_principal_id;
    issued_with_authenticated_transport = context.authenticated_transport;
    issued_by_principal_id = cleaned context.principal_id;
    issued_by_peer_cert_sha256 = encoded context.peer_cert_sha256;
    issued_by_attestation_digest = encoded context.attestation_digest;
    third_party_caveat_keys = none;
    redeem_expires_at = some redeem_expires_at;
    redeem_used = false;
    threshold = none;
    threshold_commitments = none;
    lifecycle = input.lifecycle;
    lease_expires_at = lease_expires_at;
    lease_renewal_count = 0;
    revoked = false;
    revoked_at = none;
    revocation_reason = none;
    share_assignments = none;
    held_shares = none;
  }

-- after the encryption: the key pair, the signature and the store
module _ {Tree Scalar Point : Type 0} (p : Platform) (b : Backend Tree) (v : Services Scalar Point)
    (context : BrokerClientContext) where
  -- `insert_with_id` of the finished record
  unfoldable pub insert_record : Bytes → Bytes → StoredEnvelopeRecord → Action Tree (Unit {0})
  insert_record id nonce r s =
      stored s (unit_call p b (insert_with_id p b s.sealed_store id nonce r))

  unfoldable pub persist_record :
      PersistSecretV2Input
      → WrapDraws
      → StoredSecretOutcome
      → ℕ
      → SecretEnvelope
      → KeyPair
      → Bytes
      → Option (Option ℕ)
      → Action Tree (Option StoredSecretOutcome)
  unfolding insert_record new_record
  persist_record input d outcome redeem_expires_at envelope keys signature none = pure none
  persist_record input d outcome redeem_expires_at envelope keys signature (some lease) = do
    insert_record d.handle_id d.nonce
        (new_record p context input d envelope keys signature redeem_expires_at lease)
    pure (some outcome)

  -- The state's lifetime of redeem tokens is taken to end at a time that chrono can represent.
  unfoldable pub persist_secret_v2_with_lifecycle :
      PersistSecretV2Input → WrapDraws → Action Tree (Option StoredSecretOutcome)
  unfolding bindings new_envelope persist_record initial_lease
  persist_secret_v2_with_lifecycle input d = do
    s ← get
    let bound = bindings p context input.lifecycle
    let redeem_expires_at = input.created_at + s.redeem_token_ttl
    let token = compute_redeem_token p s d.handle_id bound.binding d.redeem_nonce
    encryption ← lift (
        ok_or
          (v.crypto.encrypt_pqc d.encryption input.plaintext d.envelope_key_id input.customer_id
            bound.exporter_secret)
          crypto)
    let envelope = new_envelope p context input d encryption
    keys ←
        lift (
          ok_or (v.crypto.generate_key_pair d.key_pair (lit "dilithium5") input.customer_id) crypto)
    bytes ← lift (ok_or (v.envelope_to_json envelope) serialization)
    signature ← lift (ok_or (v.crypto.sign_data bytes keys.key_id) crypto)
    persist_record input d
        (record {
          handle_id = d.handle_id;
          customer_id = input.customer_id;
          expires_at = input.expires_at;
          envelope_key_id = d.envelope_key_id;
          redeem_token = p.b64_encode token;
          redeem_token_expires_at = some redeem_expires_at;
        })
        redeem_expires_at envelope keys signature
        (initial_lease p input.created_at input.initial_lease_seconds)
