-- ===== src/Broker/Redeem.antt =====
-- The decisions of `unwrap_secret_v2_impl`, in the order of the source.
use secret_broker.Base.{
  ℕ, Bytes, Bool, ◌||◌, not, Option, none, some, List, [], ◌∷◌, length, bytes_eq, ltb, ◌==◌,
  if◌then◌else◌,
}
use secret_broker.Base.Result.{Result, ok, ◌>>=◌, ◌>>◌, ok_or, guard, map_err}
use secret_broker.Text.{lit}
use secret_broker.Platform.{Platform}
use secret_broker.Macaroon.Types.{
  MacaroonError, Macaroon, DischargeMacaroon, signature_invalid, expired,
}
use secret_broker.Macaroon.Chain.{verify}
use secret_broker.Store.Record.{
  StoredEnvelopeRecord, is_lifecycle, renewable_lease, is_expired, is_after,
}
use secret_broker.Store.Material.{
  ciphertext_bytes, kem_ciphertext_bytes, signature_bytes, exporter_binding_bytes,
}
use secret_broker.Threshold.{share_length, canonical_secret_bytes, reconstruct}
use secret_broker.Broker.Context.{
  ServiceError, storage, crypto, expired_handle, revoked_handle, redeem_token_invalid,
  redeem_token_expired, redeem_token_used, exporter_binding_mismatch, BrokerClientContext,
}
use secret_broker.Broker.Identity.{validate_v2_record_identity_requirements, is_single_use}
use secret_broker.Broker.Keys.{discharge_keys_for_record}
use secret_broker.Broker.State.{BrokerState, macaroon_root_key, compute_redeem_token}
use secret_broker.Broker.Services.{Services}

pub record UnwrapV2Request : Type 0 where
  pub handle : Bytes
  pub redeem_token : Bytes
  pub tenant_id : Option Bytes
  pub provider : Option Bytes
  pub circuit_id : Option Bytes
  pub node_id : Option Bytes
  pub discharges : List DischargeMacaroon

unfoldable pub macaroon_failure : MacaroonError → ServiceError
macaroon_failure signature_invalid = ServiceError.invalid_handle
macaroon_failure expired = expired_handle
macaroon_failure _ = crypto

abbrev pub is_renewable : StoredEnvelopeRecord → Bool
is_renewable r = is_lifecycle r.lifecycle renewable_lease

-- `record.threshold.unwrap_or(1)`
abbrev pub threshold_or_one : Option ℕ → ℕ
threshold_or_one none = 1
threshold_or_one (some k) = k

module _ (p : Platform) where
  -- the verification of the macaroon's chain and caveats
  unfoldable pub verify_handle :
      {Tree : Type 0}
      → BrokerState Tree
      → UnwrapV2Request
      → Macaroon
      → ℕ
      → StoredEnvelopeRecord
      → Result ServiceError (Unit {0})
  verify_handle s payload m now r = do
    keys ← discharge_keys_for_record p r
    map_err macaroon_failure (
        verify p m (macaroon_root_key p s m.identifier) (record {
          tenant_id = payload.tenant_id;
          provider = payload.provider;
          circuit_id = payload.circuit_id;
          node_id = payload.node_id;
          action = some (lit "unwrap");
          use_count = 1;
          now = now;
          discharges = payload.discharges;
          discharge_keys = keys;
        }))

  -- the checks of the record before its signature
  unfoldable pub may_unwrap :
      BrokerClientContext → ℕ → StoredEnvelopeRecord → Result ServiceError (Unit {0})
  unfolding is_lifecycle is_expired is_after
  may_unwrap context now r = do
    guard (not r.revoked) revoked_handle
    guard (not (is_expired r now)) expired_handle
    validate_v2_record_identity_requirements p r context
    guard (not (is_renewable r) || not (is_after now r.lease_expires_at)) crypto
    guard (not (is_after now r.signing_key_expires_at)) crypto

  unfoldable pub effective_binding : StoredEnvelopeRecord → Bytes → Result ServiceError Bytes
  unfolding is_lifecycle
  effective_binding r exporter = elim r.redeem_binding [
    | none ↦ guard (not (is_single_use r)) redeem_token_invalid >> ok []
    | some binding ↦ elim binding [
      | [] ↦ guard (not (is_single_use r)) redeem_token_invalid >> ok []
      | x ∷ xs ↦
          guard (bytes_eq (x ∷ xs) (p.b64_encode (p.sha256 exporter))) redeem_token_invalid
          >> ok (p.sha256 exporter)
    ]
  ]

  unfoldable pub decode_all : List Bytes → Result ServiceError (List Bytes)
  decode_all [] = ok []
  decode_all (text ∷ texts) = do
    bytes ← ok_or (p.b64_decode text) redeem_token_invalid
    rest ← decode_all texts
    ok (bytes ∷ rest)

  unfoldable pub check_exporter : Option Bytes → Bytes → Result ServiceError (Unit {0})
  check_exporter none exporter = ok tt
  check_exporter (some binding) exporter =
      guard (bytes_eq binding exporter) exporter_binding_mismatch

module _ {Scalar Point : Type 0} (p : Platform) (v : Services Scalar Point) where
  unfoldable pub verify_envelope : StoredEnvelopeRecord → Result ServiceError (Unit {0})
  unfolding signature_bytes
  verify_envelope r = do
    envelope ← ok_or (v.envelope_to_json r.envelope) storage
    signature ← ok_or (signature_bytes p r) storage
    key ← ok_or (p.b64_decode r.signing_public_key) ServiceError.signature_invalid
    verified ← ok_or (v.crypto.verify_persisted_envelope_signature envelope signature key) crypto
    guard verified ServiceError.signature_invalid

  -- The token that the request gives, put together from its shares under a threshold.
  unfoldable pub provided_token : StoredEnvelopeRecord → Bytes → Result ServiceError Bytes
  unfolding decode_all reconstruct
  provided_token r given =
      let k = threshold_or_one r.threshold in
      if ltb 1 k
      then (do
        shares ← ok_or (v.shares_from_json given) redeem_token_invalid
        texts ← ok_or r.threshold_commitments redeem_token_invalid
        commitments ← decode_all p texts
        map_err (λ _. redeem_token_invalid) (reconstruct v.curve shares k commitments))
      else ok_or (p.b64_decode given) redeem_token_invalid

  unfoldable pub expected_token : StoredEnvelopeRecord → Bytes → Result ServiceError Bytes
  unfolding canonical_secret_bytes
  expected_token r token =
      if ltb 1 (threshold_or_one r.threshold)
      then (guard (length token == share_length) redeem_token_invalid
          >> ok (canonical_secret_bytes v.curve token))
      else ok token

  -- the verification of the redeem token
  unfoldable pub redeem :
      {Tree : Type 0}
      → BrokerState Tree
      → Bytes
      → Bytes
      → ℕ
      → Bytes
      → StoredEnvelopeRecord
      → Result ServiceError (Unit {0})
  unfolding effective_binding provided_token expected_token is_after
  redeem s id exporter now given r = do
    nonce_b64 ← ok_or r.redeem_nonce redeem_token_invalid
    binding ← effective_binding p r exporter
    guard (is_renewable r || not r.redeem_used) redeem_token_used
    deadline ← ok_or r.redeem_expires_at redeem_token_invalid
    guard (not (ltb deadline now)) redeem_token_expired
    nonce ← ok_or (p.b64_decode nonce_b64) redeem_token_invalid
    provided ← provided_token r given
    expected ← expected_token r (compute_redeem_token p s id binding nonce)
    guard (bytes_eq provided expected) redeem_token_invalid

  -- the exporter binding and the decryption
  unfoldable pub open_envelope : Bytes → StoredEnvelopeRecord → Result ServiceError Bytes
  unfolding check_exporter ciphertext_bytes kem_ciphertext_bytes exporter_binding_bytes
  open_envelope exporter r = do
    binding ← ok_or (exporter_binding_bytes p r) storage
    check_exporter p binding exporter
    ciphertext ← ok_or (ciphertext_bytes p r) storage
    kem_cipher ← ok_or (kem_ciphertext_bytes p r) storage
    ok_or
        (v.crypto.decrypt_pqc ciphertext kem_cipher r.envelope.envelope_key_id
          r.envelope.customer_id binding)
        crypto
