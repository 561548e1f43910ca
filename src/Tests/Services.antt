-- ===== src/Tests/Services.antt =====
-- A crypto service for examples: a ciphertext is its plaintext, and a signature is what it signs
-- with the key.
use secret_broker.Base.{none, some, [], ◌++◌, bytes_eq}
use secret_broker.Store.Record.{SecretEnvelope}
use secret_broker.Broker.Services.{CryptoService, Services}
use secret_broker.Tests.Curve.{Trit, trits}

abbrev pub toy_crypto : CryptoService
toy_crypto = record {
  encrypt_pqc = λ drawn plaintext key_id customer_id exporter.
      some (record { ciphertext = plaintext; nonce = []; algorithm = [] });
  decrypt_pqc = λ ciphertext kem key_id customer_id exporter. some ciphertext;
  generate_key_pair = λ drawn algorithm customer_id.
      some (record { key_id = drawn; public_key = drawn; expires_at = none });
  sign_data = λ bytes key_id. some (bytes ++ key_id);
  verify_persisted_envelope_signature =
      λ bytes signature key. some (bytes_eq signature (bytes ++ key));
}

abbrev pub services : Services Trit Trit
services = record {
  crypto = toy_crypto;
  curve = trits;
  envelope_to_json = λ (e : SecretEnvelope). some e.envelope_key_id;
  shares_to_json = λ s. none;
  shares_from_json = λ s. none;
}
