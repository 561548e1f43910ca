-- ===== src/Broker/Services.antt =====
-- What the wrapping and unwrapping handlers call besides the store and the log: the crypto service
-- and serde_json, which fail with nothing.
use secret_broker.Base.{ℕ, Bytes, Bool, List, Option}
use secret_broker.Store.Record.{SecretEnvelope}
use secret_broker.Threshold.{Share}
use secret_broker.Threshold.P256.{Curve}

pub record EncryptionResult : Type 0 where
  pub ciphertext : Bytes
  pub nonce : Bytes
  pub algorithm : Bytes

pub record KeyPair : Type 0 where
  pub key_id : Bytes
  pub public_key : Bytes
  pub expires_at : Option ℕ

-- The service as one run of a handler finds it: the answers that its calls give in that run. It
-- keeps keys between the runs, so two runs have two of these, and nothing relates them here.
-- Arguments are in the source's order, after what the call draws at random where it does:
-- `encrypt_pqc drawn plaintext key_id customer_id exporter_secret` and
-- `decrypt_pqc ciphertext kem_ciphertext key_id customer_id exporter_secret`,
-- `generate_key_pair drawn algorithm customer_id`, `sign_data bytes key_id`, and
-- `verify_persisted_envelope_signature bytes signature public_key`.
pub record CryptoService : Type 0 where
  pub encrypt_pqc : Bytes → Bytes → Bytes → Bytes → Option Bytes → Option EncryptionResult
  pub decrypt_pqc : Bytes → Bytes → Bytes → Bytes → Option Bytes → Option Bytes
  pub generate_key_pair : Bytes → Bytes → Bytes → Option KeyPair
  pub sign_data : Bytes → Bytes → Option Bytes
  pub verify_persisted_envelope_signature : Bytes → Bytes → Bytes → Option Bool

pub record Services (Scalar Point : Type 0) : Type 0 where
  pub crypto : CryptoService
  pub curve : Curve Scalar Point
  pub envelope_to_json : SecretEnvelope → Option Bytes
  pub shares_to_json : List Share → Option Bytes
  pub shares_from_json : Bytes → Option (List Share)
