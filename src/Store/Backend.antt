-- ===== src/Store/Backend.antt =====
-- What the sealed store calls and does not implement: the sled tree, AES-256-GCM under the store's
-- master key, and serde_json. Input and output do not fail here.
use secret_broker.Base.{◌≡◌, Bytes, Option, none, some, length, bytes_eq, if◌then◌else◌}
use secret_broker.Store.Record.{StoredEnvelopeRecord}

pub record EncryptedRecord : Type 0 where
  pub nonce : Bytes
  pub ciphertext : Bytes

pub record Backend (Tree : Type 0) : Type 0 where
  pub get : Tree → Bytes → Option Bytes
  pub insert : Tree → Bytes → Bytes → Tree
  pub remove : Tree → Bytes → Tree
  pub encrypt : Bytes → Bytes → Option Bytes
  pub decrypt : Bytes → Bytes → Option Bytes
  pub record_to_json : StoredEnvelopeRecord → Bytes
  pub record_from_json : Bytes → Option StoredEnvelopeRecord
  pub disk_to_json : EncryptedRecord → Bytes
  pub disk_from_json : Bytes → Option EncryptedRecord

-- Documented behaviour.
pub record IsBackend {Tree : Type 0} (b : Backend Tree) : Type 0 where
  pub get-insert :
      (t : Tree) (k v j : Bytes)
      → b.get (b.insert t k v) j ≡ (if bytes_eq k j then some v else b.get t j)
  pub get-remove :
      (t : Tree) (k j : Bytes) → b.get (b.remove t k) j ≡ (if bytes_eq k j then none else b.get t j)
  pub decrypts :
      (nonce text cipher : Bytes)
      → length nonce ≡ 12
      → b.encrypt nonce text ≡ some cipher
      → b.decrypt nonce cipher ≡ some text
  pub record_json : (r : StoredEnvelopeRecord) → b.record_from_json (b.record_to_json r) ≡ some r
  pub disk_json : (d : EncryptedRecord) → b.disk_from_json (b.disk_to_json d) ≡ some d
