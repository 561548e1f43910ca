-- ===== src/Store/Material.antt =====
-- The decoding methods of `StoredEnvelopeRecord`. Each gives nothing where the source fails.
use secret_broker.Base.{Bytes, Option, none, some}
use secret_broker.Platform.{Platform}
use secret_broker.Store.Record.{StoredEnvelopeRecord}

module _ (p : Platform) (r : StoredEnvelopeRecord) where
  unfoldable pub ciphertext_bytes : Option Bytes
  ciphertext_bytes = p.b64_decode r.envelope.ciphertext

  unfoldable pub kem_ciphertext_bytes : Option Bytes
  kem_ciphertext_bytes = p.b64_decode r.envelope.kyber_ciphertext

  unfoldable pub signature_bytes : Option Bytes
  signature_bytes = p.b64_decode r.signature

  abbrev decoded_binding : Option Bytes → Option (Option Bytes)
  decoded_binding none = some none
  decoded_binding (some binding) = elim (p.b64_decode binding) [
    | none ↦ none
    | some bytes ↦ some (some bytes)
  ]

  unfoldable pub exporter_binding_bytes : Option (Option Bytes)
  exporter_binding_bytes = decoded_binding r.envelope.exporter_binding
