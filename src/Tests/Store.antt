-- ===== src/Tests/Store.antt =====
-- The store's theorems on a tree with one record.
use secret_broker.Base.{◌≡◌, refl, bytes_eq, Bytes, true, false, none, some, [], ◌∷◌}
use secret_broker.Base.Result.{ok}
use secret_broker.Text.{lit}
use secret_broker.Store.Record.{StoredEnvelopeRecord, single_use_unwrap}
use secret_broker.Store.Ops.{seal, read_record, touch}
use secret_broker.Store.Spec.{RecordMap, put, claims, run, spec}
use secret_broker.Store.Refinement.{
  Represents, Seals, Agree, Represents-write, unseal-seal, run-Agree,
}
use secret_broker.Store.Race.{revoke_during_load, revoke_during_load-lost}
use secret_broker.Tests.Toy.{toy, toy-IsLawful}
use secret_broker.Tests.Backend.{Table, toy_backend, toy_backend-IsBackend}

abbrev pub nonce : Bytes
nonce = lit "twelve bytes"

abbrev handle : Bytes
handle = lit "h1"

abbrev pub kept : StoredEnvelopeRecord
kept = record {
  envelope = record {
    envelope_key_id = lit "k";
    algorithm = lit "A256GCM";
    ciphertext = 1 ∷ 2 ∷ [];
    kyber_ciphertext = [];
    customer_id = lit "acme";
    exporter_binding = none;
    metadata = none;
    created_at = 1;
  };
  signature = [];
  signing_key_id = lit "s";
  signing_public_key = [];
  signing_key_expires_at = none;
  expires_at = some 90;
  last_accessed = none;
  redeem_nonce = some (lit "n");
  redeem_binding = none;
  unwrap_principal_id = none;
  issued_with_authenticated_transport = true;
  issued_by_principal_id = none;
  issued_by_peer_cert_sha256 = none;
  issued_by_attestation_digest = none;
  third_party_caveat_keys = none;
  redeem_expires_at = some 80;
  redeem_used = false;
  threshold = some 1;
  threshold_commitments = some (lit "c" ∷ []);
  lifecycle = single_use_unwrap;
  lease_expires_at = none;
  lease_renewal_count = 0;
  revoked = false;
  revoked_at = none;
  revocation_reason = none;
  share_assignments =
      some (record { custodian_id = lit "ann"; share_index = 1; claimed = false } ∷ []);
  held_shares = some (record { x = 1; y_b64 = lit "y" } ∷ []);
}

abbrev pub sealed : StoredEnvelopeRecord → Bytes
sealed r = toy_backend.disk_to_json (record {
  nonce = toy.b64_encode nonce;
  ciphertext = toy.b64_encode (toy_backend.record_to_json r);
})

abbrev pub empty : Table
empty = λ j. none

abbrev pub tree_of : Bytes → StoredEnvelopeRecord → Table
tree_of h r = toy_backend.insert empty h (sealed r)

abbrev pub records_of : Bytes → StoredEnvelopeRecord → RecordMap
records_of h r = put (λ j. none) h (some r)

empty-Represents : Represents toy toy_backend empty (λ j. none)
empty-Represents = record { at_handle = λ j. tt }

pub toy-Seals : Seals toy toy_backend nonce
unfolding seal
toy-Seals r = (_, refl)

seal-sealed : (r : StoredEnvelopeRecord) → seal toy toy_backend nonce r ≡ ok (sealed r)
unfolding seal
seal-sealed r = refl

pub tree_of-Represents :
    (h : Bytes) (r : StoredEnvelopeRecord)
    → Represents toy toy_backend (tree_of h r) (records_of h r)
tree_of-Represents h r =
    Represents-write toy toy_backend toy-IsLawful toy_backend-IsBackend empty (λ j. none)
      empty-Represents h (sealed r) r
      (unseal-seal toy toy_backend toy-IsLawful toy_backend-IsBackend nonce (sealed r) r refl
        (seal-sealed r))

abbrev tree : Table
tree = tree_of handle kept

abbrev records : RecordMap
records = records_of handle kept

tree-Represents : Represents toy toy_backend tree records
tree-Represents = tree_of-Represents handle kept

run-Agree_example :
    Agree toy toy_backend
      (run toy toy_backend nonce handle (claims (lit "ann")) tree)
      (spec toy handle (claims (lit "ann")) records)
run-Agree_example =
    run-Agree toy toy_backend toy-IsLawful toy_backend-IsBackend tree records tree-Represents handle
      nonce refl toy-Seals (claims (lit "ann"))

revoke_during_load-lost_example :
    (t : Table) × (revoke_during_load toy toy_backend tree handle 41
        (some (lit "leaked"))
        40
        nonce
        nonce
      ≡ ok (t, true))
    × (read_record toy toy_backend t handle ≡ ok (touch 41 kept))
revoke_during_load-lost_example =
    revoke_during_load-lost toy toy_backend toy-IsLawful toy_backend-IsBackend tree records handle
      kept 41 40 (some (lit "leaked")) nonce nonce tree-Represents (unfold bytes_eq in refl) refl
      refl toy-Seals toy-Seals
