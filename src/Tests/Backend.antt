-- ===== src/Tests/Backend.antt =====
-- A sealed store's backend that has the documented laws: a function for the tree, and a cipher that
-- keeps the text.
use secret_broker.Base.{
  ℕ, zero, suc, arith, ◌≡◌, refl, Bytes, Option, none, some, [], bytes_eq, if◌then◌else◌,
}
use secret_broker.Store.Record.{
  SecretEnvelope, SecretLifecycle, single_use_unwrap, renewable_lease, service_bootstrap,
  StoredEnvelopeRecord, ShareAssignment, HeldShare, ThirdPartyCaveatKey,
}
use secret_broker.Store.Backend.{Backend, IsBackend, EncryptedRecord}
use secret_broker.Tests.Codec.{Codec, number, via, pair, list, option, boolean, bytes}

abbrev pub lifecycle_number : SecretLifecycle → ℕ
lifecycle_number single_use_unwrap = 0
lifecycle_number renewable_lease = 1
lifecycle_number service_bootstrap = 2

abbrev pub number_lifecycle : ℕ → SecretLifecycle
number_lifecycle (suc zero) = renewable_lease
number_lifecycle (suc (suc zero)) = service_bootstrap
number_lifecycle _ = single_use_unwrap

pub lifecycle_back : (l : SecretLifecycle) → number_lifecycle (lifecycle_number l) ≡ l
lifecycle_back single_use_unwrap = refl
lifecycle_back renewable_lease = refl
lifecycle_back service_bootstrap = refl

abbrev lifecycle : Codec SecretLifecycle
lifecycle = via number lifecycle_number number_lifecycle lifecycle_back

abbrev envelope : Codec SecretEnvelope
envelope =
    via
      (pair bytes (
        pair bytes (
          pair bytes (pair bytes (pair bytes (pair (option bytes) (pair (option bytes) number)))))))
      (λ r. (
        r.envelope_key_id,
        (
          r.algorithm,
          (
            r.ciphertext,
            (r.kyber_ciphertext, (r.customer_id, (r.exporter_binding, (r.metadata, r.created_at)))),
          ),
        ),
      ))
      (λ q. record {
        envelope_key_id = q.0;
        algorithm = q.1.0;
        ciphertext = q.1.1.0;
        kyber_ciphertext = q.1.1.1.0;
        customer_id = q.1.1.1.1.0;
        exporter_binding = q.1.1.1.1.1.0;
        metadata = q.1.1.1.1.1.1.0;
        created_at = q.1.1.1.1.1.1.1;
      })
      (λ r. refl)

abbrev assignment : Codec ShareAssignment
assignment =
    via (pair bytes (pair number boolean)) (λ r. (r.custodian_id, (r.share_index, r.claimed)))
      (λ q. record { custodian_id = q.0; share_index = q.1.0; claimed = q.1.1 }) (λ r. refl)

abbrev held : Codec HeldShare
held =
    via (pair number bytes) (λ r. (r.x, r.y_b64)) (λ q. record { x = q.0; y_b64 = q.1 }) (λ r. refl)

abbrev caveat_key : Codec ThirdPartyCaveatKey
caveat_key =
    via (pair bytes (pair bytes (pair (option bytes) (pair bytes number))))
      (λ r. (r.location, (r.key_id, (r.condition, (r.secret_b64, r.created_at)))))
      (λ q. record {
        location = q.0;
        key_id = q.1.0;
        condition = q.1.1.0;
        secret_b64 = q.1.1.1.0;
        created_at = q.1.1.1.1;
      })
      (λ r. refl)

abbrev stored : Codec StoredEnvelopeRecord
stored =
    via
      (pair envelope (
        pair bytes (
          pair bytes (
            pair bytes (
              pair (option number) (
                pair (option number) (
                  pair (option number) (
                    pair (option bytes) (
                      pair (option bytes) (
                        pair (option bytes) (
                          pair boolean (
                            pair (option bytes) (
                              pair (option bytes) (
                                pair (option bytes) (
                                  pair (option (list caveat_key)) (
                                    pair (option number) (
                                      pair boolean (
                                        pair (option number) (
                                          pair (option (list bytes)) (
                                            pair lifecycle (
                                              pair (option number) (
                                                pair number (
                                                  pair boolean (
                                                    pair (option number) (
                                                      pair (option bytes) (
                                                        pair (option (list assignment)) (
                                                          option
                                                            (list held))))))))))))))))))))))))))))
      (λ r. (
        r.envelope,
        (
          r.signature,
          (
            r.signing_key_id,
            (
              r.signing_public_key,
              (
                r.signing_key_expires_at,
                (
                  r.expires_at,
                  (
                    r.last_accessed,
                    (
                      r.redeem_nonce,
                      (
                        r.redeem_binding,
                        (
                          r.unwrap_principal_id,
                          (
                            r.issued_with_authenticated_transport,
                            (
                              r.issued_by_principal_id,
                              (
                                r.issued_by_peer_cert_sha256,
                                (
                                  r.issued_by_attestation_digest,
                                  (
                                    r.third_party_caveat_keys,
                                    (
                                      r.redeem_expires_at,
                                      (
                                        r.redeem_used,
                                        (
                                          r.threshold,
                                          (
                                            r.threshold_commitments,
                                            (
                                              r.lifecycle,
                                              (
                                                r.lease_expires_at,
                                                (
                                                  r.lease_renewal_count,
                                                  (
                                                    r.revoked,
                                                    (
                                                      r.revoked_at,
                                                      (
                                                        r.revocation_reason,
                                                        (r.share_assignments, r.held_shares),
                                                      ),
                                                    ),
                                                  ),
                                                ),
                                              ),
                                            ),
                                          ),
                                        ),
                                      ),
                                    ),
                                  ),
                                ),
                              ),
                            ),
                          ),
                        ),
                      ),
                    ),
                  ),
                ),
              ),
            ),
          ),
        ),
      ))
      (λ q. record {
        envelope = q.0;
        signature = q.1.0;
        signing_key_id = q.1.1.0;
        signing_public_key = q.1.1.1.0;
        signing_key_expires_at = q.1.1.1.1.0;
        expires_at = q.1.1.1.1.1.0;
        last_accessed = q.1.1.1.1.1.1.0;
        redeem_nonce = q.1.1.1.1.1.1.1.0;
        redeem_binding = q.1.1.1.1.1.1.1.1.0;
        unwrap_principal_id = q.1.1.1.1.1.1.1.1.1.0;
        issued_with_authenticated_transport = q.1.1.1.1.1.1.1.1.1.1.0;
        issued_by_principal_id = q.1.1.1.1.1.1.1.1.1.1.1.0;
        issued_by_peer_cert_sha256 = q.1.1.1.1.1.1.1.1.1.1.1.1.0;
        issued_by_attestation_digest = q.1.1.1.1.1.1.1.1.1.1.1.1.1.0;
        third_party_caveat_keys = q.1.1.1.1.1.1.1.1.1.1.1.1.1.1.0;
        redeem_expires_at = q.1.1.1.1.1.1.1.1.1.1.1.1.1.1.1.0;
        redeem_used = q.1.1.1.1.1.1.1.1.1.1.1.1.1.1.1.1.0;
        threshold = q.1.1.1.1.1.1.1.1.1.1.1.1.1.1.1.1.1.0;
        threshold_commitments = q.1.1.1.1.1.1.1.1.1.1.1.1.1.1.1.1.1.1.0;
        lifecycle = q.1.1.1.1.1.1.1.1.1.1.1.1.1.1.1.1.1.1.1.0;
        lease_expires_at = q.1.1.1.1.1.1.1.1.1.1.1.1.1.1.1.1.1.1.1.1.0;
        lease_renewal_count = q.1.1.1.1.1.1.1.1.1.1.1.1.1.1.1.1.1.1.1.1.1.0;
        revoked = q.1.1.1.1.1.1.1.1.1.1.1.1.1.1.1.1.1.1.1.1.1.1.0;
        revoked_at = q.1.1.1.1.1.1.1.1.1.1.1.1.1.1.1.1.1.1.1.1.1.1.1.0;
        revocation_reason = q.1.1.1.1.1.1.1.1.1.1.1.1.1.1.1.1.1.1.1.1.1.1.1.1.0;
        share_assignments = q.1.1.1.1.1.1.1.1.1.1.1.1.1.1.1.1.1.1.1.1.1.1.1.1.1.0;
        held_shares = q.1.1.1.1.1.1.1.1.1.1.1.1.1.1.1.1.1.1.1.1.1.1.1.1.1.1;
      })
      (λ r. refl)

abbrev disk : Codec EncryptedRecord
disk =
    via (pair bytes bytes) (λ r. (r.nonce, r.ciphertext))
      (λ q. record { nonce = q.0; ciphertext = q.1 }) (λ r. refl)

abbrev whole : {A : Type 0} → Option (A × Bytes) → Option A
whole none = none
whole (some r) = some r.0

abbrev pub Table : Type 0
Table = Bytes → Option Bytes

abbrev pub toy_backend : Backend Table
toy_backend = record {
  get = λ t k. t k;
  insert = λ t k v j. if bytes_eq k j then some v else t j;
  remove = λ t k j. if bytes_eq k j then none else t j;
  encrypt = λ nonce text. some text;
  decrypt = λ nonce cipher. some cipher;
  record_to_json = λ r. stored.write r [];
  record_from_json = λ s. whole (stored.read s);
  disk_to_json = λ d. disk.write d [];
  disk_from_json = λ s. whole (disk.read s);
}

pub toy_backend-IsBackend : IsBackend toy_backend
toy_backend-IsBackend = record {
  get-insert = λ t k v j. refl;
  get-remove = λ t k j. refl;
  decrypts = λ nonce text cipher _ same. ground arith;
  record_json = λ r. rw (stored.back r []) refl;
  disk_json = λ d. rw (disk.back d []) refl;
}
