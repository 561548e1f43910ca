-- ===== src/Broker/Unwrap/Checks.antt =====
-- What passing each check of `unwrap_secret_v2_impl` establishes.
use secret_broker.Base.{
  ℕ, ◌≡◌, sym, ap, ◌∙◌, arith, Bytes, true, false, ◌||◌, not, Option, some, ltb, bytes_eq_iff,
}
use secret_broker.Base.Result.{ok, ok_or, guard, >>=-eq-ok}
use secret_broker.Platform.{Platform}
use secret_broker.Store.Record.{StoredEnvelopeRecord, is_expired, is_after}
use secret_broker.Store.Material.{
  ciphertext_bytes, kem_ciphertext_bytes, signature_bytes, exporter_binding_bytes,
}
use secret_broker.Broker.Context.{
  storage, crypto, revoked_handle, expired_handle, redeem_token_invalid, redeem_token_used,
  redeem_token_expired, signature_invalid, BrokerClientContext,
}
use secret_broker.Broker.Identity.{validate_v2_record_identity_requirements}
use secret_broker.Base.Result.{guard-true, ok_or-some}
use secret_broker.Broker.State.{BrokerState, compute_redeem_token}
use secret_broker.Broker.Services.{Services}
use secret_broker.Broker.Redeem.{
  is_renewable, may_unwrap, verify_envelope, redeem, open_envelope, effective_binding,
  provided_token, expected_token, check_exporter,
}

-- The record is in force at `now`, and open to the caller.
pub record Open (p : Platform) (context : BrokerClientContext) (now : ℕ) (r : StoredEnvelopeRecord)
    : Type 0 where
  pub live : r.revoked ≡ false
  pub unexpired : is_expired r now ≡ false
  pub allowed : validate_v2_record_identity_requirements p r context ≡ ok tt
  pub leased : is_renewable r ≡ true → is_after now r.lease_expires_at ≡ false
  pub key_in_force : is_after now r.signing_key_expires_at ≡ false

-- The token `given` is the one of the record, for the caller's transport and in time.
pub record Redeemed {Tree Scalar Point : Type 0} (p : Platform) (v : Services Scalar Point)
    (s : BrokerState Tree) (id exporter : Bytes) (now : ℕ) (given : Bytes)
    (r : StoredEnvelopeRecord) : Type 0 where
  pub nonce_b64 : Bytes
  pub nonce : Bytes
  pub has_nonce : r.redeem_nonce ≡ some nonce_b64
  pub decoded : p.b64_decode nonce_b64 ≡ some nonce
  pub binding : Bytes
  pub bound : effective_binding p r exporter ≡ ok binding
  pub unused : is_renewable r ≡ false → r.redeem_used ≡ false
  pub deadline : ℕ
  pub has_deadline : r.redeem_expires_at ≡ some deadline
  pub in_time : ltb deadline now ≡ false
  pub token : Bytes
  pub provided : provided_token p v r given ≡ ok token
  pub expected : expected_token p v r (compute_redeem_token p s id binding nonce) ≡ ok token

-- The signature on the envelope is good, and the plaintext is its content.
pub record Opened {Scalar Point : Type 0} (p : Platform) (v : Services Scalar Point)
    (exporter : Bytes) (r : StoredEnvelopeRecord) (plaintext : Bytes) : Type 0 where
  pub binding : Option Bytes
  pub has_binding : exporter_binding_bytes p r ≡ some binding
  pub same_exporter : check_exporter p binding exporter ≡ ok tt
  pub ciphertext : Bytes
  pub has_ciphertext : ciphertext_bytes p r ≡ some ciphertext
  pub kem_cipher : Bytes
  pub has_kem_cipher : kem_ciphertext_bytes p r ≡ some kem_cipher
  pub decrypts :
      v.crypto.decrypt_pqc ciphertext kem_cipher r.envelope.envelope_key_id r.envelope.customer_id
        binding
      ≡ some plaintext

pub record Signed {Scalar Point : Type 0} (p : Platform) (v : Services Scalar Point)
    (r : StoredEnvelopeRecord) : Type 0 where
  pub envelope : Bytes
  pub serialized : v.envelope_to_json r.envelope ≡ some envelope
  pub signature : Bytes
  pub has_signature : signature_bytes p r ≡ some signature
  pub key : Bytes
  pub has_key : p.b64_decode r.signing_public_key ≡ some key
  pub verifies : v.crypto.verify_persisted_envelope_signature envelope signature key ≡ some true

pub may_unwrap-Open :
    (p : Platform) (context : BrokerClientContext) (now : ℕ) (r : StoredEnvelopeRecord)
    → may_unwrap p context now r ≡ ok tt
    → Open p context now r
unfolding may_unwrap
may_unwrap-Open p context now r h =
    let (_, live, h₁) = >>=-eq-ok (guard (not r.revoked) revoked_handle) _ h in
    let (_, unexpired, h₂) = >>=-eq-ok (guard (not (is_expired r now)) expired_handle) _ h₁ in
    let (_, allowed, h₃) = >>=-eq-ok (validate_v2_record_identity_requirements p r context) _ h₂ in
    let (_, leased, in_force) =
      >>=-eq-ok (guard (not (is_renewable r) || not (is_after now r.lease_expires_at)) crypto) _
        h₃ in
    record {
      live = ground arith;
      unexpired = ground arith;
      allowed = allowed;
      leased = λ e. ground arith;
      key_in_force = ground arith;
    }

module _ {Scalar Point : Type 0} (p : Platform) (v : Services Scalar Point) where
  pub verify_envelope-Signed :
      (r : StoredEnvelopeRecord) → verify_envelope p v r ≡ ok tt → Signed p v r
  unfolding verify_envelope
  verify_envelope-Signed r h =
      let (envelope, serialized, h₁) =
        >>=-eq-ok (ok_or (v.envelope_to_json r.envelope) storage) _ h in
      let (signature, signed, h₂) = >>=-eq-ok (ok_or (signature_bytes p r) storage) _ h₁ in
      let (key, keyed, h₃) =
        >>=-eq-ok (ok_or (p.b64_decode r.signing_public_key) signature_invalid) _ h₂ in
      let (verified, answered, h₄) =
        >>=-eq-ok
          (ok_or (v.crypto.verify_persisted_envelope_signature envelope signature key) crypto) _
          h₃ in
      record {
        envelope = envelope;
        serialized = ok_or-some _ _ serialized;
        signature = signature;
        has_signature = ok_or-some _ _ signed;
        key = key;
        has_key = ok_or-some _ _ keyed;
        verifies = ok_or-some _ _ answered ∙ ap some (guard-true _ _ h₄);
      }

  pub redeem-Redeemed :
      {Tree : Type 0} (s : BrokerState Tree) (id exporter : Bytes) (now : ℕ) (given : Bytes)
      (r : StoredEnvelopeRecord)
      → redeem p v s id exporter now given r ≡ ok tt
      → Redeemed p v s id exporter now given r
  unfolding redeem
  redeem-Redeemed s id exporter now given r h =
      let (nonce_b64, has_nonce, h₁) = >>=-eq-ok (ok_or r.redeem_nonce redeem_token_invalid) _ h in
      let (binding, bound, h₂) = >>=-eq-ok (effective_binding p r exporter) _ h₁ in
      let (_, unused, h₃) =
        >>=-eq-ok (guard (is_renewable r || not r.redeem_used) redeem_token_used) _ h₂ in
      let (deadline, has_deadline, h₄) =
        >>=-eq-ok (ok_or r.redeem_expires_at redeem_token_invalid) _ h₃ in
      let (_, in_time, h₅) = >>=-eq-ok (guard (not (ltb deadline now)) redeem_token_expired) _ h₄ in
      let (nonce, decoded, h₆) =
        >>=-eq-ok (ok_or (p.b64_decode nonce_b64) redeem_token_invalid) _ h₅ in
      let (token, provided, h₇) = >>=-eq-ok (provided_token p v r given) _ h₆ in
      let (wanted, expected, h₈) =
        >>=-eq-ok (expected_token p v r (compute_redeem_token p s id binding nonce)) _ h₇ in
      let same = (bytes_eq_iff token wanted).0 (guard-true _ _ h₈) in
      record {
        nonce_b64 = nonce_b64;
        nonce = nonce;
        has_nonce = ok_or-some _ _ has_nonce;
        decoded = ok_or-some _ _ decoded;
        binding = binding;
        bound = bound;
        unused = λ e. ground arith;
        deadline = deadline;
        has_deadline = ok_or-some _ _ has_deadline;
        in_time = ground arith;
        token = token;
        provided = provided;
        expected = expected ∙ ap ok (sym same);
      }

  pub open_envelope-Opened :
      (exporter plaintext : Bytes) (r : StoredEnvelopeRecord)
      → open_envelope p v exporter r ≡ ok plaintext
      → Opened p v exporter r plaintext
  unfolding open_envelope
  open_envelope-Opened exporter plaintext r h =
      let (binding, has_binding, h₁) = >>=-eq-ok (ok_or (exporter_binding_bytes p r) storage) _ h in
      let (_, same, h₂) = >>=-eq-ok (check_exporter p binding exporter) _ h₁ in
      let (ciphertext, has_ciphertext, h₃) =
        >>=-eq-ok (ok_or (ciphertext_bytes p r) storage) _ h₂ in
      let (kem, has_kem, h₄) = >>=-eq-ok (ok_or (kem_ciphertext_bytes p r) storage) _ h₃ in
      record {
        binding = binding;
        has_binding = ok_or-some _ _ has_binding;
        same_exporter = same;
        ciphertext = ciphertext;
        has_ciphertext = ok_or-some _ _ has_ciphertext;
        kem_cipher = kem;
        has_kem_cipher = ok_or-some _ _ has_kem;
        decrypts = ok_or-some _ _ h₄;
      }
