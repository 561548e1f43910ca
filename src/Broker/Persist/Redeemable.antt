-- ===== src/Broker/Persist/Redeemable.antt =====
-- The record of a persisted secret holds what the crypto service gave, and its token is good.
use secret_broker.Base.{
  ◌≡◌, ◌≢◌, ◌||◌, not, length, bytes_eq_iff, refl, sym, ap, ◌∙◌, ℕ, ◌+◌, Bytes, Bool, true, false,
  Option, none, some, [], ◌∷◌, arith, ltb, bytes_eq_refl, inl, inr, Bool-cases,
}
use secret_broker.Base.Result.{ok}
use secret_broker.Platform.{Platform, IsLawful}
use secret_broker.Store.Record.{StoredEnvelopeRecord, single_use_unwrap, is_lifecycle}
use secret_broker.Store.Backend.{Backend}
use secret_broker.Store.Material.{
  ciphertext_bytes, kem_ciphertext_bytes, signature_bytes, exporter_binding_bytes,
}
use secret_broker.Store.Ops.{touch}
use secret_broker.Broker.Context.{BrokerClientContext}
use secret_broker.Broker.State.{BrokerState}
use secret_broker.Broker.Services.{Services}
use secret_broker.Broker.Redeem.{
  redeem, effective_binding, provided_token, expected_token, check_exporter, is_renewable,
}
use secret_broker.Broker.Persist.{
  PersistSecretV2Input, WrapDraws, bindings, new_envelope, new_record,
}
use secret_broker.Broker.Persist.Done.{Persisted, token_of}

some-injective : {x y : Bytes} → ◌≡◌ {A = Option Bytes} (some x) (some y) → x ≡ y
some-injective {x} e = ap value e
  where
    value : Option Bytes → Bytes
    value none = x
    value (some z) = z

module _ {Tree Scalar Point : Type 0} (p : Platform) (b : Backend Tree) (v : Services Scalar Point)
    (context : BrokerClientContext) (w : IsLawful p) (input : PersistSecretV2Input) (d : WrapDraws)
    (s : BrokerState Tree) (tree : Tree) (done : Persisted p b v context input d s tree) where
  abbrev pub record_of : StoredEnvelopeRecord
  record_of =
      new_record p context input d (new_envelope p context input d done.encryption) done.keys
        done.signature (input.created_at + s.redeem_token_ttl) done.lease

  abbrev single : Bool
  single = is_lifecycle input.lifecycle single_use_unwrap

  nonempty : (digest : Bytes) → length digest ≡ 32 → p.b64_encode digest ≢ []
  nonempty digest long e = absurd (omega (arith, long, ap length empty))
    where
      empty : digest ≡ []
      empty = some-injective (sym (w.b64_round_trip digest) ∙ ap p.b64_decode e ∙ w.b64_empty)

  effective_binding-some :
      (r : StoredEnvelopeRecord) (value : Bytes)
      → r.redeem_binding ≡ some value
      → value ≡ p.b64_encode (p.sha256 context.exporter)
      → value ≢ []
      → effective_binding p r context.exporter ≡ ok (p.sha256 context.exporter)
  unfolding effective_binding
  effective_binding-some r [] bound same filled = absurd (filled refl)
  effective_binding-some r (x ∷ xs) bound same filled =
      rw (effective_binding, bound)
        (rw ((bytes_eq_iff (x ∷ xs) (p.b64_encode (p.sha256 context.exporter))).1 same) refl)

  effective_binding-none :
      (r : StoredEnvelopeRecord)
      → r.redeem_binding ≡ none
      → is_lifecycle r.lifecycle single_use_unwrap ≡ false
      → effective_binding p r context.exporter ≡ ok []
  unfolding effective_binding
  effective_binding-none r unbound many = rw (effective_binding, unbound) (rw many refl)

  redeem_binding-once :
      (at : ℕ)
      → single ≡ true
      → (touch at record_of).redeem_binding ≡ some (p.b64_encode (p.sha256 context.exporter))
  unfolding new_record bindings
  redeem_binding-once at once = rw once refl

  redeem_binding-many : (at : ℕ) → single ≡ false → (touch at record_of).redeem_binding ≡ none
  unfolding new_record bindings
  redeem_binding-many at many = rw many refl

  binding-once :
      single ≡ true → (bindings p context input.lifecycle).binding ≡ p.sha256 context.exporter
  unfolding bindings
  binding-once once = rw once refl

  binding-many : single ≡ false → (bindings p context input.lifecycle).binding ≡ []
  unfolding bindings
  binding-many many = rw many refl

  effective_binding-new :
      (at : ℕ)
      → effective_binding p (touch at record_of) context.exporter
        ≡ ok (bindings p context input.lifecycle).binding
  unfolding new_record
  effective_binding-new at = elim (Bool-cases single) [
    | inl once ↦
        effective_binding-some (touch at record_of) (p.b64_encode (p.sha256 context.exporter))
          (redeem_binding-once at once) refl
          (nonempty (p.sha256 context.exporter) (w.length-sha256 context.exporter))
        ∙ ap ok (sym (binding-once once))
    | inr many ↦
        effective_binding-none (touch at record_of) (redeem_binding-many at many) many
        ∙ ap ok (sym (binding-many many))
  ]

  pub exporter_binding-new :
      (at : ℕ)
      → exporter_binding_bytes p (touch at record_of)
        ≡ some (bindings p context input.lifecycle).exporter_secret
  unfolding exporter_binding_bytes new_record new_envelope bindings
  exporter_binding-new at = elim (Bool-cases single) [
    | inl once ↦ rw once (rw (w.b64_round_trip context.exporter) refl)
    | inr many ↦ rw many refl
  ]

  pub check_exporter-new :
      check_exporter p (bindings p context input.lifecycle).exporter_secret context.exporter ≡ ok tt
  unfolding check_exporter bindings
  check_exporter-new = elim (Bool-cases single) [
    | inl once ↦ rw once (rw (bytes_eq_refl context.exporter) refl)
    | inr many ↦ rw many refl
  ]

  -- The stored material is what the crypto service gave for the plaintext.
  pub ciphertext-new :
      (at : ℕ) → ciphertext_bytes p (touch at record_of) ≡ some done.encryption.ciphertext
  unfolding ciphertext_bytes new_record new_envelope
  ciphertext-new at = w.b64_round_trip done.encryption.ciphertext

  pub kem_ciphertext-new :
      (at : ℕ) → kem_ciphertext_bytes p (touch at record_of) ≡ some done.encryption.nonce
  unfolding kem_ciphertext_bytes new_record new_envelope
  kem_ciphertext-new at = w.b64_round_trip done.encryption.nonce

  pub signature-new : (at : ℕ) → signature_bytes p (touch at record_of) ≡ some done.signature
  unfolding signature_bytes new_record
  signature-new at = w.b64_round_trip done.signature

  pub redeem-new :
      (at now : ℕ)
      → ltb (input.created_at + s.redeem_token_ttl) now ≡ false
      → redeem p v s d.handle_id context.exporter now
          (p.b64_encode (token_of p b v context s input d))
          (touch at record_of)
        ≡ ok tt
  unfolding redeem new_record provided_token expected_token
  redeem-new at now in_time =
      rw (effective_binding-new at, renewable_or at, in_time, w.b64_round_trip d.redeem_nonce)
        (rw
          (
            w.b64_round_trip (token_of p b v context s input d),
            bytes_eq_refl (token_of p b v context s input d),
          )
          refl)
    where
      renewable_or :
          (at : ℕ)
          → (is_renewable (touch at record_of) || not (touch at record_of).redeem_used) ≡ true
      renewable_or at = ground arith
