-- ===== src/Broker/Wrap/Checked.antt =====
-- What the caller of a wrap for a single use has to present is good at the record that it stored.
use secret_broker.Base.{
  ◌≡◌, refl, ap, subst, ◌∙◌, ℕ, ◌+◌, Bytes, false, Option, none, some, List, [], ◌++◌, ltb, arith,
}
use secret_broker.Base.Result.{ok}
use secret_broker.Text.{lit, trim, strip_prefix}
use secret_broker.Platform.{Platform, IsLawful}
use secret_broker.Macaroon.Types.{Macaroon, DischargeMacaroon}
use secret_broker.Macaroon.Chain.{mint}
use secret_broker.Macaroon.Chain.Minted.{verify-mint}
use secret_broker.Macaroon.Wire.{serialize}
use secret_broker.Macaroon.Wire.RoundTrip.{IsWritable, deserialize-serialize}
use secret_broker.Transparency.Logger.{EventJson}
use secret_broker.Store.Record.{
  StoredEnvelopeRecord, single_use_unwrap, is_lifecycle, is_after, is_expired,
}
use secret_broker.Store.Backend.{Backend}
use secret_broker.Store.Ops.{touch}
use secret_broker.Broker.Context.{BrokerClientContext, cleaned}
use secret_broker.Broker.Identity.{v2_unwrap_principal, validate_v2_record_identity_requirements}
use secret_broker.Broker.Identity.Laws.{v2_unwrap_principal-single_use}
use secret_broker.Broker.State.{
  BrokerState, parse_handle_v2, macaroon_root_key, compute_redeem_token,
}
use secret_broker.Broker.Keys.{discharge_keys_for_record, discharge_keys}
use secret_broker.Broker.Services.{Services}
use secret_broker.Broker.Redeem.{is_renewable, verify_handle, may_unwrap, redeem}
use secret_broker.Broker.Persist.{
  PersistSecretV2Input, WrapDraws, bindings, new_envelope, new_record,
}
use secret_broker.Broker.Persist.Done.{Persisted}
use secret_broker.Broker.Persist.Redeemable.{
  record_of, ciphertext-new, kem_ciphertext-new, signature-new, exporter_binding-new,
  check_exporter-new, redeem-new,
}
use secret_broker.Broker.Wrap.{WrapV2Request, WrapSecretOutcome, wrap_caveats}
use secret_broker.Broker.Wrap.Done.{Wrapped, input_of}
use secret_broker.Broker.Wrap.Admitted.{Timely, verifier_of, wrap_caveats-Passes}
use secret_broker.Broker.Wrap.Presented.{
  presented, macaroon_of, Sealed, SignedAs, Presentable, InTime,
}

pub parsed_back :
    (p : Platform) (w : IsLawful p) (m : Macaroon) (raw : Bytes)
    → IsWritable m
    → trim raw ≡ raw
    → raw ≡ lit "broker:v2:" ++ serialize p m
    → parse_handle_v2 p raw ≡ ok m
unfolding parse_handle_v2 strip_prefix
parsed_back p w m raw writable trimmed e =
    rw (trimmed, e) (rw (deserialize-serialize p m w writable) refl)

module _ {Tree Scalar Point : Type 0} (p : Platform) (v : Services Scalar Point)
    (s s' : BrokerState Tree) (same : s'.handle_hmac_key ≡ s.handle_hmac_key) where
  redeem_same :
      (id exporter : Bytes) (now : ℕ) (given : Bytes) (r : StoredEnvelopeRecord)
      → redeem p v s' id exporter now given r ≡ redeem p v s id exporter now given r
  unfolding redeem compute_redeem_token
  redeem_same id exporter now given r = rw same refl

  root_same : (id : Bytes) → macaroon_root_key p s' id ≡ macaroon_root_key p s id
  unfolding macaroon_root_key
  root_same id = rw same refl

not_after :
    (now : ℕ) (deadline : Option ℕ) (p : Platform) (at : ℕ)
    → Timely p at now deadline
    → is_after now deadline ≡ false
unfolding is_after
not_after now none p at timely = refl
not_after now (some t) p at (_, (_, late)) = ground arith

may_unwrap-accepts :
    (p : Platform) (context : BrokerClientContext) (now : ℕ) (r : StoredEnvelopeRecord)
    → r.revoked ≡ false
    → is_expired r now ≡ false
    → validate_v2_record_identity_requirements p r context ≡ ok tt
    → is_renewable r ≡ false
    → is_after now r.signing_key_expires_at ≡ false
    → may_unwrap p context now r ≡ ok tt
unfolding may_unwrap
may_unwrap-accepts p context now r live unexpired open_to once key =
    rw (open_to, live, unexpired, once, key) refl

module _ {Tree Scalar Point : Type 0} (p : Platform) (b : Backend Tree) (j : EventJson)
    (v : Services Scalar Point) (w : IsLawful p) (context : BrokerClientContext) where
  module _ (input : PersistSecretV2Input) (d : WrapDraws) (s : BrokerState Tree) (tree : Tree)
      (done : Persisted p b v context input d s tree)
      (single : input.lifecycle ≡ single_use_unwrap) where
    abbrev r : StoredEnvelopeRecord
    r = record_of p b v context w input d s tree done

    in_force :
        (at now : ℕ)
        → is_after now input.expires_at ≡ false
        → is_after now done.keys.expires_at ≡ false
        → validate_v2_record_identity_requirements p (touch at r) context ≡ ok tt
        → may_unwrap p context now (touch at r) ≡ ok tt
    unfolding new_record is_expired is_lifecycle
    in_force at now unexpired key open_to =
        may_unwrap-accepts p context now (touch at r) refl unexpired open_to (rw single refl) key

    admitted :
        (at : ℕ) (requested : Option Bytes)
        → cleaned (cleaned context.principal_id) ≡ cleaned context.principal_id
        → v2_unwrap_principal context single_use_unwrap requested ≡ ok input.unwrap_principal_id
        → validate_v2_record_identity_requirements p (touch at r) context ≡ ok tt
    unfolding new_record is_lifecycle
    admitted at requested stable bound =
        v2_unwrap_principal-single_use p (touch at r) context requested input.unwrap_principal_id
          (rw single refl) stable bound refl

  module _ (request : WrapV2Request) (d : WrapDraws) (s s' : BrokerState Tree)
      (answer : WrapSecretOutcome) (wrapped : Wrapped p b j v context request d s s' answer) where
    abbrev pub input : PersistSecretV2Input
    input = input_of s request d wrapped.expires_at wrapped.principal

    abbrev pub new : StoredEnvelopeRecord
    new = record_of p b v context w input d s s'.sealed_store wrapped.persisted

    abbrev pub mac : Macaroon
    mac = macaroon_of p context s request d wrapped.expires_at

    -- The macaroon that was minted passes at the state that the wrap left.
    authentic :
        (discharges : List DischargeMacaroon) (at verified_at now : ℕ)
        → Timely p verified_at now wrapped.expires_at
        → verify_handle p s' (presented request answer discharges) mac verified_at (touch at new)
          ≡ ok tt
    unfolding verify_handle discharge_keys_for_record discharge_keys new_record mint
    authentic discharges at verified_at now timely =
        rw
          (
            root_same p v s s' wrapped.same_key d.handle_id,
            verify-mint p (verifier_of request verified_at discharges []) w
                (macaroon_root_key p s d.handle_id) d.handle_id
                (wrap_caveats p context request wrapped.expires_at)
                (wrap_caveats-Passes p context request verified_at now discharges []
                  wrapped.expires_at timely),
          )
          refl

    pub identified : mac.identifier ≡ d.handle_id
    unfolding mint
    identified = refl

    pub sealed :
        (at : ℕ) → Sealed p v d.encryption context.exporter request.plaintext (touch at new)
    unfolding new_record new_envelope
    sealed at =
        let done = wrapped.persisted in
        record {
          binding = (bindings p context request.lifecycle).exporter_secret;
          has_binding = exporter_binding-new p b v context w input d s s'.sealed_store done at;
          same_exporter = check_exporter-new p b v context w input d s s'.sealed_store done;
          encryption = done.encryption;
          encrypted = done.encrypted;
          has_ciphertext = ciphertext-new p b v context w input d s s'.sealed_store done at;
          has_kem_cipher = kem_ciphertext-new p b v context w input d s s'.sealed_store done at;
        }

    pub signed_as : (at : ℕ) → SignedAs p v d.key_pair (touch at new)
    unfolding new_record new_envelope
    signed_as at =
        let done = wrapped.persisted in
        record {
          keys = done.keys;
          generated = done.generated;
          has_key = w.b64_round_trip done.keys.public_key;
          envelope = done.bytes;
          serialized = done.serialized;
          signature = done.signature;
          signs = done.signed;
          has_signature = signature-new p b v context w input d s s'.sealed_store done at;
        }

    pub presentable :
        (discharges : List DischargeMacaroon) (at now verified_at : ℕ)
        → request.lifecycle ≡ single_use_unwrap
        → cleaned (cleaned context.principal_id) ≡ cleaned context.principal_id
        → InTime p v s request d answer verified_at now
        → Presentable p v context
            (presented request answer discharges)
            now
            verified_at
            s'
            mac
            (touch at new)
    unfolding mint
    presentable discharges at now verified_at single stable time =
        let done = wrapped.persisted in
        let timely : Timely p verified_at now wrapped.expires_at =
          subst (Timely p verified_at now) wrapped.deadline time.handle in
        let bound =
          subst
            (λ l. v2_unwrap_principal context l request.unwrap_principal_id ≡ ok wrapped.principal)
            single wrapped.bound in
        let late : ltb (d.created_at + s.redeem_token_ttl) now ≡ false =
          let early = time.token in ground arith in
        record {
          authentic = authentic discharges at verified_at now timely;
          in_force =
              in_force input d s s'.sealed_store done single at now
                (not_after now wrapped.expires_at p verified_at timely)
                (time.signing_key done.keys done.generated)
                (admitted input d s s'.sealed_store done single at request.unwrap_principal_id
                  stable bound);
          redeemed =
              redeem_same p v s s' wrapped.same_key d.handle_id context.exporter now
                answer.redeem_token (touch at new)
              ∙ ap (λ t. redeem p v s d.handle_id context.exporter now t (touch at new))
                  wrapped.token
              ∙ redeem-new p b v context w input d s s'.sealed_store done at now late;
        }
