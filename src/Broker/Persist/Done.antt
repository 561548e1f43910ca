-- ===== src/Broker/Persist/Done.antt =====
-- What a secret that was persisted has left behind.
use secret_broker.Base.{◌≡◌, refl, sym, ap, ℕ, ◌+◌, Bytes, Option, none, some, arith}
use secret_broker.Base.Result.{Result, ok, err, ok_or, ok_or-some}
use secret_broker.Text.{lit}
use secret_broker.Platform.{Platform}
use secret_broker.Store.Record.{SecretEnvelope}
use secret_broker.Store.Backend.{Backend}
use secret_broker.Store.Ops.{StoreError, insert_with_id}
use secret_broker.Broker.Context.{ServiceError, crypto, serialization, BrokerClientContext}
use secret_broker.Broker.State.{BrokerState, compute_redeem_token}
use secret_broker.Broker.Action.{lift-eq-ok, stored-eq-ok}
use secret_broker.Broker.Services.{Services, EncryptionResult, KeyPair}
use secret_broker.Broker.Unwrap.{unit_call}
use secret_broker.Broker.Persist.{
  PersistSecretV2Input, StoredSecretOutcome, WrapDraws, bindings, new_envelope, new_record,
  initial_lease, insert_record, persist_record, persist_secret_v2_with_lifecycle,
}

module _ {Tree Scalar Point : Type 0} (p : Platform) (b : Backend Tree) (v : Services Scalar Point)
    (context : BrokerClientContext) where
  abbrev pub token_of : BrokerState Tree → PersistSecretV2Input → WrapDraws → Bytes
  token_of s input d =
      compute_redeem_token p s d.handle_id (bindings p context input.lifecycle).binding
        d.redeem_nonce

  abbrev pub outcome_of : BrokerState Tree → PersistSecretV2Input → WrapDraws → StoredSecretOutcome
  outcome_of s input d = record {
    handle_id = d.handle_id;
    customer_id = input.customer_id;
    expires_at = input.expires_at;
    envelope_key_id = d.envelope_key_id;
    redeem_token = p.b64_encode (token_of s input d);
    redeem_token_expires_at = some (input.created_at + s.redeem_token_ttl);
  }

  pub record Persisted (input : PersistSecretV2Input) (d : WrapDraws) (s : BrokerState Tree)
      (tree : Tree) : Type 0 where
    pub encryption : EncryptionResult
    pub encrypted :
        v.crypto.encrypt_pqc d.encryption input.plaintext d.envelope_key_id input.customer_id
          (bindings p context input.lifecycle).exporter_secret
        ≡ some encryption
    pub keys : KeyPair
    pub generated :
        v.crypto.generate_key_pair d.key_pair (lit "dilithium5") input.customer_id ≡ some keys
    pub bytes : Bytes
    pub serialized : v.envelope_to_json (new_envelope p context input d encryption) ≡ some bytes
    pub signature : Bytes
    pub signed : v.crypto.sign_data bytes keys.key_id ≡ some signature
    pub lease : Option ℕ
    pub leased : initial_lease p input.created_at input.initial_lease_seconds ≡ some lease
    pub written :
        insert_with_id p b s.sealed_store d.handle_id d.nonce (
          new_record p context input d
            (new_envelope p context input d encryption)
            keys
            signature
            (input.created_at + s.redeem_token_ttl)
            lease)
        ≡ ok tree

  unit_call-eq-ok :
      (call : Result StoreError Tree) (t : Tree) (u : Unit {0})
      → unit_call p b call ≡ ok (t, u)
      → call ≡ ok t
  unit_call-eq-ok (ok t') t u e = ap ok (ap tree_of e)
    where
      tree_of : Result StoreError (Tree × Unit {0}) → Tree
      tree_of (ok o) = o.0
      tree_of (err x) = t'
  unit_call-eq-ok (err x) t u e = absurd (ground arith)

  persist_record-eq-ok :
      (input : PersistSecretV2Input) (d : WrapDraws) (outcome : StoredSecretOutcome) (at : ℕ)
      (envelope : SecretEnvelope) (keys : KeyPair) (signature : Bytes)
      (computed : Option (Option ℕ)) (s s' : BrokerState Tree) (answer : StoredSecretOutcome)
      → persist_record p b v context input d outcome at envelope keys signature computed s
        ≡ (ok (some answer), s')
      → (lease : Option ℕ) × (tree : Tree) × (computed ≡ some lease)
        × (insert_with_id p b s.sealed_store d.handle_id d.nonce
              (new_record p context input d envelope keys signature at lease)
            ≡ ok tree)
        × (s' ≡ record s { sealed_store = tree })
        × (answer ≡ outcome)
  unfolding persist_record insert_record
  persist_record-eq-ok input d outcome at envelope keys signature none s s' answer h =
      absurd (ground arith)
  persist_record-eq-ok input d outcome at envelope keys signature (some lease) s s' answer h =
      let r = new_record p context input d envelope keys signature at lease in
      let call = insert_with_id p b s.sealed_store d.handle_id d.nonce r in
      let (tree, u, wrote, h₁) = stored-eq-ok _ s (unit_call p b call) h in
      (
        lease,
        tree,
        refl,
        unit_call-eq-ok call tree u wrote,
        sym (ap (λ o. o.1) h₁),
        sym (ap (λ o. answer_of o.0) h₁),
      )
    where
      answer_of : Result ServiceError (Option StoredSecretOutcome) → StoredSecretOutcome
      answer_of (ok (some x)) = x
      answer_of _ = outcome

  pub persist-Persisted :
      (input : PersistSecretV2Input) (d : WrapDraws) (s s' : BrokerState Tree)
      (outcome : StoredSecretOutcome)
      → persist_secret_v2_with_lifecycle p b v context input d s ≡ (ok (some outcome), s')
      → (tree : Tree) × Persisted input d s tree
        × (s' ≡ record s { sealed_store = tree })
        × (outcome ≡ outcome_of s input d)
  unfolding persist_secret_v2_with_lifecycle
  persist-Persisted input d s s' outcome h =
      let (e, encrypted, h₁) =
        lift-eq-ok _ s
          (ok_or
            (v.crypto.encrypt_pqc d.encryption input.plaintext d.envelope_key_id input.customer_id
              (bindings p context input.lifecycle).exporter_secret)
            crypto)
          h in
      let (keys, generated, h₂) =
        lift-eq-ok _ s
          (ok_or (v.crypto.generate_key_pair d.key_pair (lit "dilithium5") input.customer_id)
            crypto)
          h₁ in
      let (bytes, serialized, h₃) =
        lift-eq-ok _ s (ok_or (v.envelope_to_json (new_envelope p context input d e)) serialization)
          h₂ in
      let (signature, signed, h₄) =
        lift-eq-ok _ s (ok_or (v.crypto.sign_data bytes keys.key_id) crypto) h₃ in
      let (lease, tree, leased, written, same, answered) =
        persist_record-eq-ok input d (outcome_of s input d) (input.created_at + s.redeem_token_ttl)
          (new_envelope p context input d e) keys signature
          (initial_lease p input.created_at input.initial_lease_seconds) s s' outcome h₄ in
      (
        tree,
        record {
          encryption = e;
          encrypted = ok_or-some _ _ encrypted;
          keys = keys;
          generated = ok_or-some _ _ generated;
          bytes = bytes;
          serialized = ok_or-some _ _ serialized;
          signature = signature;
          signed = ok_or-some _ _ signed;
          lease = lease;
          leased = leased;
          written = written;
        },
        same,
        answered,
      )
