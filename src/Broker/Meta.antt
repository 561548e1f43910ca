-- ===== src/Broker/Meta.antt =====
-- The metadata that the handlers put into events.
use secret_broker.Base.{ℕ, Bytes, Option, none, some, ltb, if◌then◌else◌}
use secret_broker.Text.{lit}
use secret_broker.Platform.{Platform}
use secret_broker.Transparency.Json.{Json, flag, num, text, raw, Meta, insert}
use secret_broker.Store.Record.{
  SecretLifecycle, single_use_unwrap, renewable_lease, service_bootstrap, StoredEnvelopeRecord,
}
use secret_broker.Broker.Context.{BrokerClientContext, cleaned}

-- `if let Some(value) = .. { m.insert(key, ..) }`
abbrev pub insert_some : {A : Type 0} → Bytes → (A → Json) → Option A → Meta → Meta
insert_some key f none m = m
insert_some key f (some v) m = insert key (f v) m

unfoldable pub secret_lifecycle_label : SecretLifecycle → Bytes
secret_lifecycle_label single_use_unwrap = lit "single_use_unwrap"
secret_lifecycle_label renewable_lease = lit "renewable_lease"
secret_lifecycle_label service_bootstrap = lit "service_bootstrap"

module _ (p : Platform) where
  unfoldable pub append_context_transparency_meta : BrokerClientContext → Meta → Meta
  unfolding cleaned
  append_context_transparency_meta context m =
      let m₁ = insert (lit "authenticated_transport") (flag context.authenticated_transport) m in
      let m₂ =
        insert_some (lit "authenticated_principal_id") text (cleaned context.principal_id) m₁ in
      let m₃ =
        insert_some (lit "peer_cert_sha256") (λ c. text (p.b64_encode c)) context.peer_cert_sha256
          m₂ in
      insert_some (lit "attestation_digest") (λ d. text (p.b64_encode d)) context.attestation_digest
        m₃

  unfoldable pub append_record_transparency_meta : StoredEnvelopeRecord → Meta → Meta
  unfolding secret_lifecycle_label
  append_record_transparency_meta r m =
      let time = λ (t : ℕ). text (p.to_rfc3339 t) in
      let m₁ = insert (lit "lifecycle") (text (secret_lifecycle_label r.lifecycle)) m in
      let m₂ =
        insert (lit "issued_with_authenticated_transport")
          (flag r.issued_with_authenticated_transport) m₁ in
      let m₃ = insert_some (lit "issued_by_principal_id") text r.issued_by_principal_id m₂ in
      let m₄ =
        insert_some (lit "issued_by_peer_cert_sha256") text r.issued_by_peer_cert_sha256 m₃ in
      let m₅ =
        insert_some (lit "issued_by_attestation_digest") text r.issued_by_attestation_digest m₄ in
      let m₆ = insert_some (lit "unwrap_principal_id") text r.unwrap_principal_id m₅ in
      let m₇ = insert_some (lit "expires_at") time r.expires_at m₆ in
      let m₈ = insert_some (lit "redeem_expires_at") time r.redeem_expires_at m₇ in
      let m₉ = insert_some (lit "lease_expires_at") time r.lease_expires_at m₈ in
      let counted = insert (lit "lease_renewal_count") (num r.lease_renewal_count) m₉ in
      insert_some (lit "secret_metadata") raw r.envelope.metadata
        (if ltb 0 r.lease_renewal_count then counted else m₉)
