-- ===== src/Broker/Lifecycle.antt =====
-- `renew_lease_impl`, `revoke_secret_impl` and `delete_secret_impl`. Each takes the nonces that its
-- store calls draw and the times that it reads.
pub mod Guarded
pub mod Renewed
pub mod Effects
use secret_broker.Base.{
  ℕ, ◌+◌, ◌*◌, Bytes, Bool, true, false, ◌||◌, not, Option, none, some, List, [], ◌∷◌, ltb, ◌==◌,
  if◌then◌else◌,
}
use secret_broker.Base.Result.{Result, ok, err, ok_or, guard}
use secret_broker.Text.{lit}
use secret_broker.Platform.{Platform, nanos}
use secret_broker.Transparency.Json.{Json, text, num, Meta, insert}
use secret_broker.Transparency.Event
use secret_broker.Transparency.Logger.{EventJson}
use secret_broker.Store.Record.{StoredEnvelopeRecord, is_lifecycle, renewable_lease, is_expired}
use secret_broker.Store.Backend.{Backend}
use secret_broker.Store.Ops.{load, renew_lease, revoke, delete}
use secret_broker.Broker.Context.{
  ServiceError, invalid_ttl, handle_not_found, revoked_handle, expired_handle, crypto,
  BrokerClientContext,
}
use secret_broker.Broker.Identity.{
  validate_v2_record_identity_requirements, validate_v2_record_management_requirements,
}
use secret_broker.Broker.State.{BrokerState, parse_handle_identifier, record_transparency}
use secret_broker.Broker.Action.{Action, ◌>>=◌, ◌>>◌, pure, lift, on_store, get, modify}
use secret_broker.Broker.Renewal.{capped_lease, may_renew}
use secret_broker.Broker.Meta.{
  append_context_transparency_meta, append_record_transparency_meta, insert_some,
}

pub record RenewLeaseRequest : Type 0 where
  pub handle : Bytes
  pub lease_duration_seconds : ℕ

pub record RenewLeaseResponse : Type 0 where
  pub lease_expires_at : ℕ
  pub renewal_count : ℕ

pub record RevokeSecretRequest : Type 0 where
  pub handle : Bytes
  pub reason : Option Bytes

pub record RevokeSecretResponse : Type 0 where
  pub revoked : Bool
  pub revoked_at : Option ℕ

-- What a run draws: the nonces of its two writes, the access time of the load, the handler's own
-- time, the time inside the store's second call, and the time of the event.
pub record Draws : Type 0 where
  pub nonce : Bytes
  pub nonce' : Bytes
  pub accessed_at : ℕ
  pub now : ℕ
  pub stored_at : ℕ
  pub recorded_at : ℕ

abbrev or_now : Option ℕ → ℕ → ℕ
or_now none now = now
or_now (some t) now = t

abbrev pub caller : BrokerClientContext → Bytes
caller context = elim context.principal_id [ none ↦ lit "unknown" | some principal ↦ principal ]

module _ {Tree : Type 0} (p : Platform) (b : Backend Tree) (j : EventJson)
    (context : BrokerClientContext) where
  pub load_record : Bytes → Draws → Action Tree StoredEnvelopeRecord
  load_record id d = do
    found ← on_store (λ t. load p b t id d.accessed_at d.nonce)
    lift (ok_or found handle_not_found)

  abbrev renewed_event : Bytes → ℕ → StoredEnvelopeRecord → ℕ → ℕ → ℕ → Event.TransparencyEvent
  renewed_event handle at r lease count previous = Event.with_caller (caller context) (
      Event.with_lease_renewal count previous (
        Event.renew_lease p at handle r.envelope.customer_id (
          some (
            append_context_transparency_meta p context (
              insert (lit "lease_expires_at") (text (p.to_rfc3339 lease))
                (insert (lit "renewal_count") (num count) []))))))

  -- `renew_lease_impl` from the record on
  unfoldable pub renew_loaded :
      RenewLeaseRequest → Draws → Bytes → StoredEnvelopeRecord → Action Tree RenewLeaseResponse
  renew_loaded payload d id r = do
    lift (may_renew p context d.now r)
    let lease = capped_lease r.expires_at (d.now + payload.lease_duration_seconds * nanos)
    updated ← on_store (λ t. renew_lease p b t id lease d.stored_at d.nonce')
    modify (
        record_transparency p j (
          renewed_event payload.handle d.recorded_at r lease updated.lease_renewal_count
            (or_now r.lease_expires_at d.now)))
    pure (record { lease_expires_at = lease; renewal_count = updated.lease_renewal_count })

  unfoldable pub renew_lease_impl : RenewLeaseRequest → Draws → Action Tree RenewLeaseResponse
  unfolding load_record renew_loaded
  renew_lease_impl payload d = do
    lift (
        guard
          (not (
            payload.lease_duration_seconds == 0 || ltb (86400 * 30) payload.lease_duration_seconds))
          invalid_ttl)
    s ← get
    id ← lift (parse_handle_identifier p s payload.handle)
    r ← load_record id d
    renew_loaded payload d id r

  abbrev revoked_event :
      RevokeSecretRequest → ℕ → ℕ → StoredEnvelopeRecord → Event.TransparencyEvent
  revoked_event payload at revoked_at r = Event.with_caller (caller context) (
      Event.revoke p at payload.handle r.envelope.customer_id (
        some (
          append_context_transparency_meta p context (
            append_record_transparency_meta p r (
              insert (lit "revoked_at") (text (p.to_rfc3339 revoked_at)) (
                insert_some (lit "reason") text payload.reason (
                  insert (lit "handle_fingerprint")
                    (text (Event.handle_fingerprint p payload.handle))
                    (insert (lit "handle_version") (num 2) []))))))))

  log_revocation :
      RevokeSecretRequest → Draws → StoredEnvelopeRecord → Bool → Action Tree RevokeSecretResponse
  log_revocation payload d r false = pure (record { revoked = false; revoked_at = none })
  log_revocation payload d r true = do
    modify (record_transparency p j (revoked_event payload d.recorded_at d.now r))
    pure (record { revoked = true; revoked_at = some d.now })

  -- `revoke_secret_impl` from the record on
  unfoldable pub revoke_loaded :
      RevokeSecretRequest → Draws → Bytes → StoredEnvelopeRecord → Action Tree RevokeSecretResponse
  unfolding log_revocation
  revoke_loaded payload d id r = do
    lift (validate_v2_record_management_requirements p r context)
    revoked ← on_store (λ t. revoke p b t id payload.reason d.stored_at d.nonce')
    log_revocation payload d r revoked

  unfoldable pub revoke_secret_impl : RevokeSecretRequest → Draws → Action Tree RevokeSecretResponse
  unfolding load_record revoke_loaded
  revoke_secret_impl payload d = do
    s ← get
    id ← lift (parse_handle_identifier p s payload.handle)
    r ← load_record id d
    revoke_loaded payload d id r

  abbrev deleted_event : Bytes → ℕ → Bool → Event.TransparencyEvent
  deleted_event handle at removed =
      Event.with_caller (caller context)
        (Event.delete p at handle removed (some (append_context_transparency_meta p context [])))

  abbrev may_delete : Option StoredEnvelopeRecord → Result ServiceError (Unit {0})
  may_delete none = ok tt
  may_delete (some r) = validate_v2_record_management_requirements p r context

  unfoldable pub delete_secret_impl : Bytes → Draws → Action Tree Bool
  delete_secret_impl handle d = do
    s ← get
    id ← lift (parse_handle_identifier p s handle)
    found ← on_store (λ t. load p b t id d.accessed_at d.nonce)
    lift (may_delete found)
    removed ← on_store (λ t. ok (delete p b t id))
    modify (record_transparency p j (deleted_event handle d.recorded_at removed))
    pure removed
