-- ===== src/Broker/Lifecycle/Effects.antt =====
-- What renewal and revocation do, on a store that represents a map of records.
use secret_broker.Base.{
  none, ℕ, ◌+◌, ◌*◌, ◌≤◌, ◌<◌, ◌≡◌, refl, ap, ◌∙◌, arith, Bytes, true, ◌||◌, not, some, length, ltb,
  ◌==◌,
}
use secret_broker.Base.Result.{Result, ok, err}
use secret_broker.Platform.{Platform, IsLawful, nanos}
use secret_broker.Transparency.Logger.{EventJson}
use secret_broker.Store.Record.{StoredEnvelopeRecord}
use secret_broker.Store.Backend.{Backend, IsBackend}
use secret_broker.Store.Ops.{touch, renewed, revoked_by}
use secret_broker.Store.Spec.{RecordMap, put, put_same}
use secret_broker.Store.Refinement.{Represents, Seals}
use secret_broker.Store.Effects.{load-eq, renew_lease-eq, revoke-eq, delete-eq}
use secret_broker.Broker.Context.{ServiceError, revoked_handle, BrokerClientContext}
use secret_broker.Broker.Identity.{validate_v2_record_management_requirements}
use secret_broker.Broker.State.{BrokerState, parse_handle_identifier, record_transparency}
use secret_broker.Broker.Action.{Action, continue}
use secret_broker.Broker.Renewal.{capped_lease, may_renew}
use secret_broker.Broker.Lifecycle.Renewed.{Renewed, renewed-Renewed}
use secret_broker.Broker.Lifecycle.{
  RenewLeaseRequest, RevokeSecretRequest, Draws, load_record, log_revocation, renew_loaded,
  revoke_loaded, renewed_event, revoked_event, deleted_event, delete_secret_impl, or_now,
  renew_lease_impl, revoke_secret_impl,
}

-- The run can use the store: it represents `m`, and the cipher accepts both nonces.
pub record Ready {Tree : Type 0} (p : Platform) (b : Backend Tree) (s : BrokerState Tree)
    (m : RecordMap) (d : Draws) : Type 0 where
  pub represents : Represents p b s.sealed_store m
  pub nonce_length : length d.nonce ≡ 12
  pub nonce_length' : length d.nonce' ≡ 12
  pub seals : Seals p b d.nonce
  pub seals' : Seals p b d.nonce'

module _ {Tree : Type 0} (p : Platform) (b : Backend Tree) (j : EventJson) (w : IsLawful p)
    (bw : IsBackend b) (context : BrokerClientContext) where
  pub load_record-eq :
      {B : Type 0} (next : StoredEnvelopeRecord → Action Tree B) (id : Bytes) (d : Draws)
      (s : BrokerState Tree) (m : RecordMap) (r : StoredEnvelopeRecord)
      → Ready p b s m d
      → m id ≡ some r
      → (t : Tree) × (continue (load_record p b j context id d s) next
          ≡ next (touch d.accessed_at r) (record s { sealed_store = t }))
        × Represents p b t (put m id (some (touch d.accessed_at r)))
  unfolding load_record
  load_record-eq next id d s m r ready e =
      let (t, loaded, rep) =
        load-eq p b w bw d.nonce ready.nonce_length ready.seals s.sealed_store m ready.represents id
          r e d.accessed_at in
      (t, rw loaded refl, rep)

  in_range : (n : ℕ) → 0 < n → n ≤ 2_592_000 → not (n == 0 || ltb (86400 * 30) n) ≡ true
  in_range n above below = ground arith

  abbrev outcome : {A : Type 0} → Result ServiceError A × BrokerState Tree → Result ServiceError A
  outcome o = o.0

  renew_loaded-eq :
      (payload : RenewLeaseRequest) (d : Draws) (s : BrokerState Tree) (m : RecordMap) (id : Bytes)
      (r : StoredEnvelopeRecord)
      → Ready p b s m d
      → m id ≡ some r
      → may_renew p context d.now r ≡ ok tt
      → let lease = capped_lease r.expires_at (d.now + payload.lease_duration_seconds * nanos) in
        let after = renewed lease d.stored_at r in
        (s' : BrokerState Tree) × (renew_loaded p b j context payload d id r s ≡ (
          ok (record { lease_expires_at = lease; renewal_count = after.lease_renewal_count }),
          s',
        ))
        × Represents p b s'.sealed_store (put m id (some after))
  unfolding renew_loaded record_transparency
  renew_loaded-eq payload d s m id r ready e checked =
      let lease = capped_lease r.expires_at (d.now + payload.lease_duration_seconds * nanos) in
      let (t, wrote, rep) =
        renew_lease-eq p b w bw d.nonce' ready.nonce_length' ready.seals' s.sealed_store m
          ready.represents id r e lease d.stored_at in
      let event =
        renewed_event p b j context payload.handle d.recorded_at r lease
          (renewed lease d.stored_at r).lease_renewal_count (or_now r.lease_expires_at d.now) in
      (
        record_transparency {Tree = Tree} p j event (record s { sealed_store = t }),
        rw checked (rw wrote refl),
        rep,
      )

  renew_loaded-revoked :
      (payload : RenewLeaseRequest) (d : Draws) (id : Bytes) (r : StoredEnvelopeRecord)
      (s : BrokerState Tree)
      → r.revoked ≡ true
      → (renew_loaded p b j context payload d id r s).0 ≡ err revoked_handle
  unfolding renew_loaded may_renew
  renew_loaded-revoked payload d id r s gone = rw gone refl

  revoke_loaded-eq :
      (payload : RevokeSecretRequest) (d : Draws) (s : BrokerState Tree) (m : RecordMap)
      (id : Bytes) (r : StoredEnvelopeRecord)
      → Ready p b s m d
      → m id ≡ some r
      → validate_v2_record_management_requirements p r context ≡ ok tt
      → (s' : BrokerState Tree) × (revoke_loaded p b j context payload d id r s
          ≡ (ok (record { revoked = true; revoked_at = some d.now }), s'))
        × Represents p b s'.sealed_store (put m id (some (revoked_by payload.reason d.stored_at r)))
  unfolding revoke_loaded log_revocation record_transparency
  revoke_loaded-eq payload d s m id r ready e checked =
      let (t, wrote, rep) =
        revoke-eq p b w bw d.nonce' ready.nonce_length' ready.seals' s.sealed_store m
          ready.represents id r e payload.reason d.stored_at in
      let event = revoked_event p b j context payload d.recorded_at d.now r in
      (
        record_transparency {Tree = Tree} p j event (record s { sealed_store = t }),
        rw checked (rw wrote refl),
        rep,
      )

  -- Where the store represents a map and accepts the nonces of the run, a renewal of one second to
  -- thirty days on an authentic handle, for a record that the map holds and that passes the checks,
  -- succeeds. The lease of the reply ends at the requested time, or at the record's hard deadline
  -- where that is earlier; and the store then represents the map with the record changed in that
  -- lease, in a renewal count higher by one or at its maximum, which the reply has too, and in the
  -- time of its last access, and in nothing else.
  pub renew_lease_impl-succeeds :
      (payload : RenewLeaseRequest) (d : Draws) (s : BrokerState Tree) (m : RecordMap) (id : Bytes)
      (r : StoredEnvelopeRecord)
      → Ready p b s m d
      → 0 < payload.lease_duration_seconds
      → payload.lease_duration_seconds ≤ 2_592_000
      → parse_handle_identifier p s payload.handle ≡ ok id
      → m id ≡ some r
      → may_renew p context d.now (touch d.accessed_at r) ≡ ok tt
      → (lease : ℕ) × (after : StoredEnvelopeRecord) × (s' : BrokerState Tree) × Renewed r
          (d.now + payload.lease_duration_seconds * nanos)
          d.stored_at
          lease
          after
        × (renew_lease_impl p b j context payload d s ≡ (
          ok (record { lease_expires_at = lease; renewal_count = after.lease_renewal_count }),
          s',
        ))
        × Represents p b s'.sealed_store
            (put (put m id (some (touch d.accessed_at r))) id (some after))
  unfolding renew_lease_impl
  renew_lease_impl-succeeds payload d s m id r ready above below parsed e checked =
      let r' = touch d.accessed_at r in
      let (t, loaded, rep) =
        load_record-eq (renew_loaded p b j context payload d id) id d s m r ready e in
      let (s', renewal, rep') =
        renew_loaded-eq payload d (record s { sealed_store = t }) (put m id (some r')) id r'
          (record {
            represents = rep;
            nonce_length = ready.nonce_length;
            nonce_length' = ready.nonce_length';
            seals = ready.seals;
            seals' = ready.seals';
          })
          (put_same m id r') checked in
      let requested = d.now + payload.lease_duration_seconds * nanos in
      (
        capped_lease r.expires_at requested,
        renewed (capped_lease r.expires_at requested) d.stored_at r',
        s',
        renewed-Renewed r requested d.stored_at d.accessed_at,
        rw (in_range payload.lease_duration_seconds above below, parsed) (loaded ∙ renewal),
        rep',
      )

  -- Where the store represents a map and accepts the nonces of the run, a request to renew the
  -- lease of a record that the map holds as revoked, for an allowed time and on an authentic
  -- handle, fails as such, whoever asks.
  pub renew_lease_impl-revoked :
      (payload : RenewLeaseRequest) (d : Draws) (s : BrokerState Tree) (m : RecordMap) (id : Bytes)
      (r : StoredEnvelopeRecord)
      → Ready p b s m d
      → 0 < payload.lease_duration_seconds
      → payload.lease_duration_seconds ≤ 2_592_000
      → parse_handle_identifier p s payload.handle ≡ ok id
      → m id ≡ some r
      → r.revoked ≡ true
      → (renew_lease_impl p b j context payload d s).0 ≡ err revoked_handle
  unfolding renew_lease_impl
  renew_lease_impl-revoked payload d s m id r ready above below parsed e gone =
      let r' = touch d.accessed_at r in
      let (t, loaded, rep) =
        load_record-eq (renew_loaded p b j context payload d id) id d s m r ready e in
      rw (in_range payload.lease_duration_seconds above below, parsed)
        (ap outcome loaded
          ∙ renew_loaded-revoked payload d id r' (record s { sealed_store = t }) gone)

  -- Where the store represents a map and accepts the nonces of the run, a revocation on an
  -- authentic handle by a caller who may manage the record that the map holds succeeds and reports
  -- the time, and the store then represents the map with the record marked as revoked at the time
  -- of the write and for the given reason, with its redeem token consumed and its nonce and binding
  -- cleared, and with nothing else changed but the time of its last access.
  pub revoke_secret_impl-succeeds :
      (payload : RevokeSecretRequest) (d : Draws) (s : BrokerState Tree) (m : RecordMap)
      (id : Bytes) (r : StoredEnvelopeRecord)
      → Ready p b s m d
      → parse_handle_identifier p s payload.handle ≡ ok id
      → m id ≡ some r
      → validate_v2_record_management_requirements p (touch d.accessed_at r) context ≡ ok tt
      → let after : StoredEnvelopeRecord = record r {
        last_accessed = some d.accessed_at;
        revoked = true;
        revoked_at = some d.stored_at;
        revocation_reason = payload.reason;
        redeem_used = true;
        redeem_nonce = none;
        redeem_binding = none;
      } in
        (s' : BrokerState Tree) × (revoke_secret_impl p b j context payload d s
          ≡ (ok (record { revoked = true; revoked_at = some d.now }), s'))
        × Represents p b s'.sealed_store
            (put (put m id (some (touch d.accessed_at r))) id (some after))
  unfolding revoke_secret_impl
  revoke_secret_impl-succeeds payload d s m id r ready parsed e checked =
      let r' = touch d.accessed_at r in
      let (t, loaded, rep) =
        load_record-eq (revoke_loaded p b j context payload d id) id d s m r ready e in
      let (s', revocation, rep') =
        revoke_loaded-eq payload d (record s { sealed_store = t }) (put m id (some r')) id r'
          (record {
            represents = rep;
            nonce_length = ready.nonce_length;
            nonce_length' = ready.nonce_length';
            seals = ready.seals;
            seals' = ready.seals';
          })
          (put_same m id r') checked in
      (s', rw parsed (loaded ∙ revocation), rep')

  -- Where the store represents a map and accepts the nonces of the run, a deletion on an authentic
  -- handle by a caller who may manage the record that the map holds succeeds, and the store then
  -- represents the map without that record.
  pub delete_secret_impl-succeeds :
      (handle : Bytes) (d : Draws) (s : BrokerState Tree) (m : RecordMap) (id : Bytes)
      (r : StoredEnvelopeRecord)
      → Ready p b s m d
      → parse_handle_identifier p s handle ≡ ok id
      → m id ≡ some r
      → validate_v2_record_management_requirements p (touch d.accessed_at r) context ≡ ok tt
      → (s' : BrokerState Tree) × (delete_secret_impl p b j context handle d s ≡ (ok true, s'))
        × Represents p b s'.sealed_store (put (put m id (some (touch d.accessed_at r))) id none)
  unfolding delete_secret_impl record_transparency
  delete_secret_impl-succeeds handle d s m id r ready parsed e checked =
      let r' = touch d.accessed_at r in
      let (t, loaded, rep) =
        load-eq p b w bw d.nonce ready.nonce_length ready.seals s.sealed_store m ready.represents id
          r e d.accessed_at in
      let (t', deleted, rep') =
        delete-eq p b w bw d.nonce ready.nonce_length ready.seals t (put m id (some r')) rep id r'
          (put_same m id r') in
      let event = deleted_event p b j context handle d.recorded_at true in
      (
        record_transparency {Tree = Tree} p j event (record s { sealed_store = t' }),
        rw parsed (rw loaded (rw checked (rw deleted refl))),
        rep',
      )
