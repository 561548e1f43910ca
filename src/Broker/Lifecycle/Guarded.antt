-- ===== src/Broker/Lifecycle/Guarded.antt =====
-- What a successful renewal, revocation or deletion has checked.
use secret_broker.Base.{
  ℕ, ◌+◌, ◌*◌, ◌≤◌, ◌<◌, ◌≡◌, refl, ap, arith, Bytes, true, false, ◌||◌, not, Option, none, some,
  ltb, ◌==◌,
}
use secret_broker.Base.Result.{Result, ok, err, ok_or, guard, >>=-eq-ok}
use secret_broker.Platform.{Platform, nanos}
use secret_broker.Transparency.Logger.{EventJson}
use secret_broker.Store.Record.{StoredEnvelopeRecord, is_lifecycle, renewable_lease, is_expired}
use secret_broker.Store.Backend.{Backend}
use secret_broker.Store.Ops.{StoreError, load, renew_lease}
use secret_broker.Broker.Context.{
  ServiceError, invalid_ttl, handle_not_found, revoked_handle, expired_handle, crypto,
  BrokerClientContext,
}
use secret_broker.Broker.Identity.{validate_v2_record_identity_requirements}
use secret_broker.Base.Result.{guard-true}
use secret_broker.Broker.State.{BrokerState, parse_handle_identifier}
use secret_broker.Broker.Action.{Action, lift, continue, stored, lift-eq-ok, stored-eq-ok}
use secret_broker.Broker.Renewal.{capped_lease, may_renew}
use secret_broker.Broker.Lifecycle.{
  RenewLeaseRequest, RenewLeaseResponse, Draws, load_record, renew_lease_impl, renew_loaded,
}

-- A deadline that the record has, and that `t` does not pass.
abbrev pub Within : ℕ → Option ℕ → Type 0
Within t none = Unit {0}
Within t (some deadline) = t ≤ deadline

pub capped_lease-Within :
    (hard : Option ℕ) (lease : ℕ)
    → Within (capped_lease hard lease) hard × (capped_lease hard lease ≤ lease)
unfolding capped_lease
capped_lease-Within none lease = (tt, omega arith)
capped_lease-Within (some t) lease = (ground arith, ground arith)

-- `r` is the record that the handle's authentic macaroon leads to.
pub record Loaded {Tree : Type 0} (p : Platform) (b : Backend Tree) (s : BrokerState Tree)
    (handle : Bytes) (d : Draws) (r : StoredEnvelopeRecord) : Type 0 where
  pub id : Bytes
  pub tree : Tree
  pub parsed : parse_handle_identifier p s handle ≡ ok id
  pub found : load p b s.sealed_store id d.accessed_at d.nonce ≡ ok (tree, some r)

pub record Renewable (p : Platform) (context : BrokerClientContext) (now : ℕ)
    (r : StoredEnvelopeRecord) : Type 0 where
  pub live : r.revoked ≡ false
  pub lease : is_lifecycle r.lifecycle renewable_lease ≡ true
  pub unexpired : is_expired r now ≡ false
  pub allowed : validate_v2_record_identity_requirements p r context ≡ ok tt

may_renew-Renewable :
    (p : Platform) (context : BrokerClientContext) (now : ℕ) (r : StoredEnvelopeRecord)
    → may_renew p context now r ≡ ok tt
    → Renewable p context now r
unfolding may_renew
may_renew-Renewable p context now r h =
    let (_, live, h₁) = >>=-eq-ok (guard (not r.revoked) revoked_handle) _ h in
    let (_, lease, h₂) = >>=-eq-ok (guard (is_lifecycle r.lifecycle renewable_lease) crypto) _ h₁ in
    let (_, unexpired, h₃) = >>=-eq-ok (guard (not (is_expired r now)) expired_handle) _ h₂ in
    record {
      live = ground arith;
      lease = guard-true _ _ lease;
      unexpired = ground arith;
      allowed = h₃;
    }

positive : (n : ℕ) → not (n == 0 || ltb (86400 * 30) n) ≡ true → 0 < n
positive n h = ground arith

at_most : (n : ℕ) → not (n == 0 || ltb (86400 * 30) n) ≡ true → n ≤ 2_592_000
at_most n h = ground arith

abbrev answered_lease :
    {Tree : Type 0} → Result ServiceError RenewLeaseResponse × BrokerState Tree → ℕ
answered_lease (ok response, s) = response.lease_expires_at
answered_lease (err e, s) = 0

module _ {Tree : Type 0} (p : Platform) (b : Backend Tree) (j : EventJson)
    (context : BrokerClientContext) where
  pub load_record-eq-ok :
      {B : Type 0} (id : Bytes) (d : Draws) (s s' : BrokerState Tree)
      (next : StoredEnvelopeRecord → Action Tree B) (answer : B)
      → continue (load_record p b j context id d s) next ≡ (ok answer, s')
      → (t : Tree) × (r : StoredEnvelopeRecord) × (load p b s.sealed_store id d.accessed_at d.nonce
          ≡ ok (t, some r))
        × (next r (record s { sealed_store = t }) ≡ (ok answer, s'))
  unfolding load_record
  load_record-eq-ok id d s s' next answer h =
      go (load p b s.sealed_store id d.accessed_at d.nonce) h
    where
      go :
          (c : Result StoreError (Tree × Option StoredEnvelopeRecord))
          → continue (continue (stored s c) (λ found. lift (ok_or found handle_not_found))) next
            ≡ (ok answer, s')
          → (t : Tree) × (r : StoredEnvelopeRecord) × (c ≡ ok (t, some r))
            × (next r (record s { sealed_store = t }) ≡ (ok answer, s'))
      go (ok (t, some r)) e = (t, r, refl, e)
      go (ok (t, none)) e = absurd (ground arith)
      go (err x) e = absurd (ground arith)

  -- A renewal that succeeds was asked for a lease of one second to thirty days, on a handle that is
  -- authentic, for a record that is renewable, not revoked and not expired, and by a caller that
  -- the record's identity checks admit; the new lease ends by the record's hard deadline and no
  -- later than was asked for.
  pub renew_lease_impl-guarded :
      (payload : RenewLeaseRequest) (d : Draws) (s s' : BrokerState Tree)
      (response : RenewLeaseResponse)
      → renew_lease_impl p b j context payload d s ≡ (ok response, s')
      → (0 < payload.lease_duration_seconds)
        × (payload.lease_duration_seconds ≤ 2_592_000)
        × (r : StoredEnvelopeRecord) × Loaded p b s payload.handle d r
        × Renewable p context d.now r
        × Within response.lease_expires_at r.expires_at
        × (response.lease_expires_at ≤ d.now + payload.lease_duration_seconds * nanos)
  unfolding renew_lease_impl renew_loaded
  renew_lease_impl-guarded payload d s s' response h =
      let asked = payload.lease_duration_seconds in
      let (_, bounded, h₁) =
        lift-eq-ok _ s (guard (not (asked == 0 || ltb (86400 * 30) asked)) invalid_ttl) h in
      let (id, parsed, h₂) = lift-eq-ok _ s (parse_handle_identifier p s payload.handle) h₁ in
      let (t, r, found, h₃) = load_record-eq-ok id d s s' _ response h₂ in
      let (_, checked, h₄) =
        lift-eq-ok _ (record s { sealed_store = t }) (may_renew p context d.now r) h₃ in
      let lease = capped_lease r.expires_at (d.now + asked * nanos) in
      let (t', updated, written, h₅) =
        stored-eq-ok _ (record s { sealed_store = t })
          (renew_lease p b t id lease d.stored_at d.nonce') h₄ in
      let same : lease ≡ response.lease_expires_at = ap answered_lease h₅ in
      let within = capped_lease-Within r.expires_at (d.now + asked * nanos) in
      let sound = guard-true (not (asked == 0 || ltb (86400 * 30) asked)) _ bounded in
      (
        positive asked sound,
        at_most asked sound,
        r,
        record { id = id; tree = t; parsed = parsed; found = found },
        may_renew-Renewable p context d.now r checked,
        rw same at within.0,
        rw same at within.1,
      )
