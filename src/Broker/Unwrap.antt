-- ===== src/Broker/Unwrap.antt =====
-- `unwrap_secret_v2_impl`. A run takes, besides its `Draws`, the time at which it builds the
-- macaroon's verifier.
pub mod Checks
pub mod Guarded
pub mod AtMostOnce
pub mod Effects
use secret_broker.Base.{ℕ, Bytes, Bool, true, false, some, [], if◌then◌else◌}
use secret_broker.Base.Result.{Result, ok, ok_or}
use secret_broker.Text.{lit}
use secret_broker.Platform.{Platform}
use secret_broker.Macaroon.Types.{Macaroon}
use secret_broker.Transparency.Json.{Json, text, num, flag, Meta, insert}
use secret_broker.Transparency.Event
use secret_broker.Transparency.Logger.{EventJson}
use secret_broker.Store.Record.{
  StoredEnvelopeRecord, SecretLifecycle, single_use_unwrap, renewable_lease, service_bootstrap,
}
use secret_broker.Store.Backend.{Backend}
use secret_broker.Store.Ops.{StoreError, mark_redeem_used}
use secret_broker.Broker.Context.{BrokerClientContext}
use secret_broker.Broker.State.{BrokerState, parse_handle_v2, record_transparency}
use secret_broker.Broker.Action.{Action, ◌>>=◌, ◌>>◌, pure, lift, stored, get, modify}
use secret_broker.Broker.Meta.{append_context_transparency_meta, insert_some}
use secret_broker.Broker.Services.{Services}
use secret_broker.Broker.Redeem.{
  UnwrapV2Request, is_renewable, verify_handle, may_unwrap, verify_envelope, redeem, open_envelope,
}
use secret_broker.Broker.Lifecycle.{Draws, load_record, caller}

pub record UnwrapResponse : Type 0 where
  pub plaintext : Bytes

unfoldable pub event_label : SecretLifecycle → Bytes
event_label renewable_lease = lit "lease_unwrap"
event_label service_bootstrap = lit "bootstrap_unwrap"
event_label single_use_unwrap = lit "unwrap"

abbrev if_renewable : Bool → (Meta → Meta) → Meta → Meta
if_renewable false f m = m
if_renewable true f m = f m

module _ (p : Platform) (context : BrokerClientContext) where
  unfoldable pub unwrap_meta : StoredEnvelopeRecord → Meta
  unfolding event_label
  unwrap_meta r =
      let m₁ =
        append_context_transparency_meta p context
          (insert (lit "lifecycle") (text (event_label r.lifecycle)) []) in
      let m₂ =
        insert (lit "issued_with_authenticated_transport")
          (flag r.issued_with_authenticated_transport) m₁ in
      let m₃ = insert_some (lit "issued_by_principal_id") text r.issued_by_principal_id m₂ in
      let m₄ =
        insert_some (lit "issued_by_peer_cert_sha256") text r.issued_by_peer_cert_sha256 m₃ in
      let m₅ =
        insert_some (lit "issued_by_attestation_digest") text r.issued_by_attestation_digest m₄ in
      let m₆ = insert_some (lit "unwrap_principal_id") text r.unwrap_principal_id m₅ in
      if_renewable (is_renewable r) (insert (lit "lease_renewal_count") (num r.lease_renewal_count))
        m₆

  unfoldable pub unwrapped_event : Bytes → ℕ → StoredEnvelopeRecord → Event.TransparencyEvent
  unfolding unwrap_meta
  unwrapped_event handle at r = Event.with_caller (caller context) (
      Event.unwrap p at handle (some r.envelope.envelope_key_id) r.envelope.customer_id
        (some (unwrap_meta r)))

module _ {Tree : Type 0} (p : Platform) (b : Backend Tree) where
  -- `.map(|_| ())`
  abbrev pub unit_call : Result StoreError Tree → Result StoreError (Tree × Unit {0})
  unit_call (Result.ok t) = ok (t, tt)
  unit_call (Result.err e) = Result.err e

  -- "Only consume the redeem token for single-use secrets."
  unfoldable pub consume : Bytes → Draws → StoredEnvelopeRecord → Action Tree (Unit {0})
  consume id d r s =
      if is_renewable r
      then pure tt s
      else stored s (unit_call (mark_redeem_used p b s.sealed_store id d.nonce'))

module _ {Tree Scalar Point : Type 0} (p : Platform) (b : Backend Tree) (j : EventJson)
    (v : Services Scalar Point) (context : BrokerClientContext) where
  -- `unwrap_secret_v2_impl` from the record on
  unfoldable pub unwrap_loaded :
      UnwrapV2Request → Draws → ℕ → Macaroon → StoredEnvelopeRecord → Action Tree UnwrapResponse
  unfolding consume unwrapped_event
  unwrap_loaded payload d verified_at m r = do
    s ← get
    lift (verify_handle p s payload m verified_at r)
    lift (may_unwrap p context d.now r)
    lift (verify_envelope p v r)
    lift (redeem p v s m.identifier context.exporter d.now payload.redeem_token r)
    plaintext ← lift (open_envelope p v context.exporter r)
    consume p b m.identifier d r
    modify (record_transparency p j (unwrapped_event p context payload.handle d.recorded_at r))
    pure (record { plaintext = p.b64_encode plaintext })

  unfoldable pub unwrap_secret_v2_impl : UnwrapV2Request → Draws → ℕ → Action Tree UnwrapResponse
  unfolding unwrap_loaded
  unwrap_secret_v2_impl payload d verified_at = do
    m ← lift (parse_handle_v2 p payload.handle)
    r ← load_record p b j context m.identifier d
    unwrap_loaded payload d verified_at m r
