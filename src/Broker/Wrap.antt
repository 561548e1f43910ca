-- ===== src/Broker/Wrap.antt =====
-- `wrap_secret_v2_impl`. An action that answers `none` stands for a panic of chrono, which comes
-- before the store is changed.
pub mod Done
pub mod Admitted
pub mod Presented
pub mod Checked
pub mod RoundTrip
use secret_broker.Base.{
  ℕ, ◌+◌, ◌-◌, ◌*◌, ◌^◌, Bytes, Bool, true, false, ◌&&◌, Option, none, some, List, [], ◌∷◌, ◌++◌,
  ltb, leb, if◌then◌else◌,
}
use secret_broker.Base.Result.{Result, ok, ok_or}
use secret_broker.Text.{lit, trim, nonblank}
use secret_broker.Platform.{Platform, nanos}
use secret_broker.Macaroon.Types.{
  Caveat, Macaroon, tenant_id, provider, circuit_id, node_id, expires, action, max_uses,
}
use secret_broker.Macaroon.Chain.{mint}
use secret_broker.Macaroon.Wire.{serialize}
use secret_broker.Transparency.Json.{Json, text, num, raw, Meta, insert}
use secret_broker.Transparency.Event
use secret_broker.Transparency.Logger.{EventJson}
use secret_broker.Store.Record.{
  SecretEnvelope, SecretLifecycle, single_use_unwrap, is_lifecycle, StoredEnvelopeRecord,
}
use secret_broker.Store.Backend.{Backend}
use secret_broker.Store.Ops.{insert_with_id}
use secret_broker.Broker.Context.{ServiceError, crypto, serialization, BrokerClientContext, cleaned}
use secret_broker.Broker.Identity.{v2_unwrap_principal}
use secret_broker.Broker.State.{
  BrokerState, macaroon_root_key, compute_redeem_token, record_transparency,
}
use secret_broker.Broker.Action.{Action, ◌>>=◌, ◌>>◌, pure, lift, stored, get, modify}
use secret_broker.Broker.Meta.{
  append_context_transparency_meta, insert_some, secret_lifecycle_label,
}
use secret_broker.Broker.Ttl.{enforce_ttl, Ttl}
use secret_broker.Broker.Services.{Services, EncryptionResult, KeyPair}
use secret_broker.Broker.Lifecycle.{caller}
use secret_broker.Broker.Persist.{
  StoredSecretOutcome, PersistSecretV2Input, WrapDraws, persist_secret_v2_with_lifecycle,
}
use secret_broker.Broker.Unwrap.{unit_call}

pub record WrapV2Request : Type 0 where
  pub plaintext : Bytes
  pub customer_id : Option Bytes
  pub metadata : Option Bytes
  pub lifecycle : SecretLifecycle
  pub ttl_seconds : Option ℕ
  pub initial_lease_seconds : Option ℕ
  pub label : Option Bytes
  pub tenant_id : Option Bytes
  pub provider : Option Bytes
  pub circuit_id : Option Bytes
  pub node_id : Option Bytes
  pub unwrap_principal_id : Option Bytes

pub record WrapSecretOutcome : Type 0 where
  pub handle : Bytes
  pub expires_at : Option ℕ
  pub redeem_token : Bytes
  pub redeem_token_expires_at : Option ℕ

unfoldable pub normalize_optional_string : Bytes → Option Bytes
normalize_optional_string value = nonblank (trim value)

-- `.and_then(normalize_optional_string)`
unfoldable pub normalized : Option Bytes → Option Bytes
unfolding normalize_optional_string
normalized none = none
normalized (some value) = normalize_optional_string value

abbrev pub or_default : Option Bytes → Bytes → Bytes
or_default none default = default
or_default (some value) default = value

module _ (p : Platform) (context : BrokerClientContext) where
  abbrev pub pushed : Option Bytes → (Bytes → Caveat) → List Caveat → List Caveat
  pushed none f rest = rest
  pushed (some value) f rest = f value ∷ rest

  abbrev pub pushed_expiry : Option ℕ → List Caveat → List Caveat
  pushed_expiry none rest = rest
  pushed_expiry (some t) rest = expires t ∷ rest

  -- the caveats of the handle
  unfoldable pub wrap_caveats : WrapV2Request → Option ℕ → List Caveat
  unfolding normalized
  wrap_caveats request deadline = pushed (normalized request.tenant_id) tenant_id (
      pushed (normalized request.provider) provider (
        pushed (normalized request.circuit_id) circuit_id (
          pushed (normalized request.node_id) node_id
            (pushed_expiry deadline (action (lit "unwrap") ∷ max_uses ∷ [])))))

  unfoldable pub wrap_meta : WrapV2Request → Bytes → Bytes → Option ℕ → Option Bytes → Meta
  unfolding secret_lifecycle_label normalized
  wrap_meta request handle customer_id ttl principal =
      let m₁ = insert (lit "purpose") (text (lit "wrap-secret-v2")) [] in
      let m₂ = insert (lit "handle_version") (num 2) m₁ in
      let m₃ = insert (lit "lifecycle") (text (secret_lifecycle_label request.lifecycle)) m₂ in
      let m₄ = insert (lit "handle_fingerprint") (text (Event.handle_fingerprint p handle)) m₃ in
      let m₅ = append_context_transparency_meta p context m₄ in
      let m₆ = insert_some (lit "label") text (normalized request.label) m₅ in
      let m₇ = insert (lit "customer_id") (text customer_id) m₆ in
      let m₈ = insert_some (lit "ttl_seconds") num ttl m₇ in
      let m₉ = insert_some (lit "unwrap_principal_id") text principal m₈ in
      insert_some (lit "secret_metadata") raw request.metadata m₉

module _ {Tree Scalar Point : Type 0} (p : Platform) (b : Backend Tree) (j : EventJson)
    (v : Services Scalar Point) (context : BrokerClientContext) where
  unfoldable pub wrap_handle : BrokerState Tree → WrapV2Request → StoredSecretOutcome → Bytes
  unfolding wrap_caveats
  wrap_handle s request outcome =
      lit "broker:v2:"
      ++ serialize p (
          mint p (macaroon_root_key p s outcome.handle_id) outcome.handle_id
            (wrap_caveats p context request outcome.expires_at))

  -- `wrap_secret_v2_impl` after the secret is stored
  unfoldable pub finish_wrap :
      WrapV2Request
      → WrapDraws
      → Option ℕ
      → Option Bytes
      → Option StoredSecretOutcome
      → Action Tree (Option WrapSecretOutcome)
  unfolding wrap_handle wrap_meta
  finish_wrap request d ttl principal none = pure none
  finish_wrap request d ttl principal (some outcome) = do
    s ← get
    let handle = wrap_handle s request outcome
    modify (
        record_transparency p j (
          Event.with_caller (caller context) (
            Event.wrap p d.recorded_at handle outcome.envelope_key_id outcome.customer_id
              (some (wrap_meta p context request handle outcome.customer_id ttl principal)))))
    pure (
        some (record {
          handle = handle;
          expires_at = outcome.expires_at;
          redeem_token = outcome.redeem_token;
          redeem_token_expires_at = outcome.redeem_token_expires_at;
        }))

  -- `wrap_secret_v2_impl` after the lifetime is computed, where that did not panic
  unfoldable pub wrap_checked :
      WrapV2Request
      → WrapDraws
      → Option (Result ServiceError Ttl)
      → Action Tree (Option WrapSecretOutcome)
  unfolding persist_secret_v2_with_lifecycle finish_wrap normalized
  wrap_checked request d none = pure none
  wrap_checked request d (some checked) = do
    s ← get
    (expires_at, ttl) ← lift checked
    principal ← lift (v2_unwrap_principal context request.lifecycle request.unwrap_principal_id)
    outcome ←
        persist_secret_v2_with_lifecycle p b v context
          (record {
            plaintext = request.plaintext;
            customer_id = or_default (normalized request.customer_id) s.default_customer_id;
            metadata = request.metadata;
            created_at = d.created_at;
            expires_at = expires_at;
            lifecycle = request.lifecycle;
            initial_lease_seconds = request.initial_lease_seconds;
            unwrap_principal_id = principal;
          })
          d
    finish_wrap request d ttl principal outcome

  unfoldable pub wrap_secret_v2_impl :
      WrapV2Request → WrapDraws → Action Tree (Option WrapSecretOutcome)
  unfolding wrap_checked enforce_ttl
  wrap_secret_v2_impl request d s =
      wrap_checked request d (enforce_ttl p request.ttl_seconds s.max_handle_ttl d.created_at) s
