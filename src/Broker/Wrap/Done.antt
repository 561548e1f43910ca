-- ===== src/Broker/Wrap/Done.antt =====
-- What a wrap that succeeded has done.
use secret_broker.Base.{◌≡◌, refl, sym, ap, ap₂, subst, ◌∙◌, ℕ, Bytes, Option, none, some, arith}
use secret_broker.Base.Result.{Result, ok}
use secret_broker.Platform.{Platform}
use secret_broker.Transparency.Logger.{EventJson}
use secret_broker.Store.Backend.{Backend}
use secret_broker.Broker.Context.{ServiceError, BrokerClientContext}
use secret_broker.Broker.Identity.{v2_unwrap_principal}
use secret_broker.Broker.State.{BrokerState, record_transparency, macaroon_root_key}
use secret_broker.Broker.Action.{lift-eq-ok, continue-eq-ok}
use secret_broker.Broker.Services.{Services}
use secret_broker.Broker.Ttl.{enforce_ttl, Ttl}
use secret_broker.Broker.Persist.{
  PersistSecretV2Input, StoredSecretOutcome, WrapDraws, persist_secret_v2_with_lifecycle,
}
use secret_broker.Broker.Persist.Done.{Persisted, outcome_of, persist-Persisted}
use secret_broker.Broker.Wrap.{
  WrapV2Request, WrapSecretOutcome, normalized, or_default, wrap_handle, finish_wrap, wrap_checked,
  wrap_secret_v2_impl,
}

abbrev pub input_of :
    {Tree : Type 0}
    → BrokerState Tree
    → WrapV2Request
    → WrapDraws
    → Option ℕ
    → Option Bytes
    → PersistSecretV2Input
input_of s request d expires_at principal = record {
  plaintext = request.plaintext;
  customer_id = or_default (normalized request.customer_id) s.default_customer_id;
  metadata = request.metadata;
  created_at = d.created_at;
  expires_at = expires_at;
  lifecycle = request.lifecycle;
  initial_lease_seconds = request.initial_lease_seconds;
  unwrap_principal_id = principal;
}

module _ {Tree Scalar Point : Type 0} (p : Platform) (b : Backend Tree) (j : EventJson)
    (v : Services Scalar Point) (context : BrokerClientContext) where
  pub record Wrapped (request : WrapV2Request) (d : WrapDraws) (s s' : BrokerState Tree)
      (answer : WrapSecretOutcome) : Type 0 where
    pub expires_at : Option ℕ
    pub ttl : Option ℕ
    pub checked :
        enforce_ttl p request.ttl_seconds s.max_handle_ttl d.created_at
        ≡ some (ok (expires_at, ttl))
    pub principal : Option Bytes
    pub bound :
        v2_unwrap_principal context request.lifecycle request.unwrap_principal_id ≡ ok principal
    pub persisted :
        Persisted p b v context (input_of s request d expires_at principal) d s s'.sealed_store
    pub same_key : s'.handle_hmac_key ≡ s.handle_hmac_key
    pub handle :
        answer.handle
        ≡ wrap_handle p b j v context s request
            (outcome_of p b v context s (input_of s request d expires_at principal) d)
    pub token :
        answer.redeem_token
        ≡ (outcome_of p b v context s (input_of s request d expires_at principal) d).redeem_token
    pub deadline : answer.expires_at ≡ expires_at

  finished :
      (request : WrapV2Request) (d : WrapDraws) (s s₁ s' : BrokerState Tree)
      (answer : WrapSecretOutcome) (expires_at ttl : Option ℕ) (principal : Option Bytes)
      (stored : Option StoredSecretOutcome)
      → enforce_ttl p request.ttl_seconds s.max_handle_ttl d.created_at
        ≡ some (ok (expires_at, ttl))
      → v2_unwrap_principal context request.lifecycle request.unwrap_principal_id ≡ ok principal
      → persist_secret_v2_with_lifecycle p b v context
          (input_of s request d expires_at principal)
          d
          s
        ≡ (ok stored, s₁)
      → finish_wrap p b j v context request d ttl principal stored s₁ ≡ (ok (some answer), s')
      → Wrapped request d s s' answer
  unfolding finish_wrap wrap_handle record_transparency macaroon_root_key
  finished request d s s₁ s' answer expires_at ttl principal none checked bound persisted h =
      absurd (ground arith)
  finished request d s s₁ s' answer expires_at ttl principal (some stored) checked bound persisted
        h =
      let input = input_of s request d expires_at principal in
      let (tree, done, state, same) =
        persist-Persisted p b v context input d s s₁ stored persisted in
      let left : tree ≡ s'.sealed_store =
        ap (λ (k : BrokerState Tree). k.sealed_store) (sym state) ∙ ap (λ o. o.1.sealed_store) h in
      let key : s₁.handle_hmac_key ≡ s.handle_hmac_key =
        ap (λ (k : BrokerState Tree). k.handle_hmac_key) state in
      record {
        expires_at = expires_at;
        ttl = ttl;
        checked = checked;
        principal = principal;
        bound = bound;
        persisted = subst (λ t. Persisted p b v context input d s t) left done;
        same_key = sym (ap (λ o. o.1.handle_hmac_key) h) ∙ key;
        handle =
            sym (ap (λ o. (answer_of o.0).handle) h)
            ∙ ap₂ (λ k o. wrap_handle p b j v context k request o) state same;
        token =
            sym (ap (λ o. (answer_of o.0).redeem_token) h)
            ∙ ap (λ (o : StoredSecretOutcome). o.redeem_token) same;
        deadline =
            sym (ap (λ o. (answer_of o.0).expires_at) h)
            ∙ ap (λ (o : StoredSecretOutcome). o.expires_at) same;
      }
    where
      answer_of : Result ServiceError (Option WrapSecretOutcome) → WrapSecretOutcome
      answer_of (ok (some x)) = x
      answer_of _ = answer

  pub wrap-Wrapped :
      (request : WrapV2Request) (d : WrapDraws) (s s' : BrokerState Tree)
      (answer : WrapSecretOutcome)
      → wrap_secret_v2_impl p b j v context request d s ≡ (ok (some answer), s')
      → Wrapped request d s s' answer
  unfolding wrap_secret_v2_impl wrap_checked
  wrap-Wrapped request d s s' answer h =
      go (enforce_ttl p request.ttl_seconds s.max_handle_ttl d.created_at) refl h
    where
      go :
          (computed : Option (Result ServiceError Ttl))
          → enforce_ttl p request.ttl_seconds s.max_handle_ttl d.created_at ≡ computed
          → wrap_checked p b j v context request d computed s ≡ (ok (some answer), s')
          → Wrapped request d s s' answer
      go none e h = absurd (ground arith)
      go (some checked) e h =
          let ((expires_at, ttl), valid, h₁) = lift-eq-ok _ s checked h in
          let (principal, bound, h₂) =
            lift-eq-ok _ s
              (v2_unwrap_principal context request.lifecycle request.unwrap_principal_id) h₁ in
          let input = input_of s request d expires_at principal in
          let (stored, s₁, persisted, h₃) =
            continue-eq-ok _ (persist_secret_v2_with_lifecycle p b v context input d s) h₂ in
          finished request d s s₁ s' answer expires_at ttl principal stored (e ∙ ap some valid)
            bound persisted h₃
