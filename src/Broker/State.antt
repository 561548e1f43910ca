-- ===== src/Broker/State.antt =====
-- `BrokerState`: what the handlers share. The crypto service and Postgres are not modelled.
use secret_broker.Base.{ℕ, Bytes, Bool, Option, none, some, List, [], ◌∷◌, ◌++◌}
use secret_broker.Base.Result.{Result, ok, ◌>>=◌, ◌>>◌, ok_or, map_err}
use secret_broker.Text.{lit, trim, nonblank, strip_prefix}
use secret_broker.Platform.{Platform}
use secret_broker.Macaroon.Types.{Macaroon}
use secret_broker.Macaroon.Chain.{verify_signature}
use secret_broker.Macaroon.Wire.{deserialize}
use secret_broker.Transparency.Event.{TransparencyEvent}
use secret_broker.Transparency.Logger.{EventJson, TransparencyLogger, append}
use secret_broker.Broker.Context.{ServiceError, invalid_handle}
use secret_broker.Broker.Identity.{DischargePolicy}

-- `max_handle_ttl` is in whole seconds, which is all that the code reads of it, and
-- `redeem_token_ttl` in nanoseconds.
pub record BrokerState (Tree : Type 0) : Type 0 where
  pub sealed_store : Tree
  pub default_customer_id : Bytes
  pub max_handle_ttl : ℕ
  pub transparency : Option TransparencyLogger
  pub handle_hmac_key : Bytes
  pub redeem_token_ttl : ℕ
  pub policy : DischargePolicy

abbrev keep_nonblank : List Bytes → List Bytes
keep_nonblank [] = []
keep_nonblank (v ∷ vs) = elim (nonblank (trim v)) [
  | none ↦ keep_nonblank vs
  | some w ↦ w ∷ keep_nonblank vs
]

abbrev after_append :
    Platform → EventJson → TransparencyEvent → Option TransparencyLogger → Option TransparencyLogger
after_append p j event none = none
after_append p j event (some logger) = some (append p j event logger)

module _ {Tree : Type 0} (p : Platform) where
  unfoldable pub compute_redeem_token : BrokerState Tree → Bytes → Bytes → Bytes → Bytes
  compute_redeem_token s handle binding_hash nonce =
      p.hmac s.handle_hmac_key (handle ++ (binding_hash ++ nonce))

  unfoldable pub macaroon_root_key : BrokerState Tree → Bytes → Bytes
  macaroon_root_key s handle_id = p.hmac s.handle_hmac_key (lit "macaroon-root-v1:" ++ handle_id)

  unfoldable pub record_transparency :
      EventJson → TransparencyEvent → BrokerState Tree → BrokerState Tree
  record_transparency j event s = record s { transparency = after_append p j event s.transparency }

unfoldable pub configure_discharge_policy :
    {Tree : Type 0} → Bool → List Bytes → BrokerState Tree → BrokerState Tree
configure_discharge_policy require_attested allowed s = record s {
  policy = record {
    require_attested_discharge_mint = require_attested;
    allowed_discharge_principal_ids = keep_nonblank allowed;
  };
}

unfoldable pub parse_handle_v2 : Platform → Bytes → Result ServiceError Macaroon
parse_handle_v2 p raw = do
  b64 ← ok_or (strip_prefix (lit "broker:v2:") (trim raw)) invalid_handle
  map_err (λ _. invalid_handle) (deserialize p b64)

unfoldable pub parse_handle_identifier :
    {Tree : Type 0} → Platform → BrokerState Tree → Bytes → Result ServiceError Bytes
unfolding parse_handle_v2
parse_handle_identifier p s raw = do
  macaroon ← parse_handle_v2 p raw
  map_err (λ _. invalid_handle)
      (verify_signature p macaroon (macaroon_root_key p s macaroon.identifier))
  ok macaroon.identifier
