-- ===== src/Broker/Attenuate.antt =====
-- `attenuate_handle_v2_impl`.
pub mod Attenuated
use secret_broker.Base.{
  ℕ, Bytes, Bool, not, Option, none, some, List, [], ◌∷◌, ◌++◌, map, length, ◌==◌,
}
use secret_broker.Base.Result.{guard, map_err}
use secret_broker.Text.{lit}
use secret_broker.Platform.{Platform}
use secret_broker.Macaroon.Types.{
  Macaroon, Caveat, tenant_id, provider, circuit_id, node_id, action, max_uses, third_party,
}
use secret_broker.Macaroon.Chain.{add_caveat, verify_signature}
use secret_broker.Macaroon.Wire.{serialize}
use secret_broker.Transparency.Json.{Json, num, texts, Meta, insert}
use secret_broker.Transparency.Event
use secret_broker.Transparency.Logger.{EventJson}
use secret_broker.Store.Record.{StoredEnvelopeRecord, ThirdPartyCaveatKey}
use secret_broker.Store.Backend.{Backend}
use secret_broker.Store.Ops.{append_third_party_caveat_key}
use secret_broker.Broker.Context.{
  ServiceError, invalid_handle, invalid_attenuation, BrokerClientContext,
}
use secret_broker.Broker.Identity.{validate_v2_record_identity_requirements}
use secret_broker.Broker.State.{
  BrokerState, parse_handle_v2, macaroon_root_key, record_transparency,
}
use secret_broker.Broker.Action.{Action, ◌>>=◌, ◌>>◌, pure, lift, on_store, get, modify}
use secret_broker.Broker.Meta.{append_context_transparency_meta}
use secret_broker.Broker.Lifecycle.{Draws, load_record, caller}
use secret_broker.Broker.Unwrap.{unit_call}
use secret_broker.Broker.NewCaveats.{
  AttenuateV2Request, AttenuateV2Response, KeyDraws, Added, added_caveats, check_max_uses,
  add_caveats, third_party_entry,
}

module _ {Tree : Type 0} (p : Platform) (b : Backend Tree) (j : EventJson)
    (context : BrokerClientContext) where
  unfoldable pub append_key : Bytes → Draws → Option ThirdPartyCaveatKey → Action Tree (Unit {0})
  append_key id d none = pure tt
  append_key id d (some entry) =
      on_store (λ t. unit_call p b (append_third_party_caveat_key p b t id entry d.nonce'))

  abbrev attenuated_event :
      AttenuateV2Request → ℕ → StoredEnvelopeRecord → List Added → Event.TransparencyEvent
  attenuated_event payload at r added = Event.with_parent_handle p payload.handle (
      Event.with_caller (caller context) (
        Event.attenuate p at payload.handle r.envelope.customer_id (
          some (
            append_context_transparency_meta p context (
              insert (lit "caveat_types") (texts (map (λ (a : Added). a.0) added))
                (insert (lit "caveats_added") (num (length added)) []))))))

  unfoldable pub attenuate_handle_v2_impl :
      AttenuateV2Request → Draws → KeyDraws → Action Tree AttenuateV2Response
  attenuate_handle_v2_impl payload d k = do
    mac ← lift (parse_handle_v2 p payload.handle)
    s ← get
    lift (
        map_err (λ _. invalid_handle)
          (verify_signature p mac (macaroon_root_key p s mac.identifier)))
    r ← load_record p b j context mac.identifier d
    lift (validate_v2_record_identity_requirements p r context)
    lift (check_max_uses payload.max_uses)
    entry ← lift (third_party_entry p payload.third_party k)
    append_key mac.identifier d entry
    let added = added_caveats payload entry
    lift (
        guard (not (length added == 0))
          (invalid_attenuation (lit "at least one caveat is required")))
    modify (record_transparency p j (attenuated_event payload d.recorded_at r added))
    pure (record {
      handle = lit "broker:v2:" ++ serialize p (add_caveats p mac (map (λ (a : Added). a.1) added));
      third_party_caveat_id = elim entry [ none ↦ none | some e ↦ some e.key_id ];
    })
