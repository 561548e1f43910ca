-- ===== src/Tests/Attenuate.antt =====
-- A handle is attenuated to a tenant.
use secret_broker.Base.{◌≡◌, refl, ap, ◌∙◌, none, some, [], ◌∷◌, ◌++◌, bytes_eq}
use secret_broker.Base.Result.{Result, ok}
use secret_broker.Text.{lit, trim, nonblank, strip_prefix, utf8_valid}
use secret_broker.Macaroon.Types.{Macaroon, tenant_id}
use secret_broker.Macaroon.Caveat.{encode}
use secret_broker.Macaroon.Chain.{mint, chain, verify_signature}
use secret_broker.Macaroon.Wire.{serialize, deserialize}
use secret_broker.Store.Record.{StoredEnvelopeRecord, is_lifecycle}
use secret_broker.Store.Ops.{touch}
use secret_broker.Broker.Context.{ServiceError, cleaned}
use secret_broker.Broker.Identity.{
  validate_v2_record_identity_requirements_inner, validate_v2_record_identity_requirements,
}
use secret_broker.Broker.State.{BrokerState, parse_handle_v2, macaroon_root_key}
use secret_broker.Broker.Action.{Action, continue}
use secret_broker.Broker.Lifecycle.{load_record}
use secret_broker.Broker.Lifecycle.Effects.{Ready, load_record-eq}
use secret_broker.Broker.Wrap.{normalize_optional_string, normalized}
use secret_broker.Broker.NewCaveats.{
  AttenuateV2Request, AttenuateV2Response, KeyDraws, added_caveats, check_max_uses, add_caveats,
  third_party_entry,
}
use secret_broker.Broker.Attenuate.{append_key, attenuate_handle_v2_impl}
use secret_broker.Broker.Attenuate.Attenuated.{Attenuated, attenuate_handle_v2_impl-Attenuated}
use secret_broker.Tests.Toy.{toy, toy-IsLawful, toy_json}
use secret_broker.Tests.Backend.{Table, toy_backend, toy_backend-IsBackend}
use secret_broker.Tests.Store.{records_of, tree_of-Represents, toy-Seals}
use secret_broker.Tests.Fixtures.{ann, leased, id, state, handle, draws}

abbrev mac : Macaroon
mac = mint toy (macaroon_root_key toy state id) id []

abbrev payload : AttenuateV2Request
payload = record {
  handle = handle;
  tenant_id = some (lit "acme");
  provider = none;
  circuit_id = none;
  node_id = none;
  action = none;
  max_uses = none;
  third_party = none;
}

abbrev key : KeyDraws
key = record { key_id = lit "key"; secret = 1 ∷ 2 ∷ []; created_at = 41 }

abbrev answer : AttenuateV2Response
answer = record {
  handle = lit "broker:v2:" ++ serialize toy (add_caveats toy mac (tenant_id (lit "acme") ∷ []));
  third_party_caveat_id = none;
}

ready : Ready toy toy_backend state (records_of id leased) draws
ready = record {
  represents = tree_of-Represents id leased;
  nonce_length = refl;
  nonce_length' = refl;
  seals = toy-Seals;
  seals' = toy-Seals;
}

parsed : parse_handle_v2 toy handle ≡ ok mac
unfolding parse_handle_v2 macaroon_root_key trim strip_prefix serialize deserialize mint chain
    bytes_eq utf8_valid encode
parsed = refl

authentic : verify_signature toy mac (macaroon_root_key toy state mac.identifier) ≡ ok tt
unfolding verify_signature macaroon_root_key mint chain bytes_eq
authentic = refl

held : records_of id leased mac.identifier ≡ some leased
unfolding bytes_eq mint
held = refl

open_to : validate_v2_record_identity_requirements toy (touch 40 leased) ann ≡ ok tt
unfolding validate_v2_record_identity_requirements validate_v2_record_identity_requirements_inner
    is_lifecycle cleaned trim nonblank bytes_eq
open_to = refl

loaded_answer :
    {B : Type 0} (next : StoredEnvelopeRecord → Action Table B) (x : B)
    → ((t : Table) → (next (touch 40 leased) (record state { sealed_store = t })).0 ≡ ok x)
    → (continue (load_record toy toy_backend toy_json ann mac.identifier draws state) next).0 ≡ ok x
loaded_answer next x then =
    let (t, loaded, _) =
      load_record-eq toy toy_backend toy_json toy-IsLawful toy_backend-IsBackend ann next
        mac.identifier draws state (records_of id leased) leased ready held in
    ap (λ o. o.0) loaded ∙ then t

abbrev ran : Result ServiceError AttenuateV2Response × BrokerState Table
ran = attenuate_handle_v2_impl toy toy_backend toy_json ann payload draws key state

attenuated : ran.0 ≡ ok answer
unfolding attenuate_handle_v2_impl check_max_uses third_party_entry append_key added_caveats
    normalized normalize_optional_string trim nonblank
attenuated = rw (parsed, authentic) (loaded_answer _ answer (λ t. rw open_to refl))

attenuate_handle_v2_impl-Attenuated_example :
    Attenuated toy toy_backend ann handle draws state answer.handle
attenuate_handle_v2_impl-Attenuated_example =
    attenuate_handle_v2_impl-Attenuated toy toy_backend toy_json ann payload draws key state ran.1
      answer (ap (λ x. (x, ran.1)) attenuated)
