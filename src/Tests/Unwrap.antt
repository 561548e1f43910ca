-- ===== src/Tests/Unwrap.antt =====
-- Unwrapping at a single-use record: once it succeeds, and then no more.
use secret_broker.Base.{
  ◌≡◌, refl, sym, subst, Bytes, false, none, some, [], ◌∷◌, bytes_eq, if◌then◌else◌,
}
use secret_broker.Base.Result.{ok}
use secret_broker.Text.{lit, trim, nonblank, strip_prefix, utf8_valid}
use secret_broker.Macaroon.Types.{Macaroon}
use secret_broker.Macaroon.Caveat.{encode}
use secret_broker.Macaroon.Chain.{mint, chain, verify, check_all, signatures}
use secret_broker.Macaroon.Wire.{serialize, deserialize}
use secret_broker.Store.Record.{StoredEnvelopeRecord, is_lifecycle, is_expired, is_after}
use secret_broker.Store.Material.{
  ciphertext_bytes, kem_ciphertext_bytes, signature_bytes, exporter_binding_bytes,
}
use secret_broker.Store.Ops.{touch, used, delete}
use secret_broker.Store.Spec.{RecordMap, put, run, deletes, existed}
use secret_broker.Store.Refinement.{Represents}
use secret_broker.Store.Evolution.{stays, calls, Evolves-Spent}
use secret_broker.Broker.Context.{cleaned}
use secret_broker.Broker.Identity.{
  validate_v2_record_identity_requirements_inner, validate_v2_record_identity_requirements,
  issuer_of, issuer_authorized, check_lineage,
}
use secret_broker.Broker.State.{
  BrokerState, parse_handle_v2, macaroon_root_key, compute_redeem_token,
}
use secret_broker.Broker.Keys.{discharge_keys, discharge_keys_for_record}
use secret_broker.Broker.Redeem.{
  UnwrapV2Request, is_renewable, verify_handle, may_unwrap, verify_envelope, redeem, open_envelope,
  effective_binding, provided_token, expected_token, check_exporter,
}
use secret_broker.Broker.Lifecycle.Effects.{Ready}
use secret_broker.Broker.Unwrap.{UnwrapResponse, unwrap_secret_v2_impl}
use secret_broker.Broker.Unwrap.Guarded.{Unwrapped, unwrap_secret_v2_impl-guarded}
use secret_broker.Broker.Unwrap.Effects.{Payable, unwrap_secret_v2_impl-succeeds}
use secret_broker.Broker.Unwrap.AtMostOnce.{unwrap_secret_v2_impl-at_most_once}
use secret_broker.Store.Spent.{Spent}
use secret_broker.Tests.Toy.{toy, toy-IsLawful, toy_json}
use secret_broker.Tests.Backend.{Table, toy_backend, toy_backend-IsBackend}
use secret_broker.Tests.Store.{nonce, records_of, tree_of, tree_of-Represents, toy-Seals}
use secret_broker.Tests.Services.{services}
use secret_broker.Tests.Fixtures.{ann, single, id, with_tree, handle, draws}

abbrev payable : StoredEnvelopeRecord
payable = record single {
  signature = lit "kpk";
  signing_public_key = lit "pk";
  redeem_binding = some (toy.sha256 ann.exporter);
  threshold = none;
  threshold_commitments = none;
}

abbrev state : BrokerState Table
state = with_tree (tree_of id payable)

abbrev mac : Macaroon
mac = mint toy (macaroon_root_key toy state id) id []

abbrev request : UnwrapV2Request
request = record {
  handle = handle;
  redeem_token = compute_redeem_token toy state id (toy.sha256 ann.exporter) (lit "n");
  tenant_id = none;
  provider = none;
  circuit_id = none;
  node_id = none;
  discharges = [];
}

ready : Ready toy toy_backend state (records_of id payable) draws
ready = record {
  represents = tree_of-Represents id payable;
  nonce_length = refl;
  nonce_length' = refl;
  seals = toy-Seals;
  seals' = toy-Seals;
}

parsed : parse_handle_v2 toy handle ≡ ok mac
unfolding parse_handle_v2 macaroon_root_key trim strip_prefix serialize deserialize mint chain
    bytes_eq utf8_valid encode
parsed = refl

id_of : mac.identifier ≡ id
unfolding mint
id_of = refl

held : records_of id payable mac.identifier ≡ some payable
unfolding bytes_eq mint
held = refl

pays : Payable toy services ann request draws 41 state mac (touch 40 payable) (1 ∷ 2 ∷ [])
pays = record {
  authentic =
      unfold verify_handle discharge_keys_for_record discharge_keys verify check_all mint chain
        signatures macaroon_root_key bytes_eq encode in
      refl;
  in_force =
      unfold may_unwrap is_lifecycle is_expired is_after validate_v2_record_identity_requirements
        validate_v2_record_identity_requirements_inner issuer_of issuer_authorized check_lineage
        cleaned trim nonblank bytes_eq in
      refl;
  signed = unfold verify_envelope signature_bytes bytes_eq in refl;
  redeemed =
      unfold redeem effective_binding is_lifecycle provided_token expected_token
        compute_redeem_token bytes_eq mint in
      refl;
  opened =
      unfold open_envelope check_exporter ciphertext_bytes kem_ciphertext_bytes
        exporter_binding_bytes in
      refl;
}

once : is_renewable payable ≡ false
unfolding is_lifecycle
once = refl

unwrapped :
    (s : BrokerState Table) × (unwrap_secret_v2_impl toy toy_backend toy_json services ann request
        draws 41 state
      ≡ (ok (record { plaintext = 1 ∷ 2 ∷ [] }), s))
    × Represents toy toy_backend s.sealed_store (
        if is_renewable payable
        then put (records_of id payable) mac.identifier (some (touch 40 payable))
        else put
            (put (records_of id payable) mac.identifier (some (touch 40 payable)))
            mac.identifier
            (some (used (touch 40 payable))))
unwrapped =
    unwrap_secret_v2_impl-succeeds toy toy_backend toy_json services toy-IsLawful
      toy_backend-IsBackend ann request draws 41 state (records_of id payable) mac payable
      (1 ∷ 2 ∷ []) ready parsed held pays

unwrap_secret_v2_impl-succeeds_example :
    (s : BrokerState Table) × (unwrap_secret_v2_impl toy toy_backend toy_json services ann request
        draws 41 state
      ≡ (ok (record { plaintext = 1 ∷ 2 ∷ [] }), s))
    × Represents toy toy_backend s.sealed_store (
        if is_renewable payable
        then put (records_of id payable) mac.identifier (some (touch 40 payable))
        else put
            (put (records_of id payable) mac.identifier (some (touch 40 payable)))
            mac.identifier
            (some (used (touch 40 payable))))
unwrap_secret_v2_impl-succeeds_example =
    unwrap_secret_v2_impl-succeeds toy toy_backend toy_json services toy-IsLawful
      toy_backend-IsBackend ann request draws 41 state (records_of id payable) mac payable
      (1 ∷ 2 ∷ []) ready parsed held pays

abbrev plain : UnwrapResponse
plain = record { plaintext = 1 ∷ 2 ∷ [] }

unwrap_secret_v2_impl-guarded_example :
    (m : Macaroon) × (r : StoredEnvelopeRecord) × (plaintext : Bytes) × (parse_handle_v2 toy handle
      ≡ ok m)
    × (plain.plaintext ≡ toy.b64_encode plaintext)
    × Unwrapped toy toy_backend services ann request draws 41 state m r plaintext
        unwrapped.0.sealed_store
unwrap_secret_v2_impl-guarded_example =
    unwrap_secret_v2_impl-guarded toy toy_backend toy_json services ann request draws 41 state
      unwrapped.0 plain unwrapped.1

unwrap_secret_v2_impl-at_most_once_example : ¬ (
    unwrap_secret_v2_impl toy toy_backend toy_json services ann request draws 41 unwrapped.0
    ≡ (ok plain, state))
unwrap_secret_v2_impl-at_most_once_example =
    unwrap_secret_v2_impl-at_most_once toy toy_backend toy_json services toy-IsLawful
      toy_backend-IsBackend services ann ann request request draws draws 41 41 state unwrapped.0
      unwrapped.0 state plain plain (records_of id payable) mac mac payable ready parsed held once
      unwrapped.1 stays parsed refl

-- the record after the unwrap, read once more
abbrev spent : StoredEnvelopeRecord
spent = used payable

spent_held : records_of id spent id ≡ some spent
unfolding bytes_eq
spent_held = refl

abbrev tidied : Table
tidied = toy_backend.remove (tree_of id spent) (lit "other")

tidying :
    run toy toy_backend nonce (lit "other") deletes (tree_of id spent) ≡ ok (tidied, existed false)
unfolding run delete bytes_eq
tidying = refl

Evolves-Spent_example : (m : RecordMap) × Represents toy toy_backend tidied m × Spent (m id)
Evolves-Spent_example =
    Evolves-Spent toy toy_backend toy-IsLawful toy_backend-IsBackend id (tree_of id spent) tidied
      (records_of id spent) (tree_of-Represents id spent) (subst Spent (sym spent_held) refl)
      (calls nonce (lit "other") deletes (existed false) refl toy-Seals tt tidying stays)
