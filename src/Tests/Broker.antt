-- ===== src/Tests/Broker.antt =====
-- The handlers' theorems at a renewable record and its issuer.
use secret_broker.Base.{
  ℕ, ◌+◌, ◌^◌, ◌*◌, ◌≡◌, ◌↔◌, ◌⊎◌, ◌<◌, ◌≤◌, refl, arith, Bytes, true, false, none, some, [], ◌∷◌,
  any, bytes_eq,
}
use secret_broker.Base.Result.{ok, err}
use secret_broker.Text.{lit, is_empty, starts_with, trim, nonblank, strip_prefix, utf8_valid}
use secret_broker.Platform.{nanos}
use secret_broker.Store.Record.{StoredEnvelopeRecord, single_use_unwrap, is_lifecycle, is_expired}
use secret_broker.Store.Ops.{touch, revoked_by}
use secret_broker.Store.Spec.{put}
use secret_broker.Store.Refinement.{Represents}
use secret_broker.Macaroon.Caveat.{encode}
use secret_broker.Macaroon.Chain.{mint, chain, verify_signature}
use secret_broker.Macaroon.Wire.{serialize, deserialize}
use secret_broker.Broker.Context.{invalid_ttl, revoked_handle, cleaned}
use secret_broker.Broker.Identity.{
  validate_v2_record_identity_requirements_inner, validate_v2_record_identity_requirements,
  validate_v2_record_management_requirements, validate_threshold_custody_record_requirements,
  v2_unwrap_principal,
}
use secret_broker.Broker.Identity.Laws.{
  Lineage, validate_threshold_custody-Lineage, validate_v2_record-Lineage,
  validate_v2_record-single_use, v2_unwrap_principal-single_use,
}
use secret_broker.Broker.State.{BrokerState, parse_handle_identifier, macaroon_root_key}
use secret_broker.Broker.Renewal.{may_renew}
use secret_broker.Broker.Lifecycle.{
  RenewLeaseRequest, RevokeSecretRequest, renew_lease_impl, revoke_secret_impl,
}
use secret_broker.Broker.Lifecycle.Guarded.{Loaded, Renewable, Within, renew_lease_impl-guarded}
use secret_broker.Broker.Lifecycle.Renewed.{Renewed}
use secret_broker.Broker.Lifecycle.Effects.{
  Ready, renew_lease_impl-succeeds, renew_lease_impl-revoked, revoke_secret_impl-succeeds,
}
use secret_broker.Macaroon.Types.{DischargeKeyRef}
use secret_broker.Macaroon.Verifier.{find_key}
use secret_broker.Store.Record.{ThirdPartyCaveatKey}
use secret_broker.Store.Ops.{with_caveat_key}
use secret_broker.Broker.Ttl.{enforce_ttl, longest, latest}
use secret_broker.Broker.Ttl.Bounds.{enforce_ttl_iff, enforce_ttl-wrapped}
use secret_broker.Broker.Keys.{discharge_key, discharge_keys, discharge_keys_for_record}
use secret_broker.Broker.Keys.Sealed.{with_caveat_key-found}
use secret_broker.Broker.Identity.{DischargePolicy, validate_discharge_mint_requirements}
use secret_broker.Broker.Identity.Discharges.{
  Authorized, validate_discharge_mint_requirements-Authorized,
}
use secret_broker.Broker.Lifecycle.{delete_secret_impl}
use secret_broker.Broker.Lifecycle.Effects.{delete_secret_impl-succeeds}
use secret_broker.Tests.Fixtures.{ann, leased, single, id, with_tree, state, handle, draws}
use secret_broker.Tests.Toy.{toy, toy-IsLawful, toy_json}
use secret_broker.Tests.Backend.{Table, toy_backend, toy_backend-IsBackend}
use secret_broker.Tests.Store.{kept, tree_of, records_of, tree_of-Represents, toy-Seals}

abbrev renewal : RenewLeaseRequest
renewal = record { handle = handle; lease_duration_seconds = 60 }

abbrev revocation : RevokeSecretRequest
revocation = record { handle = handle; reason = some (lit "leaked") }

admitted : validate_v2_record_identity_requirements_inner toy leased ann false ≡ ok tt
unfolding validate_v2_record_identity_requirements_inner cleaned trim nonblank is_lifecycle bytes_eq
admitted = refl

validate_v2_record-Lineage_example :
    (actual : Bytes) × (issuer : Bytes) × Lineage toy leased ann actual issuer
    × ((cleaned leased.unwrap_principal_id ≡ some actual) ⊎ ((false ≡ true) × (actual ≡ issuer)))
validate_v2_record-Lineage_example =
    validate_v2_record-Lineage toy leased ann false (unfold is_lifecycle in refl) admitted

custody_admitted : validate_threshold_custody_record_requirements toy leased ann ≡ ok tt
unfolding validate_threshold_custody_record_requirements cleaned trim nonblank bytes_eq
custody_admitted = refl

validate_threshold_custody-Lineage_example :
    (actual : Bytes) × (issuer : Bytes) × Lineage toy leased ann actual issuer
validate_threshold_custody-Lineage_example =
    validate_threshold_custody-Lineage toy leased ann custody_admitted

validate_v2_record-single_use_example :
    (validate_v2_record_identity_requirements_inner toy single ann true ≡ ok tt) ↔ (
      (true ≡ true)
      × ((who : Bytes) × (cleaned ann.principal_id ≡ some who)
          × (cleaned single.unwrap_principal_id ≡ some who)))
validate_v2_record-single_use_example =
    validate_v2_record-single_use toy single ann true (unfold is_lifecycle in refl)

bound : v2_unwrap_principal ann single_use_unwrap none ≡ ok (some (lit "ann"))
unfolding v2_unwrap_principal cleaned trim nonblank is_lifecycle
bound = refl

v2_unwrap_principal-single_use_example :
    validate_v2_record_identity_requirements toy single ann ≡ ok tt
v2_unwrap_principal-single_use_example =
    v2_unwrap_principal-single_use toy single ann none (some (lit "ann"))
      (unfold is_lifecycle in refl) (unfold cleaned trim nonblank in refl) bound refl

parsed : parse_handle_identifier toy state handle ≡ ok id
unfolding parse_handle_identifier macaroon_root_key trim strip_prefix serialize deserialize mint
    chain verify_signature bytes_eq utf8_valid encode
parsed = refl

ready : Ready toy toy_backend state (records_of id leased) draws
ready = record {
  represents = tree_of-Represents id leased;
  nonce_length = refl;
  nonce_length' = refl;
  seals = toy-Seals;
  seals' = toy-Seals;
}

held : records_of id leased id ≡ some leased
unfolding bytes_eq
held = refl

checked : may_renew toy ann 41 (touch 40 leased) ≡ ok tt
unfolding may_renew is_lifecycle is_expired validate_v2_record_identity_requirements
    validate_v2_record_identity_requirements_inner cleaned trim nonblank bytes_eq
checked = refl

ran_once :
    (lease : ℕ) × (after : StoredEnvelopeRecord) × (s : BrokerState Table) × Renewed leased
      (41 + 60 * nanos)
      42
      lease
      after
    × (renew_lease_impl toy toy_backend toy_json ann renewal draws state
        ≡ (ok (record { lease_expires_at = lease; renewal_count = after.lease_renewal_count }), s))
    × Represents toy toy_backend s.sealed_store
        (put (put (records_of id leased) id (some (touch 40 leased))) id (some after))
ran_once =
    renew_lease_impl-succeeds toy toy_backend toy_json toy-IsLawful toy_backend-IsBackend ann
      renewal draws state (records_of id leased) id leased ready (omega arith) (omega arith) parsed
      held checked

renew_lease_impl-succeeds_example :
    (lease : ℕ) × (after : StoredEnvelopeRecord) × (s : BrokerState Table) × Renewed leased
      (41 + 60 * nanos)
      42
      lease
      after
    × (renew_lease_impl toy toy_backend toy_json ann renewal draws state
        ≡ (ok (record { lease_expires_at = lease; renewal_count = after.lease_renewal_count }), s))
    × Represents toy toy_backend s.sealed_store
        (put (put (records_of id leased) id (some (touch 40 leased))) id (some after))
renew_lease_impl-succeeds_example =
    renew_lease_impl-succeeds toy toy_backend toy_json toy-IsLawful toy_backend-IsBackend ann
      renewal draws state (records_of id leased) id leased ready (omega arith) (omega arith) parsed
      held checked

abbrev lease : ℕ
lease = ran_once.0

abbrev after : StoredEnvelopeRecord
after = ran_once.1

renew_lease_impl-guarded_example :
    (0 < 60)
    × (60 ≤ 2_592_000)
    × (r : StoredEnvelopeRecord) × Loaded toy toy_backend state handle draws r
    × Renewable toy ann 41 r
    × Within lease r.expires_at
    × (lease ≤ 41 + 60 * nanos)
renew_lease_impl-guarded_example =
    renew_lease_impl-guarded toy toy_backend toy_json ann renewal draws state ran_once.2
      (record { lease_expires_at = lease; renewal_count = after.lease_renewal_count }) ran_once.4

managed : validate_v2_record_management_requirements toy (touch 40 leased) ann ≡ ok tt
unfolding validate_v2_record_management_requirements validate_v2_record_identity_requirements_inner
    cleaned trim nonblank is_lifecycle bytes_eq
managed = refl

revoke_secret_impl-succeeds_example :
    (s : BrokerState Table) × (revoke_secret_impl toy toy_backend toy_json ann revocation draws
        state
      ≡ (ok (record { revoked = true; revoked_at = some 41 }), s))
    × Represents toy toy_backend s.sealed_store (
        put (put (records_of id leased) id (some (touch 40 leased))) id (
          some (record leased {
            last_accessed = some 40;
            revoked = true;
            revoked_at = some 42;
            revocation_reason = some (lit "leaked");
            redeem_used = true;
            redeem_nonce = none;
            redeem_binding = none;
          })))
revoke_secret_impl-succeeds_example =
    revoke_secret_impl-succeeds toy toy_backend toy_json toy-IsLawful toy_backend-IsBackend ann
      revocation draws state (records_of id leased) id leased ready parsed held managed

abbrev gone : StoredEnvelopeRecord
gone = revoked_by none 30 leased

abbrev gone_state : BrokerState Table
gone_state = with_tree (tree_of id gone)

gone-Ready : Ready toy toy_backend gone_state (records_of id gone) draws
gone-Ready = record {
  represents = tree_of-Represents id gone;
  nonce_length = refl;
  nonce_length' = refl;
  seals = toy-Seals;
  seals' = toy-Seals;
}

gone_held : records_of id gone id ≡ some gone
unfolding bytes_eq
gone_held = refl

gone_parsed : parse_handle_identifier toy gone_state handle ≡ ok id
unfolding parse_handle_identifier macaroon_root_key
gone_parsed = unfold parse_handle_identifier macaroon_root_key in parsed

renew_lease_impl-revoked_example :
    (renew_lease_impl toy toy_backend toy_json ann renewal draws gone_state).0 ≡ err revoked_handle
renew_lease_impl-revoked_example =
    renew_lease_impl-revoked toy toy_backend toy_json toy-IsLawful toy_backend-IsBackend ann renewal
      draws gone_state (records_of id gone) id gone gone-Ready (omega arith) (omega arith)
      gone_parsed gone_held refl

enforce_ttl_iff_example :
    ((enforce_ttl toy (some 60) 100 5 ≡ some (ok (some (5 + 60 * nanos), some 60)))
      ↔ ((0 < 60) × (60 ≤ 100) × (60 ≤ longest) × (5 + 60 * nanos ≤ latest toy)))
    × ((enforce_ttl toy (some 60) 100 5 ≡ some (err invalid_ttl))
        ↔ ((◌≡◌ {A = ℕ} 60 0) ⊎ (100 < 60)))
    × ((enforce_ttl toy (some 60) 100 5 ≡ none)
        ↔ ((0 < 60) × (60 ≤ 100) × ((longest < 60) ⊎ (latest toy < 5 + 60 * nanos))))
enforce_ttl_iff_example = enforce_ttl_iff toy 60 100 5 (omega arith)

enforce_ttl-wrapped_example :
    (secs : ℕ) × (t : ℕ) × (secs < 2 ^ 64)
    × (100 < secs)
    × (enforce_ttl toy (some secs) 100 1_000_000_000_000 ≡ some (ok (some t, some secs)))
    × (t < 1_000_000_000_000)
enforce_ttl-wrapped_example =
    enforce_ttl-wrapped toy 100 1_000_000_000_000 (omega arith) (omega arith)

abbrev entry : ThirdPartyCaveatKey
entry = record {
  location = lit "idp";
  key_id = lit "k1";
  condition = some (lit "mfa");
  secret_b64 = lit "0123456789abcdef0123456789abcdef";
  created_at = 3;
}

abbrev entry_key : DischargeKeyRef
entry_key = record {
  location = lit "idp";
  key_id = lit "k1";
  condition = lit "mfa";
  key = lit "0123456789abcdef0123456789abcdef";
}

opened : discharge_key toy entry ≡ ok entry_key
unfolding discharge_key
opened = refl

no_keys : discharge_keys_for_record toy kept ≡ ok []
unfolding discharge_keys_for_record discharge_keys
no_keys = refl

with_caveat_key-found_example :
    (discharge_keys_for_record toy (with_caveat_key entry kept) ≡ ok (entry_key ∷ []))
    × (find_key (lit "idp") (lit "k1") (entry_key ∷ []) ≡ some entry_key)
with_caveat_key-found_example =
    with_caveat_key-found toy entry entry_key opened kept [] no_keys (unfold any in refl)

delete_secret_impl-succeeds_example :
    (s : BrokerState Table) × (delete_secret_impl toy toy_backend toy_json ann handle draws state
      ≡ (ok true, s))
    × Represents toy toy_backend s.sealed_store
        (put (put (records_of id leased) id (some (touch 40 leased))) id none)
delete_secret_impl-succeeds_example =
    delete_secret_impl-succeeds toy toy_backend toy_json toy-IsLawful toy_backend-IsBackend ann
      handle draws state (records_of id leased) id leased ready parsed held managed

abbrev strict : DischargePolicy
strict = record {
  require_attested_discharge_mint = true;
  allowed_discharge_principal_ids = lit "bob" ∷ lit "ann" ∷ [];
}

may_mint : validate_discharge_mint_requirements strict ann (lit "idp") ≡ ok tt
unfolding validate_discharge_mint_requirements cleaned trim nonblank bytes_eq any is_empty
    starts_with
may_mint = refl

validate_discharge_mint_requirements-Authorized_example :
    (who : Bytes) × Authorized strict ann (lit "idp") who
validate_discharge_mint_requirements-Authorized_example =
    validate_discharge_mint_requirements-Authorized strict ann (lit "idp") may_mint
