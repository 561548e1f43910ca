-- ===== src/Broker/Identity.antt =====
-- Who may use, manage or mint: the identity checks of handlers.rs.
pub mod Laws
pub mod Discharges
use secret_broker.Base.{
  ℕ, Bytes, Bool, true, false, ◌&&◌, ◌||◌, not, Option, none, some, List, [], ◌∷◌, any, bytes_eq,
  if◌then◌else◌,
}
use secret_broker.Base.Result.{Result, ok, err, ◌>>=◌, ◌>>◌, ok_or, guard}
use secret_broker.Text.{lit, trim, starts_with, is_empty}
use secret_broker.Platform.{Platform}
use secret_broker.Store.Record.{
  StoredEnvelopeRecord, SecretLifecycle, single_use_unwrap, renewable_lease, service_bootstrap,
  is_lifecycle,
}
use secret_broker.Broker.Context.{
  ServiceError, missing_lineage, unauthenticated_transport, authenticated_principal_required,
  principal_mismatch, peer_cert_mismatch, attestation_mismatch, unauthorized_discharge_principal,
  BrokerClientContext, cleaned,
}

abbrev pub no_principal_binding : ServiceError
no_principal_binding = missing_lineage (lit "principal binding")

abbrev pub no_issuance_transport : ServiceError
no_issuance_transport = missing_lineage (lit "authenticated issuance transport")

abbrev pub no_issuer : ServiceError
no_issuer = missing_lineage (lit "issuing principal lineage")

abbrev pub no_peer_cert : ServiceError
no_peer_cert =
    missing_lineage (lit "peer certificate lineage on the authenticated broker transport")

abbrev pub no_issuing_cert : ServiceError
no_issuing_cert = missing_lineage (lit "issuing peer certificate lineage")

abbrev pub no_attestation : ServiceError
no_attestation =
    missing_lineage (lit "attestation digest lineage on the authenticated broker transport")

abbrev pub is_single_use : StoredEnvelopeRecord → Bool
is_single_use r = is_lifecycle r.lifecycle single_use_unwrap

-- the issuer of a record, where its lifecycle has one
unfoldable pub issuer_of : StoredEnvelopeRecord → Result ServiceError (Option Bytes)
unfolding is_lifecycle
issuer_of r = if is_single_use r then ok none else do
  guard r.issued_with_authenticated_transport no_issuance_transport
  issuer ← ok_or (cleaned r.issued_by_principal_id) no_issuer
  ok (some issuer)

unfoldable pub issuer_authorized : Bool → Bytes → Option Bytes → Bool
issuer_authorized allow actual none = false
issuer_authorized allow actual (some issuer) = allow && bytes_eq actual issuer

-- The issuer itself must come with the certificate under which it issued the record.
unfoldable pub check_peer_cert :
    Platform → Bytes → Bytes → Bytes → Bytes → Result ServiceError (Unit {0})
check_peer_cert p actual issuer cert expected =
    guard (not (bytes_eq actual issuer) || bytes_eq (p.b64_encode cert) expected) peer_cert_mismatch

unfoldable pub check_attestation :
    Platform → Option Bytes → Option Bytes → Result ServiceError (Unit {0})
check_attestation p none digest = ok tt
check_attestation p (some expected) digest = do
  actual ← ok_or digest no_attestation
  guard (bytes_eq (p.b64_encode actual) expected) attestation_mismatch

-- the last part of `validate_v2_record_identity_requirements_inner`
unfoldable pub check_lineage :
    Platform
    → StoredEnvelopeRecord
    → BrokerClientContext
    → Bytes
    → Option Bytes
    → Result ServiceError (Unit {0})
unfolding is_lifecycle check_peer_cert check_attestation
check_lineage p r context actual issuer = if is_single_use r then ok tt else do
  cert ← ok_or context.peer_cert_sha256 no_peer_cert
  issued_by ← ok_or issuer no_issuer
  expected ← ok_or (cleaned r.issued_by_peer_cert_sha256) no_issuing_cert
  check_peer_cert p actual issued_by cert expected
  check_attestation p (cleaned r.issued_by_attestation_digest) context.attestation_digest

unfoldable pub validate_v2_record_identity_requirements_inner :
    Platform → StoredEnvelopeRecord → BrokerClientContext → Bool → Result ServiceError (Unit {0})
unfolding issuer_of issuer_authorized check_lineage
validate_v2_record_identity_requirements_inner p r context allow = do
  expected ← ok_or (cleaned r.unwrap_principal_id) no_principal_binding
  guard context.authenticated_transport unauthenticated_transport
  actual ← ok_or (cleaned context.principal_id) authenticated_principal_required
  issuer ← issuer_of r
  guard (bytes_eq actual expected || issuer_authorized allow actual issuer) principal_mismatch
  check_lineage p r context actual issuer

unfoldable pub validate_v2_record_identity_requirements :
    Platform → StoredEnvelopeRecord → BrokerClientContext → Result ServiceError (Unit {0})
validate_v2_record_identity_requirements p r context =
    validate_v2_record_identity_requirements_inner p r context false

unfoldable pub validate_v2_record_management_requirements :
    Platform → StoredEnvelopeRecord → BrokerClientContext → Result ServiceError (Unit {0})
validate_v2_record_management_requirements p r context =
    validate_v2_record_identity_requirements_inner p r context true

unfoldable pub validate_threshold_custody_record_requirements :
    Platform → StoredEnvelopeRecord → BrokerClientContext → Result ServiceError (Unit {0})
unfolding check_peer_cert check_attestation
validate_threshold_custody_record_requirements p r context = do
  guard context.authenticated_transport unauthenticated_transport
  actual ← ok_or (cleaned context.principal_id) authenticated_principal_required
  cert ← ok_or context.peer_cert_sha256 no_peer_cert
  guard r.issued_with_authenticated_transport no_issuance_transport
  issued_by ← ok_or (cleaned r.issued_by_principal_id) no_issuer
  expected ← ok_or (cleaned r.issued_by_peer_cert_sha256) no_issuing_cert
  check_peer_cert p actual issued_by cert expected
  check_attestation p (cleaned r.issued_by_attestation_digest) context.attestation_digest

-- `if requested != &current_principal`
agrees : Option Bytes → Bytes → Bool
agrees none current = true
agrees (some requested) current = bytes_eq requested current

abbrev or_current : Option Bytes → Bytes → Bytes
or_current none current = current
or_current (some requested) current = requested

-- the `match lifecycle` of `v2_unwrap_principal`
bound_principal :
    BrokerClientContext
    → SecretLifecycle
    → Option Bytes
    → Bytes
    → Result ServiceError (Option Bytes)
unfolding agrees is_lifecycle
bound_principal context lifecycle requested current =
    if is_lifecycle lifecycle single_use_unwrap
    then (guard (agrees requested current) principal_mismatch >> ok (some current))
    else (ok_or context.peer_cert_sha256 no_peer_cert >>= λ _.
        ok (some (or_current requested current)))

unfoldable pub v2_unwrap_principal :
    BrokerClientContext → SecretLifecycle → Option Bytes → Result ServiceError (Option Bytes)
unfolding bound_principal cleaned
v2_unwrap_principal context lifecycle requested_principal = do
  guard context.authenticated_transport unauthenticated_transport
  current ← ok_or (cleaned context.principal_id) authenticated_principal_required
  bound_principal context lifecycle (cleaned requested_principal) current

-- `BrokerState`'s discharge policy
pub record DischargePolicy : Type 0 where
  pub require_attested_discharge_mint : Bool
  pub allowed_discharge_principal_ids : List Bytes

unfoldable pub normalize_spiffe_principal : Bytes → Option Bytes
normalize_spiffe_principal value =
    if is_empty (trim value) || not (starts_with (lit "spiffe://") (trim value))
    then none
    else some (trim value)

abbrev pub is_present : Option Bytes → Bool
is_present none = false
is_present (some v) = true

abbrev pub is_allowed : List Bytes → Bytes → Bool
is_allowed [] principal = true
is_allowed (a ∷ allowed) principal = any (λ x. bytes_eq x principal) (a ∷ allowed)

abbrev pub speaks_for : Bytes → Option Bytes → Bool
speaks_for principal none = true
speaks_for principal (some location_principal) = bytes_eq principal location_principal

unfoldable pub validate_discharge_mint_requirements :
    DischargePolicy → BrokerClientContext → Bytes → Result ServiceError (Unit {0})
unfolding normalize_spiffe_principal any
validate_discharge_mint_requirements policy context location = do
  guard context.authenticated_transport unauthenticated_transport
  principal ← ok_or (cleaned context.principal_id) authenticated_principal_required
  cert ← ok_or context.peer_cert_sha256 no_peer_cert
  guard (not policy.require_attested_discharge_mint || is_present context.attestation_digest)
      no_attestation
  guard (speaks_for principal (normalize_spiffe_principal location))
      unauthorized_discharge_principal
  guard (is_allowed policy.allowed_discharge_principal_ids principal)
      unauthorized_discharge_principal
