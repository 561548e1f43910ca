-- ===== src/Broker/Identity/Laws.antt =====
-- What passing an identity check establishes.
use secret_broker.Base.{
  ◌≡◌, ◌↔◌, ◌⊎◌, inl, inr, refl, ◌∙◌, arith, Bytes, Bool, true, false, ◌||◌, Option, none, some,
  bytes_eq, bytes_eq_iff, bytes_eq_refl, Bool-cases,
}
use secret_broker.Base.Result.{ok, ok_or, guard, >>=-eq-ok, guard-true, ok_or-some}
use secret_broker.Platform.{Platform}
use secret_broker.Store.Record.{StoredEnvelopeRecord, single_use_unwrap, is_lifecycle}
use secret_broker.Broker.Context.{BrokerClientContext, cleaned}
use secret_broker.Broker.Identity.{
  is_single_use, issuer_of, issuer_authorized, check_peer_cert, check_attestation, check_lineage,
  validate_v2_record_identity_requirements_inner, validate_v2_record_identity_requirements,
  validate_v2_record_management_requirements, validate_threshold_custody_record_requirements,
  v2_unwrap_principal, bound_principal, no_principal_binding, no_peer_cert, no_issuer,
  no_issuing_cert, no_attestation, no_issuance_transport,
}
use secret_broker.Broker.Context.{
  unauthenticated_transport, authenticated_principal_required, principal_mismatch,
}

-- The caller is authenticated, is named by the record or may stand in for its issuer, and brings
-- the lineage of the issuance.
pub record Lineage (p : Platform) (r : StoredEnvelopeRecord) (context : BrokerClientContext)
    (actual issuer : Bytes) : Type 0 where
  pub transport : context.authenticated_transport ≡ true
  pub caller : cleaned context.principal_id ≡ some actual
  pub issued_on_transport : r.issued_with_authenticated_transport ≡ true
  pub issued_by : cleaned r.issued_by_principal_id ≡ some issuer
  pub certified :
      actual ≡ issuer
      → (cert : Bytes) × (context.peer_cert_sha256 ≡ some cert)
        × (cleaned r.issued_by_peer_cert_sha256 ≡ some (p.b64_encode cert))
  pub attested :
      (digest : Bytes)
      → cleaned r.issued_by_attestation_digest ≡ some digest
      → (given : Bytes) × (context.attestation_digest ≡ some given) × (p.b64_encode given ≡ digest)

module _ (p : Platform) where
  check_attestation-attested :
      (recorded given : Option Bytes) (digest : Bytes)
      → check_attestation p recorded given ≡ ok tt
      → recorded ≡ some digest
      → (g : Bytes) × (given ≡ some g) × (p.b64_encode g ≡ digest)
  unfolding check_attestation
  check_attestation-attested none given digest h e = absurd (ground arith)
  check_attestation-attested (some d) given digest h e =
      let (g, here, tested) = >>=-eq-ok (ok_or given no_attestation) _ h in
      (g, ok_or-some given _ here, ground (arith, bytes_eq_iff (p.b64_encode g) d))

  check_peer_cert-certified :
      (actual issuer cert expected : Bytes)
      → check_peer_cert p actual issuer cert expected ≡ ok tt
      → actual ≡ issuer
      → p.b64_encode cert ≡ expected
  unfolding check_peer_cert
  check_peer_cert-certified actual issuer cert expected h e =
      ground (arith, bytes_eq_iff actual issuer, bytes_eq_iff (p.b64_encode cert) expected)

  -- The share custody checks pass only for an authenticated caller with the record's lineage: on a
  -- record that was issued over an authenticated transport by a named principal, its issuer must
  -- show the recorded certificate, and everyone the recorded attestation digest.
  pub validate_threshold_custody-Lineage :
      (r : StoredEnvelopeRecord) (context : BrokerClientContext)
      → validate_threshold_custody_record_requirements p r context ≡ ok tt
      → (actual : Bytes) × (issuer : Bytes) × Lineage p r context actual issuer
  unfolding validate_threshold_custody_record_requirements
  validate_threshold_custody-Lineage r context h =
      let (_, t, h₁) =
        >>=-eq-ok (guard context.authenticated_transport unauthenticated_transport) _ h in
      let (actual, a, h₂) =
        >>=-eq-ok (ok_or (cleaned context.principal_id) authenticated_principal_required) _ h₁ in
      let (cert, c, h₃) = >>=-eq-ok (ok_or context.peer_cert_sha256 no_peer_cert) _ h₂ in
      let (_, i, h₄) =
        >>=-eq-ok (guard r.issued_with_authenticated_transport no_issuance_transport) _ h₃ in
      let (issuer, b, h₅) = >>=-eq-ok (ok_or (cleaned r.issued_by_principal_id) no_issuer) _ h₄ in
      let (expected, x, h₆) =
        >>=-eq-ok (ok_or (cleaned r.issued_by_peer_cert_sha256) no_issuing_cert) _ h₅ in
      let (_, pc, at) = >>=-eq-ok (check_peer_cert p actual issuer cert expected) _ h₆ in
      (
        actual,
        issuer,
        record {
          transport = guard-true _ _ t;
          caller = ok_or-some _ _ a;
          issued_on_transport = guard-true _ _ i;
          issued_by = ok_or-some _ _ b;
          certified = λ same. (
            cert,
            ok_or-some _ _ c,
            rw (check_peer_cert-certified actual issuer cert expected pc same)
                (ok_or-some (cleaned r.issued_by_peer_cert_sha256) _ x),
          );
          attested = λ digest e. check_attestation-attested _ _ digest at e;
        },
      )

  issuer_of-lineage :
      (r : StoredEnvelopeRecord) (o : Option Bytes)
      → is_single_use r ≡ false
      → issuer_of r ≡ ok o
      → (r.issued_with_authenticated_transport ≡ true)
        × ((issuer : Bytes) × (cleaned r.issued_by_principal_id ≡ some issuer) × (o ≡ some issuer))
  unfolding issuer_of
  issuer_of-lineage r o many h =
      let h' = rw many at h in
      let (_, i, h₁) =
        >>=-eq-ok (guard r.issued_with_authenticated_transport no_issuance_transport) _ h' in
      let (issuer, b, h₂) = >>=-eq-ok (ok_or (cleaned r.issued_by_principal_id) no_issuer) _ h₁ in
      (guard-true _ _ i, (issuer, ok_or-some _ _ b, ground arith))

  check_lineage-parts :
      (r : StoredEnvelopeRecord) (context : BrokerClientContext) (actual issuer : Bytes)
      → is_single_use r ≡ false
      → check_lineage p r context actual (some issuer) ≡ ok tt
      → (cert : Bytes) × (expected : Bytes) × (context.peer_cert_sha256 ≡ some cert)
        × (cleaned r.issued_by_peer_cert_sha256 ≡ some expected)
        × (check_peer_cert p actual issuer cert expected ≡ ok tt)
        × (check_attestation p (cleaned r.issued_by_attestation_digest) context.attestation_digest
            ≡ ok tt)
  unfolding check_lineage
  check_lineage-parts r context actual issuer many h =
      let h' = rw many at h in
      let (cert, c, h₁) = >>=-eq-ok (ok_or context.peer_cert_sha256 no_peer_cert) _ h' in
      let (expected, x, h₂) =
        >>=-eq-ok (ok_or (cleaned r.issued_by_peer_cert_sha256) no_issuing_cert) _ h₁ in
      let (_, pc, at) = >>=-eq-ok (check_peer_cert p actual issuer cert expected) _ h₂ in
      (cert, expected, ok_or-some _ _ c, ok_or-some _ _ x, pc, at)

  -- For a record that can be used more than once, the checks pass only for an authenticated caller
  -- that the record names, or, where the operation manages the secret, that issued it; the record
  -- was issued over an authenticated transport by a named principal, and the caller brings its
  -- lineage: the issuer the recorded certificate, and everyone the recorded attestation digest.
  pub validate_v2_record-Lineage :
      (r : StoredEnvelopeRecord) (context : BrokerClientContext) (allow : Bool)
      → is_single_use r ≡ false
      → validate_v2_record_identity_requirements_inner p r context allow ≡ ok tt
      → (actual : Bytes) × (issuer : Bytes) × Lineage p r context actual issuer
        × ((cleaned r.unwrap_principal_id ≡ some actual) ⊎ ((allow ≡ true) × (actual ≡ issuer)))
  unfolding validate_v2_record_identity_requirements_inner issuer_authorized
  validate_v2_record-Lineage r context allow many h =
      let (named, n, h₁) =
        >>=-eq-ok (ok_or (cleaned r.unwrap_principal_id) no_principal_binding) _ h in
      let (_, t, h₂) =
        >>=-eq-ok (guard context.authenticated_transport unauthenticated_transport) _ h₁ in
      let (actual, a, h₃) =
        >>=-eq-ok (ok_or (cleaned context.principal_id) authenticated_principal_required) _ h₂ in
      let (o, i, h₄) = >>=-eq-ok (issuer_of r) _ h₃ in
      let (on_transport, (issuer, by, same)) = issuer_of-lineage r o many i in
      let (_, m, h₅) =
        >>=-eq-ok
          (guard (bytes_eq actual named || issuer_authorized allow actual o) principal_mismatch) _
          h₄ in
      let (cert, expected, c, x, pc, at) =
        check_lineage-parts r context actual issuer many (rw same at h₅) in
      (
        actual,
        issuer,
        record {
          transport = guard-true _ _ t;
          caller = ok_or-some _ _ a;
          issued_on_transport = on_transport;
          issued_by = by;
          certified =
              λ e. (cert, c, rw (check_peer_cert-certified actual issuer cert expected pc e) x);
          attested = λ digest e. check_attestation-attested _ _ digest at e;
        },
        may_act named actual issuer allow (ok_or-some _ _ n) (rw same at (guard-true _ _ m)),
      )
    where
      may_act :
          (named actual issuer : Bytes) (allow : Bool)
          → cleaned r.unwrap_principal_id ≡ some named
          → (bytes_eq actual named || issuer_authorized allow actual (some issuer)) ≡ true
          → (cleaned r.unwrap_principal_id ≡ some actual) ⊎ ((allow ≡ true) × (actual ≡ issuer))
      may_act named actual issuer allow n e = elim (Bool-cases (bytes_eq actual named)) [
        | inl hit ↦ inl (rw ((bytes_eq_iff actual named).0 hit) n)
        | inr miss ↦ inr (ground (arith, bytes_eq_iff actual issuer))
      ]

  only_named :
      (actual named : Bytes) (allow : Bool)
      → (bytes_eq actual named || issuer_authorized allow actual none) ≡ true
      → actual ≡ named
  unfolding issuer_authorized
  only_named actual named allow h = ground (arith, bytes_eq_iff actual named)

  issuer_of-once : (r : StoredEnvelopeRecord) → is_single_use r ≡ true → issuer_of r ≡ ok none
  unfolding issuer_of
  issuer_of-once r once = rw once refl

  check_lineage-once :
      (r : StoredEnvelopeRecord) (context : BrokerClientContext) (actual : Bytes)
      (issuer : Option Bytes)
      → is_single_use r ≡ true
      → check_lineage p r context actual issuer ≡ ok tt
  unfolding check_lineage
  check_lineage-once r context actual issuer once = rw once refl

  -- A record for a single use is open to exactly one principal: the checks pass if and only if the
  -- transport is authenticated and the caller is the principal that the record names.
  pub validate_v2_record-single_use :
      (r : StoredEnvelopeRecord) (context : BrokerClientContext) (allow : Bool)
      → is_single_use r ≡ true
      → (validate_v2_record_identity_requirements_inner p r context allow ≡ ok tt) ↔ (
          (context.authenticated_transport ≡ true)
          × ((who : Bytes) × (cleaned context.principal_id ≡ some who)
              × (cleaned r.unwrap_principal_id ≡ some who)))
  unfolding validate_v2_record_identity_requirements_inner
  validate_v2_record-single_use r context allow once = (passed, passes)
    where
      passed :
          validate_v2_record_identity_requirements_inner p r context allow ≡ ok tt
          → (context.authenticated_transport ≡ true)
            × ((who : Bytes) × (cleaned context.principal_id ≡ some who)
                × (cleaned r.unwrap_principal_id ≡ some who))
      passed h =
          let (named, n, h₁) =
            >>=-eq-ok (ok_or (cleaned r.unwrap_principal_id) no_principal_binding) _ h in
          let (_, t, h₂) =
            >>=-eq-ok (guard context.authenticated_transport unauthenticated_transport) _ h₁ in
          let (actual, a, h₃) =
            >>=-eq-ok (ok_or (cleaned context.principal_id) authenticated_principal_required) _
              h₂ in
          let h₄ = rw (issuer_of-once r once) at h₃ in
          let (_, m, h₅) =
            >>=-eq-ok
              (guard (bytes_eq actual named || issuer_authorized allow actual none)
                principal_mismatch)
              _ h₄ in
          (
            guard-true _ _ t,
            (
              actual,
              ok_or-some _ _ a,
              rw (only_named actual named allow (guard-true _ _ m))
                  (ok_or-some (cleaned r.unwrap_principal_id) _ n),
            ),
          )

      passes :
          (context.authenticated_transport ≡ true)
            × ((who : Bytes) × (cleaned context.principal_id ≡ some who)
                × (cleaned r.unwrap_principal_id ≡ some who))
          → validate_v2_record_identity_requirements_inner p r context allow ≡ ok tt
      passes (t, (who, a, n)) =
          rw (n, t, a)
            (rw (issuer_of-once r once)
              (rw (bytes_eq_refl who) (check_lineage-once r context who none once)))

  -- Whoever may use a record may also manage it.
  pub validate_v2_record-management :
      (r : StoredEnvelopeRecord) (context : BrokerClientContext)
      → validate_v2_record_identity_requirements p r context ≡ ok tt
      → validate_v2_record_management_requirements p r context ≡ ok tt
  unfolding validate_v2_record_identity_requirements validate_v2_record_management_requirements
      validate_v2_record_identity_requirements_inner
  validate_v2_record-management r context h =
      let (named, n, h₁) =
        >>=-eq-ok (ok_or (cleaned r.unwrap_principal_id) no_principal_binding) _ h in
      let (_, t, h₂) =
        >>=-eq-ok (guard context.authenticated_transport unauthenticated_transport) _ h₁ in
      let (actual, a, h₃) =
        >>=-eq-ok (ok_or (cleaned context.principal_id) authenticated_principal_required) _ h₂ in
      let (o, i, h₄) = >>=-eq-ok (issuer_of r) _ h₃ in
      let (_, m, h₅) =
        >>=-eq-ok
          (guard (bytes_eq actual named || issuer_authorized false actual o) principal_mismatch) _
          h₄ in
      rw (ok_or-some _ _ n, guard-true _ _ t, ok_or-some _ _ a)
        (rw i (rw (named_only actual named o (guard-true _ _ m)) h₅))
    where
      named_only :
          (actual named : Bytes) (o : Option Bytes)
          → (bytes_eq actual named || issuer_authorized false actual o) ≡ true
          → bytes_eq actual named ≡ true
      named_only actual named none e = unfold issuer_authorized in ground arith
      named_only actual named (some x) e = unfold issuer_authorized in ground arith

  bound_principal-once :
      (context : BrokerClientContext) (requested : Option Bytes) (current : Bytes)
      (bound : Option Bytes)
      → bound_principal context single_use_unwrap requested current ≡ ok bound
      → bound ≡ some current
  unfolding bound_principal is_lifecycle
  bound_principal-once context none current bound h = ground arith
  bound_principal-once context (some requested) current bound h = ground arith

  -- Where trimming the caller's name twice is trimming it once, a record for a single use that is
  -- bound to the principal that `v2_unwrap_principal` gives is open to that caller in that context.
  pub v2_unwrap_principal-single_use :
      (r : StoredEnvelopeRecord) (context : BrokerClientContext) (requested bound : Option Bytes)
      → is_single_use r ≡ true
      → cleaned (cleaned context.principal_id) ≡ cleaned context.principal_id
      → v2_unwrap_principal context single_use_unwrap requested ≡ ok bound
      → r.unwrap_principal_id ≡ bound
      → validate_v2_record_identity_requirements p r context ≡ ok tt
  unfolding v2_unwrap_principal validate_v2_record_identity_requirements
  v2_unwrap_principal-single_use r context requested bound once stable h e =
      let (_, t, h₁) =
        >>=-eq-ok (guard context.authenticated_transport unauthenticated_transport) _ h in
      let (current, a, h₂) =
        >>=-eq-ok (ok_or (cleaned context.principal_id) authenticated_principal_required) _ h₁ in
      let caller = ok_or-some (cleaned context.principal_id) _ a in
      let same = e ∙ bound_principal-once context (cleaned requested) current bound h₂ in
      (validate_v2_record-single_use r context false once).1
        (guard-true _ _ t, (current, caller, rw same (rw caller at stable)))
