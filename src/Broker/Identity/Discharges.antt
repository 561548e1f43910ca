-- ===== src/Broker/Identity/Discharges.antt =====
-- Who may mint a discharge.
use mathlib.Core.List.{Memᴰ}
use secret_broker.Base.{
  ◌≡◌, ◌⊎◌, inl, inr, refl, sym, arith, Bytes, Bool, true, ◌||◌, not, Option, none, some, List, [],
  ◌∷◌, any, bytes_eq, bytes_eq_iff, Bool-cases,
}
use secret_broker.Base.Result.{ok, ok_or, guard, >>=-eq-ok}
use secret_broker.Broker.Context.{
  BrokerClientContext, cleaned, unauthenticated_transport, authenticated_principal_required,
  unauthorized_discharge_principal,
}
use secret_broker.Broker.Identity.{
  DischargePolicy, normalize_spiffe_principal, validate_discharge_mint_requirements, no_peer_cert,
  no_attestation, is_present, is_allowed, speaks_for,
}
use secret_broker.Base.Result.{guard-true, ok_or-some}

-- `who` is authenticated with a certificate, attested where the policy asks for it, speaks for a
-- SPIFFE location, and is on the list of the policy, if that has entries.
pub record Authorized (policy : DischargePolicy) (context : BrokerClientContext)
    (location who : Bytes) : Type 0 where
  pub transport : context.authenticated_transport ≡ true
  pub caller : cleaned context.principal_id ≡ some who
  pub cert : (c : Bytes) × (context.peer_cert_sha256 ≡ some c)
  pub attested :
      policy.require_attested_discharge_mint ≡ true
      → (digest : Bytes) × (context.attestation_digest ≡ some digest)
  pub location_principal :
      (principal : Bytes) → normalize_spiffe_principal location ≡ some principal → who ≡ principal
  pub listed :
      (policy.allowed_discharge_principal_ids ≡ [])
      ⊎ Memᴰ who policy.allowed_discharge_principal_ids

any-Memᴰ : (who : Bytes) (xs : List Bytes) → any (λ x. bytes_eq x who) xs ≡ true → Memᴰ who xs
unfolding any
any-Memᴰ who [] h = absurd (ground arith)
any-Memᴰ who (x ∷ xs) h = elim (Bool-cases (bytes_eq x who)) [
  | inl hit ↦ Memᴰ.head (sym ((bytes_eq_iff x who).0 hit))
  | inr miss ↦ Memᴰ.tail (any-Memᴰ who xs (ground arith))
]

is_allowed-listed :
    (who : Bytes) (xs : List Bytes) → is_allowed xs who ≡ true → (xs ≡ []) ⊎ Memᴰ who xs
is_allowed-listed who [] h = inl refl
is_allowed-listed who (x ∷ xs) h = inr (any-Memᴰ who (x ∷ xs) h)

speaks_for-eq :
    (who principal : Bytes) (o : Option Bytes)
    → speaks_for who o ≡ true
    → o ≡ some principal
    → who ≡ principal
speaks_for-eq who principal none h e = absurd (ground arith)
speaks_for-eq who principal (some l) h e = ground (arith, bytes_eq_iff who l)

is_present-some :
    (required : Bool) (o : Option Bytes)
    → (not required || is_present o) ≡ true
    → required ≡ true
    → (d : Bytes) × (o ≡ some d)
is_present-some required none h e = absurd (ground arith)
is_present-some required (some d) h e = (d, refl)

-- The checks before a discharge is minted admit only a caller whom the policy authorizes for the
-- location.
pub validate_discharge_mint_requirements-Authorized :
    (policy : DischargePolicy) (context : BrokerClientContext) (location : Bytes)
    → validate_discharge_mint_requirements policy context location ≡ ok tt
    → (who : Bytes) × Authorized policy context location who
unfolding validate_discharge_mint_requirements
validate_discharge_mint_requirements-Authorized policy context location h =
    let (_, t, h₁) =
      >>=-eq-ok (guard context.authenticated_transport unauthenticated_transport) _ h in
    let (who, a, h₂) =
      >>=-eq-ok (ok_or (cleaned context.principal_id) authenticated_principal_required) _ h₁ in
    let (cert, c, h₃) = >>=-eq-ok (ok_or context.peer_cert_sha256 no_peer_cert) _ h₂ in
    let (_, d, h₄) =
      >>=-eq-ok
        (guard (not policy.require_attested_discharge_mint || is_present context.attestation_digest)
          no_attestation)
        _ h₃ in
    let (_, l, m) =
      >>=-eq-ok
        (guard (speaks_for who (normalize_spiffe_principal location))
          unauthorized_discharge_principal)
        _ h₄ in
    (
      who,
      record {
        transport = guard-true _ _ t;
        caller = ok_or-some _ _ a;
        cert = (cert, ok_or-some _ _ c);
        attested = is_present-some _ _ (guard-true _ _ d);
        location_principal = λ principal e. speaks_for-eq who principal _ (guard-true _ _ l) e;
        listed = is_allowed-listed who _ (guard-true _ _ m);
      },
    )
