-- ===== src/Broker/Wrap/Admitted.antt =====
-- A request that repeats what a wrap was asked for passes the caveats of its handle.
use secret_broker.Base.{
  ◌≡◌, refl, ℕ, ◌≤◌, Bytes, true, Option, none, some, List, All, not, ltb, arith, bytes_eq_refl,
}
use secret_broker.Base.Result.{ok}
use secret_broker.Text.{lit}
use secret_broker.Platform.{Platform}
use secret_broker.Macaroon.Types.{
  Caveat, CaveatVerifier, DischargeMacaroon, DischargeKeyRef, tenant_id, provider, circuit_id,
  node_id,
}
use secret_broker.Macaroon.Verifier.{check, check_field}
use secret_broker.Macaroon.Chain.Minted.{Passes}
use secret_broker.Broker.Context.{BrokerClientContext}
use secret_broker.Broker.Wrap.{WrapV2Request, normalized, wrap_caveats, pushed, pushed_expiry}

-- A deadline that RFC 3339 can write and that neither time passes.
abbrev pub Timely : Platform → ℕ → ℕ → Option ℕ → Type 0
Timely p verified_at now none = Unit {0}
Timely p verified_at now (some t) =
    ((p.rfc_first ≤ t) × (t ≤ p.rfc_last)) × ((verified_at ≤ t) × (now ≤ t))

-- The verifier of a request to unwrap with the fields of the wrap.
abbrev pub verifier_of :
    WrapV2Request → ℕ → List DischargeMacaroon → List DischargeKeyRef → CaveatVerifier
verifier_of request now discharges keys = record {
  tenant_id = normalized request.tenant_id;
  provider = normalized request.provider;
  circuit_id = normalized request.circuit_id;
  node_id = normalized request.node_id;
  action = some (lit "unwrap");
  use_count = 1;
  now = now;
  discharges = discharges;
  discharge_keys = keys;
}

module _ (p : Platform) (context : BrokerClientContext) (request : WrapV2Request)
    (verified_at now : ℕ) (discharges : List DischargeMacaroon) (keys : List DischargeKeyRef) where
  abbrev v : CaveatVerifier
  v = verifier_of request verified_at discharges keys

  field_passes :
      (name value : Bytes) (o : Option Bytes) → o ≡ some value → check_field name o value ≡ ok tt
  unfolding check_field
  field_passes name value o e = rw e (rw (bytes_eq_refl value) refl)

  All-pushed :
      (o : Option Bytes) (f : Bytes → Caveat) (rest : List Caveat)
      → ((value : Bytes) → o ≡ some value → Passes p v (f value))
      → All (Passes p v) rest
      → All (Passes p v) (pushed p context o f rest)
  All-pushed none f rest first others = others
  All-pushed (some value) f rest first others = (first value refl, others)

  All-pushed_expiry :
      (o : Option ℕ) (rest : List Caveat)
      → Timely p verified_at now o
      → All (Passes p v) rest
      → All (Passes p v) (pushed_expiry p context o rest)
  unfolding check
  All-pushed_expiry none rest timely others = others
  All-pushed_expiry (some t) rest (writable, (early, _)) others =
      let passes : not (ltb t verified_at) ≡ true = ground arith in
      ((writable, λ sig. rw passes refl), others)

  pub wrap_caveats-Passes :
      (deadline : Option ℕ)
      → Timely p verified_at now deadline
      → All (Passes p v) (wrap_caveats p context request deadline)
  unfolding wrap_caveats check
  wrap_caveats-Passes deadline timely =
      All-pushed (normalized request.tenant_id) tenant_id _
        (λ value e. (tt, λ sig. field_passes (lit "tenant_id") value _ e))
        (All-pushed (normalized request.provider) provider _
          (λ value e. (tt, λ sig. field_passes (lit "provider") value _ e))
          (All-pushed (normalized request.circuit_id) circuit_id _
            (λ value e. (tt, λ sig. field_passes (lit "circuit_id") value _ e))
            (All-pushed (normalized request.node_id) node_id _
              (λ value e. (tt, λ sig. field_passes (lit "node_id") value _ e))
              (All-pushed_expiry deadline _ timely (
                (tt, λ sig. field_passes (lit "action") (lit "unwrap") _ refl),
                ((tt, λ sig. refl), tt),
              )))))
