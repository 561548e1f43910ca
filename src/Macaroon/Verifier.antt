-- ===== src/Macaroon/Verifier.antt =====
-- `CaveatVerifier::check`.
pub mod Discharged
use secret_broker.Base.{
  ℕ, Bytes, Bool, true, false, Option, none, some, List, [], ◌∷◌, ◌++◌, ◌&&◌, ltb, leb, bytes_eq,
  not, if◌then◌else◌,
}
use secret_broker.Base.Result.{Result, ok, err, ◌>>=◌, ok_or, guard}
use secret_broker.Text.{lit, decimal}
use secret_broker.Platform.{Platform}
use secret_broker.Macaroon.Types.{
  MacaroonError, expired, caveat_failed, Caveat, tenant_id, provider, expires, circuit_id, node_id,
  action, max_uses, third_party, DischargeMacaroon, DischargeKeyRef, CaveatVerifier,
}
use secret_broker.Macaroon.Discharge.{verify}

-- the arms that compare one field of the request with the caveat
unfoldable pub check_field : Bytes → Option Bytes → Bytes → Result MacaroonError (Unit {0})
check_field name none expected = err (caveat_failed (name ++ lit " required but not provided"))
check_field name (some actual) expected =
    if bytes_eq actual expected
    then ok tt
    else err (caveat_failed (name ++ (lit ": expected " ++ (expected ++ (lit ", got " ++ actual)))))

unfoldable pub find_key : Bytes → Bytes → List DischargeKeyRef → Option DischargeKeyRef
find_key location key_id [] = none
find_key location key_id (k ∷ ks) =
    if bytes_eq k.location location && bytes_eq k.key_id key_id
    then some k
    else find_key location key_id ks

-- `.filter(|d| d.location == *location && d.condition == expected_condition)`
unfoldable pub is_candidate : Bytes → Bytes → DischargeMacaroon → Bool
is_candidate location condition d = bytes_eq d.location location && bytes_eq d.condition condition

is_ok : {E A : Type 0} → Result E A → Bool
is_ok (ok a) = true
is_ok (err e) = false

-- the loop over the candidates; the Boolean is `saw_candidate`
unfoldable pub try_discharges :
    Platform
    → Bytes
    → DischargeKeyRef
    → Bytes
    → ℕ
    → Bool
    → List DischargeMacaroon
    → Result MacaroonError (Unit {0})
unfolding is_ok is_candidate
try_discharges p location key sig now saw [] =
    if saw
    then err
        (caveat_failed (lit "no valid discharge macaroon for third-party caveat at " ++ location))
    else err (caveat_failed (lit "no discharge macaroon for third-party caveat at " ++ location))
try_discharges p location key sig now saw (d ∷ ds) =
    let hit = try_discharges p location key sig now true ds in
    let miss = try_discharges p location key sig now saw ds in
    if is_candidate location key.condition d
    then (if is_ok (verify p d key.condition key.key sig now) then ok tt else hit)
    else miss

unfoldable pub check_third_party :
    Platform → CaveatVerifier → Bytes → Bytes → Option Bytes → Result MacaroonError (Unit {0})
unfolding find_key try_discharges
check_third_party p v location key_id primary_signature = do
  sig ←
      ok_or primary_signature
        (caveat_failed (lit "missing primary binding signature for third-party caveat"))
  key ←
      ok_or (find_key location key_id v.discharge_keys)
        (caveat_failed (lit "no discharge key configured for location " ++ location))
  try_discharges p location key sig v.now false v.discharges

unfoldable pub check :
    Platform → CaveatVerifier → Caveat → Option Bytes → Result MacaroonError (Unit {0})
unfolding check_field
check p v (tenant_id expected) sig = check_field (lit "tenant_id") v.tenant_id expected
check p v (provider expected) sig = check_field (lit "provider") v.provider expected
check p v (expires deadline) sig = guard (not (ltb deadline v.now)) expired
check p v (circuit_id expected) sig = check_field (lit "circuit_id") v.circuit_id expected
check p v (node_id expected) sig = check_field (lit "node_id") v.node_id expected
check p v (action expected) sig = check_field (lit "action") v.action expected
check p v max_uses sig = guard (leb v.use_count 1) (
    caveat_failed
      (lit "max_uses: attempted use " ++ (decimal v.use_count ++ lit " exceeds single-use limit")))
check p v (third_party location key_id) sig = check_third_party p v location key_id sig
