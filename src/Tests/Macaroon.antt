-- ===== src/Tests/Macaroon.antt =====
-- The macaroon theorems at concrete tokens.
use mathlib.Core.List.{Memᴰ}
use secret_broker.Base.{
  List, ◌≤◌, ◌≡◌, ◌↔◌, ◌⊎◌, refl, arith, Bytes, none, some, [], ◌∷◌, ◌++◌, bytes_eq,
}
use secret_broker.Base.Result.{ok, ◌>>◌}
use secret_broker.Text.{lit, utf8_valid, is_empty, split_once, contains}
use secret_broker.Macaroon.Types.{
  Caveat, tenant_id, action, expires, third_party, Macaroon, DischargeMacaroon, DischargeKeyRef,
  CaveatVerifier,
}
use secret_broker.Macaroon.Caveat.{encode, parse}
use secret_broker.Macaroon.Caveat.RoundTrip.{parse-encode}
use secret_broker.Macaroon.Chain.{
  chain, signatures, check_all, mint, add_caveat, verify_signature, verify,
  third_party_binding_info_by_key_id,
}
use secret_broker.Macaroon.Chain.Attenuation.{add_caveat-mint, verify-add_caveat}
use secret_broker.Macaroon.Chain.Forgery.{Forged, same_signature}
use secret_broker.Macaroon.Chain.Enforced.{verify-enforces}
use secret_broker.Macaroon.Chain.Binding.{third_party_binding-position}
use secret_broker.Macaroon.Discharge
use secret_broker.Macaroon.Discharge.Laws.{verify-mint_iff, expiry_can_be_dropped}
use secret_broker.Macaroon.Verifier.{check, find_key, check_third_party}
use secret_broker.Macaroon.Verifier.Discharged.{Accepted, check_third_party_iff}
use secret_broker.Macaroon.Wire.{serialize, deserialize, serialize_discharge, deserialize_discharge}
use secret_broker.Macaroon.Wire.RoundTrip.{IsWritable, deserialize-serialize}
use secret_broker.Macaroon.Wire.DischargeRoundTrip.{
  IsSendable, whole_seconds, deserialize_discharge-serialize_discharge,
}
use secret_broker.Tests.Toy.{toy, toy-IsLawful}

abbrev root_key : Bytes
root_key = 7 ∷ 9 ∷ []

-- A handle id has sixteen bytes.
abbrev identifier : Bytes
identifier = lit "0123456789abcdef"

abbrev idp : Caveat
idp = third_party (lit "idp") (lit "k1")

abbrev ask : Macaroon
ask = mint toy root_key identifier (tenant_id (lit "acme") ∷ expires 50 ∷ [])

abbrev discharge : DischargeMacaroon
discharge =
    Discharge.mint_with_expiry toy (lit "idp") (lit "mfa") (1 ∷ 2 ∷ [])
      (chain toy root_key (identifier ∷ encode toy idp ∷ [])) (some 60)

abbrev key : DischargeKeyRef
key = record { location = lit "idp"; key_id = lit "k1"; condition = lit "mfa"; key = 1 ∷ 2 ∷ [] }

abbrev request : CaveatVerifier
request = record {
  tenant_id = some (lit "acme");
  provider = none;
  circuit_id = none;
  node_id = none;
  action = some (lit "unwrap");
  use_count = 1;
  now = 40;
  discharges = discharge ∷ [];
  discharge_keys = key ∷ [];
}

parse-encode_example : parse toy (encode toy idp) ≡ ok idp
parse-encode_example =
    parse-encode toy idp toy-IsLawful (unfold utf8_valid is_empty in (refl, refl, refl, refl))

add_caveat-mint_example :
    add_caveat toy ask idp
    ≡ mint toy root_key identifier (tenant_id (lit "acme") ∷ expires 50 ∷ idp ∷ [])
add_caveat-mint_example =
    add_caveat-mint toy root_key identifier (tenant_id (lit "acme") ∷ expires 50 ∷ []) idp

authentic : verify_signature toy ask root_key ≡ ok tt
unfolding verify_signature mint bytes_eq chain encode
authentic = refl

verify-add_caveat_example :
    verify toy (add_caveat toy ask (action (lit "unwrap"))) root_key request ≡ (
      verify toy ask root_key request
      >> check toy request
          (action (lit "unwrap"))
          (some (add_caveat toy ask (action (lit "unwrap"))).signature))
verify-add_caveat_example =
    verify-add_caveat toy ask root_key request (action (lit "unwrap")) toy-IsLawful tt authentic

same_signature_example :
    ((ask.identifier ≡ ask.identifier) × (ask.caveats ≡ ask.caveats)) ⊎ Forged toy root_key
same_signature_example = same_signature toy ask ask root_key authentic authentic refl

verified : verify toy ask root_key request ≡ ok tt
unfolding verify mint encode parse check signatures check_all chain bytes_eq split_once
verified = refl

verify-enforces_example :
    (before : List Bytes) × (after : List Bytes) × (ask.caveats
      ≡ before ++ encode toy (expires 50) ∷ after)
    × (check toy request
          (expires 50)
          (some (chain toy (toy.hmac root_key identifier) (before ++ encode toy (expires 50) ∷ [])))
        ≡ ok tt)
unfolding mint
verify-enforces_example =
    verify-enforces toy request (expires 50) toy-IsLawful (omega arith, omega arith) ask root_key
      (unfold mint in Memᴰ.tail (Memᴰ.head refl)) verified

abbrev gated : Macaroon
gated = mint toy root_key identifier (idp ∷ expires 50 ∷ [])

bound :
    third_party_binding_info_by_key_id toy gated root_key (lit "idp") (lit "k1")
    ≡ ok (chain toy root_key (identifier ∷ encode toy idp ∷ []))
unfolding third_party_binding_info_by_key_id mint encode parse chain split_once bytes_eq contains
    utf8_valid is_empty
bound = refl

third_party_binding-position_example :
    chain toy root_key (identifier ∷ encode toy idp ∷ [])
    ≡ chain toy (toy.hmac root_key identifier) ([] ++ encode toy idp ∷ [])
unfolding mint
third_party_binding-position_example =
    third_party_binding-position toy gated root_key (lit "idp") (lit "k1") (encode toy idp)
      (chain toy root_key (identifier ∷ encode toy idp ∷ [])) [] (encode toy (expires 50) ∷ [])
      parse-encode_example refl bound

abbrev at_idp : Bytes
at_idp = chain toy root_key (identifier ∷ encode toy idp ∷ [])

verify-mint_iff_example :
    (Discharge.verify toy
        (Discharge.mint_with_expiry toy (lit "idp") (lit "mfa") (1 ∷ 2 ∷ []) at_idp (some 50))
        (lit "mfa")
        (1 ∷ 2 ∷ [])
        at_idp
        40
      ≡ ok tt)
    ↔ ((40 ≤ 50)
        × (toy.hmac (1 ∷ 2 ∷ []) (lit "mfa") ≡ toy.hmac (1 ∷ 2 ∷ []) (lit "mfa"))
        × (toy.hmac at_idp (toy.hmac (1 ∷ 2 ∷ []) (lit "mfa"))
            ≡ toy.hmac at_idp (toy.hmac (1 ∷ 2 ∷ []) (lit "mfa"))))
verify-mint_iff_example =
    verify-mint_iff toy (lit "idp") (lit "mfa") (1 ∷ 2 ∷ []) at_idp (lit "mfa") (1 ∷ 2 ∷ []) at_idp
      (some 50) 40

discharged : Discharge.verify toy discharge (lit "mfa") (1 ∷ 2 ∷ []) at_idp 40 ≡ ok tt
unfolding Discharge.verify Discharge.mint_with_expiry bytes_eq chain encode
discharged = refl

-- twenty thousand is long after the deadline
expiry_can_be_dropped_example :
    Discharge.verify toy
      (record discharge { expires_at = none })
      (lit "mfa")
      (1 ∷ 2 ∷ [])
      at_idp
      20_000
    ≡ ok tt
expiry_can_be_dropped_example =
    expiry_can_be_dropped toy discharge (lit "mfa") (1 ∷ 2 ∷ []) at_idp 40 20_000 discharged

key_found : find_key (lit "idp") (lit "k1") request.discharge_keys ≡ some key
unfolding find_key bytes_eq
key_found = refl

check_third_party_iff_example :
    (check_third_party toy request (lit "idp") (lit "k1") (some at_idp) ≡ ok tt)
    ↔ Accepted toy (lit "idp") key at_idp 40 (discharge ∷ [])
check_third_party_iff_example =
    check_third_party_iff toy request (lit "idp") (lit "k1") at_idp key key_found

key_not_found : find_key (lit "idp") (lit "k2") request.discharge_keys ≡ none
unfolding find_key bytes_eq
key_not_found = refl

ask-IsWritable : IsWritable ask
unfolding mint encode chain utf8_valid
ask-IsWritable = record {
  identifier = refl;
  signature = refl;
  count = omega arith;
  fits = ((omega arith, refl), ((omega arith, refl), tt));
}

deserialize-serialize_example : deserialize toy (serialize toy ask) ≡ ok ask
deserialize-serialize_example = deserialize-serialize toy ask toy-IsLawful ask-IsWritable

discharge-IsSendable : IsSendable toy discharge
unfolding Discharge.mint_with_expiry utf8_valid
discharge-IsSendable = record {
  location = (omega arith, refl);
  condition = (omega arith, refl);
  discharge_signature = refl;
  binding = refl;
  expires_at = omega arith;
}

deserialize_discharge-serialize_discharge_example :
    deserialize_discharge toy (serialize_discharge toy discharge)
    ≡ ok (record discharge { expires_at = whole_seconds discharge.expires_at })
deserialize_discharge-serialize_discharge_example =
    deserialize_discharge-serialize_discharge toy discharge toy-IsLawful discharge-IsSendable
