-- ===== src/Broker/NewCaveats.antt =====
-- The requests of `attenuate_handle_v2_impl`, and the caveats that it adds.
use secret_broker.Base.{ℕ, Bytes, Option, none, some, List, [], ◌∷◌, ◌++◌, ◌==◌}
use secret_broker.Base.Result.{Result, ok, ◌>>=◌, ok_or, guard}
use secret_broker.Text.{lit}
use secret_broker.Platform.{Platform}
use secret_broker.Macaroon.Types.{
  Macaroon, Caveat, tenant_id, provider, circuit_id, node_id, action, max_uses, third_party,
}
use secret_broker.Macaroon.Chain.{add_caveat}
use secret_broker.Store.Record.{ThirdPartyCaveatKey}
use secret_broker.Broker.Context.{ServiceError, invalid_attenuation}
use secret_broker.Broker.Wrap.{normalize_optional_string, normalized}

pub record ThirdPartyCaveatRequest : Type 0 where
  pub location : Bytes
  pub condition : Bytes

pub record AttenuateV2Request : Type 0 where
  pub handle : Bytes
  pub tenant_id : Option Bytes
  pub provider : Option Bytes
  pub circuit_id : Option Bytes
  pub node_id : Option Bytes
  pub action : Option Bytes
  pub max_uses : Option ℕ
  pub third_party : Option ThirdPartyCaveatRequest

pub record AttenuateV2Response : Type 0 where
  pub handle : Bytes
  pub third_party_caveat_id : Option Bytes

-- the random key of a third-party caveat, its identifier and its time
pub record KeyDraws : Type 0 where
  pub key_id : Bytes
  pub secret : Bytes
  pub created_at : ℕ

-- a caveat with its entry in `added_caveats`
abbrev pub Added : Type 0
Added = Bytes × Caveat

abbrev noted : Bytes → (Bytes → Caveat) → Option Bytes → List Added → List Added
noted name f none rest = rest
noted name f (some value) rest = (name ++ (lit "=" ++ value), f value) ∷ rest

abbrev noted_use : Option ℕ → List Added → List Added
noted_use none rest = rest
noted_use (some uses) rest = (lit "max_uses=1", max_uses) ∷ rest

abbrev noted_key : Option ThirdPartyCaveatKey → List Added
noted_key none = []
noted_key (some e) =
    (
      lit "third_party:location=" ++ (e.location ++ (lit " key_id=" ++ e.key_id)),
      third_party e.location e.key_id,
    )
    ∷ []

unfoldable pub added_caveats : AttenuateV2Request → Option ThirdPartyCaveatKey → List Added
unfolding normalized
added_caveats payload entry = noted (lit "tenant_id") tenant_id (normalized payload.tenant_id) (
    noted (lit "provider") provider (normalized payload.provider) (
      noted (lit "circuit_id") circuit_id (normalized payload.circuit_id) (
        noted (lit "node_id") node_id (normalized payload.node_id) (
          noted (lit "action") action (normalized payload.action)
            (noted_use payload.max_uses (noted_key entry))))))

unfoldable pub check_max_uses : Option ℕ → Result ServiceError (Unit {0})
check_max_uses none = ok tt
check_max_uses (some uses) =
    guard (uses == 1)
      (invalid_attenuation (lit "max_uses currently only supports the live single-use value 1"))

-- the successive calls of `add_caveat`
unfoldable pub add_caveats : Platform → Macaroon → List Caveat → Macaroon
add_caveats p m [] = m
add_caveats p m (c ∷ cs) = add_caveats p (add_caveat p m c) cs

module _ (p : Platform) where
  unfoldable pub third_party_entry :
      Option ThirdPartyCaveatRequest → KeyDraws → Result ServiceError (Option ThirdPartyCaveatKey)
  unfolding normalize_optional_string
  third_party_entry none k = ok none
  third_party_entry (some tp) k = do
    location ←
        ok_or (normalize_optional_string tp.location)
          (invalid_attenuation (lit "third-party location must be non-empty"))
    condition ←
        ok_or (normalize_optional_string tp.condition)
          (invalid_attenuation (lit "third-party condition must be non-empty"))
    let entry : ThirdPartyCaveatKey = record {
      location = location;
      key_id = k.key_id;
      condition = some condition;
      secret_b64 = p.b64_encode k.secret;
      created_at = k.created_at;
    }
    ok (some entry)
