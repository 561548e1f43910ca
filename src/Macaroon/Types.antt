-- ===== src/Macaroon/Types.antt =====
-- The types of macaroon_caveats.rs.
use secret_broker.Base.{ℕ, Bytes, List, Option}

pub data MacaroonError : Type 0 where
  invalid_format signature_invalid expired : MacaroonError
  caveat_failed : Bytes → MacaroonError
  unknown_caveat : Bytes → MacaroonError

pub data Caveat : Type 0 where
  tenant_id provider : Bytes → Caveat
  expires : ℕ → Caveat
  circuit_id node_id action : Bytes → Caveat
  max_uses : Caveat
  third_party : Bytes → Bytes → Caveat

-- The caveats are kept as the strings that `encode` made.
pub record Macaroon : Type 0 where
  pub identifier : Bytes
  pub caveats : List Bytes
  pub signature : Bytes

pub record DischargeMacaroon : Type 0 where
  pub location : Bytes
  pub condition : Bytes
  pub expires_at : Option ℕ
  pub discharge_signature : Bytes
  pub binding : Bytes

pub record DischargeKeyRef : Type 0 where
  pub location : Bytes
  pub key_id : Bytes
  pub condition : Bytes
  pub key : Bytes

pub record CaveatVerifier : Type 0 where
  pub tenant_id : Option Bytes
  pub provider : Option Bytes
  pub circuit_id : Option Bytes
  pub node_id : Option Bytes
  pub action : Option Bytes
  pub use_count : ℕ
  pub now : ℕ
  pub discharges : List DischargeMacaroon
  pub discharge_keys : List DischargeKeyRef
