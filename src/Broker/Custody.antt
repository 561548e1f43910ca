-- ===== src/Broker/Custody.antt =====
-- The requests of the custody handlers, and `validate_combine_shares_custody`.
pub mod Combined
use secret_broker.Base.{
  ℕ, suc, Bytes, Bool, true, false, ◌||◌, not, Option, none, some, List, [], ◌∷◌, length, any,
  bytes_eq, ltb, ◌==◌, if◌then◌else◌,
}
use secret_broker.Base.Result.{Result, ok, err, ◌>>=◌, ◌>>◌, ok_or, guard}
use secret_broker.Text.{trim, is_empty}
use secret_broker.Platform.{Platform}
use secret_broker.Store.Record.{StoredEnvelopeRecord, ShareAssignment, HeldShare}
use secret_broker.Store.Ops.{StoreError, find_assignment, find_held}
use secret_broker.Threshold.{Share}
use secret_broker.Broker.Context.{ServiceError}

-- The handlers' `anyhow` errors, by their message.
pub data CustodyError : Type 0 where
  handle_required custodian_required principal_required custodian_mismatch : CustodyError
  invalid_handle identity unwrapping : ServiceError → CustodyError
  loading claiming : StoreError → CustodyError
  share_index_range share_index_mismatch share_required handle_not_found : CustodyError
  custodian_count custodians_not_distinct custodian_empty : CustodyError
  no_assignments no_held_shares too_few_shares : CustodyError
  not_assigned not_claimed : Bytes → CustodyError
  repeated_index index_not_held : ℕ → CustodyError
  wrong_index wrong_share : Bytes → CustodyError
  undecodable encoding decoding : CustodyError

pub record ClaimShareRequest : Type 0 where
  pub handle : Bytes
  pub custodian_id : Bytes

pub record ClaimShareResponse : Type 0 where
  pub x : ℕ
  pub y : Bytes
  pub commitments : List Bytes
  pub previously_claimed : Bool

pub record DistributeShareRequest : Type 0 where
  pub handle : Bytes
  pub share_index : ℕ
  pub share : Share
  pub custodian_id : Bytes

pub record DistributeShareResponse : Type 0 where
  pub accepted : Bool
  pub ack_token : Bytes

pub record CombineSharesRequest : Type 0 where
  pub handle : Bytes
  pub shares : List Share
  pub tenant_id : Option Bytes
  pub provider : Option Bytes
  pub custodian_ids : List Bytes

pub record CombineSharesResponse : Type 0 where
  pub plaintext : Bytes

-- The size of the set of the names.
unfoldable pub unique_count : List Bytes → ℕ
unfolding any
unique_count [] = 0
unique_count (name ∷ names) =
    let rest = unique_count names in if any (bytes_eq name) names then rest else suc rest

abbrev enough : Option ℕ → List Share → Bool
enough none shares = true
enough (some threshold) shares = not (ltb (length shares) threshold)

module _ (p : Platform) (assignments : List ShareAssignment) (held : List HeldShare) where
  -- one round of the loop, which gives the index of the share
  unfoldable pub check_custodian : List ℕ → Bytes → Share → Result CustodyError ℕ
  unfolding find_assignment find_held any
  check_custodian seen custodian_id share = do
    assignment ← ok_or (find_assignment custodian_id assignments) (not_assigned custodian_id)
    guard assignment.claimed (not_claimed custodian_id)
    guard (not (any (λ i. i == assignment.share_index) seen))
        (repeated_index assignment.share_index)
    guard (share.x == assignment.share_index) (wrong_index custodian_id)
    held_share ←
        ok_or (find_held assignment.share_index held) (index_not_held assignment.share_index)
    expected_y ← ok_or (p.b64_decode held_share.y_b64) undecodable
    guard (bytes_eq share.y expected_y) (wrong_share custodian_id)
    ok assignment.share_index

  -- the loop over the custodians zipped with the shares
  unfoldable pub check_custodians :
      List ℕ → List Bytes → List Share → Result CustodyError (List Share)
  unfolding check_custodian
  check_custodians seen (custodian_id ∷ ids) (share ∷ shares) = do
    index ← check_custodian seen custodian_id share
    rest ← check_custodians (index ∷ seen) ids shares
    ok (share ∷ rest)
  check_custodians seen _ _ = ok []

unfoldable pub validate_combine_shares_custody :
    Platform → StoredEnvelopeRecord → CombineSharesRequest → Result CustodyError (List Share)
unfolding unique_count any check_custodians
validate_combine_shares_custody p r req = do
  guard (length req.custodian_ids == length req.shares) custodian_count
  guard (unique_count req.custodian_ids == length req.shares) custodians_not_distinct
  guard (not (any (λ id. is_empty (trim id)) req.custodian_ids)) custodian_empty
  assignments ← ok_or r.share_assignments no_assignments
  held ← ok_or r.held_shares no_held_shares
  guard (enough r.threshold req.shares) too_few_shares
  check_custodians p assignments held [] req.custodian_ids req.shares
