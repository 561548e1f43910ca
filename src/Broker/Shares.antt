-- ===== src/Broker/Shares.antt =====
-- `claim_share_impl`, `distribute_share_impl` and `combine_shares_impl`.
pub mod Unchecked
use secret_broker.Base.{
  ℕ, ◌/◌, ◌%◌, ◌^◌, Bytes, Bool, true, false, ◌||◌, not, Option, none, some, List, [], ◌∷◌, ◌++◌,
  map, length, bytes_eq, ltb, ◌==◌,
}
use secret_broker.Base.Result.{Result, ok, err, ok_or, guard, map_err}
use secret_broker.Text.{lit, is_empty}
use secret_broker.Platform.{Platform}
use secret_broker.Transparency.Json.{Json, text, num, flag, texts, nums, Meta, insert}
use secret_broker.Transparency.Event
use secret_broker.Transparency.Logger.{EventJson}
use secret_broker.Store.Record.{StoredEnvelopeRecord}
use secret_broker.Store.Backend.{Backend}
use secret_broker.Store.Ops.{load, claim_custodian_share}
use secret_broker.Threshold.{Share}
use secret_broker.Broker.Context.{ServiceError, BrokerClientContext, cleaned}
use secret_broker.Broker.Identity.{validate_threshold_custody_record_requirements}
use secret_broker.Broker.State.{BrokerState, parse_handle_identifier, record_transparency}
use secret_broker.Broker.Action.{
  ActionOr, ◌>>=◌, ◌>>◌, pure, lift, stored_as, failing_as, get, modify,
}
use secret_broker.Broker.Meta.{append_context_transparency_meta, insert_some}
use secret_broker.Broker.Services.{Services}
use secret_broker.Broker.Redeem.{UnwrapV2Request}
use secret_broker.Broker.Lifecycle.{Draws, caller}
use secret_broker.Broker.Unwrap.{UnwrapResponse, unwrap_secret_v2_impl}
use secret_broker.Broker.Custody.{
  CustodyError, handle_required, custodian_required, principal_required, custodian_mismatch,
  invalid_handle, identity, unwrapping, loading, claiming, share_index_range, share_index_mismatch,
  share_required, handle_not_found, encoding, decoding, ClaimShareRequest, ClaimShareResponse,
  DistributeShareRequest, DistributeShareResponse, CombineSharesRequest, CombineSharesResponse,
  validate_combine_shares_custody,
}

-- `u32::to_le_bytes`
unfoldable pub u32_le_bytes : ℕ → Bytes
u32_le_bytes n = n % 256 ∷ n / 256 % 256 ∷ n / 65536 % 256 ∷ n / 16777216 % 256 ∷ []

abbrev custody_allowed :
    Platform → BrokerClientContext → Option StoredEnvelopeRecord → Result CustodyError (Unit {0})
custody_allowed p context none = ok tt
custody_allowed p context (some r) =
    map_err identity (validate_threshold_custody_record_requirements p r context)

module _ {Tree : Type 0} (p : Platform) (b : Backend Tree) (j : EventJson)
    (context : BrokerClientContext) where
  -- the checks of the caller with which two of the handlers begin
  unfoldable pub check_custodian_caller : Bytes → Bytes → ActionOr CustodyError Tree (Unit {0})
  unfolding cleaned
  check_custodian_caller handle custodian_id = do
    lift (guard (not (is_empty handle)) handle_required)
    lift (guard (not (is_empty custodian_id)) custodian_required)
    actual ← lift (ok_or (cleaned context.principal_id) principal_required)
    lift (guard (bytes_eq actual custodian_id) custodian_mismatch)

  -- from the handle to the identifier of a record that, where there is one, admits the custodian
  unfoldable pub custody_record : Bytes → Draws → ActionOr CustodyError Tree Bytes
  custody_record handle d = do
    s ← get
    id ← lift (map_err invalid_handle (parse_handle_identifier p s handle))
    found ← (λ s'. stored_as loading s' (load p b s'.sealed_store id d.accessed_at d.nonce))
    lift (custody_allowed p context found)
    pure id

  abbrev claimed_meta : ClaimShareRequest → ClaimShareResponse → Meta
  claimed_meta req r = append_context_transparency_meta p context (
      insert (lit "previously_claimed") (flag r.previously_claimed) (
        insert (lit "share_index") (num r.x) (
          insert (lit "custodian_id") (text req.custodian_id)
            (insert (lit "type") (text (lit "claim_share")) []))))

  unfoldable pub claim_share_impl :
      ClaimShareRequest → Draws → ActionOr CustodyError Tree ClaimShareResponse
  unfolding check_custodian_caller custody_record
  claim_share_impl req d = do
    check_custodian_caller req.handle req.custodian_id
    id ← custody_record req.handle d
    result ← (λ s.
        stored_as claiming s
          (claim_custodian_share p b s.sealed_store id req.custodian_id d.nonce'))
    let response : ClaimShareResponse = record {
      x = result.x;
      y = result.y;
      commitments = result.commitments;
      previously_claimed = result.previously_claimed;
    }
    modify (
        record_transparency p j (
          Event.with_caller (caller context) (
            Event.wrap p d.recorded_at req.handle (lit "threshold-share-claim") req.custodian_id
              (some (claimed_meta req response)))))
    pure response

  unfoldable pub ack_token : BrokerState Tree → DistributeShareRequest → Bytes
  unfolding u32_le_bytes
  ack_token s req = p.b64_encode (
      p.hmac s.handle_hmac_key (
        lit "share-ack-v1:"
        ++ (req.handle
            ++ (lit ":"
                ++ (req.custodian_id
                    ++ (lit ":" ++ (u32_le_bytes req.share_index ++ (lit ":" ++ req.share.y))))))))

  abbrev distributed_meta : DistributeShareRequest → Meta
  distributed_meta req = append_context_transparency_meta p context (
      insert (lit "custodian_id") (text req.custodian_id) (
        insert (lit "share_index") (num req.share_index)
          (insert (lit "type") (text (lit "distribute_share")) [])))

  unfoldable pub distribute_share_impl :
      DistributeShareRequest → Draws → ActionOr CustodyError Tree DistributeShareResponse
  unfolding check_custodian_caller custody_record ack_token
  distribute_share_impl req d = do
    check_custodian_caller req.handle req.custodian_id
    lift (guard (not (req.share_index == 0 || ltb 255 req.share_index)) share_index_range)
    id ← custody_record req.handle d
    lift (guard (req.share.x == req.share_index % 2 ^ 8) share_index_mismatch)
    s ← get
    modify (
        record_transparency p j (
          Event.with_caller (caller context) (
            Event.wrap p d.recorded_at req.handle (lit "threshold-share") req.custodian_id
              (some (distributed_meta req)))))
    pure (record { accepted = true; ack_token = ack_token s req })

module _ {Tree Scalar Point : Type 0} (p : Platform) (b : Backend Tree) (j : EventJson)
    (v : Services Scalar Point) (context : BrokerClientContext) where
  abbrev recovery_meta : CombineSharesRequest → StoredEnvelopeRecord → List Share → Meta
  recovery_meta req r shares = append_context_transparency_meta p context (
      insert_some (lit "threshold") num r.threshold (
        insert (lit "share_count") (num (length shares)) (
          insert (lit "share_indices") (nums (map (λ (share : Share). share.x) shares))
            (insert (lit "custodians") (texts req.custodian_ids) []))))

  abbrev recovered_event :
      CombineSharesRequest → ℕ → StoredEnvelopeRecord → List Share → Event.TransparencyEvent
  recovered_event req at r shares = Event.with_caller (caller context) (
      Event.unwrap p at req.handle none (lit "threshold-recovery")
        (some (recovery_meta req r shares)))

  -- the request that `combine_shares_impl` makes of `unwrap_secret_v2_impl`
  abbrev pub recovery : CombineSharesRequest → Bytes → UnwrapV2Request
  recovery req redeem_token = record {
    handle = req.handle;
    redeem_token = redeem_token;
    tenant_id = req.tenant_id;
    provider = req.provider;
    circuit_id = none;
    node_id = none;
    discharges = [];
  }

  -- `d` is for the load of the record and the last event, `d'` for the unwrap.
  unfoldable pub combine_shares_impl :
      CombineSharesRequest → Draws → Draws → ℕ → ActionOr CustodyError Tree CombineSharesResponse
  unfolding validate_combine_shares_custody
  combine_shares_impl req d d' verified_at = do
    lift (guard (not (is_empty req.handle)) handle_required)
    lift (guard (not (length req.shares == 0)) share_required)
    s ← get
    id ← lift (map_err invalid_handle (parse_handle_identifier p s req.handle))
    found ← (λ s'. stored_as loading s' (load p b s'.sealed_store id d.accessed_at d.nonce))
    r ← lift (ok_or found handle_not_found)
    shares ← lift (validate_combine_shares_custody p r req)
    redeem_token ← lift (ok_or (v.shares_to_json shares) encoding)
    result ←
        failing_as unwrapping
          (unwrap_secret_v2_impl p b j v context (recovery req redeem_token) d' verified_at)
    plaintext ← lift (ok_or (p.b64_decode result.plaintext) decoding)
    modify (record_transparency p j (recovered_event req d.recorded_at r shares))
    pure (record { plaintext = plaintext })
