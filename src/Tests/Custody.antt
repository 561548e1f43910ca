-- ===== src/Tests/Custody.antt =====
-- Two custodians bring back the shares that they have claimed, and one deposits a share.
use secret_broker.Base.{◌≡◌, refl, Bytes, true, some, [], ◌∷◌, bytes_eq, any}
use secret_broker.Base.Result.{ok}
use secret_broker.Text.{lit, trim, is_empty}
use secret_broker.Store.Record.{StoredEnvelopeRecord, ShareAssignment}
use secret_broker.Store.Ops.{find_assignment, find_held}
use secret_broker.Broker.Custody.{
  CombineSharesRequest, DistributeShareRequest, unique_count, check_custodian, check_custodians,
  validate_combine_shares_custody,
}
use secret_broker.Broker.Custody.Combined.{Combined, validate_combine_shares_custody-Combined}
use secret_broker.Broker.Shares.{distribute_share_impl}
use secret_broker.Broker.Shares.Unchecked.{Alike, with_value, distribute_share_impl-any_value}
use secret_broker.Tests.Toy.{toy, toy_json}
use secret_broker.Tests.Backend.{toy_backend}
use secret_broker.Tests.Fixtures.{ann, single, state, handle, draws}

abbrev claimed_by : Bytes → ShareAssignment
claimed_by id = record { custodian_id = id; share_index = 1; claimed = true }

abbrev shared : StoredEnvelopeRecord
shared = record single {
  threshold = some 2;
  share_assignments =
      some (claimed_by (lit "ann") ∷ record (claimed_by (lit "bob")) { share_index = 2 } ∷ []);
  held_shares =
      some (record { x = 1; y_b64 = lit "one" } ∷ record { x = 2; y_b64 = lit "two" } ∷ []);
}

abbrev request : CombineSharesRequest
request = record {
  handle = handle;
  shares = record { x = 2; y = lit "two" } ∷ record { x = 1; y = lit "one" } ∷ [];
  tenant_id = some (lit "acme");
  provider = some (lit "kms");
  custodian_ids = lit "bob" ∷ lit "ann" ∷ [];
}

accepted : validate_combine_shares_custody toy shared request ≡ ok request.shares
unfolding validate_combine_shares_custody unique_count check_custodians check_custodian
    find_assignment find_held any trim is_empty bytes_eq
accepted = refl

validate_combine_shares_custody-Combined_example :
    (request.shares ≡ request.shares) × Combined toy shared request
validate_combine_shares_custody-Combined_example =
    validate_combine_shares_custody-Combined toy shared request request.shares accepted

abbrev deposit : DistributeShareRequest
deposit = record {
  handle = handle;
  share_index = 2;
  share = record { x = 2; y = lit "two" };
  custodian_id = lit "ann";
}

distribute_share_impl-any_value_example :
    Alike (distribute_share_impl toy toy_backend toy_json ann deposit draws state) (
      distribute_share_impl toy toy_backend toy_json ann
        (with_value (lit "forged") deposit)
        draws
        state)
distribute_share_impl-any_value_example =
    distribute_share_impl-any_value toy toy_backend toy_json ann deposit (lit "forged") draws state
