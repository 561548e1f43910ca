-- ===== src/Broker/Renewal.antt =====
-- The decisions of `renew_lease_impl`.
use secret_broker.Base.{ℕ, not, Option, none, some, ltb, if◌then◌else◌}
use secret_broker.Base.Result.{Result, ◌>>◌, guard}
use secret_broker.Platform.{Platform}
use secret_broker.Store.Record.{StoredEnvelopeRecord, is_lifecycle, renewable_lease, is_expired}
use secret_broker.Broker.Context.{
  ServiceError, revoked_handle, expired_handle, crypto, BrokerClientContext,
}
use secret_broker.Broker.Identity.{validate_v2_record_identity_requirements}

-- "lease cannot exceed the hard secret TTL"
unfoldable pub capped_lease : Option ℕ → ℕ → ℕ
capped_lease none lease = lease
capped_lease (some hard_ttl) lease = if ltb hard_ttl lease then hard_ttl else lease

-- the checks of `renew_lease_impl` on the record that it loaded
unfoldable pub may_renew :
    Platform → BrokerClientContext → ℕ → StoredEnvelopeRecord → Result ServiceError (Unit {0})
unfolding is_lifecycle is_expired
may_renew p context now r = do
  guard (not r.revoked) revoked_handle
  guard (is_lifecycle r.lifecycle renewable_lease) crypto
  guard (not (is_expired r now)) expired_handle
  validate_v2_record_identity_requirements p r context
