-- ===== src/Tests/Fixtures.antt =====
-- A caller, records, a broker and a handle for the examples.
use secret_broker.Base.{Bytes, true, none, some, [], ◌++◌}
use secret_broker.Text.{lit}
use secret_broker.Store.Record.{StoredEnvelopeRecord, renewable_lease}
use secret_broker.Macaroon.Chain.{mint}
use secret_broker.Macaroon.Wire.{serialize}
use secret_broker.Transparency.Logger.{genesis_hash}
use secret_broker.Broker.Context.{BrokerClientContext}
use secret_broker.Broker.State.{BrokerState, macaroon_root_key}
use secret_broker.Broker.Lifecycle.{Draws}
use secret_broker.Tests.Toy.{toy}
use secret_broker.Tests.Backend.{Table}
use secret_broker.Tests.Store.{nonce, kept, tree_of}

abbrev pub ann : BrokerClientContext
ann = record {
  exporter = lit "exporter";
  session_id = none;
  principal_id = some (lit "ann");
  authenticated_transport = true;
  peer_cert_sha256 = some (lit "cert");
  attestation_digest = some (lit "digest");
}

abbrev pub leased : StoredEnvelopeRecord
leased = record kept {
  lifecycle = renewable_lease;
  unwrap_principal_id = some (lit "ann");
  issued_with_authenticated_transport = true;
  issued_by_principal_id = some (lit "ann");
  issued_by_peer_cert_sha256 = some (lit "cert");
  issued_by_attestation_digest = some (lit "digest");
  expires_at = some 9_000_000_000;
  lease_expires_at = some 70;
}

abbrev pub single : StoredEnvelopeRecord
single = record kept { unwrap_principal_id = some (lit "ann") }

abbrev pub id : Bytes
id = lit "0123456789abcdef"

abbrev pub with_tree : Table → BrokerState Table
with_tree t = record {
  sealed_store = t;
  default_customer_id = lit "acme";
  max_handle_ttl = 86_400;
  transparency = some (record { lines = []; torn = []; sequence = 0; prev_hash = genesis_hash });
  handle_hmac_key = lit "k";
  redeem_token_ttl = 86_400;
  policy = record { require_attested_discharge_mint = true; allowed_discharge_principal_ids = [] };
}

abbrev pub state : BrokerState Table
state = with_tree (tree_of id leased)

abbrev pub handle : Bytes
handle = lit "broker:v2:" ++ serialize toy (mint toy (macaroon_root_key toy state id) id [])

abbrev pub draws : Draws
draws = record {
  nonce = nonce;
  nonce' = nonce;
  accessed_at = 40;
  now = 41;
  stored_at = 42;
  recorded_at = 43;
}
