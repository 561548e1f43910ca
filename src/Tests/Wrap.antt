-- ===== src/Tests/Wrap.antt =====
-- Wrapping for a single use.
use secret_broker.Base.{◌≡◌, refl, sym, ap, arith, ℕ, Option, none, some, [], ◌∷◌}
use secret_broker.Base.Result.{Result, ok}
use secret_broker.Text.{lit, trim, nonblank, utf8_valid}
use secret_broker.Macaroon.Types.{Macaroon}
use secret_broker.Store.Spec.{put}
use secret_broker.Store.Refinement.{Represents}
use secret_broker.Store.Record.{StoredEnvelopeRecord, single_use_unwrap, is_after}
use secret_broker.Broker.Context.{ServiceError, cleaned}
use secret_broker.Store.Ops.{insert_with_id, touch}
use secret_broker.Macaroon.Caveat.{encode}
use secret_broker.Macaroon.Chain.{mint, chain}
use secret_broker.Macaroon.Wire.{serialize}
use secret_broker.Broker.Identity.{v2_unwrap_principal}
use secret_broker.Broker.State.{BrokerState, parse_handle_v2}
use secret_broker.Broker.Services.{KeyPair}
use secret_broker.Broker.Persist.{WrapDraws}
use secret_broker.Broker.Wrap.{
  WrapV2Request, WrapSecretOutcome, normalized, wrap_caveats, wrap_secret_v2_impl,
}
use secret_broker.Broker.Wrap.Presented.{
  InTime, macaroon_of, presented, Sealed, SignedAs, Presentable,
}
use secret_broker.Broker.Wrap.RoundTrip.{wrap-Presentable}
use secret_broker.Macaroon.Wire.RoundTrip.{IsWritable}
use secret_broker.Tests.Toy.{toy, toy-IsLawful, toy_json}
use secret_broker.Tests.Backend.{Table, toy_backend, toy_backend-IsBackend}
use secret_broker.Tests.Store.{nonce, kept, records_of, tree_of, tree_of-Represents, toy-Seals}
use secret_broker.Tests.Services.{services}
use secret_broker.Tests.Fixtures.{ann, id, with_tree}

abbrev request : WrapV2Request
request = record {
  plaintext = 1 ∷ 2 ∷ [];
  customer_id = none;
  metadata = none;
  lifecycle = single_use_unwrap;
  ttl_seconds = none;
  initial_lease_seconds = none;
  label = none;
  tenant_id = some (lit "t");
  provider = none;
  circuit_id = none;
  node_id = none;
  unwrap_principal_id = none;
}

abbrev wrap_draws : WrapDraws
wrap_draws = record {
  handle_id = id;
  redeem_nonce = lit "n";
  envelope_key_id = lit "k";
  encryption = [];
  key_pair = lit "pk";
  nonce = nonce;
  created_at = 30;
  recorded_at = 31;
}

abbrev state : BrokerState Table
state = with_tree (tree_of (lit "other") kept)

abbrev Ran : Type 0
Ran = Result ServiceError (Option WrapSecretOutcome) × BrokerState Table

ran : Ran
ran = wrap_secret_v2_impl toy toy_backend toy_json services ann request wrap_draws state

abbrev nothing : WrapSecretOutcome
nothing = record {
  handle = [];
  expires_at = none;
  redeem_token = [];
  redeem_token_expires_at = none;
}

abbrev answer_of : Ran → WrapSecretOutcome
answer_of (ok (some answer), s) = answer
answer_of _ = nothing

answer : WrapSecretOutcome
unfolding ran
answer = answer_of ran

succeeded :
    wrap_secret_v2_impl toy toy_backend toy_json services ann request wrap_draws state
    ≡ (ok (some answer), ran.1)
unfolding ran answer wrap_secret_v2_impl v2_unwrap_principal nonblank trim insert_with_id
succeeded = refl

writable : IsWritable (macaroon_of toy ann state request wrap_draws answer.expires_at)
unfolding ran answer wrap_secret_v2_impl mint chain nonblank trim v2_unwrap_principal insert_with_id
    wrap_caveats normalized encode utf8_valid
writable = record {
  identifier = refl;
  signature = refl;
  count = omega arith;
  fits = ((omega arith, refl), ((omega arith, refl), ((omega arith, refl), tt)));
}

trimmed : trim answer.handle ≡ answer.handle
unfolding ran answer wrap_secret_v2_impl trim v2_unwrap_principal nonblank insert_with_id serialize
    mint encode chain
trimmed = refl

stable : cleaned (cleaned ann.principal_id) ≡ cleaned ann.principal_id
unfolding cleaned trim nonblank
stable = refl

abbrev deadline_of : Option KeyPair → Option ℕ
deadline_of none = none
deadline_of (some k) = k.expires_at

in_time : InTime toy services state request wrap_draws answer 41 41
unfolding ran answer wrap_secret_v2_impl v2_unwrap_principal nonblank trim insert_with_id is_after
in_time = record {
  handle = tt;
  token = omega arith;
  signing_key = λ k generated. sym (ap (λ o. is_after 41 (deadline_of o)) generated);
}

wrap-Presentable_example :
    (r : StoredEnvelopeRecord) × (minted : Macaroon) × Represents toy toy_backend ran.1.sealed_store
      (put (records_of (lit "other") kept) minted.identifier (some r))
    × (parse_handle_v2 toy answer.handle ≡ ok minted)
    × Presentable toy services ann (presented request answer []) 41 41 ran.1 minted (touch 40 r)
    × Sealed toy services [] ann.exporter (1 ∷ 2 ∷ []) (touch 40 r)
    × SignedAs toy services (lit "pk") (touch 40 r)
wrap-Presentable_example =
    wrap-Presentable toy toy_backend toy_json services toy-IsLawful toy_backend-IsBackend ann
      request wrap_draws 40 41 41 [] state ran.1 (records_of (lit "other") kept) answer
      (tree_of-Represents (lit "other") kept) refl toy-Seals refl stable writable trimmed succeeded
      in_time
