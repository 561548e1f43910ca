-- ===== src/Lib.antt =====
-- The secret broker: an embedded service that keeps sealed secrets and hands out capabilities for
-- them. Its core is services/secret-broker/src/secret_broker_impl, the directory that the paths
-- below start from.
--
-- Parts and files:
-- * macaroon_caveats.rs, the capability tokens, is Macaroon. `Caveat::encode` and `parse` are in
--   Macaroon/Caveat; `Macaroon::mint`, `add_caveat`, `verify_signature`, `verify` and
--   `third_party_binding_info_by_key_id` in Macaroon/Chain; `CaveatVerifier::check` in
--   Macaroon/Verifier; `DischargeMacaroon` in Macaroon/Discharge; both wire formats in
--   Macaroon/Wire.
-- * transparency.rs, the audit log, is Transparency. Its events are in Transparency/Event, and
--   `TransparencyLogger` in Transparency/Logger: the file is its lines and what follows the last
--   newline, and `record` is cut into the three steps between which other calls can run.
-- * sealed_store.rs, the encrypted record store, is Store. The records are in Store/Record and
--   Store/Material, the operations of `SealedStore` in Store/Ops under the source's names, and the
--   map from handles to records that they implement in Store/Spec. Each operation takes the nonce
--   that it draws and the time that it reads as arguments, and returns the new tree. Store/Evolution
--   follows a record whose redeem token is consumed through sequences of calls.
-- * threshold.rs, the sharing of a secret on the P-256 curve, is Threshold: `split`, `reconstruct`
--   and `verify_share_with_commitments`, over the curve's scalars and points as an interface in
--   Threshold/P256.
-- * handlers.rs, with state.rs and the caller's context of mod.rs, is Broker: `BrokerClientContext`
--   and `ServiceError` in Broker/Context, the identity checks in Broker/Identity, `BrokerState` and
--   handle parsing in Broker/State, the caveat keys of a record in Broker/Keys, `enforce_ttl` in
--   Broker/Ttl. The handlers are actions on the broker's state that leave a state in every outcome:
--   `wrap_secret_v2_impl` in Broker/Wrap with `persist_secret_v2_with_lifecycle` in Broker/Persist,
--   `unwrap_secret_v2_impl` in Broker/Unwrap with its checks in Broker/Redeem,
--   `attenuate_handle_v2_impl` in Broker/Attenuate with its caveats in Broker/NewCaveats,
--   `renew_lease_impl`, `revoke_secret_impl` and `delete_secret_impl` in Broker/Lifecycle, and
--   `claim_share_impl`, `distribute_share_impl` and `combine_shares_impl` in Broker/Shares with
--   their requests and `validate_combine_shares_custody` in Broker/Custody.
-- * Text has the routines of `str` that these call, Base the shared types and lemmas, and Tests
--   concrete instances of the arguments with the theorems at concrete inputs.
--
-- How they interact: the handlers mint a macaroon whose identifier is the store's handle, check its
-- caveats against the keys that the stored record holds, change the record through the store, and
-- write an event to the log. A record with a threshold is redeemed by the shares of its token, and
-- `combine_shares_impl` unwraps with the shares that the custodians bring back.
--
-- Code outside the repository is an argument. Platform has HMAC-SHA256, SHA-256, hex, base64 and
-- chrono, with their documented behaviour in `IsLawful`; Store/Backend has the sled tree, AES-GCM
-- and serde_json, with theirs in `IsBackend`; `EventJson` is serde_json on events; and `IsCurve`
-- says that the curve is a group over its field of scalars. The crypto service, which seals, opens,
-- signs and verifies, is behind the interface `CryptoService` of Broker/Services, which assumes
-- nothing of it: it stands for the answers that the service's calls give in one run of a handler.
-- What the service keeps between runs is not modelled, so no theorem relates what one run encrypts
-- or signs with what another decrypts or verifies. Cryptographic hardness is no hypothesis: the
-- theorems say that a forgery exhibits a collision.
--
-- Numbers: times are nanoseconds from the least time of chrono, on ℕ; 16-, 32- and 64-bit fields
-- have their wrap-around or saturation written out. All loops are structural, so no fuel is needed
-- but in `decimal`, whose twenty digits hold every 64-bit number. Strings are lists of bytes.
--
-- A wrap whose expiry chrono cannot hold ends the source's task with a panic, which is the answer
-- `none` of the model.
--
-- Not modelled: start-up, sockets, TLS, Postgres, the calls of the cryptographic primitives, the
-- gRPC layer and the client, which are input and output; and the handlers that mint a key, mint a
-- discharge or rotate a secret, and the crypto engine's key life cycle.
pub mod Base
pub mod Text
pub mod Platform
pub mod Macaroon
pub mod Transparency
pub mod Store
pub mod Threshold
pub mod Broker
pub mod Tests
