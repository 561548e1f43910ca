-- ===== src/Broker/Unwrap/Effects.antt =====
-- What an unwrap does, on a store that represents a map of records.
use secret_broker.Base.{
  true, none, some, ◌≡◌, refl, ◌∙◌, ℕ, Bytes, some, inl, inr, Bool-cases, if◌then◌else◌,
}
use secret_broker.Base.Result.{ok}
use secret_broker.Platform.{Platform, IsLawful}
use secret_broker.Macaroon.Types.{Macaroon}
use secret_broker.Transparency.Logger.{EventJson}
use secret_broker.Store.Record.{StoredEnvelopeRecord}
use secret_broker.Store.Backend.{Backend, IsBackend}
use secret_broker.Store.Ops.{touch, used}
use secret_broker.Store.Spec.{RecordMap, put, put_same}
use secret_broker.Store.Refinement.{Represents}
use secret_broker.Store.Effects.{mark_redeem_used-eq}
use secret_broker.Broker.Context.{BrokerClientContext}
use secret_broker.Broker.State.{
  BrokerState, parse_handle_v2, record_transparency, macaroon_root_key, compute_redeem_token,
}
use secret_broker.Broker.Services.{Services}
use secret_broker.Broker.Redeem.{
  UnwrapV2Request, is_renewable, verify_handle, may_unwrap, verify_envelope, redeem, open_envelope,
}
use secret_broker.Broker.Lifecycle.{Draws}
use secret_broker.Broker.Lifecycle.Effects.{Ready, load_record-eq}
use secret_broker.Broker.Unwrap.{consume, unwrap_loaded, unwrap_secret_v2_impl, unwrapped_event}

abbrev after_unwrap : RecordMap → Bytes → StoredEnvelopeRecord → RecordMap
after_unwrap m id r = if is_renewable r then m else put m id (some (used r))

module _ {Tree : Type 0} (p : Platform) (b : Backend Tree) (w : IsLawful p) (bw : IsBackend b) where
  consume-eq :
      (id : Bytes) (d : Draws) (r : StoredEnvelopeRecord) (s : BrokerState Tree) (m : RecordMap)
      → Ready p b s m d
      → m id ≡ some r
      → (t : Tree) × (consume p b id d r s ≡ (ok tt, record s { sealed_store = t }))
        × Represents p b t (after_unwrap m id r)
  unfolding consume
  consume-eq id d r s m ready e = elim (Bool-cases (is_renewable r)) [
    | inl renewable ↦ (s.sealed_store, rw renewable refl, rw renewable ready.represents)
    | inr once ↦
        let (t, marked, rep) =
          mark_redeem_used-eq p b w bw d.nonce' ready.nonce_length' ready.seals' s.sealed_store m
            ready.represents id r e in
        (t, rw once (rw marked refl), rw once rep)
  ]

-- The request passes every check at the record, whose content is `plaintext`.
pub record Payable {Tree Scalar Point : Type 0} (p : Platform) (v : Services Scalar Point)
    (context : BrokerClientContext) (payload : UnwrapV2Request) (d : Draws) (verified_at : ℕ)
    (s : BrokerState Tree) (m : Macaroon) (r : StoredEnvelopeRecord) (plaintext : Bytes)
    : Type 0 where
  pub authentic : verify_handle p s payload m verified_at r ≡ ok tt
  pub in_force : may_unwrap p context d.now r ≡ ok tt
  pub signed : verify_envelope p v r ≡ ok tt
  pub redeemed : redeem p v s m.identifier context.exporter d.now payload.redeem_token r ≡ ok tt
  pub opened : open_envelope p v context.exporter r ≡ ok plaintext

module _ {Tree Scalar Point : Type 0} (p : Platform) (b : Backend Tree) (j : EventJson)
    (v : Services Scalar Point) (w : IsLawful p) (bw : IsBackend b)
    (context : BrokerClientContext) where
  unwrap_loaded-eq :
      (payload : UnwrapV2Request) (d : Draws) (verified_at : ℕ) (s : BrokerState Tree)
      (m : RecordMap) (mac : Macaroon) (r : StoredEnvelopeRecord) (plaintext : Bytes)
      → Ready p b s m d
      → m mac.identifier ≡ some r
      → Payable p v context payload d verified_at s mac r plaintext
      → (s' : BrokerState Tree) × (unwrap_loaded p b j v context payload d verified_at mac r s
          ≡ (ok (record { plaintext = p.b64_encode plaintext }), s'))
        × Represents p b s'.sealed_store (after_unwrap m mac.identifier r)
  unfolding unwrap_loaded record_transparency
  unwrap_loaded-eq payload d verified_at s m mac r plaintext ready e payable =
      let (t, consumed, rep) = consume-eq p b w bw mac.identifier d r s m ready e in
      let event = unwrapped_event p context payload.handle d.recorded_at r in
      (
        record_transparency {Tree = Tree} p j event (record s { sealed_store = t }),
        rw (payable.authentic, payable.in_force, payable.signed, payable.redeemed, payable.opened)
            (rw consumed refl),
        rep,
      )

  -- Where the store represents a map and accepts the nonces of the run, an unwrap with a
  -- well-formed handle for a record that the map holds, and that passes every check, succeeds with
  -- the content in base64; the store then represents the map with the record's access time updated
  -- and, unless the record is renewable, its redeem token marked as used and the nonce and binding
  -- of the token cleared.
  pub unwrap_secret_v2_impl-succeeds :
      (payload : UnwrapV2Request) (d : Draws) (verified_at : ℕ) (s : BrokerState Tree)
      (m : RecordMap) (mac : Macaroon) (r : StoredEnvelopeRecord) (plaintext : Bytes)
      → Ready p b s m d
      → parse_handle_v2 p payload.handle ≡ ok mac
      → m mac.identifier ≡ some r
      → Payable p v context payload d verified_at s mac (touch d.accessed_at r) plaintext
      → let id = mac.identifier in
        let r' = touch d.accessed_at r in
        let consumed : StoredEnvelopeRecord = record r {
          last_accessed = some d.accessed_at;
          redeem_used = true;
          redeem_nonce = none;
          redeem_binding = none;
        } in
        (s' : BrokerState Tree) × (unwrap_secret_v2_impl p b j v context payload d verified_at s
          ≡ (ok (record { plaintext = p.b64_encode plaintext }), s'))
        × Represents p b s'.sealed_store (
            if is_renewable r
            then put m id (some r')
            else put (put m id (some r')) id (some consumed))
  unfolding unwrap_secret_v2_impl verify_handle macaroon_root_key redeem compute_redeem_token
  unwrap_secret_v2_impl-succeeds payload d verified_at s m mac r plaintext ready parsed e payable =
      let r' = touch d.accessed_at r in
      let id = mac.identifier in
      let (t, loaded, rep) =
        load_record-eq p b j w bw context (unwrap_loaded p b j v context payload d verified_at mac)
          id d s m r ready e in
      let (s', unwrapped, rep') =
        unwrap_loaded-eq payload d verified_at (record s { sealed_store = t }) (put m id (some r'))
          mac r' plaintext
          (record {
            represents = rep;
            nonce_length = ready.nonce_length;
            nonce_length' = ready.nonce_length';
            seals = ready.seals;
            seals' = ready.seals';
          })
          (put_same m id r')
          (record {
            authentic = payable.authentic;
            in_force = payable.in_force;
            signed = payable.signed;
            redeemed = payable.redeemed;
            opened = payable.opened;
          }) in
      (s', rw parsed (loaded ∙ unwrapped), rep')
