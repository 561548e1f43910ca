-- ===== src/Broker/Wrap/RoundTrip.antt =====
-- What a wrap for a single use returns is good at the record that it stored.
use secret_broker.Base.{◌≡◌, sym, subst, ℕ, some, List, length}
use secret_broker.Base.Result.{ok}
use secret_broker.Text.{trim}
use secret_broker.Platform.{Platform, IsLawful}
use secret_broker.Macaroon.Types.{Macaroon, DischargeMacaroon}
use secret_broker.Macaroon.Wire.RoundTrip.{IsWritable}
use secret_broker.Transparency.Logger.{EventJson}
use secret_broker.Store.Record.{StoredEnvelopeRecord, single_use_unwrap}
use secret_broker.Store.Backend.{Backend, IsBackend}
use secret_broker.Store.Ops.{touch}
use secret_broker.Store.Spec.{RecordMap, put}
use secret_broker.Store.Refinement.{Represents, Seals}
use secret_broker.Store.Effects.{insert_with_id-Represents}
use secret_broker.Broker.Context.{BrokerClientContext, cleaned}
use secret_broker.Broker.State.{BrokerState, parse_handle_v2}
use secret_broker.Broker.Services.{Services}
use secret_broker.Broker.Persist.{WrapDraws}
use secret_broker.Broker.Wrap.{WrapV2Request, WrapSecretOutcome, wrap_handle, wrap_secret_v2_impl}
use secret_broker.Broker.Wrap.Done.{wrap-Wrapped}
use secret_broker.Broker.Wrap.Presented.{
  presented, macaroon_of, InTime, Sealed, SignedAs, Presentable,
}
use secret_broker.Broker.Wrap.Checked.{
  parsed_back, new, mac, identified, sealed, signed_as, presentable,
}

module _ {Tree Scalar Point : Type 0} (p : Platform) (b : Backend Tree) (j : EventJson)
    (v : Services Scalar Point) (w : IsLawful p) (bw : IsBackend b)
    (context : BrokerClientContext) where
  -- Where the store represents a map and accepts the nonce of the run, a wrap for a single use
  -- leaves a store that represents the map with one record put, and returns a handle for it. From
  -- the same context and with the fields of the wrap, the handle and the token pass the checks of
  -- an unwrap on the handle, the record and the token before anything expires, whenever the record
  -- is accessed. The record's envelope holds what the crypto service gave for the wrapped bytes,
  -- under the key, customer and exporter that an unwrap decrypts with, and carries the service's
  -- signature by the key whose public half is stored. The macaroon of the wrap is writable on the
  -- wire, trimming leaves the handle as it is, and trimming the caller's name twice is trimming it
  -- once.
  pub wrap-Presentable :
      (request : WrapV2Request) (d : WrapDraws) (at now verified_at : ℕ)
      (discharges : List DischargeMacaroon) (s s' : BrokerState Tree) (m : RecordMap)
      (answer : WrapSecretOutcome)
      → Represents p b s.sealed_store m
      → length d.nonce ≡ 12
      → Seals p b d.nonce
      → request.lifecycle ≡ single_use_unwrap
      → cleaned (cleaned context.principal_id) ≡ cleaned context.principal_id
      → IsWritable (macaroon_of p context s request d answer.expires_at)
      → trim answer.handle ≡ answer.handle
      → wrap_secret_v2_impl p b j v context request d s ≡ (ok (some answer), s')
      → InTime p v s request d answer verified_at now
      → (r : StoredEnvelopeRecord) × (minted : Macaroon) × Represents p b s'.sealed_store
          (put m minted.identifier (some r))
        × (parse_handle_v2 p answer.handle ≡ ok minted)
        × Presentable p v context
            (presented request answer discharges)
            now
            verified_at
            s'
            minted
            (touch at r)
        × Sealed p v d.encryption context.exporter request.plaintext (touch at r)
        × SignedAs p v d.key_pair (touch at r)
  unfolding wrap_handle
  wrap-Presentable request d at now verified_at discharges s s' m answer rep n seals single stable
        writable trimmed h time =
      let wrapped = wrap-Wrapped p b j v context request d s s' answer h in
      let r = new p b j v w context request d s s' answer wrapped in
      let minted = mac p b j v w context request d s s' answer wrapped in
      let rep' =
        insert_with_id-Represents p b w bw d.nonce s.sealed_store s'.sealed_store m d.handle_id r n
          seals rep wrapped.persisted.written in
      (
        r,
        minted,
        subst (λ id. Represents p b s'.sealed_store (put m id (some r)))
            (sym (identified p b j v w context request d s s' answer wrapped)) rep',
        parsed_back p w minted answer.handle
            (subst (λ t. IsWritable (macaroon_of p context s request d t)) wrapped.deadline
              writable)
            trimmed wrapped.handle,
        presentable p b j v w context request d s s' answer wrapped discharges at now verified_at
            single stable time,
        sealed p b j v w context request d s s' answer wrapped at,
        signed_as p b j v w context request d s s' answer wrapped at,
      )
