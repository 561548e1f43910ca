-- ===== src/Broker/Unwrap/AtMostOnce.antt =====
-- A redeem token pays for one unwrap.
use secret_broker.Base.{◌≡◌, refl, sym, ap, ◌∙◌, subst, arith, ℕ, Bytes, false, Option, none, some}
use secret_broker.Base.Result.{Result, ok, err, >>=-eq-ok}
use secret_broker.Platform.{Platform, IsLawful}
use secret_broker.Macaroon.Types.{Macaroon}
use secret_broker.Transparency.Logger.{EventJson}
use secret_broker.Store.Record.{StoredEnvelopeRecord}
use secret_broker.Store.Backend.{Backend, IsBackend}
use secret_broker.Store.Ops.{
  StoreError, touch, used, unseal, write_record, load, load_value, mark_redeem_used,
}
use secret_broker.Store.Spec.{RecordMap, put, put_same}
use secret_broker.Store.Refinement.{Stored, Represents}
use secret_broker.Store.Effects.{load-eq, mark_redeem_used-eq}
use secret_broker.Store.Spent.{Spent}
use secret_broker.Store.Evolution.{Evolves, Evolves-Spent}
use secret_broker.Broker.Context.{ServiceError, BrokerClientContext}
use secret_broker.Broker.State.{BrokerState, parse_handle_v2}
use secret_broker.Broker.Services.{Services}
use secret_broker.Broker.Redeem.{UnwrapV2Request, is_renewable}
use secret_broker.Broker.Lifecycle.{Draws}
use secret_broker.Broker.Lifecycle.Effects.{Ready}
use secret_broker.Broker.Unwrap.{UnwrapResponse, unwrap_secret_v2_impl}
use secret_broker.Broker.Unwrap.Guarded.{Unwrapped, unwrap_secret_v2_impl-guarded}

abbrev macaroon_or : Macaroon → Result ServiceError Macaroon → Macaroon
macaroon_or x (ok y) = y
macaroon_or x (err e) = x

module _ {Tree : Type 0} (p : Platform) (b : Backend Tree) (t : Tree) (m : RecordMap)
    (rep : Represents p b t m) (id : Bytes) where
  abbrev outcome : ℕ → Bytes → Option Bytes → Result StoreError (Tree × Option StoredEnvelopeRecord)
  outcome at nonce o = elim o [ none ↦ ok (t, none) | some v ↦ load_value p b t id at nonce v ]

  load-Spent :
      (at : ℕ) (nonce : Bytes) (t' : Tree) (r : StoredEnvelopeRecord)
      → Spent (m id)
      → load p b t id at nonce ≡ ok (t', some r)
      → r.redeem_nonce ≡ none
  unfolding load load_value
  load-Spent at nonce t' r spent e = go (b.get t id) (m id) (rep.at_handle id) spent e
    where
      nonce_of : Result StoreError (Tree × Option StoredEnvelopeRecord) → Option Bytes
      nonce_of (ok (t, some r)) = r.redeem_nonce
      nonce_of _ = none

      record_of :
          StoredEnvelopeRecord → Result StoreError StoredEnvelopeRecord → StoredEnvelopeRecord
      record_of r (ok r') = r'
      record_of r (err e) = r

      go :
          (o : Option Bytes) (q : Option StoredEnvelopeRecord)
          → Stored p b o q
          → Spent q
          → outcome at nonce o ≡ ok (t', some r)
          → r.redeem_nonce ≡ none
      go none q st spent e = absurd (ground arith)
      go (some v) none st spent e = absurd st
      go (some v) (some q) st spent e =
          let (r₀, opened, e₁) = >>=-eq-ok (unseal p b v) _ e in
          let (t₁, wrote, e₂) = >>=-eq-ok (write_record p b t id nonce (touch at r₀)) _ e₁ in
          let same : q ≡ r₀ = ap (record_of q) (sym st ∙ opened) in
          sym (ap nonce_of e₂)
          ∙ ap (λ (r : StoredEnvelopeRecord). r.redeem_nonce) (sym same)
          ∙ spent

module _ {Tree Scalar Point : Type 0} (p : Platform) (b : Backend Tree) (j : EventJson)
    (v : Services Scalar Point) where
  -- On a record whose token is consumed no unwrap succeeds, whoever asks and with whatever token;
  -- nor does one for a handle that the store does not have.
  pub unwrap_secret_v2_impl-Spent :
      (context : BrokerClientContext) (payload : UnwrapV2Request) (d : Draws) (verified_at : ℕ)
      (s s' : BrokerState Tree) (response : UnwrapResponse) (m : RecordMap) (mac : Macaroon)
      → Represents p b s.sealed_store m
      → parse_handle_v2 p payload.handle ≡ ok mac
      → Spent (m mac.identifier)
      → ¬ (unwrap_secret_v2_impl p b j v context payload d verified_at s ≡ (ok response, s'))
  unwrap_secret_v2_impl-Spent context payload d verified_at s s' response m mac rep parsed spent h =
      let (mac', r, plaintext, parsed', _, u) =
        unwrap_secret_v2_impl-guarded p b j v context payload d verified_at s s' response h in
      let same : mac ≡ mac' = ap (macaroon_or mac) (sym parsed ∙ parsed') in
      let spent' : Spent (m mac'.identifier) =
        subst (λ (x : Macaroon). Spent (m x.identifier)) same spent in
      let unpaid =
        load-Spent p b s.sealed_store m rep mac'.identifier d.accessed_at d.nonce u.tree r spent'
          u.found in
      let nonce = u.redeemed.has_nonce in absurd (ground arith)

module _ {Tree Scalar Point : Type 0} (p : Platform) (b : Backend Tree) (j : EventJson)
    (v : Services Scalar Point) (w : IsLawful p) (bw : IsBackend b) where
  -- what the tree is after an unwrap of a record that is not renewable
  Unwrapped-Spent :
      (context : BrokerClientContext) (payload : UnwrapV2Request) (d : Draws) (verified_at : ℕ)
      (s : BrokerState Tree) (m : RecordMap) (mac : Macaroon) (held r : StoredEnvelopeRecord)
      (plaintext : Bytes) (left : Tree)
      → Ready p b s m d
      → m mac.identifier ≡ some held
      → is_renewable held ≡ false
      → Unwrapped p b v context payload d verified_at s mac r plaintext left
      → (m' : RecordMap) × Represents p b left m' × Spent (m' mac.identifier)
  Unwrapped-Spent context payload d verified_at s m mac held r plaintext left ready e once u =
      let id = mac.identifier in
      let r' = touch d.accessed_at held in
      let (t₁, loaded, rep₁) =
        load-eq p b w bw d.nonce ready.nonce_length ready.seals s.sealed_store m ready.represents id
          held e d.accessed_at in
      let (tree, record_same) = loaded_same t₁ (some r') u.tree (some r) (sym loaded ∙ u.found) in
      let same : r' ≡ r = ap (record_or r') record_same in
      let (t₂, marked, rep₂) =
        mark_redeem_used-eq p b w bw d.nonce' ready.nonce_length' ready.seals' t₁
          (put m id (some r')) rep₁ id r' (put_same m id r') in
      let consumed =
        u.consumed (subst (λ (k : StoredEnvelopeRecord). is_renewable k ≡ false) same once) in
      let left_same : t₂ ≡ left = ap (tree_or t₂) (
        sym marked
        ∙ subst (λ k. mark_redeem_used p b k id d.nonce' ≡ ok left) (sym tree) consumed) in
      (
        put (put m id (some r')) id (some (used r')),
        subst (λ k. Represents p b k (put (put m id (some r')) id (some (used r')))) left_same rep₂,
        subst Spent (sym (put_same (put m id (some r')) id (used r'))) refl,
      )
    where
      loaded_same :
          (t : Tree) (o : Option StoredEnvelopeRecord) (t' : Tree)
          (o' : Option StoredEnvelopeRecord)
          → ◌≡◌ {A = Result StoreError (Tree × Option StoredEnvelopeRecord)}
              (ok (t, o))
              (ok (t', o'))
          → (t ≡ t') × (o ≡ o')
      loaded_same t o t' o' e = (ap (λ c. (payload_of c).0) e, ap (λ c. (payload_of c).1) e)
        where
          payload_of :
              Result StoreError (Tree × Option StoredEnvelopeRecord)
              → Tree × Option StoredEnvelopeRecord
          payload_of (ok x) = x
          payload_of (err x) = (t, o)

      record_or : StoredEnvelopeRecord → Option StoredEnvelopeRecord → StoredEnvelopeRecord
      record_or x none = x
      record_or x (some y) = y

      tree_or : Tree → Result StoreError Tree → Tree
      tree_or x (ok y) = y
      tree_or x (err e) = x

  -- Where the store represents a map and accepts the nonces of the run, after a successful unwrap
  -- of a record that is not renewable no unwrap succeeds for the same identifier, whoever asks, with
  -- whatever token, at whatever time and whatever the crypto service answers, on any state whose
  -- store comes from the first one's by whole store calls, one after the other, that put no new
  -- record under that identifier. Of calls that overlap the first unwrap or each other nothing is
  -- said.
  pub unwrap_secret_v2_impl-at_most_once :
      (v' : Services Scalar Point) (context context' : BrokerClientContext)
      (payload payload' : UnwrapV2Request) (d d' : Draws) (verified_at verified_at' : ℕ)
      (s s' s₂ s₃ : BrokerState Tree) (response response' : UnwrapResponse) (m : RecordMap)
      (mac mac' : Macaroon) (r : StoredEnvelopeRecord)
      → Ready p b s m d
      → parse_handle_v2 p payload.handle ≡ ok mac
      → m mac.identifier ≡ some r
      → is_renewable r ≡ false
      → unwrap_secret_v2_impl p b j v context payload d verified_at s ≡ (ok response, s')
      → Evolves p b mac.identifier s'.sealed_store s₂.sealed_store
      → parse_handle_v2 p payload'.handle ≡ ok mac'
      → mac'.identifier ≡ mac.identifier
      → ¬ (unwrap_secret_v2_impl p b j v' context' payload' d' verified_at' s₂ ≡ (ok response', s₃))
  unwrap_secret_v2_impl-at_most_once v' context context' payload payload' d d' verified_at
        verified_at' s s' s₂ s₃ response response' m mac mac' r ready parsed e once h later parsed'
        same_id =
      let (mac₁, r₁, plaintext, parsed₁, _, u) =
        unwrap_secret_v2_impl-guarded p b j v context payload d verified_at s s' response h in
      let same : mac ≡ mac₁ = ap (macaroon_or mac) (sym parsed ∙ parsed₁) in
      let (m', rep', spent) =
        Unwrapped-Spent context payload d verified_at s m mac r r₁ plaintext s'.sealed_store ready e
          once
          (subst
            (λ k. Unwrapped p b v context payload d verified_at s k r₁ plaintext s'.sealed_store)
            (sym same) u) in
      let (m₂, rep₂, spent₂) =
        Evolves-Spent p b w bw mac.identifier s'.sealed_store s₂.sealed_store m' rep' spent later in
      unwrap_secret_v2_impl-Spent p b j v' context' payload' d' verified_at' s₂ s₃ response' m₂ mac'
        rep₂ parsed' (subst (λ i. Spent (m₂ i)) (sym same_id) spent₂)
