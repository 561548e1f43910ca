-- ===== src/Broker/Unwrap/Guarded.antt =====
-- What a successful unwrap has checked and consumed.
use secret_broker.Base.{
  ℕ, ◌≡◌, refl, sym, ap, ◌∙◌, arith, Bytes, Bool, true, false, some, [], if◌then◌else◌,
}
use secret_broker.Base.Result.{Result, ok, err}
use secret_broker.Platform.{Platform}
use secret_broker.Macaroon.Types.{Macaroon}
use secret_broker.Transparency.Logger.{EventJson}
use secret_broker.Store.Record.{StoredEnvelopeRecord}
use secret_broker.Store.Backend.{Backend}
use secret_broker.Store.Ops.{StoreError, load, mark_redeem_used}
use secret_broker.Broker.Context.{ServiceError, BrokerClientContext}
use secret_broker.Broker.State.{
  BrokerState, parse_handle_v2, record_transparency, macaroon_root_key, compute_redeem_token,
}
use secret_broker.Broker.Services.{Services}
use secret_broker.Broker.Redeem.{
  UnwrapV2Request, is_renewable, verify_handle, may_unwrap, verify_envelope, redeem, open_envelope,
}
use secret_broker.Broker.Action.{Action, continue, stored, lift-eq-ok}
use secret_broker.Broker.Lifecycle.{Draws}
use secret_broker.Broker.Lifecycle.Guarded.{load_record-eq-ok}
use secret_broker.Broker.Unwrap.{
  UnwrapResponse, unit_call, consume, unwrap_loaded, unwrap_secret_v2_impl,
}
use secret_broker.Broker.Unwrap.Checks.{
  Open, Signed, Redeemed, Opened, may_unwrap-Open, verify_envelope-Signed, redeem-Redeemed,
  open_envelope-Opened,
}

-- An unwrap of `r`, the record that the handle of `m` led to, with this plaintext and this tree
-- left behind.
pub record Unwrapped {Tree Scalar Point : Type 0} (p : Platform) (b : Backend Tree)
    (v : Services Scalar Point) (context : BrokerClientContext) (payload : UnwrapV2Request)
    (d : Draws) (verified_at : ℕ) (s : BrokerState Tree) (m : Macaroon) (r : StoredEnvelopeRecord)
    (plaintext : Bytes) (left : Tree) : Type 0 where
  pub tree : Tree
  pub found : load p b s.sealed_store m.identifier d.accessed_at d.nonce ≡ ok (tree, some r)
  pub authentic : verify_handle p s payload m verified_at r ≡ ok tt
  pub in_force : Open p context d.now r
  pub signed : Signed p v r
  pub redeemed : Redeemed p v s m.identifier context.exporter d.now payload.redeem_token r
  pub opened : Opened p v context.exporter r plaintext
  pub kept : is_renewable r ≡ true → left ≡ tree
  pub consumed : is_renewable r ≡ false → mark_redeem_used p b tree m.identifier d.nonce' ≡ ok left

module _ {Tree : Type 0} (p : Platform) (b : Backend Tree) where
  consume-eq-ok :
      {B : Type 0} (id : Bytes) (d : Draws) (r : StoredEnvelopeRecord) (s s' : BrokerState Tree)
      (next : Unit {0} → Action Tree B) (answer : B)
      → continue (consume p b id d r s) next ≡ (ok answer, s')
      → (t : Tree) × (is_renewable r ≡ true → t ≡ s.sealed_store)
        × (is_renewable r ≡ false → mark_redeem_used p b s.sealed_store id d.nonce' ≡ ok t)
        × (next tt (record s { sealed_store = t }) ≡ (ok answer, s'))
  unfolding consume
  consume-eq-ok {B = B} id d r s s' next answer h =
      go (is_renewable r) (mark_redeem_used p b s.sealed_store id d.nonce') h
    where
      go :
          (x : Bool) (c : Result StoreError Tree)
          → continue (if x then (ok tt, s) else stored s (unit_call p b c)) next ≡ (ok answer, s')
          → (t : Tree) × (x ≡ true → t ≡ s.sealed_store)
            × (x ≡ false → c ≡ ok t)
            × (next tt (record s { sealed_store = t }) ≡ (ok answer, s'))
      go true c e = (s.sealed_store, (λ _. refl), (λ f. absurd (ground arith)), e)
      go false (ok t) e = (t, (λ f. absurd (ground arith)), (λ _. refl), e)
      go false (err x) e = absurd (ground arith)

module _ {Tree Scalar Point : Type 0} (p : Platform) (b : Backend Tree) (j : EventJson)
    (v : Services Scalar Point) (context : BrokerClientContext) where
  abbrev answered : Result ServiceError UnwrapResponse × BrokerState Tree → Bytes
  answered (ok response, s) = response.plaintext
  answered (err e, s) = []

  abbrev stored_tree : {A : Type 0} → Result ServiceError A × BrokerState Tree → Tree
  stored_tree o = o.1.sealed_store

  -- An unwrap that succeeds was asked with a well-formed handle whose macaroon passes the
  -- verification at the record that the store has for it; the record is in force and open to the
  -- caller, its envelope's signature is good, and the token given is the one that the record's
  -- nonce, the caller's transport and the handle determine, not consumed before unless the record
  -- is renewable, and in time; the answer is the base64 of what the envelope decrypts to, and the
  -- token is then consumed unless the record is renewable.
  pub unwrap_secret_v2_impl-guarded :
      (payload : UnwrapV2Request) (d : Draws) (verified_at : ℕ) (s s' : BrokerState Tree)
      (response : UnwrapResponse)
      → unwrap_secret_v2_impl p b j v context payload d verified_at s ≡ (ok response, s')
      → (m : Macaroon) × (r : StoredEnvelopeRecord) × (plaintext : Bytes) × (parse_handle_v2 p
            payload.handle
          ≡ ok m)
        × (response.plaintext ≡ p.b64_encode plaintext)
        × Unwrapped p b v context payload d verified_at s m r plaintext s'.sealed_store
  unfolding unwrap_secret_v2_impl unwrap_loaded record_transparency verify_handle macaroon_root_key
      redeem compute_redeem_token
  unwrap_secret_v2_impl-guarded payload d verified_at s s' response h =
      let (m, parsed, h₁) = lift-eq-ok _ s (parse_handle_v2 p payload.handle) h in
      let (t, r, found, h₂) = load_record-eq-ok p b j context m.identifier d s s' _ response h₁ in
      let s₁ : BrokerState Tree = record s { sealed_store = t } in
      let (_, authentic, h₃) = lift-eq-ok _ s₁ (verify_handle p s₁ payload m verified_at r) h₂ in
      let (_, in_force, h₄) = lift-eq-ok _ s₁ (may_unwrap p context d.now r) h₃ in
      let (_, signed, h₅) = lift-eq-ok _ s₁ (verify_envelope p v r) h₄ in
      let (_, redeemed, h₆) =
        lift-eq-ok _ s₁ (redeem p v s₁ m.identifier context.exporter d.now payload.redeem_token r)
          h₅ in
      let (plaintext, opened, h₇) = lift-eq-ok _ s₁ (open_envelope p v context.exporter r) h₆ in
      let (t', kept, consumed, h₈) = consume-eq-ok p b m.identifier d r s₁ s' _ response h₇ in
      (
        m,
        r,
        plaintext,
        parsed,
        sym (ap answered h₈),
        record {
          tree = t;
          found = found;
          authentic = authentic;
          in_force = may_unwrap-Open p context d.now r in_force;
          signed = verify_envelope-Signed p v r signed;
          redeemed =
              redeem-Redeemed p v s m.identifier context.exporter d.now payload.redeem_token r
                redeemed;
          opened = open_envelope-Opened p v context.exporter plaintext r opened;
          kept = λ e. sym (ap stored_tree h₈) ∙ kept e;
          consumed = λ e. consumed e ∙ ap ok (ap stored_tree h₈);
        },
      )
