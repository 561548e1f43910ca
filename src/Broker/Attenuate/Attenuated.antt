-- ===== src/Broker/Attenuate/Attenuated.antt =====
-- The handle that an attenuation gives out.
use secret_broker.Base.{
  ◌≡◌, refl, sym, ap, ◌∙◌, Bytes, true, not, some, List, [], ◌∷◌, ◌++◌, map, length, ◌==◌,
}
use secret_broker.Base.Result.{Result, ok, err, map_err, guard, guard-true}
use secret_broker.Text.{lit}
use secret_broker.Platform.{Platform}
use secret_broker.Macaroon.Types.{Macaroon, Caveat}
use secret_broker.Macaroon.Caveat.{encode}
use secret_broker.Macaroon.Chain.{add_caveat, verify_signature}
use secret_broker.Macaroon.Chain.Attenuation.{verify_signature-add_caveat}
use secret_broker.Macaroon.Wire.{serialize}
use secret_broker.Transparency.Logger.{EventJson}
use secret_broker.Store.Record.{StoredEnvelopeRecord}
use secret_broker.Store.Backend.{Backend}
use secret_broker.Store.Ops.{load}
use secret_broker.Broker.Context.{
  ServiceError, invalid_handle, invalid_attenuation, BrokerClientContext,
}
use secret_broker.Broker.Identity.{validate_v2_record_identity_requirements}
use secret_broker.Broker.State.{BrokerState, parse_handle_v2, macaroon_root_key}
use secret_broker.Broker.Action.{lift-eq-ok, continue-eq-ok}
use secret_broker.Broker.Lifecycle.{Draws}
use secret_broker.Broker.Lifecycle.Guarded.{load_record-eq-ok}
use secret_broker.Broker.NewCaveats.{
  AttenuateV2Request, AttenuateV2Response, KeyDraws, Added, added_caveats, check_max_uses,
  add_caveats, third_party_entry,
}
use secret_broker.Broker.Attenuate.{append_key, attenuate_handle_v2_impl}

-- `to` is `from` with the caveats `added` at its end, under a signature that the root key verifies.
pub record Extends (p : Platform) (root_key : Bytes) (from to : Macaroon) (added : List Caveat)
    : Type 0 where
  pub same_identifier : to.identifier ≡ from.identifier
  pub more_caveats : to.caveats ≡ from.caveats ++ map (encode p) added
  pub verified : verify_signature p to root_key ≡ ok tt

module _ (p : Platform) where
  append_cons :
      (xs : List Bytes) (y : Bytes) (ys : List Bytes) → (xs ++ y ∷ []) ++ ys ≡ xs ++ y ∷ ys
  append_cons [] y ys = refl
  append_cons (x ∷ xs) y ys = ap (λ zs. x ∷ zs) (append_cons xs y ys)

  append_nil : (xs : List Bytes) → xs ≡ xs ++ []
  append_nil [] = refl
  append_nil (x ∷ xs) = ap (λ zs. x ∷ zs) (append_nil xs)

  add_caveats-Extends :
      (root_key : Bytes) (m : Macaroon) (cs : List Caveat)
      → verify_signature p m root_key ≡ ok tt
      → Extends p root_key m (add_caveats p m cs) cs
  unfolding add_caveats add_caveat
  add_caveats-Extends root_key m [] h = record {
    same_identifier = refl;
    more_caveats = append_nil m.caveats;
    verified = h;
  }
  add_caveats-Extends root_key m (c ∷ cs) h =
      let rest =
        add_caveats-Extends root_key (add_caveat p m c) cs
          (verify_signature-add_caveat p m root_key c h) in
      record {
        same_identifier = rest.same_identifier;
        more_caveats = rest.more_caveats ∙ append_cons m.caveats (encode p c) (map (encode p) cs);
        verified = rest.verified;
      }

map_err-ok : {E F A : Type 0} (f : E → F) (r : Result E A) {a : A} → map_err f r ≡ ok a → r ≡ ok a
map_err-ok f (ok x) e = cc
map_err-ok f (err x) e = cc

-- An attenuation of a handle that led to `mac`, giving out the handle `given`.
pub record Attenuated {Tree : Type 0} (p : Platform) (b : Backend Tree)
    (context : BrokerClientContext) (handle : Bytes) (d : Draws) (s : BrokerState Tree)
    (given : Bytes) : Type 0 where
  pub mac : Macaroon
  pub parsed : parse_handle_v2 p handle ≡ ok mac
  pub authentic : verify_signature p mac (macaroon_root_key p s mac.identifier) ≡ ok tt
  pub tree : Tree
  pub r : StoredEnvelopeRecord
  pub found : load p b s.sealed_store mac.identifier d.accessed_at d.nonce ≡ ok (tree, some r)
  pub open_to : validate_v2_record_identity_requirements p r context ≡ ok tt
  pub added : List Added
  pub any_added : not (length added == 0) ≡ true
  pub attenuated : Macaroon
  pub extends :
      Extends p
        (macaroon_root_key p s mac.identifier)
        mac
        attenuated
        (map (λ (a : Added). a.1) added)
  pub is_given : given ≡ lit "broker:v2:" ++ serialize p attenuated

-- A handle that attenuate_handle_v2_impl gives out is that of a macaroon with the identifier of the
-- given handle's and its caveats with at least one more behind them, whose signature the same root
-- key verifies; and the given handle was authentic and its record open to the caller.
pub attenuate_handle_v2_impl-Attenuated :
    {Tree : Type 0} (p : Platform) (b : Backend Tree) (j : EventJson)
    (context : BrokerClientContext) (payload : AttenuateV2Request) (d : Draws) (k : KeyDraws)
    (s s' : BrokerState Tree) (answer : AttenuateV2Response)
    → attenuate_handle_v2_impl p b j context payload d k s ≡ (ok answer, s')
    → Attenuated p b context payload.handle d s answer.handle
unfolding attenuate_handle_v2_impl
attenuate_handle_v2_impl-Attenuated p b j context payload d k s s' answer h =
    let (mac, parsed, h₁) = lift-eq-ok _ s (parse_handle_v2 p payload.handle) h in
    let root_key = macaroon_root_key p s mac.identifier in
    let (_, signed, h₂) =
      lift-eq-ok _ s (map_err (λ _. invalid_handle) (verify_signature p mac root_key)) h₁ in
    let (t, r, found, h₃) = load_record-eq-ok p b j context mac.identifier d s s' _ answer h₂ in
    let s₁ = record s { sealed_store = t } in
    let (_, open_to, h₄) =
      lift-eq-ok _ s₁ (validate_v2_record_identity_requirements p r context) h₃ in
    let (_, _, h₅) = lift-eq-ok _ s₁ (check_max_uses payload.max_uses) h₄ in
    let (entry, _, h₆) = lift-eq-ok _ s₁ (third_party_entry p payload.third_party k) h₅ in
    let (_, s₂, _, h₇) = continue-eq-ok _ (append_key p b j context mac.identifier d entry s₁) h₆ in
    let added = added_caveats payload entry in
    let (_, any_added, h₈) =
      lift-eq-ok _ s₂
        (guard (not (length added == 0))
          (invalid_attenuation (lit "at least one caveat is required")))
        h₇ in
    let authentic = map_err-ok _ (verify_signature p mac root_key) signed in
    record {
      mac = mac;
      parsed = parsed;
      authentic = authentic;
      tree = t;
      r = r;
      found = found;
      open_to = open_to;
      added = added;
      any_added = guard-true _ _ any_added;
      attenuated = add_caveats p mac (map (λ (a : Added). a.1) added);
      extends = add_caveats-Extends p root_key mac _ authentic;
      is_given = ap (λ o. given_of o.0) (sym h₈);
    }
  where
    given_of : Result ServiceError AttenuateV2Response → Bytes
    given_of (ok response) = response.handle
    given_of (err e) = []
