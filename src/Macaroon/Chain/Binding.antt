-- ===== src/Macaroon/Chain/Binding.antt =====
-- The signature to which a discharge is bound is the chain's value at its caveat.
use secret_broker.Base.{
  ◌≡◌, ◌≢◌, Bytes, List, [], ◌∷◌, ◌++◌, Option, none, some, arith, bytes_eq_refl, Bool-cases, inl,
  inr,
}
use secret_broker.Base.Result.{ok, err, >>=-eq-ok}
use secret_broker.Platform.{Platform}
use secret_broker.Macaroon.Types.{Macaroon, Caveat, third_party}
use secret_broker.Macaroon.Caveat.{parse}
use secret_broker.Macaroon.Chain.{
  chain, wanted, multiple, match_caveat, binding_loop, third_party_binding_info_by_key_id,
}

match_caveat-keeps :
    (location key_id : Bytes) (caveat : Caveat) (sig a : Bytes) (r : Option Bytes)
    → match_caveat location key_id caveat sig (some a) ≡ ok r
    → r ≡ some a
unfolding match_caveat
match_caveat-keeps location key_id caveat sig a r e =
    elim (Bool-cases (wanted location key_id caveat)) [
      | inl hit ↦ absurd (ground arith)
      | inr miss ↦ ground arith
    ]

match_caveat-wanted :
    (location key_id sig : Bytes)
    → match_caveat location key_id (third_party location key_id) sig none ≡ ok (some sig)
unfolding match_caveat
match_caveat-wanted location key_id sig = rw (bytes_eq_refl location, bytes_eq_refl key_id)

match_caveat-twice :
    (location key_id sig a : Bytes)
    → match_caveat location key_id (third_party location key_id) sig (some a)
      ≡ err (multiple location)
unfolding match_caveat
match_caveat-twice location key_id sig a = rw (bytes_eq_refl location, bytes_eq_refl key_id)

module _ (p : Platform) (location key_id : Bytes) where
  loop_keeps :
      (sig a : Bytes) (r : Option Bytes) (cs : List Bytes)
      → binding_loop p location key_id sig (some a) cs ≡ ok r
      → r ≡ some a
  unfolding binding_loop
  loop_keeps sig a r [] e = ground arith
  loop_keeps sig a r (x ∷ cs) e =
      let (caveat, _, rest) = >>=-eq-ok (parse p x) _ e in
      let (m, matched, more) =
        >>=-eq-ok (match_caveat location key_id caveat (p.hmac sig x) (some a)) _ rest in
      loop_keeps (p.hmac sig x) a r cs
        (rw (match_caveat-keeps location key_id caveat (p.hmac sig x) a m matched) at more)

  module _ (raw : Bytes) (parsed : parse p raw ≡ ok (third_party location key_id)) where
    -- A second match is an error.
    loop_refuses :
        (sig a : Bytes) (r : Option Bytes) (pre post : List Bytes)
        → binding_loop p location key_id sig (some a) (pre ++ (raw ∷ post)) ≢ ok r
    unfolding binding_loop
    loop_refuses sig a r [] post e =
        ground (arith, parsed, match_caveat-twice location key_id (p.hmac sig raw) a)
    loop_refuses sig a r (x ∷ pre) post e =
        let (caveat, _, rest) = >>=-eq-ok (parse p x) _ e in
        let (m, matched, more) =
          >>=-eq-ok (match_caveat location key_id caveat (p.hmac sig x) (some a)) _ rest in
        loop_refuses (p.hmac sig x) a r pre post
          (rw (match_caveat-keeps location key_id caveat (p.hmac sig x) a m matched) at more)

    loop_position :
        (sig s : Bytes) (pre post : List Bytes)
        → binding_loop p location key_id sig none (pre ++ (raw ∷ post)) ≡ ok (some s)
        → s ≡ chain p sig (pre ++ raw ∷ [])
    unfolding binding_loop chain
    loop_position sig s [] post e =
        let e' = rw (parsed, match_caveat-wanted location key_id (p.hmac sig raw)) at e in
        cc (loop_keeps (p.hmac sig raw) (p.hmac sig raw) (some s) post e')
    loop_position sig s (x ∷ pre) post e =
        let (caveat, _, rest) = >>=-eq-ok (parse p x) _ e in
        let (m, matched, more) =
          >>=-eq-ok (match_caveat location key_id caveat (p.hmac sig x) none) _ rest in
        continue (loop_position (p.hmac sig x) s pre post) m more
      where
        continue :
            (binding_loop p location key_id (p.hmac sig x) none (pre ++ (raw ∷ post)) ≡ ok (some s)
              → s ≡ chain p (p.hmac sig x) (pre ++ raw ∷ []))
            → (m : Option Bytes)
            → binding_loop p location key_id (p.hmac sig x) m (pre ++ (raw ∷ post)) ≡ ok (some s)
            → s ≡ chain p (p.hmac sig x) (pre ++ raw ∷ [])
        continue ih none more = ih more
        continue ih (some a) more = absurd (loop_refuses (p.hmac sig x) a (some s) pre post more)

binding_info-eq-ok :
    (p : Platform) (m : Macaroon) (root_key location key_id s : Bytes)
    → third_party_binding_info_by_key_id p m root_key location key_id ≡ ok s
    → binding_loop p location key_id (p.hmac root_key m.identifier) none m.caveats ≡ ok (some s)
unfolding third_party_binding_info_by_key_id
binding_info-eq-ok p m root_key location key_id s e =
    let start = p.hmac root_key m.identifier in
    let (r, looped, found) = >>=-eq-ok (binding_loop p location key_id start none m.caveats) _ e in
    ground arith

-- The signature that a discharge is bound to is the value of the chain just after the caveat with
-- the requested location and key id, wherever among the caveats that stands.
pub third_party_binding-position :
    (p : Platform) (m : Macaroon) (root_key location key_id raw s : Bytes) (pre post : List Bytes)
    → parse p raw ≡ ok (third_party location key_id)
    → m.caveats ≡ pre ++ (raw ∷ post)
    → third_party_binding_info_by_key_id p m root_key location key_id ≡ ok s
    → s ≡ chain p (p.hmac root_key m.identifier) (pre ++ raw ∷ [])
third_party_binding-position p m root_key location key_id raw s pre post parsed split e =
    loop_position p location key_id raw parsed (p.hmac root_key m.identifier) s pre post
      (rw (← split) (binding_info-eq-ok p m root_key location key_id s e))
