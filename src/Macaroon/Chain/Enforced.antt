-- ===== src/Macaroon/Chain/Enforced.antt =====
-- Every caveat that a verified macaroon carries has been tested.
use mathlib.Core.List.{Memᴰ}
use secret_broker.Base.{
  ◌≡◌, ap, Bytes, List, [], ◌∷◌, ◌++◌, some, arith, bytes_eq, Bool-cases, inl, inr, ℕ, ◌≤◌,
}
use secret_broker.Base.Result.{ok, >>=-eq-ok}
use secret_broker.Platform.{Platform, IsLawful}
use secret_broker.Macaroon.Types.{Macaroon, Caveat, CaveatVerifier, expires}
use secret_broker.Macaroon.Caveat.{encode, parse}
use secret_broker.Macaroon.Caveat.RoundTrip.{IsEncodable, parse-encode}
use secret_broker.Macaroon.Verifier.{check}
use secret_broker.Macaroon.Chain.{signatures, check_all, verify, chain}

module _ (p : Platform) (v : CaveatVerifier) (c : Caveat) (w : IsLawful p)
    (h : IsEncodable p c) where
  -- The caveat stands in the list, and passed its test with the signature of the chain up to it.
  abbrev Tested : Bytes → List Bytes → Type 0
  Tested sig cs =
      (before : List Bytes) × (after : List Bytes) × (cs ≡ before ++ encode p c ∷ after)
      × (check p v c (some (chain p sig (before ++ encode p c ∷ []))) ≡ ok tt)

  check_all-enforces :
      (sig : Bytes) (cs : List Bytes)
      → Memᴰ (encode p c) cs
      → check_all p v cs (signatures p sig cs) ≡ ok tt
      → Tested sig cs
  unfolding check_all signatures chain
  check_all-enforces sig [] m e = elim m [ ]
  check_all-enforces sig (x ∷ cs) (Memᴰ.head same) e =
      let (caveat, parsed, rest) = >>=-eq-ok (parse p x) _ e in
      let (_, tested, _) = >>=-eq-ok (check p v caveat (some (p.hmac sig x))) _ rest in
      ([], cs, cc, ground (arith, parse-encode p c w h))
  check_all-enforces sig (x ∷ cs) (Memᴰ.tail m) e =
      let (caveat, parsed, rest) = >>=-eq-ok (parse p x) _ e in
      let (_, tested, more) = >>=-eq-ok (check p v caveat (some (p.hmac sig x))) _ rest in
      let (before, after, split, passed) = check_all-enforces (p.hmac sig x) cs m more in
      (x ∷ before, after, ap (λ ys. x ∷ ys) split, passed)

  -- If a macaroon verifies and the encoding of an encodable caveat is among its caveats, that
  -- caveat passed its test in the context of the request, with the signature of the chain up to a
  -- place where it stands.
  pub verify-enforces :
      (m : Macaroon) (root_key : Bytes)
      → Memᴰ (encode p c) m.caveats
      → verify p m root_key v ≡ ok tt
      → (before : List Bytes) × (after : List Bytes) × (m.caveats ≡ before ++ encode p c ∷ after)
        × (check p v c (some (chain p (p.hmac root_key m.identifier) (before ++ encode p c ∷ [])))
            ≡ ok tt)
  unfolding verify
  verify-enforces m root_key i e =
      let start = p.hmac root_key m.identifier in
      elim (Bool-cases (bytes_eq (chain p start m.caveats) m.signature)) [
        | inl good ↦ check_all-enforces start m.caveats i (rw good at e)
        | inr bad ↦ absurd (ground arith)
      ]

-- A macaroon with an expiry caveat, for a time that RFC 3339 can write, verifies at no later time.
pub verify-expires :
    (p : Platform) (m : Macaroon) (root_key : Bytes) (v : CaveatVerifier) (deadline : ℕ)
    → IsLawful p
    → IsEncodable p (expires deadline)
    → Memᴰ (encode p (expires deadline)) m.caveats
    → verify p m root_key v ≡ ok tt
    → v.now ≤ deadline
unfolding check
verify-expires p m root_key v deadline w h i e =
    let (_, _, _, tested) = verify-enforces p v (expires deadline) w h m root_key i e in
    ground arith
