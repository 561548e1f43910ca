-- ===== src/Macaroon/Chain/Attenuation.antt =====
-- Minting and attenuation: what the signature chain lets a holder do.
use secret_broker.Base.{
  ◌≡◌, refl, sym, ap, ◌∙◌, Bytes, List, [], ◌∷◌, ◌++◌, map, some, arith, bytes_eq_iff,
  bytes_eq_refl,
}
use mathlib.Core.List.{map-append}
use secret_broker.Base.Result.{Result, ok, bind_assoc, bind_unit, ◌>>=◌, ◌>>◌}
use secret_broker.Platform.{Platform, IsLawful}
use secret_broker.Macaroon.Types.{MacaroonError, Macaroon, Caveat, CaveatVerifier}
use secret_broker.Macaroon.Caveat.{encode, parse}
use secret_broker.Macaroon.Caveat.RoundTrip.{IsEncodable, parse-encode}
use secret_broker.Macaroon.Verifier.{check}
use secret_broker.Macaroon.Chain.{
  chain, mint, add_caveat, verify_signature, signatures, check_all, verify,
}

module _ (p : Platform) where
  pub chain-append :
      (sig : Bytes) (cs : List Bytes) (c : Bytes)
      → chain p sig (cs ++ c ∷ []) ≡ p.hmac (chain p sig cs) c
  unfolding chain
  chain-append sig [] c = refl
  chain-append sig (x ∷ cs) c = chain-append (p.hmac sig x) cs c

  -- Anyone can add a caveat: attenuating needs no key, and gives the macaroon that the broker would
  -- have minted with the longer list of caveats.
  pub add_caveat-mint :
      (root_key identifier : Bytes) (cs : List Caveat) (c : Caveat)
      → add_caveat p (mint p root_key identifier cs) c ≡ mint p root_key identifier (cs ++ c ∷ [])
  unfolding add_caveat mint
  add_caveat-mint root_key identifier cs c = rw (
    map-append (encode p) cs (c ∷ []),
    chain-append (p.hmac root_key identifier) (map (encode p) cs) (encode p c),
  )

  pub verify_signature-eq-ok :
      (m : Macaroon) (root_key : Bytes)
      → verify_signature p m root_key ≡ ok tt
      → chain p (p.hmac root_key m.identifier) m.caveats ≡ m.signature
  unfolding verify_signature
  verify_signature-eq-ok m root_key h =
      ground (arith, bytes_eq_iff (chain p (p.hmac root_key m.identifier) m.caveats) m.signature)

  -- What the broker mints has an authentic signature.
  pub verify_signature-mint :
      (root_key identifier : Bytes) (cs : List Caveat)
      → verify_signature p (mint p root_key identifier cs) root_key ≡ ok tt
  unfolding verify_signature mint
  verify_signature-mint root_key identifier cs =
      rw (bytes_eq_refl (chain p (p.hmac root_key identifier) (map (encode p) cs)))

  abbrev check_raw : CaveatVerifier → Bytes → Bytes → Result MacaroonError (Unit {0})
  check_raw v sig raw = parse p raw >>= λ caveat. check p v caveat (some sig)

  check_all-cons :
      (v : CaveatVerifier) (raw sig : Bytes) (raws sigs : List Bytes)
      → check_all p v (raw ∷ raws) (sig ∷ sigs) ≡ (check_raw v sig raw >> check_all p v raws sigs)
  unfolding check_all
  check_all-cons v raw sig raws sigs = sym (
      bind_assoc (parse p raw) (λ caveat. check p v caveat (some sig))
        (λ _. check_all p v raws sigs))

  -- One more caveat is one more test, with the chain's value there, after all the others.
  pub check_all-append :
      (v : CaveatVerifier) (sig : Bytes) (cs : List Bytes) (c : Bytes)
      → check_all p v (cs ++ c ∷ []) (signatures p sig (cs ++ c ∷ []))
        ≡ (check_all p v cs (signatures p sig cs) >> check_raw v (p.hmac (chain p sig cs) c) c)
  unfolding signatures chain
  check_all-append v sig [] c =
      check_all-cons v c (p.hmac sig c) [] []
      ∙ unfold check_all in bind_unit (check_raw v (p.hmac sig c) c)
  check_all-append v sig (x ∷ cs) c =
      check_all-cons v x (p.hmac sig x) (cs ++ c ∷ []) (signatures p (p.hmac sig x) (cs ++ c ∷ []))
      ∙ ap (λ r. check_raw v (p.hmac sig x) x >> r) (check_all-append v (p.hmac sig x) cs c)
      ∙ sym (
          bind_assoc (check_raw v (p.hmac sig x) x)
            (λ _. check_all p v cs (signatures p (p.hmac sig x) cs))
            (λ _. check_raw v (p.hmac (chain p (p.hmac sig x) cs) c) c))
      ∙ ap (λ r. r >> check_raw v (p.hmac (chain p (p.hmac sig x) cs) c) c)
          (sym (check_all-cons v x (p.hmac sig x) cs (signatures p (p.hmac sig x) cs)))

  verify-eq-check_all :
      (m : Macaroon) (root_key : Bytes) (v : CaveatVerifier)
      → verify_signature p m root_key ≡ ok tt
      → verify p m root_key v
        ≡ check_all p v m.caveats (signatures p (p.hmac root_key m.identifier) m.caveats)
  unfolding verify
  verify-eq-check_all m root_key v h =
      rw (verify_signature-eq-ok m root_key h, bytes_eq_refl m.signature)

  pub verify_signature-add_caveat :
      (m : Macaroon) (root_key : Bytes) (c : Caveat)
      → verify_signature p m root_key ≡ ok tt
      → verify_signature p (add_caveat p m c) root_key ≡ ok tt
  unfolding verify_signature add_caveat
  verify_signature-add_caveat m root_key c h = rw (
    chain-append (p.hmac root_key m.identifier) m.caveats (encode p c),
    verify_signature-eq-ok m root_key h,
    bytes_eq_refl (p.hmac m.signature (encode p c)),
  )

  -- Attenuation is monotonic: verifying an authentic macaroon with one more caveat that can be
  -- encoded is verifying it as it was and then, if that succeeds, testing the new caveat, bound to
  -- the new signature.
  pub verify-add_caveat :
      (m : Macaroon) (root_key : Bytes) (v : CaveatVerifier) (c : Caveat)
      → IsLawful p
      → IsEncodable p c
      → verify_signature p m root_key ≡ ok tt
      → verify p (add_caveat p m c) root_key v
        ≡ (verify p m root_key v >> check p v c (some (add_caveat p m c).signature))
  unfolding add_caveat
  verify-add_caveat m root_key v c w e h =
      verify-eq-check_all (add_caveat p m c) root_key v (verify_signature-add_caveat m root_key c h)
      ∙ check_all-append v (p.hmac root_key m.identifier) m.caveats (encode p c)
      ∙ rw (
        verify-eq-check_all m root_key v h,
        parse-encode p c w e,
        verify_signature-eq-ok m root_key h,
      )
