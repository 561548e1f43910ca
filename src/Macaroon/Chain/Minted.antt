-- ===== src/Macaroon/Chain/Minted.antt =====
-- A minted macaroon verifies where each of its caveats passes its test.
use secret_broker.Base.{◌≡◌, refl, Bytes, List, [], ◌∷◌, map, some, All, bytes_eq_refl}
use secret_broker.Base.Result.{ok}
use secret_broker.Platform.{Platform, IsLawful}
use secret_broker.Macaroon.Types.{Caveat, CaveatVerifier}
use secret_broker.Macaroon.Caveat.{encode}
use secret_broker.Macaroon.Caveat.RoundTrip.{IsEncodable, parse-encode}
use secret_broker.Macaroon.Verifier.{check}
use secret_broker.Macaroon.Chain.{mint, chain, signatures, check_all, verify}

-- The caveat can be written, and the request passes its test whatever the chain's value.
abbrev pub Passes : Platform → CaveatVerifier → Caveat → Type 0
Passes p v c = IsEncodable p c × ((sig : Bytes) → check p v c (some sig) ≡ ok tt)

module _ (p : Platform) (v : CaveatVerifier) (w : IsLawful p) where
  check_all-Passes :
      (sig : Bytes) (cs : List Caveat)
      → All (Passes p v) cs
      → check_all p v (map (encode p) cs) (signatures p sig (map (encode p) cs)) ≡ ok tt
  unfolding check_all signatures
  check_all-Passes sig [] passes = refl
  check_all-Passes sig (c ∷ cs) ((encodable, passes), rest) =
      rw (parse-encode p c w encodable, passes (p.hmac sig (encode p c)))
        (check_all-Passes (p.hmac sig (encode p c)) cs rest)

  -- A minted macaroon whose caveats can be written, and whose tests the request passes, verifies.
  pub verify-mint :
      (root_key identifier : Bytes) (cs : List Caveat)
      → All (Passes p v) cs
      → verify p (mint p root_key identifier cs) root_key v ≡ ok tt
  unfolding verify mint
  verify-mint root_key identifier cs passes =
      rw (bytes_eq_refl (chain p (p.hmac root_key identifier) (map (encode p) cs)))
        (check_all-Passes (p.hmac root_key identifier) cs passes)
