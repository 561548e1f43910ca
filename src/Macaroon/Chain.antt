-- ===== src/Macaroon/Chain.antt =====
-- `Macaroon`: minting, attenuation and the signature chain.
pub mod Attenuation
pub mod Forgery
pub mod Enforced
pub mod Minted
pub mod Binding
use secret_broker.Base.{
  Bytes, List, [], ◌∷◌, ◌++◌, map, Option, none, some, ◌&&◌, bytes_eq, if◌then◌else◌, false, Bool,
}
use secret_broker.Base.Result.{Result, ok, err, ◌>>=◌, ◌>>◌, ok_or}
use secret_broker.Text.{lit}
use secret_broker.Platform.{Platform}
use secret_broker.Macaroon.Types.{
  MacaroonError, signature_invalid, caveat_failed, Caveat, third_party, Macaroon, CaveatVerifier,
}
use secret_broker.Macaroon.Caveat.{encode, parse}
use secret_broker.Macaroon.Verifier.{check}

-- the loop `for c in &caveats { sig = hmac_compute(&sig, c) }`
unfoldable pub chain : Platform → Bytes → List Bytes → Bytes
chain p sig [] = sig
chain p sig (c ∷ cs) = chain p (p.hmac sig c) cs

unfoldable pub mint : Platform → Bytes → Bytes → List Caveat → Macaroon
mint p root_key identifier caveats =
    let strings = map (encode p) caveats in
    record {
      identifier = identifier;
      caveats = strings;
      signature = chain p (p.hmac root_key identifier) strings;
    }

unfoldable pub add_caveat : Platform → Macaroon → Caveat → Macaroon
add_caveat p m caveat =
    let encoded = encode p caveat in
    record m { caveats = m.caveats ++ encoded ∷ []; signature = p.hmac m.signature encoded }

unfoldable pub verify_signature : Platform → Macaroon → Bytes → Result MacaroonError (Unit {0})
verify_signature p m root_key =
    if bytes_eq (chain p (p.hmac root_key m.identifier) m.caveats) m.signature
    then ok tt
    else err signature_invalid

-- `caveat_signatures`: the chain's value after each caveat.
unfoldable pub signatures : Platform → Bytes → List Bytes → List Bytes
signatures p sig [] = []
signatures p sig (c ∷ cs) = p.hmac sig c ∷ signatures p (p.hmac sig c) cs

-- `for (raw, primary_signature) in caveats.iter().zip(caveat_signatures.iter())`
unfoldable pub check_all :
    Platform → CaveatVerifier → List Bytes → List Bytes → Result MacaroonError (Unit {0})
check_all p v [] sigs = ok tt
check_all p v (raw ∷ raws) [] = ok tt
check_all p v (raw ∷ raws) (sig ∷ sigs) =
    let rest = check_all p v raws sigs in do caveat ← parse p raw; check p v caveat (some sig); rest

unfoldable pub verify :
    Platform → Macaroon → Bytes → CaveatVerifier → Result MacaroonError (Unit {0})
verify p m root_key v =
    let start = p.hmac root_key m.identifier in
    if bytes_eq (chain p start m.caveats) m.signature
    then check_all p v m.caveats (signatures p start m.caveats)
    else err signature_invalid

abbrev wanted : Bytes → Bytes → Caveat → Bool
wanted location key_id (third_party l k) = bytes_eq l location && bytes_eq k key_id
wanted location key_id _ = false

multiple : Bytes → MacaroonError
multiple location =
    caveat_failed
      (lit "multiple third-party caveats match " ++ (location ++ lit " with opaque key"))

missing : Bytes → MacaroonError
missing location =
    caveat_failed
      (lit "no third-party caveat for " ++ (location ++ lit " with requested opaque key"))

-- one round of the loop over the caveats: the new `matched`
match_caveat : Bytes → Bytes → Caveat → Bytes → Option Bytes → Result MacaroonError (Option Bytes)
match_caveat location key_id caveat sig matched =
    if wanted location key_id caveat
    then (elim matched [ none ↦ ok (some sig) | some _ ↦ err (multiple location) ])
    else ok matched

binding_loop :
    Platform
    → Bytes
    → Bytes
    → Bytes
    → Option Bytes
    → List Bytes
    → Result MacaroonError (Option Bytes)
binding_loop p location key_id sig matched [] = ok matched
binding_loop p location key_id sig matched (raw ∷ raws) = do
  caveat ← parse p raw
  matched' ← match_caveat location key_id caveat (p.hmac sig raw) matched
  binding_loop p location key_id (p.hmac sig raw) matched' raws

unfoldable pub third_party_binding_info_by_key_id :
    Platform → Macaroon → Bytes → Bytes → Bytes → Result MacaroonError Bytes
unfolding binding_loop match_caveat missing multiple
third_party_binding_info_by_key_id p m root_key location key_id = do
  matched ← binding_loop p location key_id (p.hmac root_key m.identifier) none m.caveats
  ok_or matched (missing location)
