-- ===== src/Macaroon/Caveat/RoundTrip.antt =====
-- A caveat is read back from the string that the macaroon carries for it.
use secret_broker.Base.{◌≤◌, ◌≡◌, refl, ℕ, Bytes, true, false, some, [], ◌∷◌, ◌++◌, arith, bytes_eq}
use secret_broker.Base.Result.{ok}
use secret_broker.Text.{lit, split_once, contains, is_empty, utf8_valid, parse_u32, strip_prefix}
use secret_broker.Platform.{Platform, IsLawful}
use secret_broker.Macaroon.Types.{
  Caveat, tenant_id, provider, expires, circuit_id, node_id, action, max_uses, third_party,
}
use secret_broker.Macaroon.Caveat.{encode, parse, parse_third_party}

-- RFC 3339 has four-digit years, and the parser refuses an empty location or key id. A Rust string
-- is well-formed UTF-8.
abbrev pub IsEncodable : Platform → Caveat → Type 0
IsEncodable p (expires t) = (p.rfc_first ≤ t) × (t ≤ p.rfc_last)
IsEncodable p (third_party l k) =
    (is_empty l ≡ false) × (is_empty k ≡ false) × (utf8_valid l ≡ true) × (utf8_valid k ≡ true)
IsEncodable p _ = Unit {0}

pub split_once-append :
    (c : ℕ) (a b : Bytes) → contains c a ≡ false → split_once (c ∷ []) (a ++ (c ∷ b)) ≡ some (a, b)
unfolding split_once contains
split_once-append c [] b h = ground arith
split_once-append c (x ∷ a) b h = ground (arith, split_once-append c a b)

third_party_parts :
    (p : Platform) (l k : Bytes)
    → IsLawful p
    → IsEncodable p (third_party l k)
    → parse_third_party p (lit "v3:" ++ (p.url_encode l ++ (b':' ∷ p.url_encode k)))
      ≡ ok (third_party l k)
unfolding parse_third_party strip_prefix
third_party_parts p l k w (nonempty_l, nonempty_k, valid_l, valid_k) =
    rw (split_once-append b':' (p.url_encode l) (p.url_encode k) (w.url_no_colon l)) (
      rw (w.url_no_colon k, w.url_round_trip l, w.url_round_trip k)
        (rw (valid_l, valid_k, nonempty_l, nonempty_k)))

third_party_round_trip :
    (p : Platform) (l k : Bytes)
    → IsLawful p
    → IsEncodable p (third_party l k)
    → parse p (encode p (third_party l k)) ≡ ok (third_party l k)
unfolding parse encode split_once bytes_eq
third_party_round_trip p l k w h = third_party_parts p l k w h

-- Parsing what `encode` wrote gives the caveat back, for an expiry that RFC 3339 can write and for
-- a location and key id that are well-formed and not empty.
pub parse-encode :
    (p : Platform) (c : Caveat) → IsLawful p → IsEncodable p c → parse p (encode p c) ≡ ok c
unfolding parse encode split_once bytes_eq parse_u32
parse-encode p (tenant_id v) w h = refl
parse-encode p (provider v) w h = refl
parse-encode p (expires t) w h = rw (w.rfc_round_trip t h.0 h.1)
parse-encode p (circuit_id v) w h = refl
parse-encode p (node_id v) w h = refl
parse-encode p (action v) w h = refl
parse-encode p max_uses w h = refl
parse-encode p (third_party l k) w h = third_party_round_trip p l k w h
