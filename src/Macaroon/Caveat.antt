-- ===== src/Macaroon/Caveat.antt =====
-- `Caveat::encode` and `Caveat::parse`.
pub mod RoundTrip
use secret_broker.Base.{Bytes, ◌||◌, [], ◌∷◌, ◌++◌, bytes_eq, ◌==◌, if◌then◌else◌}
use secret_broker.Base.Result.{Result, ok, err, ◌>>=◌, ok_or}
use secret_broker.Text.{
  lit, strip_prefix, split_once, contains, is_empty, parse_u32, decimal, utf8_valid,
}
use secret_broker.Platform.{Platform}
use secret_broker.Macaroon.Types.{
  MacaroonError, invalid_format, caveat_failed, unknown_caveat, Caveat, tenant_id, provider,
  expires, circuit_id, node_id, action, max_uses, third_party,
}

unfoldable pub encode : Platform → Caveat → Bytes
encode p (tenant_id v) = lit "tenant_id = " ++ v
encode p (provider v) = lit "provider = " ++ v
encode p (expires v) = lit "expires = " ++ p.to_rfc3339 v
encode p (circuit_id v) = lit "circuit_id = " ++ v
encode p (node_id v) = lit "node_id = " ++ v
encode p (action v) = lit "action = " ++ v
encode p max_uses = lit "max_uses = 1"
encode p (third_party location key_id) =
    lit "3p = v3:" ++ (p.url_encode location ++ (b':' ∷ p.url_encode key_id))

-- `String::from_utf8(URL_SAFE_NO_PAD.decode(..)?)?`
decode_text : Platform → Bytes → Result MacaroonError Bytes
decode_text p s = do
  bytes ← ok_or (p.url_decode s) invalid_format
  if utf8_valid bytes then ok bytes else err invalid_format

-- the arm for "max_uses"
parse_max_uses : Bytes → Result MacaroonError Caveat
parse_max_uses value = do
  n ← ok_or (parse_u32 value) invalid_format
  if n == 1
      then ok max_uses
      else err (caveat_failed (lit "max_uses only supports value 1, got " ++ decimal n))

abbrev checked : Bytes × Bytes → Result MacaroonError (Bytes × Bytes)
checked (location, key_id) =
    if contains b':' key_id then err invalid_format else ok (location, key_id)

-- the arm for "3p"
parse_third_party : Platform → Bytes → Result MacaroonError Caveat
unfolding decode_text
parse_third_party p value = do
  encoded ← ok_or (strip_prefix (lit "v3:") value) invalid_format
  parts ← ok_or (split_once (b':' ∷ []) encoded) invalid_format
  halves ← checked parts
  location ← decode_text p halves.0
  key_id ← decode_text p halves.1
  if is_empty location || is_empty key_id
      then err invalid_format
      else ok (third_party location key_id)

abbrev parse_expires : Platform → Bytes → Result MacaroonError Caveat
parse_expires p value = do t ← ok_or (p.parse_rfc3339 value) invalid_format; ok (expires t)

-- the `match key`
parse_pair : Platform → Bytes × Bytes → Result MacaroonError Caveat
unfolding parse_max_uses parse_third_party
parse_pair p (key, value) =
    if bytes_eq key (lit "tenant_id")
    then ok (tenant_id value)
    else if bytes_eq key (lit "provider")
    then ok (provider value)
    else if bytes_eq key (lit "expires")
    then parse_expires p value
    else if bytes_eq key (lit "circuit_id")
    then ok (circuit_id value)
    else if bytes_eq key (lit "node_id")
    then ok (node_id value)
    else if bytes_eq key (lit "action")
    then ok (action value)
    else if bytes_eq key (lit "max_uses")
    then parse_max_uses value
    else if bytes_eq key (lit "3p")
    then parse_third_party p value
    else err (unknown_caveat key)

unfoldable pub parse : Platform → Bytes → Result MacaroonError Caveat
unfolding parse_pair
parse p s = do pair ← ok_or (split_once (lit " = ") s) invalid_format; parse_pair p pair
