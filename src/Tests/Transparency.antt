-- ===== src/Tests/Transparency.antt =====
-- The audit log's theorems at concrete logs.
use secret_broker.Base.{
  ◌≡◌, ◌≢◌, ◌⊎◌, refl, arith, true, false, none, some, [], bytes_eq, bytes_eq_iff,
}
use secret_broker.Base.Result.{err}
use secret_broker.Text.{lit, trim, is_empty, utf8_valid}
use secret_broker.Transparency.Event.{TransparencyEvent, wrap, unwrap}
use secret_broker.Transparency.Logger.{
  TransparencyLogger, new, append, verify_chain, line_hash, genesis_hash, broken,
}
use secret_broker.Transparency.Logger.Chain.{
  IsChained, HashCollision, append-IsChained, same_head, entry_line,
}
use secret_broker.Transparency.Logger.Recovery.{new-append}
use secret_broker.Transparency.Logger.Race.{overlapped, overlapped-broken}
use secret_broker.Tests.Toy.{toy, toy_json, toy_json-IsEventJson}

abbrev fresh : TransparencyLogger
fresh = record { lines = []; torn = []; sequence = 0; prev_hash = genesis_hash }

abbrev wrapped : TransparencyEvent
wrapped = wrap toy 5 (lit "h") (lit "key") (lit "acme") none

abbrev unwrapped : TransparencyEvent
unwrapped = unwrap toy 6 (lit "h") none (lit "acme") none

fresh-IsChained : IsChained toy toy_json fresh
unfolding verify_chain
fresh-IsChained = (refl, refl)

abbrev one : TransparencyLogger
one = append toy toy_json wrapped fresh

append-IsChained_example : IsChained toy toy_json (append toy toy_json wrapped fresh)
append-IsChained_example =
    append-IsChained toy toy_json wrapped fresh toy_json-IsEventJson fresh-IsChained

line_text : utf8_valid (entry_line toy_json wrapped fresh) ≡ true
unfolding utf8_valid
line_text = refl

new-append_example : new toy toy_json one.lines one.torn ≡ some one
new-append_example = new-append toy toy_json wrapped fresh toy_json-IsEventJson refl tt line_text

lines_solid : is_empty (trim (entry_line toy_json wrapped fresh)) ≡ false
lines_solid = toy_json-IsEventJson.shows (record wrapped { sequence = 0; prev_hash = genesis_hash })

same_head_example : (one.lines ≡ one.lines) ⊎ HashCollision toy
unfolding append
same_head_example =
    same_head toy toy_json one.lines one.lines (record { entries = 1; head_hash = one.prev_hash })
      (lines_solid, tt) (lines_solid, tt) refl append-IsChained_example.1 append-IsChained_example.1

-- The hash has a byte below the digit zero's code in second place.
not_genesis : genesis_hash ≢ line_hash toy (entry_line toy_json wrapped fresh)
unfolding line_hash bytes_eq
not_genesis e =
    let same : bytes_eq genesis_hash (line_hash toy (entry_line toy_json wrapped fresh)) ≡ true =
      (bytes_eq_iff genesis_hash (line_hash toy (entry_line toy_json wrapped fresh))).1 e in
    ground arith

overlapped-broken_example :
    verify_chain toy toy_json (overlapped toy toy_json wrapped unwrapped fresh).lines ≡ err broken
overlapped-broken_example =
    overlapped-broken toy toy_json toy_json-IsEventJson wrapped unwrapped fresh fresh-IsChained
      not_genesis
