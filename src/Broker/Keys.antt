-- ===== src/Broker/Keys.antt =====
-- `discharge_keys_for_record`: from a record's sealed caveat keys to those of a verification.
pub mod Sealed
use secret_broker.Base.{ℕ, Bytes, Option, List, [], ◌∷◌, length, ◌==◌}
use secret_broker.Base.Result.{Result, ok, err, ◌>>=◌, ◌>>◌, ok_or, guard}
use secret_broker.Platform.{Platform}
use secret_broker.Macaroon.Types.{DischargeKeyRef}
use secret_broker.Store.Record.{StoredEnvelopeRecord, ThirdPartyCaveatKey}
use secret_broker.Store.Ops.{or_empty}
use secret_broker.Broker.Context.{ServiceError, storage}

-- one round of the loop
unfoldable pub discharge_key : Platform → ThirdPartyCaveatKey → Result ServiceError DischargeKeyRef
discharge_key p entry = do
  key ← ok_or (p.b64_decode entry.secret_b64) storage
  guard (length key == 32) storage
  condition ← ok_or entry.condition storage
  ok (record { location = entry.location; key_id = entry.key_id; condition = condition; key = key })

unfoldable pub discharge_keys :
    Platform → List ThirdPartyCaveatKey → Result ServiceError (List DischargeKeyRef)
discharge_keys p [] = ok []
discharge_keys p (entry ∷ entries) = do
  key ← discharge_key p entry
  keys ← discharge_keys p entries
  ok (key ∷ keys)

unfoldable pub discharge_keys_for_record :
    Platform → StoredEnvelopeRecord → Result ServiceError (List DischargeKeyRef)
discharge_keys_for_record p r = discharge_keys p (or_empty r.third_party_caveat_keys)
