-- ===== src/Store/Spec.antt =====
-- What the sealed store promises: a map from handles to records.
use secret_broker.Base.{
  ◌≡◌, refl, bytes_eq_refl, ℕ, Bytes, Bool, true, false, Option, none, some, List, bytes_eq,
  if◌then◌else◌,
}
use secret_broker.Base.Result.{Result, ok, ◌>>=◌, ok_or}
use secret_broker.Platform.{Platform}
use secret_broker.Store.Record.{
  StoredEnvelopeRecord, ShareAssignment, HeldShare, ThirdPartyCaveatKey, ClaimResult,
}
use secret_broker.Store.Backend.{Backend}
use secret_broker.Store.Ops.{
  StoreError, handle_not_found, touch, with_threshold, with_caveat_key, with_shares, used, renewed,
  revoked_by, claim, insert_with_id, load, delete, update_threshold_config,
  append_third_party_caveat_key, update_share_assignments, claim_custodian_share, mark_redeem_used,
  renew_lease, revoke,
}

abbrev pub RecordMap : Type 0
RecordMap = Bytes → Option StoredEnvelopeRecord

abbrev pub put : RecordMap → Bytes → Option StoredEnvelopeRecord → RecordMap
put m h o j = if bytes_eq h j then o else m j

pub put_same : (m : RecordMap) (h : Bytes) (r : StoredEnvelopeRecord) → put m h (some r) h ≡ some r
put_same m h r = rw (bytes_eq_refl h) refl

-- A call of the store's interface.
pub data Call : Type 0 where
  inserts : StoredEnvelopeRecord → Call
  loads : ℕ → Call
  deletes : Call
  sets_threshold : ℕ → List Bytes → Call
  appends_key : ThirdPartyCaveatKey → Call
  sets_shares : List ShareAssignment → List HeldShare → Call
  claims : Bytes → Call
  marks_used : Call
  renews : ℕ → ℕ → Call
  revokes : Option Bytes → ℕ → Call

pub data Reply : Type 0 where
  done : Reply
  found : Option StoredEnvelopeRecord → Reply
  existed : Bool → Reply
  claimed_as : ClaimResult → Reply
  renewed_to : StoredEnvelopeRecord → Reply

abbrev change :
    (StoredEnvelopeRecord → StoredEnvelopeRecord)
    → Bytes
    → RecordMap
    → Result StoreError (RecordMap × Reply)
change f h m = do r ← ok_or (m h) handle_not_found; ok (put m h (some (f r)), done)

abbrev pub after_load :
    ℕ → Bytes → RecordMap → Option StoredEnvelopeRecord → Result StoreError (RecordMap × Reply)
after_load now h m none = ok (m, found none)
after_load now h m (some r) = ok (put m h (some (touch now r)), found (some (touch now r)))

abbrev pub is_there : Option StoredEnvelopeRecord → Bool
is_there none = false
is_there (some r) = true

abbrev pub after_revoke :
    Option Bytes
    → ℕ
    → Bytes
    → RecordMap
    → Option StoredEnvelopeRecord
    → Result StoreError (RecordMap × Reply)
after_revoke reason now h m none = ok (m, existed false)
after_revoke reason now h m (some r) = ok (put m h (some (revoked_by reason now r)), existed true)

-- The effect of a call on the map.
unfoldable pub spec : Platform → Bytes → Call → RecordMap → Result StoreError (RecordMap × Reply)
spec p h (inserts r) m = ok (put m h (some r), done)
spec p h (loads now) m = after_load now h m (m h)
spec p h deletes m = ok (put m h none, existed (is_there (m h)))
spec p h (sets_threshold k commitments) m = change (with_threshold k commitments) h m
spec p h (appends_key entry) m = change (with_caveat_key entry) h m
spec p h (sets_shares assignments held) m = change (with_shares assignments held) h m
spec p h (claims cid) m = do
  r ← ok_or (m h) handle_not_found
  c ← claim p cid r
  ok (put m h (some c.0), claimed_as c.1)
spec p h marks_used m = change used h m
spec p h (renews lease now) m = do
  r ← ok_or (m h) handle_not_found
  ok (put m h (some (renewed lease now r)), renewed_to (renewed lease now r))
spec p h (revokes reason now) m = after_revoke reason now h m (m h)

module _ {Tree : Type 0} (p : Platform) (b : Backend Tree) where
  abbrev finished : Result StoreError Tree → Result StoreError (Tree × Reply)
  finished r = r >>= λ t. ok (t, done)

  abbrev replied :
      {A : Type 0} → (A → Reply) → Result StoreError (Tree × A) → Result StoreError (Tree × Reply)
  replied f r = r >>= λ o. ok (o.0, f o.1)

  -- The call as the source runs it.
  unfoldable pub run : Bytes → Bytes → Call → Tree → Result StoreError (Tree × Reply)
  unfolding delete
  run nonce h (inserts r) t = finished (insert_with_id p b t h nonce r)
  run nonce h (loads now) t = replied found (load p b t h now nonce)
  run nonce h deletes t = ok ((delete p b t h).0, existed (delete p b t h).1)
  run nonce h (sets_threshold k commitments) t =
      finished (update_threshold_config p b t h k commitments nonce)
  run nonce h (appends_key entry) t = finished (append_third_party_caveat_key p b t h entry nonce)
  run nonce h (sets_shares assignments held) t =
      finished (update_share_assignments p b t h assignments held nonce)
  run nonce h (claims cid) t = replied claimed_as (claim_custodian_share p b t h cid nonce)
  run nonce h marks_used t = finished (mark_redeem_used p b t h nonce)
  run nonce h (renews lease now) t = replied renewed_to (renew_lease p b t h lease now nonce)
  run nonce h (revokes reason now) t = replied existed (revoke p b t h reason now nonce)
