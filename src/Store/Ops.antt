-- ===== src/Store/Ops.antt =====
-- The operations of `SealedStore`. Each takes the nonce that it draws and the time that it reads.
use secret_broker.Base.{
  ℕ, ◌+◌, ◌-◌, ◌^◌, Bytes, Bool, true, false, Option, none, some, List, [], ◌∷◌, ◌++◌, map,
  bytes_eq, ◌==◌, ltb, length, any, if◌then◌else◌,
}
use secret_broker.Base.Result.{Result, ok, ◌>>=◌, ◌>>◌, ok_or, guard}
use secret_broker.Platform.{Platform}
use secret_broker.Store.Record.{
  StoredEnvelopeRecord, ShareAssignment, HeldShare, ThirdPartyCaveatKey, ClaimResult,
}
use secret_broker.Store.Backend.{Backend}

-- `task_panicked` is what `.await?` makes of a panic in the blocking task.
pub data StoreError : Type 0 where
  handle_not_found deserializing decoding encrypting decrypting task_panicked : StoreError
  no_share_assignments no_held_shares no_threshold_commitments decoding_share : StoreError
  not_assigned : Bytes → StoreError
  index_not_held : ℕ → StoreError

abbrev pub touch : ℕ → StoredEnvelopeRecord → StoredEnvelopeRecord
touch accessed_at r = record r { last_accessed = some accessed_at }

module _ {Tree : Type 0} (p : Platform) (b : Backend Tree) where
  -- `Nonce::from_slice` panics on any other length.
  decrypt_payload : Bytes → Bytes → Result StoreError Bytes
  decrypt_payload nonce ciphertext = do
    guard (length nonce == 12) task_panicked
    ok_or (b.decrypt nonce ciphertext) decrypting

  -- from the stored value to the record
  unfoldable pub unseal : Bytes → Result StoreError StoredEnvelopeRecord
  unfolding decrypt_payload
  unseal value = do
    encrypted ← ok_or (b.disk_from_json value) deserializing
    nonce ← ok_or (p.b64_decode encrypted.nonce) decoding
    ciphertext ← ok_or (p.b64_decode encrypted.ciphertext) decoding
    plaintext ← decrypt_payload nonce ciphertext
    ok_or (b.record_from_json plaintext) deserializing

  -- from the record to the value to store
  unfoldable pub seal : Bytes → StoredEnvelopeRecord → Result StoreError Bytes
  seal nonce r = do
    ciphertext ← ok_or (b.encrypt nonce (b.record_to_json r)) encrypting
    ok (
        b.disk_to_json
          (record { nonce = p.b64_encode nonce; ciphertext = p.b64_encode ciphertext }))

  -- The two halves of every operation that changes a record: another task can run between them.
  unfoldable pub read_record : Tree → Bytes → Result StoreError StoredEnvelopeRecord
  unfolding unseal
  read_record t handle = do value ← ok_or (b.get t handle) handle_not_found; unseal value

  unfoldable pub write_record : Tree → Bytes → Bytes → StoredEnvelopeRecord → Result StoreError Tree
  unfolding seal
  write_record t handle nonce r = do value ← seal nonce r; ok (b.insert t handle value)

  unfoldable pub insert_with_id :
      Tree → Bytes → Bytes → StoredEnvelopeRecord → Result StoreError Tree
  unfolding write_record
  insert_with_id t handle nonce r = write_record t handle nonce r

  unfoldable pub load_value :
      Tree → Bytes → ℕ → Bytes → Bytes → Result StoreError (Tree × Option StoredEnvelopeRecord)
  load_value t handle accessed_at nonce value = do
    r ← unseal value
    t' ← write_record t handle nonce (touch accessed_at r)
    ok (t', some (touch accessed_at r))

  unfoldable pub load :
      Tree → Bytes → ℕ → Bytes → Result StoreError (Tree × Option StoredEnvelopeRecord)
  unfolding load_value
  load t handle accessed_at nonce = elim (b.get t handle) [
    | none ↦ ok (t, none)
    | some value ↦ load_value t handle accessed_at nonce value
  ]

  abbrev pub present : Option Bytes → Bool
  present none = false
  present (some v) = true

  unfoldable pub delete : Tree → Bytes → Tree × Bool
  delete t handle = (b.remove t handle, present (b.get t handle))

  -- `update_threshold_config` and the operations below share this shape.
  unfoldable pub update :
      (StoredEnvelopeRecord → StoredEnvelopeRecord) → Tree → Bytes → Bytes → Result StoreError Tree
  unfolding read_record write_record
  update change t handle nonce = do r ← read_record t handle; write_record t handle nonce (change r)

abbrev pub with_threshold : ℕ → List Bytes → StoredEnvelopeRecord → StoredEnvelopeRecord
with_threshold k commitments r = record r {
  threshold = some k;
  threshold_commitments = some commitments;
}

-- `entries.push(entry)` unless the key id is there
unfoldable pub push_new : ThirdPartyCaveatKey → List ThirdPartyCaveatKey → List ThirdPartyCaveatKey
push_new entry entries =
    if any (λ existing. bytes_eq existing.key_id entry.key_id) entries
    then entries
    else entries ++ entry ∷ []

abbrev pub or_empty : Option (List ThirdPartyCaveatKey) → List ThirdPartyCaveatKey
or_empty none = []
or_empty (some entries) = entries

abbrev pub with_caveat_key : ThirdPartyCaveatKey → StoredEnvelopeRecord → StoredEnvelopeRecord
with_caveat_key entry r = record r {
  third_party_caveat_keys = some (push_new entry (or_empty r.third_party_caveat_keys));
}

abbrev pub with_shares :
    List ShareAssignment → List HeldShare → StoredEnvelopeRecord → StoredEnvelopeRecord
with_shares assignments held r = record r {
  share_assignments = some assignments;
  held_shares = some held;
}

abbrev pub used : StoredEnvelopeRecord → StoredEnvelopeRecord
used r = record r { redeem_used = true; redeem_nonce = none; redeem_binding = none }

-- `saturating_add` on `u32`
unfoldable pub saturating_succ : ℕ → ℕ
saturating_succ n = if ltb n (2 ^ 32 - 1) then n + 1 else 2 ^ 32 - 1

abbrev pub renewed : ℕ → ℕ → StoredEnvelopeRecord → StoredEnvelopeRecord
renewed lease_expires_at now r = record r {
  lease_expires_at = some lease_expires_at;
  lease_renewal_count = saturating_succ r.lease_renewal_count;
  last_accessed = some now;
}

abbrev pub revoked_by : Option Bytes → ℕ → StoredEnvelopeRecord → StoredEnvelopeRecord
revoked_by reason now r = record r {
  revoked = true;
  revoked_at = some now;
  revocation_reason = reason;
  redeem_used = true;
  redeem_nonce = none;
  redeem_binding = none;
}

unfoldable pub find_assignment : Bytes → List ShareAssignment → Option ShareAssignment
find_assignment cid [] = none
find_assignment cid (a ∷ as') =
    if bytes_eq a.custodian_id cid then some a else find_assignment cid as'

-- `assignment.claimed = true` through the reference that `find` returned
unfoldable pub mark_claimed : Bytes → List ShareAssignment → List ShareAssignment
mark_claimed cid [] = []
mark_claimed cid (a ∷ as') =
    if bytes_eq a.custodian_id cid
    then record a { claimed = true } ∷ as'
    else a ∷ mark_claimed cid as'

unfoldable pub find_held : ℕ → List HeldShare → Option HeldShare
find_held x [] = none
find_held x (h ∷ hs) = if h.x == x then some h else find_held x hs

abbrev or_default : Option Bytes → Bytes
or_default none = []
or_default (some s) = s

-- What `claim_custodian_share` does with the record that it has read: the result, and the record
-- to write.
unfoldable pub claim :
    Platform → Bytes → StoredEnvelopeRecord → Result StoreError (StoredEnvelopeRecord × ClaimResult)
unfolding find_assignment mark_claimed find_held
claim p cid r = do
  assignments ← ok_or r.share_assignments no_share_assignments
  held ← ok_or r.held_shares no_held_shares
  commitments ← ok_or r.threshold_commitments no_threshold_commitments
  assignment ← ok_or (find_assignment cid assignments) (not_assigned cid)
  share ← ok_or (find_held assignment.share_index held) (index_not_held assignment.share_index)
  y ← ok_or (p.b64_decode share.y_b64) decoding_share
  ok (
    record r { share_assignments = some (mark_claimed cid assignments) },
    record {
      x = share.x;
      y = y;
      commitments = map (λ c. or_default (p.b64_decode c)) commitments;
      previously_claimed = assignment.claimed;
    },
  )

module _ {Tree : Type 0} (p : Platform) (b : Backend Tree) where
  unfoldable pub update_threshold_config :
      Tree → Bytes → ℕ → List Bytes → Bytes → Result StoreError Tree
  unfolding update
  update_threshold_config t handle k commitments nonce =
      update p b (with_threshold k commitments) t handle nonce

  unfoldable pub append_third_party_caveat_key :
      Tree → Bytes → ThirdPartyCaveatKey → Bytes → Result StoreError Tree
  unfolding update push_new
  append_third_party_caveat_key t handle entry nonce =
      update p b (with_caveat_key entry) t handle nonce

  unfoldable pub update_share_assignments :
      Tree → Bytes → List ShareAssignment → List HeldShare → Bytes → Result StoreError Tree
  unfolding update
  update_share_assignments t handle assignments held nonce =
      update p b (with_shares assignments held) t handle nonce

  unfoldable pub claim_custodian_share :
      Tree → Bytes → Bytes → Bytes → Result StoreError (Tree × ClaimResult)
  unfolding read_record write_record claim
  claim_custodian_share t handle cid nonce = do
    r ← read_record p b t handle
    claimed ← claim p cid r
    t' ← write_record p b t handle nonce claimed.0
    ok (t', claimed.1)

  unfoldable pub mark_redeem_used : Tree → Bytes → Bytes → Result StoreError Tree
  unfolding update
  mark_redeem_used t handle nonce = update p b used t handle nonce

  unfoldable pub renew_lease :
      Tree → Bytes → ℕ → ℕ → Bytes → Result StoreError (Tree × StoredEnvelopeRecord)
  unfolding read_record write_record
  renew_lease t handle lease_expires_at now nonce = do
    r ← read_record p b t handle
    t' ← write_record p b t handle nonce (renewed lease_expires_at now r)
    ok (t', renewed lease_expires_at now r)

  unfoldable pub revoke_value :
      Tree → Bytes → Option Bytes → ℕ → Bytes → Bytes → Result StoreError (Tree × Bool)
  revoke_value t handle reason now nonce value = do
    r ← unseal p b value
    t' ← write_record p b t handle nonce (revoked_by reason now r)
    ok (t', true)

  unfoldable pub revoke : Tree → Bytes → Option Bytes → ℕ → Bytes → Result StoreError (Tree × Bool)
  unfolding revoke_value
  revoke t handle reason now nonce = elim (b.get t handle) [
    | none ↦ ok (t, false)
    | some value ↦ revoke_value t handle reason now nonce value
  ]
