-- ===== src/Transparency/Event.antt =====
-- `TransparencyEvent` and its constructors.
use secret_broker.Base.{ℕ, Bytes, Bool, Option, none, some, [], ◌++◌, if◌then◌else◌}
use secret_broker.Text.{lit, trim}
use secret_broker.Platform.{Platform}
use secret_broker.Transparency.Json.{text, Meta, insert}

pub record TransparencyEvent : Type 0 where
  pub sequence : ℕ
  pub prev_hash : Bytes
  pub event : Bytes
  pub handle_fingerprint : Option Bytes
  pub envelope_key_id : Option Bytes
  pub customer_id : Option Bytes
  pub status : Bytes
  pub timestamp : ℕ
  pub metadata : Option Meta
  pub caller_identity : Option Bytes
  pub parent_handle_fingerprint : Option Bytes
  pub lease_sequence : Option ℕ
  pub previous_expires_at : Option ℕ

unfoldable pub handle_fingerprint : Platform → Bytes → Bytes
handle_fingerprint p handle = lit "sha256:" ++ p.hex_encode (p.sha256 (trim handle))

unfoldable pub base : ℕ → TransparencyEvent
base now = record {
  sequence = 0;
  prev_hash = [];
  event = lit "wrap";
  handle_fingerprint = none;
  envelope_key_id = none;
  customer_id = none;
  status = lit "issued";
  timestamp = now;
  metadata = none;
  caller_identity = none;
  parent_handle_fingerprint = none;
  lease_sequence = none;
  previous_expires_at = none;
}

-- `.unwrap_or_default()`
abbrev object_or_empty : Option Meta → Meta
object_or_empty none = []
object_or_empty (some m) = m

module _ (p : Platform) (now : ℕ) where
  unfoldable pub wrap : Bytes → Bytes → Bytes → Option Meta → TransparencyEvent
  unfolding base
  wrap handle envelope customer_id metadata = record (base now) {
    event = lit "wrap";
    handle_fingerprint = some (handle_fingerprint p handle);
    envelope_key_id = some envelope;
    customer_id = some customer_id;
    status = lit "issued";
    metadata = metadata;
  }

  unfoldable pub unwrap : Bytes → Option Bytes → Bytes → Option Meta → TransparencyEvent
  unfolding base
  unwrap handle envelope customer_id metadata = record (base now) {
    event = lit "unwrap";
    handle_fingerprint = some (handle_fingerprint p handle);
    envelope_key_id = envelope;
    customer_id = some customer_id;
    status = lit "unwrapped";
    metadata = metadata;
  }

  unfoldable pub delete : Bytes → Bool → Option Meta → TransparencyEvent
  unfolding base
  delete handle found metadata = record (base now) {
    event = lit "delete";
    handle_fingerprint = some (handle_fingerprint p handle);
    status = if found then lit "removed" else lit "not_found";
    metadata = metadata;
  }

  unfoldable pub revoke : Bytes → Bytes → Option Meta → TransparencyEvent
  unfolding base
  revoke handle customer_id metadata = record (base now) {
    event = lit "revoke";
    handle_fingerprint = some (handle_fingerprint p handle);
    customer_id = some customer_id;
    status = lit "revoked";
    metadata = metadata;
  }

  unfoldable pub renew_lease : Bytes → Bytes → Option Meta → TransparencyEvent
  unfolding base
  renew_lease handle customer_id metadata = record (base now) {
    event = lit "renew_lease";
    handle_fingerprint = some (handle_fingerprint p handle);
    customer_id = some customer_id;
    status = lit "renewed";
    metadata = metadata;
  }

  unfoldable pub attenuate : Bytes → Bytes → Option Meta → TransparencyEvent
  unfolding base
  attenuate handle customer_id metadata = record (base now) {
    event = lit "attenuate";
    handle_fingerprint = some (handle_fingerprint p handle);
    customer_id = some customer_id;
    status = lit "attenuated";
    metadata = metadata;
  }

  unfoldable pub rotate : Bytes → Bytes → Bytes → Bytes → Option Meta → TransparencyEvent
  unfolding base
  rotate old_handle new_handle envelope_key_id customer_id metadata = record (base now) {
    event = lit "rotate";
    handle_fingerprint = some (handle_fingerprint p new_handle);
    envelope_key_id = some envelope_key_id;
    customer_id = some customer_id;
    status = lit "rotated";
    metadata = some (
        insert (lit "new_handle_fingerprint") (text (handle_fingerprint p new_handle)) (
          insert (lit "old_handle_fingerprint") (text (handle_fingerprint p old_handle))
            (object_or_empty metadata)));
  }

unfoldable pub with_caller : Bytes → TransparencyEvent → TransparencyEvent
with_caller caller e = record e { caller_identity = some caller }

unfoldable pub with_parent_handle : Platform → Bytes → TransparencyEvent → TransparencyEvent
with_parent_handle p parent e = record e {
  parent_handle_fingerprint = some (handle_fingerprint p parent);
}

unfoldable pub with_lease_renewal : ℕ → ℕ → TransparencyEvent → TransparencyEvent
with_lease_renewal sequence previous_expires e = record e {
  lease_sequence = some sequence;
  previous_expires_at = some previous_expires;
}
