-- ===== src/Store/Race.antt =====
-- Two tasks on one handle of the store: `load` reads, `revoke` runs whole, `load` writes. Nothing
-- holds the handle between `load`'s two halves.
use secret_broker.Base.{
  ℕ, ◌≡◌, refl, arith, Bytes, Bool, true, Option, none, some, length, bytes_eq_refl,
}
use secret_broker.Base.Result.{Result, ok, ◌>>=◌}
use secret_broker.Platform.{Platform, IsLawful}
use secret_broker.Store.Record.{StoredEnvelopeRecord}
use secret_broker.Store.Backend.{Backend, IsBackend}
use secret_broker.Store.Ops.{
  StoreError, read_record, write_record, revoke, revoked_by, touch, unseal, revoke_value,
}
use secret_broker.Store.Spec.{RecordMap, put}
use secret_broker.Store.Refinement.{Represents, Stored, Seals, read_record-eq, write_record-total}

unfoldable pub revoke_during_load :
    {Tree : Type 0}
    → Platform
    → Backend Tree
    → Tree
    → Bytes
    → ℕ
    → Option Bytes
    → ℕ
    → Bytes
    → Bytes
    → Result StoreError (Tree × Bool)
revoke_during_load p b t handle accessed_at reason now nonce nonce' = do
  r ← read_record p b t handle
  revoked ← revoke p b t handle reason now nonce'
  t' ← write_record p b revoked.0 handle nonce (touch accessed_at r)
  ok (t', revoked.1)

module _ {Tree : Type 0} (p : Platform) (b : Backend Tree) (w : IsLawful p) (bw : IsBackend b) where
  pub Stored-some :
      (o : Option Bytes) (m : Option StoredEnvelopeRecord) (r : StoredEnvelopeRecord)
      → Stored p b o m
      → m ≡ some r
      → (v : Bytes) × (o ≡ some v) × (unseal p b v ≡ ok r)
  Stored-some o none r st e = absurd (ground arith)
  Stored-some none (some r') r st e = absurd st
  Stored-some (some v) (some r') r st e =
      let same : r' ≡ r = ground arith in (v, refl, rw (← same) st)

  pub revoke-some :
      (t t' : Tree) (h v : Bytes) (r : StoredEnvelopeRecord) (reason : Option Bytes) (now : ℕ)
      (nonce : Bytes)
      → b.get t h ≡ some v
      → unseal p b v ≡ ok r
      → write_record p b t h nonce (revoked_by reason now r) ≡ ok t'
      → revoke p b t h reason now nonce ≡ ok (t', true)
  unfolding revoke revoke_value
  revoke-some t t' h v r reason now nonce held opened wrote =
      rw (revoke, held) (rw opened (rw wrote refl))

  -- When the store holds a record under the handle and both nonces have twelve bytes that the
  -- cipher accepts, a `load` whose read comes before a whole `revoke` and whose write comes after
  -- it succeeds, `revoke` reports success, and the handle then holds the record as it was before
  -- the revocation, with only the access time changed.
  pub revoke_during_load-lost :
      (t : Tree) (m : RecordMap) (h : Bytes) (r : StoredEnvelopeRecord) (accessed_at now : ℕ)
      (reason : Option Bytes) (nonce nonce' : Bytes)
      → Represents p b t m
      → m h ≡ some r
      → length nonce ≡ 12
      → length nonce' ≡ 12
      → Seals p b nonce
      → Seals p b nonce'
      → (t' : Tree) × (revoke_during_load p b t h accessed_at reason now nonce nonce'
          ≡ ok (t', true))
        × (read_record p b t' h ≡ ok (touch accessed_at r))
  unfolding revoke_during_load
  revoke_during_load-lost t m h r at now reason nonce nonce' rep e n n' s s' =
      let (v, held, opened) = Stored-some (b.get t h) (m h) r (rep.at_handle h) e in
      let (t₁, wrote₁, rep₁) =
        write_record-total p b w bw t m rep h nonce' (revoked_by reason now r) n' s' in
      let (t₂, wrote₂, rep₂) =
        write_record-total p b w bw t₁ (put m h (some (revoked_by reason now r))) rep₁ h nonce
          (touch at r) n s in
      (
        t₂,
        rw (read_record-eq p b w bw t m rep h) (
            rw e
              (rw (revoke-some t t₁ h v r reason now nonce' held opened wrote₁) (rw wrote₂ refl))),
        rw (read_record-eq p b w bw t₂ _ rep₂ h) (rw (bytes_eq_refl h) refl),
      )
