-- ===== src/Store/Refinement.antt =====
-- The sealed store implements its specification.
use secret_broker.Base.{
  ℕ, ◌≡◌, refl, inl, inr, Bytes, Bool, true, false, Option, none, some, length, bytes_eq, arith,
  Bool-cases,
}
use secret_broker.Base.Result.{Result, ok, err, ◌>>=◌, ok_or, >>=-eq-ok}
use secret_broker.Platform.{Platform, IsLawful}
use secret_broker.Store.Record.{StoredEnvelopeRecord, ClaimResult}
use secret_broker.Store.Backend.{Backend, IsBackend}
use secret_broker.Store.Ops.{
  StoreError, handle_not_found, unseal, seal, read_record, write_record, touch, load, load_value,
  delete, update, claim, revoke, revoke_value, revoked_by, present, with_threshold, with_caveat_key,
  with_shares, used, insert_with_id, update_threshold_config, append_third_party_caveat_key,
  update_share_assignments, mark_redeem_used, claim_custodian_share, renew_lease, renewed,
}
use secret_broker.Store.Spec.{
  RecordMap, put, Call, Reply, spec, run, claimed_as, renewed_to, inserts, loads, deletes,
  sets_threshold, appends_key, sets_shares, claims, marks_used, renews, revokes, done, found,
  existed, after_load, after_revoke, is_there,
}

abbrev pub Stored :
    {Tree : Type 0} → Platform → Backend Tree → Option Bytes → Option StoredEnvelopeRecord → Type 0
Stored p b none none = Unit {0}
Stored p b none (some r) = ⊥
Stored p b (some v) none = ⊥
Stored p b (some v) (some r) = unseal p b v ≡ ok r

-- The tree holds, under each handle, the sealed form of the map's record.
pub record Represents {Tree : Type 0} (p : Platform) (b : Backend Tree) (t : Tree) (m : RecordMap)
    : Type 0 where
  pub at_handle : (h : Bytes) → Stored p b (b.get t h) (m h)

-- AES-GCM accepts every record with this nonce.
abbrev pub Seals : {Tree : Type 0} → Platform → Backend Tree → Bytes → Type 0
Seals p b nonce = (r : StoredEnvelopeRecord) → (v : Bytes) × (seal p b nonce r ≡ ok v)

-- Both fail alike, or both succeed with one reply and the tree represents the map.
abbrev pub Agree :
    {Tree : Type 0}
    → Platform
    → Backend Tree
    → Result StoreError (Tree × Reply)
    → Result StoreError (RecordMap × Reply)
    → Type 0
Agree p b (ok (t, x)) (ok (m, y)) = Represents p b t m × (x ≡ y)
Agree p b (ok (t, x)) (err e) = ⊥
Agree p b (err d) (ok (m, y)) = ⊥
Agree p b (err d) (err e) = d ≡ e

module _ {Tree : Type 0} (p : Platform) (b : Backend Tree) (w : IsLawful p) (bw : IsBackend b) where
  pub unseal-seal :
      (nonce v : Bytes) (r : StoredEnvelopeRecord)
      → length nonce ≡ 12
      → seal p b nonce r ≡ ok v
      → unseal p b v ≡ ok r
  unfolding seal unseal
  unseal-seal nonce v r n e =
      let (cipher, encrypted, stored) =
        >>=-eq-ok (ok_or (b.encrypt nonce (b.record_to_json r)) _) _ e in
      let c : b.encrypt nonce (b.record_to_json r) ≡ some cipher = ground arith in
      let same : b.disk_to_json
            (record { nonce = p.b64_encode nonce; ciphertext = p.b64_encode cipher })
          ≡ v =
        cc in
      rw (← same) (
        rw (bw.disk_json _) (
          rw (w.b64_round_trip nonce, w.b64_round_trip cipher, n)
            (rw (bw.decrypts nonce _ cipher n c, bw.record_json r))))

  module _ (t : Tree) (m : RecordMap) (rep : Represents p b t m) (h : Bytes) where
    pub read_record-eq : read_record p b t h ≡ ok_or (m h) handle_not_found
    unfolding read_record
    read_record-eq = go (b.get t h) (m h) (rep.at_handle h)
      where
        go :
            (o : Option Bytes) (r : Option StoredEnvelopeRecord)
            → Stored p b o r
            → (ok_or o handle_not_found >>= λ value. unseal p b value) ≡ ok_or r handle_not_found
        go none none s = refl
        go none (some r) s = absurd s
        go (some v) none s = absurd s
        go (some v) (some r) s = s

    pub Represents-write :
        (v : Bytes) (r : StoredEnvelopeRecord)
        → unseal p b v ≡ ok r
        → Represents p b (b.insert t h v) (put m h (some r))
    Represents-write v r u = record {
      at_handle = λ j. elim (Bool-cases (bytes_eq h j)) [
        | inl same ↦ rw (bw.get-insert t h v j, same) u
        | inr other ↦ rw (bw.get-insert t h v j, other) (rep.at_handle j)
      ];
    }

    pub write_record-total :
        (nonce : Bytes) (r : StoredEnvelopeRecord)
        → length nonce ≡ 12
        → Seals p b nonce
        → (t' : Tree) × (write_record p b t h nonce r ≡ ok t')
          × Represents p b t' (put m h (some r))
    unfolding write_record
    write_record-total nonce r n s =
        let (v, sealed) = s r in
        (b.insert t h v, rw sealed, Represents-write v r (unseal-seal nonce v r n sealed))

    abbrev Agrees :
        Result StoreError (Tree × Reply) → Result StoreError (RecordMap × Reply) → Type 0
    Agrees = Agree p b

    module _ (nonce : Bytes) (n : length nonce ≡ 12) (s : Seals p b nonce) where
      write-Agree :
          (r : StoredEnvelopeRecord) (x : Reply)
          → Agrees (write_record p b t h nonce r >>= λ t'. ok (t', x)) (ok (put m h (some r), x))
      write-Agree r x =
          let (t', written, rep') = write_record-total nonce r n s in rw written (rep', refl)

      update-Agree :
          (change : StoredEnvelopeRecord → StoredEnvelopeRecord)
          → Agrees
              (update p b change t h nonce >>= λ t'. ok (t', done))
              (ok_or (m h) handle_not_found >>= λ r. ok (put m h (some (change r)), done))
      unfolding update
      update-Agree change = rw read_record-eq (go (m h))
        where
          go :
              (o : Option StoredEnvelopeRecord)
              → Agrees
                  ((ok_or o handle_not_found >>= λ r. write_record p b t h nonce (change r))
                    >>= λ t'. ok (t', done))
                  (ok_or o handle_not_found >>= λ r. ok (put m h (some (change r)), done))
          go none = refl
          go (some r) = write-Agree (change r) done

      -- the same where a result comes back beside the tree
      write-Agree' :
          {A : Type 0} (r : StoredEnvelopeRecord) (a : A) (f : A → Reply)
          → Agrees
              ((write_record p b t h nonce r >>= λ t'. ok (t', a)) >>= λ (o : Tree × A).
                ok (o.0, f o.1))
              (ok (put m h (some r), f a))
      write-Agree' r a f =
          let (t', written, rep') = write_record-total nonce r n s in rw written (rep', refl)

      claims-Agree :
          (cid : Bytes) → Agrees (run p b nonce h (claims cid) t) (spec p h (claims cid) m)
      unfolding run spec claim_custodian_share
      claims-Agree cid = rw read_record-eq (go (m h))
        where
          chosen :
              (c : Result StoreError (StoredEnvelopeRecord × ClaimResult))
              → Agrees
                  ((c >>= λ x. write_record p b t h nonce x.0 >>= λ t'. ok (t', x.1))
                    >>= λ (o : Tree × ClaimResult). ok (o.0, claimed_as o.1))
                  (c >>= λ x. ok (put m h (some x.0), claimed_as x.1))
          chosen (ok c) = write-Agree' c.0 c.1 claimed_as
          chosen (err e) = refl

          go :
              (o : Option StoredEnvelopeRecord)
              → Agrees
                  ((ok_or o handle_not_found >>= λ r.
                      claim p cid r >>= λ x. write_record p b t h nonce x.0 >>= λ t'. ok (t', x.1))
                    >>= λ (o : Tree × ClaimResult). ok (o.0, claimed_as o.1))
                  (ok_or o handle_not_found >>= λ r.
                    claim p cid r >>= λ x. ok (put m h (some x.0), claimed_as x.1))
          go none = refl
          go (some r) = chosen (claim p cid r)

      renews-Agree :
          (lease now : ℕ)
          → Agrees (run p b nonce h (renews lease now) t) (spec p h (renews lease now) m)
      unfolding run spec renew_lease
      renews-Agree lease now = rw read_record-eq (go (m h))
        where
          go :
              (o : Option StoredEnvelopeRecord)
              → Agrees
                  ((ok_or o handle_not_found >>= λ r.
                      write_record p b t h nonce (renewed lease now r) >>= λ t'.
                      ok (t', renewed lease now r))
                    >>= λ (o : Tree × StoredEnvelopeRecord). ok (o.0, renewed_to o.1))
                  (ok_or o handle_not_found >>= λ r.
                    ok (put m h (some (renewed lease now r)), renewed_to (renewed lease now r)))
          go none = refl
          go (some r) = write-Agree' (renewed lease now r) (renewed lease now r) renewed_to

      loads-Agree : (now : ℕ) → Agrees (run p b nonce h (loads now) t) (spec p h (loads now) m)
      unfolding run spec load load_value
      loads-Agree now = go (b.get t h) (m h) (rep.at_handle h)
        where
          go :
              (o : Option Bytes) (r : Option StoredEnvelopeRecord)
              → Stored p b o r
              → Agrees
                  ((elim o [
                    | none ↦ ok (t, none)
                    | some value ↦ load_value p b t h now nonce value
                  ])
                    >>= λ (o : Tree × Option StoredEnvelopeRecord). ok (o.0, found o.1))
                  (after_load now h m r)
          go none none st = (rep, refl)
          go none (some r) st = absurd st
          go (some v) none st = absurd st
          go (some v) (some r) st = rw st (write-Agree' (touch now r) (some (touch now r)) found)

      revokes-Agree :
          (reason : Option Bytes) (now : ℕ)
          → Agrees (run p b nonce h (revokes reason now) t) (spec p h (revokes reason now) m)
      unfolding run spec revoke revoke_value
      revokes-Agree reason now = go (b.get t h) (m h) (rep.at_handle h)
        where
          go :
              (o : Option Bytes) (r : Option StoredEnvelopeRecord)
              → Stored p b o r
              → Agrees
                  ((elim o [
                    | none ↦ ok (t, false)
                    | some value ↦ revoke_value p b t h reason now nonce value
                  ])
                    >>= λ (o : Tree × Bool). ok (o.0, existed o.1))
                  (after_revoke reason now h m r)
          go none none st = (rep, refl)
          go none (some r) st = absurd st
          go (some v) none st = absurd st
          go (some v) (some r) st = rw st (write-Agree' (revoked_by reason now r) true existed)

      deletes-Agree : Agrees (run p b nonce h deletes t) (spec p h deletes m)
      unfolding run spec delete
      deletes-Agree = (
        record {
          at_handle = λ j. elim (Bool-cases (bytes_eq h j)) [
            | inl same ↦ rw (bw.get-remove t h j, same) tt
            | inr other ↦ rw (bw.get-remove t h j, other) (rep.at_handle j)
          ];
        },
        go (b.get t h) (m h) (rep.at_handle h),
      )
        where
          go :
              (o : Option Bytes) (r : Option StoredEnvelopeRecord)
              → Stored p b o r
              → existed (present p b o) ≡ existed (is_there r)
          go none none st = refl
          go none (some r) st = absurd st
          go (some v) none st = absurd st
          go (some v) (some r) st = refl

      -- On a tree that represents a map, every call of the store fails exactly where the
      -- specification does, with the same error, and otherwise gives the specification's reply and
      -- leaves a tree that represents the specification's map, for every key; the nonce has
      -- twelve bytes and the cipher accepts it.
      pub run-Agree : (c : Call) → Agrees (run p b nonce h c t) (spec p h c m)
      unfolding run spec insert_with_id update_threshold_config append_third_party_caveat_key
          update_share_assignments mark_redeem_used
      run-Agree (inserts r) = write-Agree r done
      run-Agree (loads now) = loads-Agree now
      run-Agree deletes = deletes-Agree
      run-Agree (sets_threshold k commitments) = update-Agree (with_threshold k commitments)
      run-Agree (appends_key entry) = update-Agree (with_caveat_key entry)
      run-Agree (sets_shares assignments held) = update-Agree (with_shares assignments held)
      run-Agree (claims cid) = claims-Agree cid
      run-Agree marks_used = update-Agree used
      run-Agree (renews lease now) = renews-Agree lease now
      run-Agree (revokes reason now) = revokes-Agree reason now
