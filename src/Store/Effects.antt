-- ===== src/Store/Effects.antt =====
-- What each call that handlers make does to a tree that represents a map.
use secret_broker.Base.{
  ◌≡◌, refl, sym, subst, ◌∙◌, ap, arith, ℕ, Bytes, Bool, true, Option, none, some, length,
}
use secret_broker.Base.Result.{Result, ok, err}
use secret_broker.Platform.{Platform, IsLawful}
use secret_broker.Store.Record.{StoredEnvelopeRecord}
use secret_broker.Store.Backend.{Backend, IsBackend}
use secret_broker.Store.Ops.{
  StoreError, insert_with_id, touch, unseal, load, load_value, renew_lease, renewed, revoke,
  revoked_by, delete, present, update, used, mark_redeem_used,
}
use secret_broker.Store.Spec.{existed, deletes, is_there, run, spec, RecordMap, put}
use secret_broker.Store.Refinement.{
  run-Agree, Represents, Seals, read_record-eq, write_record-total,
}
use secret_broker.Store.Race.{Stored-some, revoke-some}

-- A record that is inserted is there, whatever was under its handle.
pub insert_with_id-Represents :
    {Tree : Type 0} (p : Platform) (b : Backend Tree) (w : IsLawful p) (bw : IsBackend b)
    (nonce : Bytes) (t t' : Tree) (m : RecordMap) (h : Bytes) (r : StoredEnvelopeRecord)
    → length nonce ≡ 12
    → Seals p b nonce
    → Represents p b t m
    → insert_with_id p b t h nonce r ≡ ok t'
    → Represents p b t' (put m h (some r))
unfolding insert_with_id
insert_with_id-Represents {Tree} p b w bw nonce t t' m h r n seals rep inserted =
    let (t₁, wrote, rep') = write_record-total p b w bw t m rep h nonce r n seals in
    subst (λ k. Represents p b k (put m h (some r))) (ap (tree_or t₁) (sym wrote ∙ inserted)) rep'
  where
    tree_or : Tree → Result StoreError Tree → Tree
    tree_or x (ok y) = y
    tree_or x (err e) = x

module _ {Tree : Type 0} (p : Platform) (b : Backend Tree) (w : IsLawful p) (bw : IsBackend b)
    (nonce : Bytes) (n : length nonce ≡ 12) (seals : Seals p b nonce) (t : Tree) (m : RecordMap)
    (rep : Represents p b t m) (h : Bytes) (r : StoredEnvelopeRecord) (e : m h ≡ some r) where
  load_value-eq :
      (at : ℕ) (v : Bytes)
      → unseal p b v ≡ ok r
      → (t' : Tree) × (load_value p b t h at nonce v ≡ ok (t', some (touch at r)))
        × Represents p b t' (put m h (some (touch at r)))
  unfolding load_value
  load_value-eq at v opened =
      let (t', wrote, rep') = write_record-total p b w bw t m rep h nonce (touch at r) n seals in
      (t', rw opened (rw wrote refl), rep')

  load-held :
      (at : ℕ) (v : Bytes) (t' : Tree)
      → b.get t h ≡ some v
      → load_value p b t h at nonce v ≡ ok (t', some (touch at r))
      → load p b t h at nonce ≡ ok (t', some (touch at r))
  unfolding load load_value
  load-held at v t' held loaded = rw (load, held) loaded

  pub load-eq :
      (at : ℕ)
      → (t' : Tree) × (load p b t h at nonce ≡ ok (t', some (touch at r)))
        × Represents p b t' (put m h (some (touch at r)))
  load-eq at =
      let (v, held, opened) = Stored-some p b w bw (b.get t h) (m h) r (rep.at_handle h) e in
      let (t', loaded, rep') = load_value-eq at v opened in
      (t', load-held at v t' held loaded, rep')

  pub renew_lease-eq :
      (lease now : ℕ)
      → (t' : Tree) × (renew_lease p b t h lease now nonce ≡ ok (t', renewed lease now r))
        × Represents p b t' (put m h (some (renewed lease now r)))
  unfolding renew_lease
  renew_lease-eq lease now =
      let (t', wrote, rep') =
        write_record-total p b w bw t m rep h nonce (renewed lease now r) n seals in
      (t', rw (read_record-eq p b w bw t m rep h) (rw e (rw wrote refl)), rep')

  pub mark_redeem_used-eq :
      (t' : Tree) × (mark_redeem_used p b t h nonce ≡ ok t')
      × Represents p b t' (put m h (some (used r)))
  unfolding mark_redeem_used update
  mark_redeem_used-eq =
      let (t', wrote, rep') = write_record-total p b w bw t m rep h nonce (used r) n seals in
      (t', rw (read_record-eq p b w bw t m rep h) (rw e wrote), rep')

  pub revoke-eq :
      (reason : Option Bytes) (now : ℕ)
      → (t' : Tree) × (revoke p b t h reason now nonce ≡ ok (t', true))
        × Represents p b t' (put m h (some (revoked_by reason now r)))
  revoke-eq reason now =
      let (v, held, opened) = Stored-some p b w bw (b.get t h) (m h) r (rep.at_handle h) e in
      let (t', wrote, rep') =
        write_record-total p b w bw t m rep h nonce (revoked_by reason now r) n seals in
      (t', revoke-some p b w bw t t' h v r reason now nonce held opened wrote, rep')

  pub delete-eq : (t' : Tree) × (delete p b t h ≡ (t', true)) × Represents p b t' (put m h none)
  unfolding delete run spec
  delete-eq =
      let (rep', replied) = run-Agree p b w bw t m rep h nonce n seals deletes in
      (b.remove t h, ap (λ (x : Bool). (b.remove t h, x)) (was_there replied), rep')
    where
      answer :
          (x : Bool) (o : Option StoredEnvelopeRecord)
          → o ≡ some r
          → existed x ≡ existed (is_there o)
          → x ≡ true
      answer x none f g = absurd (ground arith)
      answer x (some r') f g = ground arith

      was_there :
          existed (present p b (b.get t h)) ≡ existed (is_there (m h))
          → present p b (b.get t h) ≡ true
      was_there same = answer (present p b (b.get t h)) (m h) e same
