-- ===== src/Store/Spent.antt =====
-- A redeem token that is consumed stays consumed, whatever calls the store receives.
use secret_broker.Base.{
  ◌≡◌, refl, sym, ap, subst, ◌∙◌, inl, inr, Bytes, false, Option, none, some, bytes_eq,
  bytes_eq_iff, Bool-cases,
}
use secret_broker.Base.Result.{Result, ok, err, ◌>>=◌, ok_or, >>=-eq-ok, ok_or-some}
use secret_broker.Platform.{Platform}
use secret_broker.Store.Record.{StoredEnvelopeRecord, ClaimResult}
use secret_broker.Store.Ops.{
  StoreError, claim, handle_not_found, no_share_assignments, no_held_shares,
  no_threshold_commitments, not_assigned, index_not_held, decoding_share, find_assignment,
  find_held,
}
use secret_broker.Store.Spec.{
  RecordMap, put, Call, Reply, spec, inserts, loads, deletes, sets_threshold, appends_key,
  sets_shares, claims, marks_used, renews, revokes, after_load, after_revoke,
}

-- No unwrap can be paid with the record's token any more.
abbrev pub Spent : Option StoredEnvelopeRecord → Type 0
Spent none = Unit {0}
Spent (some r) = r.redeem_nonce ≡ none

-- The call does not put a new record under `id`.
abbrev pub KeepsId : Bytes → Bytes → Call → Type 0
KeepsId id h (inserts r) = bytes_eq h id ≡ false
KeepsId id h _ = Unit {0}

put-Spent :
    (m : RecordMap) (h id : Bytes) (o : Option StoredEnvelopeRecord)
    → Spent (m id)
    → (Spent (m h) → Spent o)
    → Spent (put m h o id)
put-Spent m h id o spent step = elim (Bool-cases (bytes_eq h id)) [
  | inl same ↦ rw same (step (rw ((bytes_eq_iff h id).0 same) spent))
  | inr other ↦ rw other spent
]

abbrev pub answers : RecordMap → Reply → Result StoreError (RecordMap × Reply)
answers m x = ok (m, x)

abbrev map_of : RecordMap → Result StoreError (RecordMap × Reply) → RecordMap
map_of m (ok (m', x)) = m'
map_of m (err e) = m

module _ (p : Platform) (id h : Bytes) (m m' : RecordMap) (x : Reply) (spent : Spent (m id)) where
  -- a call that puts one record back
  change-Spent :
      {A : Type 0} (o : Option A) (f : A → Result StoreError (RecordMap × Reply))
      → ((a : A) → o ≡ some a → f a ≡ ok (m', x) → Spent (m' id))
      → (ok_or o handle_not_found >>= f) ≡ ok (m', x)
      → Spent (m' id)
  change-Spent o f step e =
      let (a, found, put_back) = >>=-eq-ok (ok_or o handle_not_found) f e in
      step a (ok_or-some o _ found) put_back

  became :
      (o : Option StoredEnvelopeRecord) (y : Reply)
      → (Spent (m h) → Spent o)
      → answers (put m h o) y ≡ ok (m', x)
      → Spent (m' id)
  became o y step e = rw (← ap (map_of m) e) (put-Spent m h id o spent step)

  became_of :
      (r : StoredEnvelopeRecord) (o : Option StoredEnvelopeRecord) (y : Reply)
      → (r.redeem_nonce ≡ none → Spent o)
      → m h ≡ some r
      → answers (put m h o) y ≡ ok (m', x)
      → Spent (m' id)
  became_of r o y step held e = became o y (λ s. step (subst Spent held s)) e

module _ (p : Platform) (id h : Bytes) (m m' : RecordMap) (x : Reply) (spent : Spent (m id)) where
  claim-Spent :
      (cid : Bytes) (r r' : StoredEnvelopeRecord) (c : ClaimResult)
      → claim p cid r ≡ ok (r', c)
      → r.redeem_nonce ≡ none
      → r'.redeem_nonce ≡ none
  unfolding claim
  claim-Spent cid r r' c e unspent =
      let (assignments, _, e₁) = >>=-eq-ok (ok_or r.share_assignments no_share_assignments) _ e in
      let (held, _, e₂) = >>=-eq-ok (ok_or r.held_shares no_held_shares) _ e₁ in
      let (commitments, _, e₃) =
        >>=-eq-ok (ok_or r.threshold_commitments no_threshold_commitments) _ e₂ in
      let (assignment, _, e₄) =
        >>=-eq-ok (ok_or (find_assignment cid assignments) (not_assigned cid)) _ e₃ in
      let (share, _, e₅) =
        >>=-eq-ok
          (ok_or (find_held assignment.share_index held) (index_not_held assignment.share_index)) _
          e₄ in
      let (y, _, e₆) = >>=-eq-ok (ok_or (p.b64_decode share.y_b64) decoding_share) _ e₅ in
      sym (ap nonce_of e₆) ∙ unspent
    where
      nonce_of : Result StoreError (StoredEnvelopeRecord × ClaimResult) → Option Bytes
      nonce_of (ok (r', c)) = r'.redeem_nonce
      nonce_of (err e) = r.redeem_nonce

  -- No call of the store but an insertion under the same handle makes a record unspent.
  pub spec-Spent : (c : Call) → KeepsId id h c → spec p h c m ≡ ok (m', x) → Spent (m' id)
  unfolding spec
  spec-Spent (inserts r) keeps e = rw (← ap (map_of m) e) (rw keeps spent)
  spec-Spent (loads now) keeps e = go (m h) refl e
    where
      go :
          (o : Option StoredEnvelopeRecord)
          → m h ≡ o
          → after_load now h m o ≡ ok (m', x)
          → Spent (m' id)
      go none held e = rw (← ap (map_of m) e) spent
      go (some r) held e = became_of p id h m m' x spent r _ _ (λ n. n) held e
  spec-Spent deletes keeps e = became p id h m m' x spent none _ (λ _. tt) e
  spec-Spent (sets_threshold k commitments) keeps e =
      change-Spent p id h m m' x spent (m h) _
        (λ r held e'. became_of p id h m m' x spent r _ _ (λ n. n) held e') e
  spec-Spent (appends_key entry) keeps e =
      change-Spent p id h m m' x spent (m h) _
        (λ r held e'. became_of p id h m m' x spent r _ _ (λ n. n) held e') e
  spec-Spent (sets_shares assignments held_shares) keeps e =
      change-Spent p id h m m' x spent (m h) _
        (λ r held e'. became_of p id h m m' x spent r _ _ (λ n. n) held e') e
  spec-Spent (claims cid) keeps e =
      change-Spent p id h m m' x spent (m h) _
        (λ r held e'.
          let ((r', c), claimed, put_back) = >>=-eq-ok (claim p cid r) _ e' in
          became_of p id h m m' x spent r _ _ (claim-Spent cid r r' c claimed) held put_back)
        e
  spec-Spent marks_used keeps e =
      change-Spent p id h m m' x spent (m h) _
        (λ r held e'. became_of p id h m m' x spent r _ _ (λ n. refl) held e') e
  spec-Spent (renews lease now) keeps e =
      change-Spent p id h m m' x spent (m h) _
        (λ r held e'. became_of p id h m m' x spent r _ _ (λ n. n) held e') e
  spec-Spent (revokes reason now) keeps e = go (m h) refl e
    where
      go :
          (o : Option StoredEnvelopeRecord)
          → m h ≡ o
          → after_revoke reason now h m o ≡ ok (m', x)
          → Spent (m' id)
      go none held e = rw (← ap (map_of m) e) spent
      go (some r) held e = became_of p id h m m' x spent r _ _ (λ n. refl) held e
