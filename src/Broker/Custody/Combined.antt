-- ===== src/Broker/Custody/Combined.antt =====
-- The shares that are combined are those that their custodians hold.
use secret_broker.Base.{
  ℕ, ◌≡◌, refl, sym, ap, subst, ◌∙◌, arith, Bytes, true, false, not, some, List, [], ◌∷◌, length,
  All, any, bytes_eq, bytes_eq_iff, ◌==◌,
}
use secret_broker.Base.Result.{ok, ok_or, guard, guard-true, ok_or-some, >>=-eq-ok}
use secret_broker.Text.{trim, is_empty}
use secret_broker.Platform.{Platform}
use secret_broker.Store.Record.{StoredEnvelopeRecord, ShareAssignment, HeldShare}
use secret_broker.Store.Ops.{find_assignment, find_held}
use secret_broker.Threshold.{Share, has_duplicates}
use secret_broker.Broker.Custody.{
  CombineSharesRequest, custodian_count, custodians_not_distinct, custodian_empty, no_assignments,
  no_held_shares, too_few_shares, not_assigned, not_claimed, repeated_index, index_not_held,
  wrong_index, wrong_share, undecodable, unique_count, enough, check_custodian, check_custodians,
  validate_combine_shares_custody,
}

-- The custodian has claimed the share, and the broker holds it for the custodian.
pub record HeldBy (p : Platform) (assignments : List ShareAssignment) (held : List HeldShare)
    (custodian_id : Bytes) (share : Share) : Type 0 where
  pub assignment : ShareAssignment
  pub assigned : find_assignment custodian_id assignments ≡ some assignment
  pub claimed : assignment.claimed ≡ true
  pub same_index : share.x ≡ assignment.share_index
  pub held_share : HeldShare
  pub is_held : find_held assignment.share_index held ≡ some held_share
  pub same_value : p.b64_decode held_share.y_b64 ≡ some share.y

abbrev pub Custodians :
    Platform → List ShareAssignment → List HeldShare → List Bytes → List Share → Type 0
Custodians p assignments held (id ∷ ids) (share ∷ shares) =
    HeldBy p assignments held id share × Custodians p assignments held ids shares
Custodians p assignments held _ _ = Unit {0}

module _ (p : Platform) (assignments : List ShareAssignment) (held : List HeldShare) where
  check_custodian-HeldBy :
      (seen : List ℕ) (id : Bytes) (share : Share) (index : ℕ)
      → check_custodian p assignments held seen id share ≡ ok index
      → HeldBy p assignments held id share
        × (index ≡ share.x)
        × (any (λ i. i == share.x) seen ≡ false)
  unfolding check_custodian
  check_custodian-HeldBy seen id share index h =
      let (assignment, assigned, h₁) =
        >>=-eq-ok (ok_or (find_assignment id assignments) (not_assigned id)) _ h in
      let at = assignment.share_index in
      let (_, claimed, h₂) = >>=-eq-ok (guard assignment.claimed (not_claimed id)) _ h₁ in
      let (_, fresh, h₃) =
        >>=-eq-ok (guard (not (any (λ i. i == at) seen)) (repeated_index at)) _ h₂ in
      let (_, indexed, h₄) = >>=-eq-ok (guard (share.x == at) (wrong_index id)) _ h₃ in
      let (held_share, is_held, h₅) =
        >>=-eq-ok (ok_or (find_held at held) (index_not_held at)) _ h₄ in
      let (y, decoded, h₆) = >>=-eq-ok (ok_or (p.b64_decode held_share.y_b64) undecodable) _ h₅ in
      let (_, valued, h₇) = >>=-eq-ok (guard (bytes_eq share.y y) (wrong_share id)) _ h₆ in
      let same : share.x ≡ at = let e = guard-true _ _ indexed in ground arith in
      let value : share.y ≡ y = (bytes_eq_iff share.y y).0 (guard-true _ _ valued) in
      let new : any (λ i. i == at) seen ≡ false = let e = guard-true _ _ fresh in ground arith in
      (
        record {
          assignment = assignment;
          assigned = ok_or-some _ _ assigned;
          claimed = guard-true _ _ claimed;
          same_index = same;
          held_share = held_share;
          is_held = ok_or-some _ _ is_held;
          same_value = ok_or-some _ _ decoded ∙ ap some (sym value);
        },
        cc,
        ap (λ k. any (λ i. i == k) seen) same ∙ new,
      )

  -- The custodians' shares are other than those seen before, and than each other.
  fresh_tail :
      (share : Share) (seen : List ℕ) (shares : List Share)
      → All (λ t. any (λ i. i == t.x) (share.x ∷ seen) ≡ false) shares
      → All (λ t. any (λ i. i == t.x) seen ≡ false) shares
        × (any (λ (t : Share). share.x == t.x) shares ≡ false)
  unfolding any
  fresh_tail share seen [] fresh = (tt, refl)
  fresh_tail share seen (t ∷ ts) (fresh, rest) =
      let (others, apart) = fresh_tail share seen ts rest in ((ground arith, others), ground arith)

  pub check_custodians-Custodians :
      (seen : List ℕ) (ids : List Bytes) (shares out : List Share)
      → length ids ≡ length shares
      → check_custodians p assignments held seen ids shares ≡ ok out
      → (out ≡ shares)
        × Custodians p assignments held ids shares
        × All (λ t. any (λ i. i == t.x) seen ≡ false) shares
        × (has_duplicates shares ≡ false)
  unfolding check_custodians has_duplicates
  check_custodians-Custodians seen [] [] out same h = (cc, tt, tt, refl)
  check_custodians-Custodians seen (id ∷ ids) (share ∷ shares) out same h =
      let (index, here, h₁) = >>=-eq-ok (check_custodian p assignments held seen id share) _ h in
      let (is_held, at, fresh) = check_custodian-HeldBy seen id share index here in
      let (rest, there, h₂) =
        >>=-eq-ok (check_custodians p assignments held (index ∷ seen) ids shares) _ h₁ in
      let (is_rest, are_held, others, distinct) =
        check_custodians-Custodians (index ∷ seen) ids shares rest (omega arith) there in
      let (others', apart) =
        fresh_tail share seen shares
          (subst (λ i. All (λ t. any (λ k. k == t.x) (i ∷ seen) ≡ false) shares) at others) in
      (cc, (is_held, are_held), (fresh, others'), ground arith)
  check_custodians-Custodians seen [] (share ∷ shares) out same h = absurd (omega arith)
  check_custodians-Custodians seen (id ∷ ids) [] out same h = absurd (omega arith)

-- What the recovery accepted: every share is the one its custodian claimed and the broker holds.
pub record Combined (p : Platform) (r : StoredEnvelopeRecord) (req : CombineSharesRequest)
    : Type 0 where
  pub assignments : List ShareAssignment
  pub are_assigned : r.share_assignments ≡ some assignments
  pub held : List HeldShare
  pub are_held : r.held_shares ≡ some held
  pub custodians : Custodians p assignments held req.custodian_ids req.shares
  pub different : has_duplicates req.shares ≡ false
  pub distinct : unique_count req.custodian_ids ≡ length req.custodian_ids
  pub sufficient : enough r.threshold req.shares ≡ true

-- The shares that validate_combine_shares_custody accepts are all of the request's, as many as the
-- record's threshold or more and of different indices, from different custodians, and each is the
-- share that its custodian has claimed and that the broker holds at the custodian's index.
pub validate_combine_shares_custody-Combined :
    (p : Platform) (r : StoredEnvelopeRecord) (req : CombineSharesRequest) (shares : List Share)
    → validate_combine_shares_custody p r req ≡ ok shares
    → (shares ≡ req.shares) × Combined p r req
unfolding validate_combine_shares_custody
validate_combine_shares_custody-Combined p r req shares h =
    let ids = req.custodian_ids in
    let (_, counted, h₁) =
      >>=-eq-ok (guard (length ids == length req.shares) custodian_count) _ h in
    let (_, unique, h₂) =
      >>=-eq-ok (guard (unique_count ids == length req.shares) custodians_not_distinct) _ h₁ in
    let (_, named, h₃) =
      >>=-eq-ok (guard (not (any (λ id. is_empty (trim id)) ids)) custodian_empty) _ h₂ in
    let (assignments, are_assigned, h₄) =
      >>=-eq-ok (ok_or r.share_assignments no_assignments) _ h₃ in
    let (held, are_held, h₅) = >>=-eq-ok (ok_or r.held_shares no_held_shares) _ h₄ in
    let (_, sufficient, h₆) =
      >>=-eq-ok (guard (enough r.threshold req.shares) too_few_shares) _ h₅ in
    let same : length ids ≡ length req.shares = let e = guard-true _ _ counted in ground arith in
    let unique' : unique_count ids ≡ length req.shares =
      let e = guard-true _ _ unique in ground arith in
    let (all, custodians, _, different) =
      check_custodians-Custodians p assignments held [] ids req.shares shares same h₆ in
    (
      all,
      record {
        assignments = assignments;
        are_assigned = ok_or-some _ _ are_assigned;
        held = held;
        are_held = ok_or-some _ _ are_held;
        custodians = custodians;
        different = different;
        distinct = unique' ∙ sym same;
        sufficient = guard-true _ _ sufficient;
      },
    )
