-- ===== src/Threshold/Soundness.antt =====
-- Against the commitments of a split, `reconstruct` gives the secret or an error, whatever shares
-- it receives.
use secret_broker.Base.{
  ℕ, ◌<◌, ◌≤◌, ◌≡◌, refl, sym, ap, ap₂, ◌∙◌, subst, arith, Bytes, ◌||◌, not, List, [], ◌∷◌, map,
  length, All, ltb, ◌==◌,
}
use secret_broker.Base.Result.{Result, ok, err, guard, guard-true, >>=-eq-ok}
use secret_broker.Threshold.P256.{Curve, IsCurve}
use secret_broker.Threshold.{
  ThresholdError, invalid_params, insufficient_shares, duplicate_shares, Share, SplitResult,
  canonical_secret_bytes, commitment_for_scalar, commitment_sum, coefficients, split,
  validate_commitments, has_duplicates, decode_commitments, share_scalar, share_scalars,
  verify_share_with_commitments, interpolate, reconstruct,
}
use secret_broker.Threshold.Field.{zero_add, one_mul}
use secret_broker.Threshold.Weights.{at_zero, weigh}
use secret_broker.Threshold.Polynomial.{poly, at_zero-poly}
use secret_broker.Threshold.Interpolation.{point, points, interpolate-from}
use secret_broker.Threshold.Shares.{
  committed, commitment_sum-eq, decode_commitments-eq, Distinct-points,
}
use secret_broker.Threshold.RoundTrip.{length-coefficients, length-points, constant_term}

module _ {Scalar Point : Type 0} {c : Curve Scalar Point} {order : ℕ} (law : IsCurve c order) where
  abbrev value_or : {A : Type 0} → A → Result ThresholdError A → A
  value_or a (ok b) = b
  value_or a (err e) = a

  -- A share that the commitments accept is on the polynomial.
  accepted-poly :
      (ks : List Scalar) (s : Share) (y : Scalar)
      → verify_share_with_commitments c s (committed law ks) ≡ ok tt
      → share_scalar c s ≡ ok y
      → y ≡ poly c ks (point c s)
  unfolding verify_share_with_commitments
  accepted-poly ks s y verified decoded =
      let (y', here, tested) = >>=-eq-ok (share_scalar c s) _ verified in
      let same : y' ≡ y = ap (value_or y') (sym here ∙ decoded) in
      let equal =
        (law.point_eq_iff (c.scale c.generator y')
            (commitment_sum c (point c s) c.identity c.one (committed law ks))).0
          (guard-true _ _ tested) in
      sym same
      ∙ law.generator_injective y' (poly c ks (point c s)) (
          equal
          ∙ commitment_sum-eq law (point c s) c.one c.identity ks
          ∙ law.identity_add _
          ∙ ap (c.scale c.generator) (one_mul law (poly c ks (point c s))))

  share_scalars-poly :
      (ks : List Scalar) (ss : List Share) (ys : List Scalar)
      → share_scalars c (committed law ks) ss ≡ ok ys
      → ys ≡ map (poly c ks) (points c ss)
  unfolding share_scalars
  share_scalars-poly ks [] ys h = sym (ap (value_or ys) h)
  share_scalars-poly ks (s ∷ ss) ys h =
      let (_, verified, h₁) =
        >>=-eq-ok (verify_share_with_commitments c s (committed law ks)) _ h in
      let (y, decoded, h₂) = >>=-eq-ok (share_scalar c s) _ h₁ in
      let (rest, decoded_rest, h₃) = >>=-eq-ok (share_scalars c (committed law ks) ss) _ h₂ in
      sym (ap (value_or ys) h₃)
      ∙ ap₂ (λ u us. u ∷ us) (accepted-poly ks s y verified decoded)
          (share_scalars-poly ks ss rest decoded_rest)

  reconstruct-poly :
      (ks : List Scalar) (k : ℕ) (ss : List Share) (out : Bytes)
      → length ks ≡ k
      → All (λ s. s.x < order) ss
      → reconstruct c ss k (map (commitment_for_scalar c) ks) ≡ ok out
      → out ≡ c.to_bytes (poly c ks c.zero)
  unfolding reconstruct weigh
  reconstruct-poly ks k ss out size below h =
      let commitments = map (commitment_for_scalar c) ks in
      let (_, counted, h₁) =
        >>=-eq-ok (guard (not (ltb (length ss) k)) (insufficient_shares k (length ss))) _ h in
      let (_, _, h₂) = >>=-eq-ok (validate_commitments commitments k) _ h₁ in
      let (_, single, h₃) = >>=-eq-ok (guard (not (has_duplicates ss)) duplicate_shares) _ h₂ in
      let (decoded, decodes, h₄) = >>=-eq-ok (decode_commitments c commitments) _ h₃ in
      let (ys, valid, h₅) = >>=-eq-ok (share_scalars c decoded ss) _ h₄ in
      let (secret, sum, h₆) = >>=-eq-ok (interpolate c ss 0 c.zero ss ys) _ h₅ in
      let points_same : decoded ≡ committed law ks =
        ap (value_or decoded) (sym decodes ∙ decode_commitments-eq law ks) in
      let on_poly =
        share_scalars-poly ks ss ys (subst (λ l. share_scalars c l ss ≡ ok ys) points_same valid) in
      let enough = guard-true (not (ltb (length ss) k)) _ counted in
      let no_duplicates = guard-true (not (has_duplicates ss)) _ single in
      let distinct = Distinct-points law ss below (ground arith) in
      let found = interpolate-from law (poly c ks) ss [] ss 0 c.zero refl refl distinct in
      let same : secret ≡ poly c ks c.zero =
        ap (value_or secret) (sym sum ∙ ap (interpolate c ss 0 c.zero ss) on_poly ∙ found)
        ∙ zero_add law (at_zero c (points c ss) (poly c ks))
        ∙ at_zero-poly law (points c ss) ks distinct (
            let fits : k ≤ length ss = ground arith in
            omega (arith, size, fits, length-points law ss)) in
      sym (ap (value_or out) h₆) ∙ ap c.to_bytes same

  -- Against the commitments of a split, shares whose places are below the group's order are put
  -- together to the canonical form of the secret or refused, whoever made them.
  pub reconstruct_sound :
      (secret : Bytes) (k n : ℕ) (draw : ℕ → Scalar) (result : SplitResult) (given : List Share)
      (out : Bytes)
      → split c secret k n draw ≡ ok result
      → All (λ s. s.x < order) given
      → reconstruct c given k result.commitments ≡ ok out
      → out ≡ canonical_secret_bytes c secret
  unfolding split canonical_secret_bytes
  reconstruct_sound secret k n draw result given out made below h =
      let ks = coefficients c secret k draw in
      let (_, sized, made₁) = >>=-eq-ok (guard (not (ltb k 1 || ltb n k)) invalid_params) _ made in
      let (_, _, made₂) = >>=-eq-ok (guard (not (n == 0)) invalid_params) _ made₁ in
      let inside = guard-true (not (ltb k 1 || ltb n k)) _ sized in
      let positive : 1 ≤ k = ground arith in
      let published : map (commitment_for_scalar c) ks ≡ result.commitments =
        ap (λ r. (value_or result r).commitments) made₂ in
      reconstruct-poly ks k given out (length-coefficients c secret k draw positive) below
        (subst (λ l. reconstruct c given k l ≡ ok out) (sym published) h)
      ∙ ap c.to_bytes (constant_term law secret k draw)
