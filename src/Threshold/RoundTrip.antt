-- ===== src/Threshold/RoundTrip.antt =====
-- Any `threshold` shares of a split give the secret back.
use secret_broker.Base.{
  ℕ, zero, suc, ◌<◌, ◌≤◌, ◌≡◌, refl, sym, ap, ◌∙◌, subst, arith, Bytes, true, false, ◌||◌, not,
  List, [], ◌∷◌, map, length, All, All-intro, ltb, ◌==◌,
}
use mathlib.Core.List.{Memᴰ}
use secret_broker.Base.Result.{Result, ok, err, guard, guard-true, >>=-eq-ok}
use secret_broker.Threshold.P256.{Curve, IsCurve}
use secret_broker.Threshold.{
  ThresholdError, invalid_params, Share, SplitResult, canonical_secret_bytes, eval_poly,
  commitment_for_scalar, random_coeffs, coefficients, shares_from, split, validate_commitments,
  has_duplicates, reconstruct,
}
use secret_broker.Threshold.Field.{zero_add, zero_mul}
use secret_broker.Threshold.Weights.{at_zero, weigh, at_zero_ext}
use secret_broker.Threshold.Polynomial.{poly, eval_poly-poly, at_zero-poly}
use secret_broker.Threshold.Interpolation.{points, interpolate-from}
use secret_broker.Threshold.Shares.{
  IsShareOf, decode_commitments-eq, share_scalars-eq, Distinct-points, shares_from-IsShareOf,
}

module _ {Scalar Point : Type 0} (c : Curve Scalar Point) where
  length-random_coeffs : (draw : ℕ → Scalar) (k : ℕ) → length (random_coeffs c draw k) ≡ k
  unfolding random_coeffs
  length-random_coeffs draw zero = refl
  length-random_coeffs draw (suc k) = ap suc (length-random_coeffs draw k)

  pub length-coefficients :
      (secret : Bytes) (k : ℕ) (draw : ℕ → Scalar)
      → 1 ≤ k
      → length (coefficients c secret k draw) ≡ k
  unfolding coefficients
  length-coefficients secret zero draw positive = absurd (omega (arith, positive))
  length-coefficients secret (suc k) draw positive = ap suc (length-random_coeffs draw k)

  length-commitments : (ks : List Scalar) → length (map (commitment_for_scalar c) ks) ≡ length ks
  length-commitments [] = refl
  length-commitments (k ∷ ks) = ap suc (length-commitments ks)

  commitments-valid :
      (ks : List Scalar) (k : ℕ)
      → length ks ≡ k
      → 1 ≤ k
      → validate_commitments (map (commitment_for_scalar c) ks) k ≡ ok tt
  unfolding validate_commitments
  commitments-valid [] k size positive = absurd (omega (arith, size, positive))
  commitments-valid (k' ∷ ks) k size positive =
      let counted : (length (map (commitment_for_scalar c) (k' ∷ ks)) == k) ≡ true =
        ground (arith, length-commitments (k' ∷ ks)) in
      rw counted refl

module _ {Scalar Point : Type 0} {c : Curve Scalar Point} {order : ℕ} (law : IsCurve c order) where
  pub constant_term :
      (secret : Bytes) (k : ℕ) (draw : ℕ → Scalar)
      → poly c (coefficients c secret k draw) c.zero ≡ c.reduce_bytes secret
  unfolding coefficients poly
  constant_term secret zero draw =
      ap (c.add (c.reduce_bytes secret)) (zero_mul law _) ∙ law.add_zero (c.reduce_bytes secret)
  constant_term secret (suc k) draw =
      ap (c.add (c.reduce_bytes secret)) (zero_mul law _) ∙ law.add_zero (c.reduce_bytes secret)

  interpolated :
      (ks : List Scalar) (ss : List Share)
      → c.add c.zero (at_zero c (points c ss) (eval_poly c ks))
        ≡ at_zero c (points c ss) (poly c ks)
  interpolated ks ss =
      zero_add law (at_zero c (points c ss) (eval_poly c ks))
      ∙ at_zero_ext law (points c ss) (eval_poly c ks) (poly c ks)
          (All-intro (eval_poly-poly law ks) (points c ss))

  pub length-points : (ss : List Share) → length (points c ss) ≡ length ss
  length-points [] = refl
  length-points (s ∷ ss) = ap suc (length-points ss)

  -- Enough shares of one polynomial give its constant term.
  reconstruct-shares :
      (ks : List Scalar) (k : ℕ) (ss : List Share)
      → length ks ≡ k
      → 1 ≤ k
      → All (IsShareOf c ks) ss
      → All (λ s. s.x < order) ss
      → has_duplicates ss ≡ false
      → k ≤ length ss
      → reconstruct c ss k (map (commitment_for_scalar c) ks) ≡ ok (c.to_bytes (poly c ks c.zero))
  unfolding reconstruct weigh
  reconstruct-shares ks k ss size positive valid below different enough =
      let distinct = Distinct-points law ss below different in
      let found = interpolate-from law (eval_poly c ks) ss [] ss 0 c.zero refl refl distinct in
      let value =
        interpolated ks ss
        ∙ at_zero-poly law (points c ss) ks distinct
            (omega (arith, size, enough, length-points ss)) in
      let counted : ltb (length ss) k ≡ false = ground arith in
      rw
        (
          counted,
          commitments-valid c ks k size positive,
          different,
          decode_commitments-eq law ks,
          share_scalars-eq law ks ss valid,
          found,
          value,
        )
        refl

  members :
      (ks : List Scalar) (n : ℕ) (ss : List Share)
      → n < order
      → All (λ s. Memᴰ s (shares_from c ks 1 n)) ss
      → All (IsShareOf c ks) ss × All (λ s. s.x < order) ss
  members ks n [] small chosen = (tt, tt)
  members ks n (s ∷ ss) small (member, chosen) =
      let (valid, below) = shares_from-IsShareOf law ks 1 n s member in
      let (all_valid, all_below) = members ks n ss small chosen in
      ((valid, all_valid), (omega (arith, below, small), all_below))

  -- Where fewer shares are made than the group has elements, every list of shares of a successful
  -- split, with no place twice and at least as long as the threshold, is put together to the
  -- canonical form of the secret.
  pub reconstruct-split :
      (secret : Bytes) (k n : ℕ) (draw : ℕ → Scalar) (result : SplitResult) (chosen : List Share)
      → n < order
      → split c secret k n draw ≡ ok result
      → All (λ s. Memᴰ s result.shares) chosen
      → has_duplicates chosen ≡ false
      → k ≤ length chosen
      → reconstruct c chosen k result.commitments ≡ ok (canonical_secret_bytes c secret)
  unfolding split canonical_secret_bytes
  reconstruct-split secret k n draw result chosen small made picked different enough =
      let ks = coefficients c secret k draw in
      let (_, sized, made₁) = >>=-eq-ok (guard (not (ltb k 1 || ltb n k)) invalid_params) _ made in
      let (_, _, made₂) = >>=-eq-ok (guard (not (n == 0)) invalid_params) _ made₁ in
      let inside = guard-true (not (ltb k 1 || ltb n k)) _ sized in
      let positive : 1 ≤ k = ground arith in
      let handed : shares_from c ks 1 n ≡ result.shares =
        ap (λ r. (split_or result r).shares) made₂ in
      let published : map (commitment_for_scalar c) ks ≡ result.commitments =
        ap (λ r. (split_or result r).commitments) made₂ in
      let (valid, below) =
        members ks n chosen small (subst (λ l. All (λ s. Memᴰ s l) chosen) (sym handed) picked) in
      subst (λ l. reconstruct c chosen k l ≡ ok (c.to_bytes (c.reduce_bytes secret))) published
        (reconstruct-shares ks k chosen (length-coefficients c secret k draw positive) positive
            valid below different enough
          ∙ ap (λ v. ok (c.to_bytes v)) (constant_term secret k draw))
    where
      split_or : SplitResult → Result ThresholdError SplitResult → SplitResult
      split_or r (ok r') = r'
      split_or r (err e) = r
