-- ===== src/Threshold/Shares.antt =====
-- The shares of a split pass the verification against its commitments.
use secret_broker.Base.{
  ℕ, zero, suc, ◌+◌, ◌<◌, ◌≡◌, ◌≢◌, refl, sym, ap, ap₂, ◌∙◌, subst, arith, false, List, [], ◌∷◌,
  map, any, All, ◌==◌,
}
use mathlib.Core.List.{Memᴰ}
use mathlib.Core.List.Memᴰ
use secret_broker.Base.Result.{ok}
use secret_broker.Threshold.P256.{Curve, IsCurve}
use secret_broker.Threshold.{
  Share, eval_poly, commitment_for_scalar, commitment_sum, decode_commitment, decode_commitments,
  share_scalar, share_scalars, shares_from, verify_share_with_commitments, has_duplicates,
}
use secret_broker.Threshold.Field.{mul_zero, one_mul}
use secret_broker.Threshold.Weights.{Distinct}
use secret_broker.Threshold.Polynomial.{poly, eval_poly-poly}
use secret_broker.Threshold.Interpolation.{point, points}

-- The share's value is the polynomial's.
abbrev pub IsShareOf : {Scalar Point : Type 0} → Curve Scalar Point → List Scalar → Share → Type 0
IsShareOf c ks s = s.y ≡ c.to_bytes (eval_poly c ks (c.from_u64 s.x))

module _ {Scalar Point : Type 0} {c : Curve Scalar Point} {order : ℕ} (law : IsCurve c order) where
  abbrev pub committed : List Scalar → List Point
  committed ks = map (c.scale c.generator) ks

  pub decode_commitments-eq :
      (ks : List Scalar)
      → decode_commitments c (map (commitment_for_scalar c) ks) ≡ ok (committed ks)
  unfolding decode_commitments decode_commitment commitment_for_scalar
  decode_commitments-eq [] = refl
  decode_commitments-eq (k ∷ ks) =
      rw
        (
          law.length-point_to_bytes (c.scale c.generator k),
          law.point_round_trip (c.scale c.generator k),
          decode_commitments-eq ks,
        )
        refl

  add_identity : (q : Point) → c.add_points q c.identity ≡ q
  add_identity q = law.points_comm q c.identity ∙ law.identity_add q

  pub commitment_sum-eq :
      (x x_power : Scalar) (rhs : Point) (ks : List Scalar)
      → commitment_sum c x rhs x_power (committed ks)
        ≡ c.add_points rhs (c.scale c.generator (c.mul x_power (poly c ks x)))
  unfolding commitment_sum poly
  commitment_sum-eq x x_power rhs [] = sym (
      ap (c.add_points rhs)
        (ap (c.scale c.generator) (mul_zero law x_power) ∙ law.scale_zero c.generator)
      ∙ add_identity rhs)
  commitment_sum-eq x x_power rhs (k ∷ ks) =
      commitment_sum-eq x (c.mul x_power x)
        (c.add_points rhs (c.scale (c.scale c.generator k) x_power)) ks
      ∙ law.points_assoc rhs (c.scale (c.scale c.generator k) x_power) _
      ∙ ap (c.add_points rhs) (
          ap (λ q. c.add_points q (c.scale c.generator (c.mul (c.mul x_power x) (poly c ks x))))
            (law.scale_mul c.generator k x_power)
          ∙ sym
              (law.scale_add c.generator (c.mul k x_power) (c.mul (c.mul x_power x) (poly c ks x)))
          ∙ ap (c.scale c.generator) (
              ap₂ c.add (law.mul_comm k x_power) (law.mul_assoc x_power x (poly c ks x))
              ∙ sym (law.mul_add x_power k (c.mul x (poly c ks x)))))

  share_scalar-eq : (s : Share) (v : Scalar) → s.y ≡ c.to_bytes v → share_scalar c s ≡ ok v
  unfolding share_scalar
  share_scalar-eq s v e = rw (e, law.length-to_bytes v, law.from_repr_round_trip v) refl

  -- A share that is the polynomial's value at its place passes the verification against the
  -- commitments to the coefficients.
  pub verify_share-accepts :
      (ks : List Scalar) (s : Share)
      → IsShareOf c ks s
      → verify_share_with_commitments c s (committed ks) ≡ ok tt
  unfolding verify_share_with_commitments
  verify_share-accepts ks s valid =
      let x = point c s in
      let sum : c.scale c.generator (eval_poly c ks x)
          ≡ commitment_sum c x c.identity c.one (committed ks) =
        ap (c.scale c.generator) (eval_poly-poly law ks x ∙ sym (one_mul law (poly c ks x)))
        ∙ sym (law.identity_add (c.scale c.generator (c.mul c.one (poly c ks x))))
        ∙ sym (commitment_sum-eq x c.one c.identity ks) in
      rw (share_scalar-eq s (eval_poly c ks x) valid, (law.point_eq_iff _ _).1 sum) refl

  pub share_scalars-eq :
      (ks : List Scalar) (ss : List Share)
      → All (IsShareOf c ks) ss
      → share_scalars c (committed ks) ss ≡ ok (map (eval_poly c ks) (points c ss))
  unfolding share_scalars
  share_scalars-eq ks [] valid = refl
  share_scalars-eq ks (s ∷ ss) (valid, rest) =
      rw
        (
          verify_share-accepts ks s valid,
          share_scalar-eq s (eval_poly c ks (point c s)) valid,
          share_scalars-eq ks ss rest,
        )
        refl

  -- Shares at different places below the group's order have different points.
  pub Distinct-points :
      (ss : List Share)
      → All (λ s. s.x < order) ss
      → has_duplicates ss ≡ false
      → Distinct c (points c ss)
  unfolding has_duplicates any
  Distinct-points [] below different = tt
  Distinct-points (s ∷ ss) (below, rest) different =
      (apart ss rest (ground arith), Distinct-points ss rest (ground arith))
    where
      apart :
          (ts : List Share)
          → All (λ t. t.x < order) ts
          → any (λ (t : Share). s.x == t.x) ts ≡ false
          → All (λ x. point c s ≢ x) (points c ts)
      apart [] below different = tt
      apart (t ∷ ts) (here, rest) different = (
        (λ e. absurd (ground (arith, law.from_u64_injective s.x t.x below here e))),
        apart ts rest (ground arith),
      )

  -- What the split hands out at the places from `x` on.
  pub shares_from-IsShareOf :
      (ks : List Scalar) (x n : ℕ) (s : Share)
      → Memᴰ s (shares_from c ks x n)
      → IsShareOf c ks s × (s.x < x + n)
  unfolding shares_from
  shares_from-IsShareOf ks x zero s member = absurd (Memᴰ.not-nil member)
  shares_from-IsShareOf ks x (suc n) s (Memᴰ.head e) =
      (subst (IsShareOf c ks) (sym e) refl, omega (arith, ap (λ (s : Share). s.x) e))
  shares_from-IsShareOf ks x (suc n) s (Memᴰ.tail member) =
      let (valid, below) = shares_from-IsShareOf ks (x + 1) n s member in
      (valid, omega (arith, below))
