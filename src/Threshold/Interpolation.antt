-- ===== src/Threshold/Interpolation.antt =====
-- The loops of `reconstruct` compute the interpolation at zero.
use secret_broker.Base.{
  ℕ, ◌+◌, ◌<◌, ◌≡◌, ◌≢◌, refl, sym, ap, ap₂, ◌∙◌, subst, arith, true, false, List, [], ◌∷◌, ◌++◌,
  map, length, length-append, All, All-intro, ◌==◌,
}
use mathlib.Core.List.{append_assoc}
use secret_broker.Base.Result.{ok}
use secret_broker.Threshold.P256.{Curve, IsCurve}
use secret_broker.Threshold.{Share, lagrange, interpolate}
use secret_broker.Threshold.Field.{
  inverse, mul_left_comm, sub-distinct, mul-inverse, invert-inverse, mul-nonzero,
}
use secret_broker.Threshold.Weights.{weigh, at_zero, ratio, Distinct, weigh-scale, at_zero_ext}

module _ {Scalar Point : Type 0} (c : Curve Scalar Point) where
  abbrev pub point : Share → Scalar
  point s = c.from_u64 s.x

  abbrev pub points : List Share → List Scalar
  points [] = []
  points (s ∷ ss) = point s ∷ points ss

  -- The first number is the product of the second, which is not zero, with `w`.
  abbrev Quotient : Scalar × Scalar → Scalar → Type 0
  Quotient (n, d) w = (n ≡ c.mul d w) × (d ≢ c.zero)

module _ {Scalar Point : Type 0} {c : Curve Scalar Point} {order : ℕ} (law : IsCurve c order) where
  regroup :
      (d s w x i : Scalar)
      → c.mul (c.mul d s) (c.mul w (c.mul x i)) ≡ c.mul (c.mul (c.mul d w) x) (c.mul s i)
  regroup d s w x i = simp (law.mul_assoc, mul_left_comm law) refl

  Quotient-step :
      (n d w x xi : Scalar)
      → xi ≢ x
      → Quotient c (n, d) w
      → Quotient c (c.mul n x, c.mul d (c.sub x xi)) (c.mul w (ratio c x xi))
  Quotient-step n d w x xi apart (product, nonzero) =
      let gap = sub-distinct law x xi (λ e. apart (sym e)) in
      (
        ap (λ u. c.mul u x) product
            ∙ sym (law.mul_one (c.mul (c.mul d w) x))
            ∙ ap (c.mul (c.mul (c.mul d w) x)) (sym (mul-inverse law (c.sub x xi) gap))
            ∙ sym (regroup d (c.sub x xi) w x (inverse c (c.sub x xi))),
        mul-nonzero law d (c.sub x xi) nonzero gap,
      )

  -- the loop behind the share's own place
  lagrange-after :
      (i j : ℕ) (xi n d w : Scalar) (others : List Share)
      → i < j
      → All (λ x. xi ≢ x) (points c others)
      → Quotient c (n, d) w
      → Quotient c (lagrange c i xi j n d others) (weigh c xi w (points c others))
  unfolding lagrange weigh
  lagrange-after i j xi n d w [] past apart q = q
  lagrange-after i j xi n d w (t ∷ others) past (apart, rest) q =
      let other : (i == j) ≡ false = ground arith in
      rw other (
        lagrange-after i (j + 1) xi (c.mul n (point c t)) (c.mul d (c.sub (point c t) xi))
          (c.mul w (ratio c (point c t) xi)) others (omega (arith, past)) rest
          (Quotient-step n d w (point c t) xi apart q))

  -- The whole loop, for the share after `before`.
  lagrange-at :
      (i j : ℕ) (xi n d w : Scalar) (before : List Share) (s : Share) (after : List Share)
      → i ≡ j + length before
      → All (λ x. xi ≢ x) (points c before)
      → All (λ x. xi ≢ x) (points c after)
      → Quotient c (n, d) w
      → Quotient c
          (lagrange c i xi j n d (before ++ s ∷ after))
          (weigh c xi (weigh c xi w (points c before)) (points c after))
  unfolding lagrange weigh
  lagrange-at i j xi n d w [] s after place apart apart' q =
      let own : (i == j) ≡ true = ground arith in
      rw own (lagrange-after i (j + 1) xi n d w after (omega (arith, place)) apart' q)
  lagrange-at i j xi n d w (t ∷ before) s after place (apart, rest) apart' q =
      let other : (i == j) ≡ false = ground arith in
      rw other (
        lagrange-at i (j + 1) xi (c.mul n (point c t)) (c.mul d (c.sub (point c t) xi))
          (c.mul w (ratio c (point c t) xi)) before s after (omega (arith, place)) rest apart'
          (Quotient-step n d w (point c t) xi apart q))

  -- In a list of distinct points, one differs from those before and after.
  Distinct-apart :
      (before : List Share) (s : Share) (after : List Share)
      → Distinct c (points c (before ++ s ∷ after))
      → All (λ x. point c s ≢ x) (points c before) × All (λ x. point c s ≢ x) (points c after)
  Distinct-apart [] s after distinct = (tt, distinct.0)
  Distinct-apart (t ∷ before) s after (apart, rest) =
      let (ahead, behind) = Distinct-apart before s after rest in
      (((λ e. middle before apart (sym e)), ahead), behind)
    where
      middle :
          (ss : List Share)
          → All (λ x. point c t ≢ x) (points c (ss ++ s ∷ after))
          → point c t ≢ point c s
      middle [] (first, more) = first
      middle (u ∷ ss) (first, more) = middle ss more

  weigh-append :
      (z w : Scalar) (ss : List Share) (s : Share)
      → weigh c z w (points c (ss ++ s ∷ []))
        ≡ c.mul (weigh c z w (points c ss)) (ratio c (point c s) z)
  unfolding weigh
  weigh-append z w [] s = refl
  weigh-append z w (t ∷ ss) s = weigh-append z (c.mul w (ratio c (point c t) z)) ss s

  -- one share's summand
  summand : (y n d w : Scalar) → Quotient c (n, d) w → c.mul (c.mul y n) (inverse c d) ≡ c.mul y w
  summand y n d w (product, nonzero) =
      ap (λ u. c.mul (c.mul y u) (inverse c d)) product
      ∙ rearrange (inverse c d)
      ∙ ap (c.mul (c.mul y w)) (mul-inverse law d nonzero)
      ∙ law.mul_one (c.mul y w)
    where
      rearrange : (v : Scalar) → c.mul (c.mul y (c.mul d w)) v ≡ c.mul (c.mul y w) (c.mul d v)
      rearrange v = simp (law.mul_assoc, mul_left_comm law) refl

  -- From the share after `before` on, the outer loop adds the interpolation at zero of the values
  -- that the earlier shares have weighed.
  pub interpolate-from :
      (g : Scalar → Scalar) (all before ss : List Share) (i : ℕ) (secret : Scalar)
      → i ≡ length before
      → all ≡ before ++ ss
      → Distinct c (points c all)
      → interpolate c all i secret ss (map g (points c ss))
        ≡ ok (c.add secret (at_zero c (points c ss) (λ z. weigh c z (g z) (points c before))))
  unfolding interpolate at_zero
  interpolate-from g all before [] i secret place parts distinct = ap ok (sym (law.add_zero secret))
  interpolate-from g all before (s ∷ ss) i secret place parts distinct =
      let x = point c s in
      let (apart, apart') =
        Distinct-apart before s ss (subst (λ l. Distinct c (points c l)) parts distinct) in
      let weight = weigh c x (weigh c x c.one (points c before)) (points c ss) in
      let fraction : Quotient c (lagrange c i x 0 c.one c.one all) weight =
        subst (λ l. Quotient c (lagrange c i x 0 c.one c.one l) weight) (sym parts)
          (lagrange-at i 0 x c.one c.one c.one before s ss (omega (arith, place)) apart apart'
            (sym (law.mul_one c.one), law.one_nonzero)) in
      let n = (lagrange c i x 0 c.one c.one all).0 in
      let d = (lagrange c i x 0 c.one c.one all).1 in
      let added : c.mul (c.mul (g x) n) (inverse c d)
          ≡ weigh c x (weigh c x (g x) (points c before)) (points c ss) =
        summand (g x) n d weight fraction
        ∙ sym (weigh-scale law x (g x) (weigh c x c.one (points c before)) (points c ss))
        ∙ ap (λ w. weigh c x w (points c ss))
            (sym (weigh-scale law x (g x) c.one (points c before))
              ∙ ap (λ w. weigh c x w (points c before)) (law.mul_one (g x))) in
      let next =
        interpolate-from g all (before ++ s ∷ []) ss (i + 1)
          (c.add secret (c.mul (c.mul (g x) n) (inverse c d)))
          (omega (arith, place, length-append before (s ∷ [])))
          (parts ∙ sym (append_assoc before (s ∷ []) ss)) distinct in
      let values = λ (l : List Share) (z : Scalar). weigh c z (g z) (points c l) in
      let sum =
        law.add_assoc secret (c.mul (c.mul (g x) n) (inverse c d))
          (at_zero c (points c ss) (values (before ++ s ∷ [])))
        ∙ ap (c.add secret) (
            ap₂ c.add added (
              at_zero_ext law (points c ss) (values (before ++ s ∷ []))
                (λ z. c.mul (values before z) (ratio c x z))
                (All-intro (λ z. weigh-append z (g z) before s) (points c ss)))) in
      rw (invert-inverse law d fraction.1) (next ∙ ap ok sum)
