-- ===== src/Threshold/Polynomial.antt =====
-- Interpolation at zero gives a polynomial's constant term.
use secret_broker.Base.{
  ℕ, suc, ◌≤◌, ◌≡◌, refl, sym, ap, ap₂, ◌∙◌, arith, List, [], ◌∷◌, ◌++◌, reverse, length, All-intro,
}
use mathlib.Core.List.{reverse-cons}
use secret_broker.Threshold.P256.{Curve, IsCurve}
use secret_broker.Threshold.{eval_steps, eval_poly}
use secret_broker.Threshold.Field.{
  add_left_comm, mul_left_comm, add_mul, zero_add, add_cancel, mul_zero, sub-distinct, mul_cancel,
}
use secret_broker.Threshold.Weights.{
  at_zero, weigh, Distinct, at_zero_ext, at_zero_swap, at_zero_root, at_zero_add, at_zero_scale,
}

module _ {Scalar Point : Type 0} (c : Curve Scalar Point) where
  -- The value of a polynomial, from the constant term on.
  unfoldable pub poly : List Scalar → Scalar → Scalar
  poly [] z = c.zero
  poly (k ∷ ks) z = c.add k (c.mul z (poly ks z))

  -- the quotient by `a - z`, up to the sign
  unfoldable quotient : Scalar → List Scalar → List Scalar
  quotient a [] = []
  quotient a (k ∷ []) = []
  quotient a (k ∷ k' ∷ ks) = poly (k' ∷ ks) a ∷ quotient a (k' ∷ ks)

module _ {Scalar Point : Type 0} {c : Curve Scalar Point} {order : ℕ} (law : IsCurve c order) where
  eval_steps-append :
      (x r k : Scalar) (ks : List Scalar)
      → eval_steps c x r (ks ++ k ∷ []) ≡ c.add (c.mul (eval_steps c x r ks) x) k
  unfolding eval_steps
  eval_steps-append x r k [] = refl
  eval_steps-append x r k (k' ∷ ks) = eval_steps-append x (c.add (c.mul r x) k') k ks

  -- Horner's rule gives the value of the polynomial.
  pub eval_poly-poly : (ks : List Scalar) (x : Scalar) → eval_poly c ks x ≡ poly c ks x
  unfolding eval_poly eval_steps poly
  eval_poly-poly [] x = refl
  eval_poly-poly (k ∷ ks) x =
      ap (eval_steps c x c.zero) (reverse-cons k ks)
      ∙ eval_steps-append x c.zero k (reverse ks)
      ∙ ap (λ u. c.add (c.mul u x) k) (eval_poly-poly ks x)
      ∙ law.add_comm (c.mul (poly c ks x) x) k
      ∙ ap (c.add k) (law.mul_comm (poly c ks x) x)

  split_off : (a z : Scalar) → a ≡ c.add (c.sub a z) z
  split_off a z = sym (law.sub_add a z)

  distribute :
      (k d z u v : Scalar)
      → c.add k (c.mul (c.add d z) (c.add u (c.mul d v)))
        ≡ c.add (c.add k (c.mul z u)) (c.mul d (c.add (c.add u (c.mul d v)) (c.mul z v)))
  distribute k d z u v =
      simp (law.mul_add, add_mul law, law.add_assoc, add_left_comm law, mul_left_comm law) refl

  poly-quotient :
      (a z : Scalar) (ks : List Scalar)
      → poly c ks a ≡ c.add (poly c ks z) (c.mul (c.sub a z) (poly c (quotient c a ks) z))
  unfolding poly quotient
  poly-quotient a z [] = sym (zero_add law _ ∙ mul_zero law (c.sub a z))
  poly-quotient a z (k ∷ []) =
      ap (c.add k) (mul_zero law a)
      ∙ sym (
          ap₂ c.add (ap (c.add k) (mul_zero law z)) (mul_zero law (c.sub a z))
          ∙ law.add_zero (c.add k c.zero))
  poly-quotient a z (k ∷ k' ∷ ks) =
      let below = poly-quotient a z (k' ∷ ks) in
      let d = c.sub a z in
      let v = poly c (quotient c a (k' ∷ ks)) z in
      ap (c.add k) (ap₂ c.mul (split_off a z) below)
      ∙ distribute k d z (poly c (k' ∷ ks) z) v
      ∙ ap (λ u. c.add (c.add k (c.mul z (poly c (k' ∷ ks) z))) (c.mul d (c.add u (c.mul z v))))
          (sym below)

  length-quotient : (a k : Scalar) (ks : List Scalar) → length (quotient c a (k ∷ ks)) ≡ length ks
  unfolding quotient
  length-quotient a k [] = refl
  length-quotient a k (k' ∷ ks) = ap suc (length-quotient a k' ks)

  shifted : (a b z : Scalar) → c.sub b z ≡ c.add (c.sub b a) (c.sub a z)
  shifted a b z = add_cancel law (c.sub b z) (c.add (c.sub b a) (c.sub a z)) z (
      law.sub_add b z
      ∙ sym (law.sub_add b a)
      ∙ ap (c.add (c.sub b a)) (sym (law.sub_add a z))
      ∙ sym (law.add_assoc (c.sub b a) (c.sub a z) z))

  -- The weights of distinct points sum to one.
  at_zero_one :
      (a : Scalar) (xs : List Scalar)
      → Distinct c (a ∷ xs)
      → at_zero c (a ∷ xs) (λ z. c.one) ≡ c.one
  unfolding at_zero weigh
  at_zero_one a [] distinct = law.add_zero c.one
  at_zero_one a (b ∷ xs) ((apart, a_apart), (b_apart, rest)) =
      let u = c.sub b a in
      let total = at_zero c (a ∷ b ∷ xs) (λ z. c.one) in
      let at_a : at_zero c (a ∷ b ∷ xs) (λ z. c.mul (c.sub a z) c.one) ≡ c.mul a c.one =
        at_zero_root law a (b ∷ xs) (λ z. c.one) (apart, a_apart)
        ∙ ap (c.mul a) (at_zero_one b xs (b_apart, rest)) in
      let at_b : at_zero c (a ∷ b ∷ xs) (λ z. c.mul (c.sub b z) c.one) ≡ c.mul b c.one =
        at_zero_swap law a b xs (λ z. c.mul (c.sub b z) c.one)
        ∙ at_zero_root law b (a ∷ xs) (λ z. c.one) ((λ e. apart (sym e)), b_apart)
        ∙ ap (c.mul b) (at_zero_one a xs (a_apart, rest)) in
      let sum : at_zero c (a ∷ b ∷ xs) (λ z. c.mul (c.sub b z) c.one)
          ≡ c.add (c.mul u total) (c.mul a c.one) =
        at_zero_ext law (a ∷ b ∷ xs) (λ z. c.mul (c.sub b z) c.one)
          (λ z. c.add (c.mul u c.one) (c.mul (c.sub a z) c.one))
          (All-intro
            (λ z. ap (λ w. c.mul w c.one) (shifted a b z) ∙ add_mul law u (c.sub a z) c.one)
            (a ∷ b ∷ xs))
        ∙ at_zero_add law (a ∷ b ∷ xs) (λ z. c.mul u c.one) (λ z. c.mul (c.sub a z) c.one)
        ∙ ap₂ c.add (at_zero_scale law (a ∷ b ∷ xs) u (λ z. c.one)) at_a in
      mul_cancel law u total c.one (sub-distinct law b a (λ e. apart (sym e))) (
        add_cancel law (c.mul u total) (c.mul u c.one) (c.mul a c.one) (
          sym sum ∙ at_b ∙ ap (λ w. c.mul w c.one) (sym (law.sub_add b a)) ∙ add_mul law u a c.one))

  length-quotient_le :
      (a : Scalar) (ks xs : List Scalar)
      → length ks ≤ length (a ∷ xs)
      → length (quotient c a ks) ≤ length xs
  unfolding quotient
  length-quotient_le a [] xs below = omega arith
  length-quotient_le a (k ∷ ks) xs below = omega (arith, below, length-quotient a k ks)

  sub_zero : (a : Scalar) → c.sub a c.zero ≡ a
  sub_zero a = sym (law.add_zero (c.sub a c.zero)) ∙ law.sub_add a c.zero

  -- The value at zero of a polynomial with at most as many coefficients as there are points.
  pub at_zero-poly :
      (xs ks : List Scalar)
      → Distinct c xs
      → length ks ≤ length xs
      → at_zero c xs (poly c ks) ≡ poly c ks c.zero
  unfolding at_zero poly
  at_zero-poly [] [] distinct below = refl
  at_zero-poly [] (k ∷ ks) distinct below = absurd (omega (arith, below))
  at_zero-poly (a ∷ xs) ks distinct below =
      let qs = quotient c a ks in
      let fa = poly c ks a in
      let rest = at_zero-poly xs qs distinct.1 (length-quotient_le a ks xs below) in
      let split : (z : Scalar)
          → c.mul fa c.one ≡ c.add (poly c ks z) (c.mul (c.sub a z) (poly c qs z)) =
        λ z. law.mul_one fa ∙ poly-quotient a z ks in
      let here = c.mul a (poly c qs c.zero) in
      let sum : c.mul fa c.one ≡ c.add (at_zero c (a ∷ xs) (poly c ks)) here =
        ap (c.mul fa) (sym (at_zero_one a xs distinct))
        ∙ sym (at_zero_scale law (a ∷ xs) fa (λ z. c.one))
        ∙ at_zero_ext law (a ∷ xs) (λ z. c.mul fa c.one)
            (λ z. c.add (poly c ks z) (c.mul (c.sub a z) (poly c qs z))) (All-intro split (a ∷ xs))
        ∙ at_zero_add law (a ∷ xs) (poly c ks) (λ z. c.mul (c.sub a z) (poly c qs z))
        ∙ ap (c.add (at_zero c (a ∷ xs) (poly c ks)))
            (at_zero_root law a xs (poly c qs) distinct.0 ∙ ap (c.mul a) rest) in
      add_cancel law (at_zero c (a ∷ xs) (poly c ks)) (poly c ks c.zero) here (
        sym sum
        ∙ split c.zero
        ∙ ap (λ w. c.add (poly c ks c.zero) (c.mul w (poly c qs c.zero))) (sub_zero a))
