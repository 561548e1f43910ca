-- ===== src/Threshold/Field.antt =====
-- The laws of the scalar field that the theorems on polynomials use.
use secret_broker.Base.{ℕ, ◌≡◌, ◌≢◌, refl, sym, ap, ◌∙◌, Option, none, some}
use secret_broker.Threshold.P256.{Curve, IsCurve}

module _ {Scalar Point : Type 0} (c : Curve Scalar Point) where
  abbrev pub or_zero : Option Scalar → Scalar
  or_zero none = c.zero
  or_zero (some x) = x

  abbrev pub inverse : Scalar → Scalar
  inverse x = or_zero (c.invert x)

module _ {Scalar Point : Type 0} {c : Curve Scalar Point} {order : ℕ} (law : IsCurve c order) where
  pub add_left_comm : (x y z : Scalar) → c.add x (c.add y z) ≡ c.add y (c.add x z)
  add_left_comm x y z = rw (← law.add_assoc, law.add_comm x y, law.add_assoc) refl

  pub mul_left_comm : (x y z : Scalar) → c.mul x (c.mul y z) ≡ c.mul y (c.mul x z)
  mul_left_comm x y z = rw (← law.mul_assoc, law.mul_comm x y, law.mul_assoc) refl

  pub add_mul : (x y z : Scalar) → c.mul (c.add x y) z ≡ c.add (c.mul x z) (c.mul y z)
  add_mul x y z =
      law.mul_comm (c.add x y) z
      ∙ law.mul_add z x y
      ∙ ap (λ u. c.add u (c.mul z y)) (law.mul_comm z x)
      ∙ ap (c.add (c.mul x z)) (law.mul_comm z y)

  pub zero_add : (x : Scalar) → c.add c.zero x ≡ x
  zero_add x = law.add_comm c.zero x ∙ law.add_zero x

  pub one_mul : (x : Scalar) → c.mul c.one x ≡ x
  one_mul x = law.mul_comm c.one x ∙ law.mul_one x

  pub add_cancel : (x y z : Scalar) → c.add x z ≡ c.add y z → x ≡ y
  add_cancel x y z e = sym (undo x) ∙ ap (λ u. c.add u (c.sub c.zero z)) e ∙ undo y
    where
      undo : (u : Scalar) → c.add (c.add u z) (c.sub c.zero z) ≡ u
      undo u =
          law.add_assoc u z (c.sub c.zero z)
          ∙ ap (c.add u) (law.add_comm z (c.sub c.zero z) ∙ law.sub_add c.zero z)
          ∙ law.add_zero u

  pub mul_zero : (x : Scalar) → c.mul x c.zero ≡ c.zero
  mul_zero x = add_cancel (c.mul x c.zero) c.zero (c.mul x c.zero) (
      sym (law.mul_add x c.zero c.zero)
      ∙ ap (c.mul x) (law.add_zero c.zero)
      ∙ sym (zero_add (c.mul x c.zero)))

  pub zero_mul : (x : Scalar) → c.mul c.zero x ≡ c.zero
  zero_mul x = law.mul_comm c.zero x ∙ mul_zero x

  pub sub_self : (x : Scalar) → c.sub x x ≡ c.zero
  sub_self x = add_cancel (c.sub x x) c.zero x (law.sub_add x x ∙ sym (zero_add x))

  pub sub-distinct : (x y : Scalar) → x ≢ y → c.sub x y ≢ c.zero
  sub-distinct x y distinct e =
      distinct (sym (law.sub_add x y) ∙ ap (λ u. c.add u y) e ∙ zero_add y)

  pub mul-inverse : (x : Scalar) → x ≢ c.zero → c.mul x (inverse c x) ≡ c.one
  mul-inverse x nonzero =
      let (y, inverted, product) = law.invert_some x nonzero in
      ap (λ o. c.mul x (or_zero c o)) inverted ∙ product

  pub invert-inverse : (x : Scalar) → x ≢ c.zero → c.invert x ≡ some (inverse c x)
  invert-inverse x nonzero =
      let (y, inverted, product) = law.invert_some x nonzero in
      inverted ∙ sym (ap (λ o. some (or_zero c o)) inverted)

  -- `x ⊗ u ≡ x ⊗ v` leaves `u ≡ v` for `x` that is not zero.
  pub mul_cancel : (x u v : Scalar) → x ≢ c.zero → c.mul x u ≡ c.mul x v → u ≡ v
  mul_cancel x u v nonzero e = sym (undo u) ∙ ap (c.mul (inverse c x)) e ∙ undo v
    where
      undo : (w : Scalar) → c.mul (inverse c x) (c.mul x w) ≡ w
      undo w =
          sym (law.mul_assoc (inverse c x) x w)
          ∙ ap (λ k. c.mul k w) (law.mul_comm (inverse c x) x ∙ mul-inverse x nonzero)
          ∙ one_mul w

  pub mul-nonzero : (x y : Scalar) → x ≢ c.zero → y ≢ c.zero → c.mul x y ≢ c.zero
  mul-nonzero x y nonzero nonzero' e =
      nonzero' (mul_cancel x y c.zero nonzero (e ∙ sym (mul_zero x)))
