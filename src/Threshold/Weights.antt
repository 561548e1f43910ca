-- ===== src/Threshold/Weights.antt =====
-- Interpolation at zero as a linear functional on functions, and what it does to constants and
-- multiples of `a - z`.
use secret_broker.Base.{ℕ, ◌≡◌, ◌≢◌, refl, sym, ap, ap₂, ◌∙◌, List, [], ◌∷◌, All, All-intro}
use secret_broker.Threshold.P256.{Curve, IsCurve}
use secret_broker.Threshold.Field.{
  inverse, add_left_comm, mul_left_comm, add_mul, zero_add, one_mul, mul_zero, zero_mul, sub_self,
  sub-distinct, mul-inverse,
}

module _ {Scalar Point : Type 0} (c : Curve Scalar Point) where
  -- what the point `x` contributes to the weight of the point `z`
  abbrev pub ratio : Scalar → Scalar → Scalar
  ratio x z = c.mul x (inverse c (c.sub x z))

  unfoldable pub weigh : Scalar → Scalar → List Scalar → Scalar
  weigh z w [] = w
  weigh z w (x ∷ xs) = weigh z (c.mul w (ratio x z)) xs

  unfoldable pub at_zero : List Scalar → (Scalar → Scalar) → Scalar
  unfolding weigh
  at_zero [] g = c.zero
  at_zero (x ∷ xs) g = c.add (weigh x (g x) xs) (at_zero xs (λ z. c.mul (g z) (ratio x z)))

  abbrev pub Distinct : List Scalar → Type 0
  Distinct [] = Unit {0}
  Distinct (x ∷ xs) = All (λ y. x ≢ y) xs × Distinct xs

module _ {Scalar Point : Type 0} {c : Curve Scalar Point} {order : ℕ} (law : IsCurve c order) where
  pub at_zero_ext :
      (xs : List Scalar) (g h : Scalar → Scalar)
      → All (λ z. g z ≡ h z) xs
      → at_zero c xs g ≡ at_zero c xs h
  unfolding at_zero
  at_zero_ext [] g h e = refl
  at_zero_ext (x ∷ xs) g h (e, es) = ap₂ c.add (ap (λ w. weigh c x w xs) e) (
      at_zero_ext xs (λ z. c.mul (g z) (ratio c x z)) (λ z. c.mul (h z) (ratio c x z))
        (scaled xs es))
    where
      scaled :
          (ys : List Scalar)
          → All (λ z. g z ≡ h z) ys
          → All (λ z. c.mul (g z) (ratio c x z) ≡ c.mul (h z) (ratio c x z)) ys
      scaled [] e = tt
      scaled (y ∷ ys) (e, es) = (ap (λ u. c.mul u (ratio c x y)) e, scaled ys es)

  weigh-linear :
      (z k u v : Scalar) (xs : List Scalar)
      → weigh c z (c.add (c.mul k u) v) xs ≡ c.add (c.mul k (weigh c z u xs)) (weigh c z v xs)
  unfolding weigh
  weigh-linear z k u v [] = refl
  weigh-linear z k u v (x ∷ xs) =
      ap (λ w. weigh c z w xs)
        (add_mul law (c.mul k u) v (ratio c x z)
          ∙ ap (λ w. c.add w (c.mul v (ratio c x z))) (law.mul_assoc k u (ratio c x z)))
      ∙ weigh-linear z k (c.mul u (ratio c x z)) (c.mul v (ratio c x z)) xs

  pub weigh-scale :
      (z k u : Scalar) (xs : List Scalar) → weigh c z (c.mul k u) xs ≡ c.mul k (weigh c z u xs)
  unfolding weigh
  weigh-scale z k u [] = refl
  weigh-scale z k u (x ∷ xs) =
      ap (λ w. weigh c z w xs) (law.mul_assoc k u (ratio c x z))
      ∙ weigh-scale z k (c.mul u (ratio c x z)) xs

  weigh_zero : (z : Scalar) (xs : List Scalar) → weigh c z c.zero xs ≡ c.zero
  unfolding weigh
  weigh_zero z [] = refl
  weigh_zero z (x ∷ xs) = ap (λ w. weigh c z w xs) (zero_mul law (ratio c x z)) ∙ weigh_zero z xs

  at_zero-linear :
      (xs : List Scalar) (k : Scalar) (g h : Scalar → Scalar)
      → at_zero c xs (λ z. c.add (c.mul k (g z)) (h z))
        ≡ c.add (c.mul k (at_zero c xs g)) (at_zero c xs h)
  unfolding at_zero
  at_zero-linear [] k g h = sym (law.add_zero (c.mul k c.zero) ∙ mul_zero law k)
  at_zero-linear (x ∷ xs) k g h =
      ap₂ c.add (weigh-linear x k (g x) (h x) xs)
        (at_zero_ext xs _ _ (All-intro spread xs) ∙ at_zero-linear xs k (onward g) (onward h))
      ∙ simp (law.mul_add, law.add_assoc, law.add_comm, add_left_comm law) refl
    where
      onward : (Scalar → Scalar) → Scalar → Scalar
      onward f z = c.mul (f z) (ratio c x z)

      spread :
          (z : Scalar)
          → c.mul (c.add (c.mul k (g z)) (h z)) (ratio c x z)
            ≡ c.add (c.mul k (onward g z)) (onward h z)
      spread z =
          add_mul law (c.mul k (g z)) (h z) (ratio c x z)
          ∙ ap (λ w. c.add w (onward h z)) (law.mul_assoc k (g z) (ratio c x z))

  -- Swapping the first two points.
  pub at_zero_swap :
      (a b : Scalar) (xs : List Scalar) (g : Scalar → Scalar)
      → at_zero c (a ∷ b ∷ xs) g ≡ at_zero c (b ∷ a ∷ xs) g
  unfolding at_zero weigh
  at_zero_swap a b xs g =
      add_left_comm law _ _ _
      ∙ ap
          (λ w.
            c.add (weigh c b (c.mul (g b) (ratio c a b)) xs)
              (c.add (weigh c a (c.mul (g a) (ratio c b a)) xs) w))
          (at_zero_ext xs _ _ (All-intro swapped xs))
    where
      swapped :
          (z : Scalar)
          → c.mul (c.mul (g z) (ratio c a z)) (ratio c b z)
            ≡ c.mul (c.mul (g z) (ratio c b z)) (ratio c a z)
      swapped z =
          law.mul_assoc (g z) (ratio c a z) (ratio c b z)
          ∙ ap (c.mul (g z)) (law.mul_comm (ratio c a z) (ratio c b z))
          ∙ sym (law.mul_assoc (g z) (ratio c b z) (ratio c a z))

  at_zero_zero : (xs : List Scalar) → at_zero c xs (λ z. c.zero) ≡ c.zero
  unfolding at_zero
  at_zero_zero [] = refl
  at_zero_zero (x ∷ xs) =
      ap₂ c.add (weigh_zero x xs) (
        at_zero_ext xs (λ z. c.mul c.zero (ratio c x z)) (λ z. c.zero)
          (All-intro (λ z. zero_mul law (ratio c x z)) xs)
        ∙ at_zero_zero xs)
      ∙ law.add_zero c.zero

  regroup : (s u a i : Scalar) → c.mul (c.mul s u) (c.mul a i) ≡ c.mul (c.mul s i) (c.mul a u)
  regroup s u a i = simp (law.mul_assoc, law.mul_comm, mul_left_comm law) refl

  -- A multiple of `a - z` loses its point `a`.
  pub at_zero_root :
      (a : Scalar) (xs : List Scalar) (g : Scalar → Scalar)
      → All (λ y. a ≢ y) xs
      → at_zero c (a ∷ xs) (λ z. c.mul (c.sub a z) (g z)) ≡ c.mul a (at_zero c xs g)
  unfolding at_zero
  at_zero_root a xs g distinct =
      ap₂ c.add
        (ap (λ w. weigh c a w xs) (ap (λ u. c.mul u (g a)) (sub_self law a) ∙ zero_mul law (g a))
          ∙ weigh_zero a xs)
        (at_zero_ext xs _ (λ z. c.add (c.mul a (g z)) c.zero) (everywhere xs distinct)
          ∙ at_zero-linear xs a g (λ z. c.zero))
      ∙ zero_add law _
      ∙ ap (c.add (c.mul a (at_zero c xs g))) (at_zero_zero xs)
      ∙ law.add_zero _
    where
      everywhere :
          (ys : List Scalar)
          → All (λ y. a ≢ y) ys
          → All
              (λ z. c.mul (c.mul (c.sub a z) (g z)) (ratio c a z) ≡ c.add (c.mul a (g z)) c.zero)
              ys
      everywhere [] _ = tt
      everywhere (y ∷ ys) (d, ds) = (
        regroup (c.sub a y) (g y) a (inverse c (c.sub a y))
            ∙ ap (λ u. c.mul u (c.mul a (g y)))
                (mul-inverse law (c.sub a y) (sub-distinct law a y d))
            ∙ one_mul law (c.mul a (g y))
            ∙ sym (law.add_zero (c.mul a (g y))),
        everywhere ys ds,
      )

  pub at_zero_add :
      (xs : List Scalar) (g h : Scalar → Scalar)
      → at_zero c xs (λ z. c.add (g z) (h z)) ≡ c.add (at_zero c xs g) (at_zero c xs h)
  at_zero_add xs g h =
      at_zero_ext xs (λ z. c.add (g z) (h z)) (λ z. c.add (c.mul c.one (g z)) (h z))
        (All-intro (λ z. ap (λ u. c.add u (h z)) (sym (one_mul law (g z)))) xs)
      ∙ at_zero-linear xs c.one g h
      ∙ ap (λ u. c.add u (at_zero c xs h)) (one_mul law (at_zero c xs g))

  pub at_zero_scale :
      (xs : List Scalar) (k : Scalar) (g : Scalar → Scalar)
      → at_zero c xs (λ z. c.mul k (g z)) ≡ c.mul k (at_zero c xs g)
  at_zero_scale xs k g =
      at_zero_ext xs (λ z. c.mul k (g z)) (λ z. c.add (c.mul k (g z)) c.zero)
        (All-intro (λ z. sym (law.add_zero (c.mul k (g z)))) xs)
      ∙ at_zero-linear xs k g (λ z. c.zero)
      ∙ ap (c.add (c.mul k (at_zero c xs g))) (at_zero_zero xs)
      ∙ law.add_zero _
