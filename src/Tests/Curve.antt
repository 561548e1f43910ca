-- ===== src/Tests/Curve.antt =====
-- A curve for examples: the field of three elements, which is also the group.
use secret_broker.Base.{
  ℕ, ◌+◌, ◌%◌, ◌<◌, ◌≡◌, ◌≢◌, ◌↔◌, refl, arith, Bytes, Bool, true, false, ◌&&◌, Option, none, some,
  [], ◌∷◌, ◌++◌, ◌==◌, bytes_eq, if◌then◌else◌,
}
use secret_broker.Threshold.P256.{Curve, IsCurve}

pub data Trit : Type 0 where
  t0 t1 t2 : Trit

unfoldable pub same : Trit → Trit → Bool
same t0 t0 = true
same t1 t1 = true
same t2 t2 = true
same _ _ = false

same_iff : (x y : Trit) → (same x y ≡ true) ↔ (x ≡ y)
unfolding same
same_iff t0 t0 = (λ _. refl, λ _. refl)
same_iff t0 t1 = (λ h. cc, λ h. cc)
same_iff t0 t2 = (λ h. cc, λ h. cc)
same_iff t1 t0 = (λ h. cc, λ h. cc)
same_iff t1 t1 = (λ _. refl, λ _. refl)
same_iff t1 t2 = (λ h. cc, λ h. cc)
same_iff t2 t0 = (λ h. cc, λ h. cc)
same_iff t2 t1 = (λ h. cc, λ h. cc)
same_iff t2 t2 = (λ _. refl, λ _. refl)

for_all : (Trit → Bool) → Bool
for_all f = f t0 && (f t1 && f t2)

for_all_lem : (f : Trit → Bool) → for_all f ≡ true → (x : Trit) → f x ≡ true
unfolding for_all
for_all_lem f h t0 = ground arith
for_all_lem f h t1 = ground arith
for_all_lem f h t2 = ground arith

-- Two expressions that agree at all values.
law₁ : (f g : Trit → Trit) → for_all (λ x. same (f x) (g x)) ≡ true → (x : Trit) → f x ≡ g x
law₁ f g h x = (same_iff (f x) (g x)).0 (for_all_lem (λ x. same (f x) (g x)) h x)

law₂ :
    (f g : Trit → Trit → Trit)
    → for_all (λ x. for_all (λ y. same (f x y) (g x y))) ≡ true
    → (x y : Trit) → f x y ≡ g x y
law₂ f g h x = law₁ (f x) (g x) (for_all_lem (λ x. for_all (λ y. same (f x y) (g x y))) h x)

law₃ :
    (f g : Trit → Trit → Trit → Trit)
    → for_all (λ x. for_all (λ y. for_all (λ z. same (f x y z) (g x y z)))) ≡ true
    → (x y z : Trit) → f x y z ≡ g x y z
law₃ f g h x =
    law₂ (f x) (g x) (for_all_lem (λ x. for_all (λ y. for_all (λ z. same (f x y z) (g x y z)))) h x)

unfoldable pub next : Trit → Trit
next t0 = t1
next t1 = t2
next t2 = t0

unfoldable pub add : Trit → Trit → Trit
unfolding next
add t0 y = y
add t1 y = next y
add t2 y = next (next y)

unfoldable pub mul : Trit → Trit → Trit
unfolding add
mul t0 y = t0
mul t1 y = y
mul t2 y = add y y

abbrev of_remainder : ℕ → Trit
of_remainder n = if n == 0 then t0 else if n == 1 then t1 else t2

abbrev value : Trit → ℕ
value t0 = 0
value t1 = 1
value t2 = 2

abbrev total : Bytes → ℕ
total [] = 0
total (x ∷ xs) = x + total xs

abbrev zeros : Bytes
zeros =
    0 ∷ 0 ∷ 0 ∷ 0 ∷ 0 ∷ 0 ∷ 0 ∷ 0 ∷ 0 ∷ 0 ∷ 0 ∷ 0 ∷ 0 ∷ 0 ∷ 0 ∷ 0 ∷ 0 ∷ 0 ∷ 0 ∷ 0 ∷ 0 ∷ 0 ∷ 0 ∷ 0
    ∷ 0 ∷ 0 ∷ 0 ∷ 0 ∷ 0 ∷ 0 ∷ 0 ∷ []

abbrev scalar_bytes : Trit → Bytes
scalar_bytes x = zeros ++ value x ∷ []

abbrev point_bytes : Trit → Bytes
point_bytes x = 0 ∷ scalar_bytes x

abbrev decode : (Trit → Bytes) → Bytes → Option Trit
decode encode bs =
    if bytes_eq bs (encode t0)
    then some t0
    else if bytes_eq bs (encode t1)
    then some t1
    else if bytes_eq bs (encode t2)
    then some t2
    else none

abbrev inverse : Trit → Option Trit
inverse t0 = none
inverse t1 = some t1
inverse t2 = some t2

abbrev pub trits : Curve Trit Trit
trits = record {
  zero = t0;
  one = t1;
  add = add;
  sub = λ x y. add x (mul t2 y);
  mul = mul;
  invert = inverse;
  from_u64 = λ n. of_remainder (n % 3);
  reduce_bytes = λ bs. of_remainder (total bs % 3);
  to_bytes = scalar_bytes;
  from_repr = decode scalar_bytes;
  generator = t1;
  identity = t0;
  add_points = add;
  scale = mul;
  point_eq = same;
  point_to_bytes = point_bytes;
  point_from_bytes = decode point_bytes;
}

pub trits-IsCurve : IsCurve trits 3
unfolding for_all same next add mul bytes_eq
trits-IsCurve = record {
  add_assoc = law₃ (λ x y z. add (add x y) z) (λ x y z. add x (add y z)) refl;
  add_comm = law₂ (λ x y. add x y) (λ x y. add y x) refl;
  add_zero = law₁ (λ x. add x t0) (λ x. x) refl;
  sub_add = law₂ (λ x y. add (add x (mul t2 y)) y) (λ x y. x) refl;
  mul_assoc = law₃ (λ x y z. mul (mul x y) z) (λ x y z. mul x (mul y z)) refl;
  mul_comm = law₂ (λ x y. mul x y) (λ x y. mul y x) refl;
  mul_one = law₁ (λ x. mul x t1) (λ x. x) refl;
  mul_add = law₃ (λ x y z. mul x (add y z)) (λ x y z. add (mul x y) (mul x z)) refl;
  one_nonzero = λ e. absurd (ground arith);
  invert_some = inverted;
  from_u64_injective = injective;
  length-to_bytes = λ x. refl;
  from_repr_round_trip = scalar_round_trip;
  identity_add = λ p. refl;
  points_comm = law₂ (λ x y. add x y) (λ x y. add y x) refl;
  points_assoc = law₃ (λ x y z. add (add x y) z) (λ x y z. add x (add y z)) refl;
  scale_zero = law₁ (λ x. mul x t0) (λ x. t0) refl;
  scale_add = law₃ (λ x y z. mul x (add y z)) (λ x y z. add (mul x y) (mul x z)) refl;
  scale_mul = law₃ (λ x y z. mul (mul x y) z) (λ x y z. mul x (mul y z)) refl;
  generator_injective = λ x y e. e;
  point_eq_iff = same_iff;
  length-point_to_bytes = λ x. refl;
  point_round_trip = point_round_trip;
}
  where
    inverted : (x : Trit) → x ≢ t0 → (y : Trit) × (inverse x ≡ some y) × (mul x y ≡ t1)
    inverted t0 h = absurd (h refl)
    inverted t1 h = (t1, refl, refl)
    inverted t2 h = (t2, refl, refl)

    injective : (m n : ℕ) → m < 3 → n < 3 → of_remainder (m % 3) ≡ of_remainder (n % 3) → m ≡ n
    injective m n below below' h = ground arith

    scalar_round_trip : (x : Trit) → decode scalar_bytes (scalar_bytes x) ≡ some x
    scalar_round_trip t0 = refl
    scalar_round_trip t1 = refl
    scalar_round_trip t2 = refl

    point_round_trip : (x : Trit) → decode point_bytes (point_bytes x) ≡ some x
    point_round_trip t0 = refl
    point_round_trip t1 = refl
    point_round_trip t2 = refl
