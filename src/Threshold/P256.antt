-- ===== src/Threshold/P256.antt =====
-- What threshold.rs calls of the p256 crate: the scalar field and the group of the curve, with
-- their encodings.
use secret_broker.Base.{ℕ, ◌<◌, ◌≡◌, ◌≢◌, ◌↔◌, Bytes, Bool, true, Option, some, length}

pub record Curve (Scalar Point : Type 0) : Type 0 where
  pub zero : Scalar
  pub one : Scalar
  pub add : Scalar → Scalar → Scalar
  pub sub : Scalar → Scalar → Scalar
  pub mul : Scalar → Scalar → Scalar
  pub invert : Scalar → Option Scalar
  pub from_u64 : ℕ → Scalar
  pub reduce_bytes : Bytes → Scalar
  pub to_bytes : Scalar → Bytes
  pub from_repr : Bytes → Option Scalar
  pub generator : Point
  pub identity : Point
  pub add_points : Point → Point → Point
  pub scale : Point → Scalar → Point
  pub point_eq : Point → Point → Bool
  pub point_to_bytes : Point → Bytes
  pub point_from_bytes : Bytes → Option Point

-- Documented behaviour: a field in which the numbers below `order` differ, a group on which it
-- acts, and encodings of 32 and 33 bytes that are read back.
pub record IsCurve {Scalar Point : Type 0} (c : Curve Scalar Point) (order : ℕ) : Type 0 where
  pub add_assoc : (x y z : Scalar) → c.add (c.add x y) z ≡ c.add x (c.add y z)
  pub add_comm : (x y : Scalar) → c.add x y ≡ c.add y x
  pub add_zero : (x : Scalar) → c.add x c.zero ≡ x
  pub sub_add : (x y : Scalar) → c.add (c.sub x y) y ≡ x
  pub mul_assoc : (x y z : Scalar) → c.mul (c.mul x y) z ≡ c.mul x (c.mul y z)
  pub mul_comm : (x y : Scalar) → c.mul x y ≡ c.mul y x
  pub mul_one : (x : Scalar) → c.mul x c.one ≡ x
  pub mul_add : (x y z : Scalar) → c.mul x (c.add y z) ≡ c.add (c.mul x y) (c.mul x z)
  pub one_nonzero : c.one ≢ c.zero
  pub invert_some :
      (x : Scalar) → x ≢ c.zero → (y : Scalar) × (c.invert x ≡ some y) × (c.mul x y ≡ c.one)
  pub from_u64_injective : (m n : ℕ) → m < order → n < order → c.from_u64 m ≡ c.from_u64 n → m ≡ n
  pub length-to_bytes : (x : Scalar) → length (c.to_bytes x) ≡ 32
  pub from_repr_round_trip : (x : Scalar) → c.from_repr (c.to_bytes x) ≡ some x
  pub identity_add : (p : Point) → c.add_points c.identity p ≡ p
  pub points_comm : (p q : Point) → c.add_points p q ≡ c.add_points q p
  pub points_assoc :
      (p q r : Point) → c.add_points (c.add_points p q) r ≡ c.add_points p (c.add_points q r)
  pub scale_zero : (p : Point) → c.scale p c.zero ≡ c.identity
  pub scale_add :
      (p : Point) (x y : Scalar) → c.scale p (c.add x y) ≡ c.add_points (c.scale p x) (c.scale p y)
  pub scale_mul : (p : Point) (x y : Scalar) → c.scale (c.scale p x) y ≡ c.scale p (c.mul x y)
  pub generator_injective : (x y : Scalar) → c.scale c.generator x ≡ c.scale c.generator y → x ≡ y
  pub point_eq_iff : (p q : Point) → (c.point_eq p q ≡ true) ↔ (p ≡ q)
  pub length-point_to_bytes : (p : Point) → length (c.point_to_bytes p) ≡ 33
  pub point_round_trip : (p : Point) → c.point_from_bytes (c.point_to_bytes p) ≡ some p
