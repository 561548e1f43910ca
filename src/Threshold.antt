-- ===== src/Threshold.antt =====
-- threshold.rs, verifiable secret sharing over the scalar field of a curve.
pub mod P256
pub mod Field
pub mod Weights
pub mod Polynomial
pub mod Interpolation
pub mod Shares
pub mod RoundTrip
pub mod Soundness
use secret_broker.Base.{
  ℕ, zero, suc, ◌+◌, Bytes, Bool, true, false, ◌||◌, not, Option, List, [], ◌∷◌, map, reverse, any,
  length, ltb, ◌==◌, if◌then◌else◌,
}
use secret_broker.Base.Result.{Result, ok, err, ◌>>=◌, ◌>>◌, ok_or, guard}
use secret_broker.Threshold.P256.{Curve}

abbrev pub share_length : ℕ
share_length = 32

abbrev pub commitment_length : ℕ
commitment_length = 33

pub data ThresholdError : Type 0 where
  invalid_params : ThresholdError
  insufficient_shares : ℕ → ℕ → ThresholdError
  duplicate_shares invalid_share_length invalid_share_scalar missing_commitments : ThresholdError
  invalid_commitment_count : ℕ → ℕ → ThresholdError
  invalid_commitment_length invalid_commitment_encoding commitment_mismatch : ThresholdError

pub record Share : Type 0 where
  pub x : ℕ
  pub y : Bytes

pub record SplitResult : Type 0 where
  pub shares : List Share
  pub commitments : List Bytes

unfoldable pub validate_commitments : List Bytes → ℕ → Result ThresholdError (Unit {0})
validate_commitments [] threshold = err missing_commitments
validate_commitments (c ∷ cs) threshold =
    guard (length (c ∷ cs) == threshold) (invalid_commitment_count threshold (length (c ∷ cs)))

-- the two loops over `i` and `j`
unfoldable pub has_duplicates : List Share → Bool
has_duplicates [] = false
has_duplicates (share ∷ shares) =
    any (λ (other : Share). share.x == other.x) shares || has_duplicates shares

module _ {Scalar Point : Type 0} (c : Curve Scalar Point) where
  unfoldable pub canonical_secret_bytes : Bytes → Bytes
  canonical_secret_bytes secret = c.to_bytes (c.reduce_bytes secret)

  -- the loop of `eval_poly` over the coefficients from the last
  unfoldable pub eval_steps : Scalar → Scalar → List Scalar → Scalar
  eval_steps x result [] = result
  eval_steps x result (coeff ∷ coeffs) = eval_steps x (c.add (c.mul result x) coeff) coeffs

  unfoldable pub eval_poly : List Scalar → Scalar → Scalar
  unfolding eval_steps
  eval_poly coeffs x = eval_steps x c.zero (reverse coeffs)

  unfoldable pub commitment_for_scalar : Scalar → Bytes
  commitment_for_scalar coeff = c.point_to_bytes (c.scale c.generator coeff)

  -- `for _ in 1..threshold`, on what the generator draws
  unfoldable pub random_coeffs : (ℕ → Scalar) → ℕ → List Scalar
  random_coeffs draw zero = []
  random_coeffs draw (suc n) = draw n ∷ random_coeffs draw n

  -- The shares at `n` points from `x` on.
  unfoldable pub shares_from : List Scalar → ℕ → ℕ → List Share
  unfolding eval_poly
  shares_from coeffs x zero = []
  shares_from coeffs x (suc n) =
      record { x = x; y = c.to_bytes (eval_poly coeffs (c.from_u64 x)) }
      ∷ shares_from coeffs (x + 1) n

  unfoldable pub coefficients : Bytes → ℕ → (ℕ → Scalar) → List Scalar
  unfolding random_coeffs
  coefficients secret zero draw = c.reduce_bytes secret ∷ []
  coefficients secret (suc k) draw = c.reduce_bytes secret ∷ random_coeffs draw k

  unfoldable pub split : Bytes → ℕ → ℕ → (ℕ → Scalar) → Result ThresholdError SplitResult
  unfolding coefficients shares_from commitment_for_scalar
  split secret threshold num_shares draw = do
    guard (not (ltb threshold 1 || ltb num_shares threshold)) invalid_params
    guard (not (num_shares == 0)) invalid_params
    let coeffs = coefficients secret threshold draw
    ok (record {
      shares = shares_from coeffs 1 num_shares;
      commitments = map commitment_for_scalar coeffs;
    })

  unfoldable pub decode_commitment : Bytes → Result ThresholdError Point
  decode_commitment bytes = do
    guard (length bytes == commitment_length) invalid_commitment_length
    ok_or (c.point_from_bytes bytes) invalid_commitment_encoding

  unfoldable pub decode_commitments : List Bytes → Result ThresholdError (List Point)
  unfolding decode_commitment
  decode_commitments [] = ok []
  decode_commitments (bytes ∷ rest) = do
    commitment ← decode_commitment bytes
    commitments ← decode_commitments rest
    ok (commitment ∷ commitments)

  unfoldable pub share_scalar : Share → Result ThresholdError Scalar
  share_scalar share = do
    guard (length share.y == share_length) invalid_share_length
    ok_or (c.from_repr share.y) invalid_share_scalar

  -- the loop of `verify_share_with_commitments`
  unfoldable pub commitment_sum : Scalar → Point → Scalar → List Point → Point
  commitment_sum x rhs x_power [] = rhs
  commitment_sum x rhs x_power (commitment ∷ commitments) =
      commitment_sum x (c.add_points rhs (c.scale commitment x_power)) (c.mul x_power x) commitments

  unfoldable pub verify_share_with_commitments :
      Share → List Point → Result ThresholdError (Unit {0})
  unfolding share_scalar commitment_sum
  verify_share_with_commitments share commitments = do
    y ← share_scalar share
    let rhs = commitment_sum (c.from_u64 share.x) c.identity c.one commitments
    guard (c.point_eq (c.scale c.generator y) rhs) commitment_mismatch

  -- the `share_scalars` of `reconstruct`
  unfoldable pub share_scalars : List Point → List Share → Result ThresholdError (List Scalar)
  unfolding verify_share_with_commitments share_scalar
  share_scalars commitments [] = ok []
  share_scalars commitments (share ∷ shares) = do
    verify_share_with_commitments share commitments
    y ← share_scalar share
    ys ← share_scalars commitments shares
    ok (y ∷ ys)

  -- The inner loop from `j` on: the numerator and the denominator for the share at `i`.
  unfoldable pub lagrange : ℕ → Scalar → ℕ → Scalar → Scalar → List Share → Scalar × Scalar
  lagrange i xi j numerator denominator [] = (numerator, denominator)
  lagrange i xi j numerator denominator (other ∷ others) =
      let xj = c.from_u64 other.x in
      let skip = lagrange i xi (j + 1) numerator denominator others in
      let take =
        lagrange i xi (j + 1) (c.mul numerator xj) (c.mul denominator (c.sub xj xi)) others in
      if i == j then skip else take

  -- The outer loop from `i` on.
  unfoldable pub interpolate :
      List Share → ℕ → Scalar → List Share → List Scalar → Result ThresholdError Scalar
  unfolding lagrange
  interpolate all i secret (share ∷ shares) (yi ∷ ys) = do
    let (numerator, denominator) = lagrange i (c.from_u64 share.x) 0 c.one c.one all
    inverse ← ok_or (c.invert denominator) duplicate_shares
    interpolate all (i + 1) (c.add secret (c.mul (c.mul yi numerator) inverse)) shares ys
  interpolate all i secret _ _ = ok secret

  unfoldable pub reconstruct : List Share → ℕ → List Bytes → Result ThresholdError Bytes
  unfolding validate_commitments has_duplicates decode_commitments share_scalars interpolate
  reconstruct shares threshold commitments = do
    guard (not (ltb (length shares) threshold)) (insufficient_shares threshold (length shares))
    validate_commitments commitments threshold
    guard (not (has_duplicates shares)) duplicate_shares
    decoded ← decode_commitments commitments
    ys ← share_scalars decoded shares
    secret ← interpolate shares 0 c.zero shares ys
    ok (c.to_bytes secret)
