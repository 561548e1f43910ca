-- ===== src/Tests/Threshold.antt =====
-- Two of two shares in the field of three elements.
use secret_broker.Base.{◌≡◌, refl, arith, Bytes, false, List, [], ◌∷◌, any, map, All}
use mathlib.Core.List.{Memᴰ}
use secret_broker.Base.Result.{ok}
use secret_broker.Threshold.{
  Share, SplitResult, canonical_secret_bytes, commitment_for_scalar, eval_steps, eval_poly,
  random_coeffs, coefficients, shares_from, split, has_duplicates, reconstruct,
}
use secret_broker.Threshold.RoundTrip.{reconstruct-split}
use secret_broker.Threshold.Soundness.{reconstruct_sound}
use secret_broker.Tests.Curve.{t0, t1, next, add, mul, trits, trits-IsCurve}

abbrev secret : Bytes
secret = 5 ∷ []

abbrev result : SplitResult
result = record {
  shares = shares_from trits (coefficients trits secret 2 (λ _. t1)) 1 2;
  commitments = map (commitment_for_scalar trits) (coefficients trits secret 2 (λ _. t1));
}

-- the second share first
abbrev chosen : List Share
chosen = record { x = 2; y = trits.to_bytes t1 } ∷ record { x = 1; y = trits.to_bytes t0 } ∷ []

made : split trits secret 2 2 (λ _. t1) ≡ ok result
unfolding split
made = refl

picked : All (λ s. Memᴰ s result.shares) chosen
unfolding shares_from coefficients random_coeffs eval_poly eval_steps add mul next
picked = (Memᴰ.tail (Memᴰ.head refl), (Memᴰ.head refl, tt))

different : has_duplicates chosen ≡ false
unfolding has_duplicates any
different = refl

reconstruct-split_example :
    reconstruct trits chosen 2 result.commitments ≡ ok (canonical_secret_bytes trits secret)
reconstruct-split_example =
    reconstruct-split trits-IsCurve secret 2 2 (λ _. t1) result chosen (omega arith) made picked
      different (omega arith)

given_back :
    reconstruct trits chosen 2 result.commitments ≡ ok (canonical_secret_bytes trits secret)
given_back =
    reconstruct-split trits-IsCurve secret 2 2 (λ _. t1) result chosen (omega arith) made picked
      different (omega arith)

reconstruct_sound_example :
    canonical_secret_bytes trits secret ≡ canonical_secret_bytes trits secret
reconstruct_sound_example =
    reconstruct_sound trits-IsCurve secret 2 2 (λ _. t1) result chosen
      (canonical_secret_bytes trits secret) made (omega arith, (omega arith, tt)) given_back
