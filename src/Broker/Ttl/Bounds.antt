-- ===== src/Broker/Ttl/Bounds.antt =====
-- Which lifetimes `enforce_ttl` accepts.
use secret_broker.Base.{ℕ, ◌+◌, ◌-◌, ◌*◌, ◌^◌, ◌≤◌, ◌<◌, ◌≡◌, ◌↔◌, ◌⊎◌, arith, none, some}
use secret_broker.Base.Result.{ok, err}
use secret_broker.Platform.{Platform, nanos}
use secret_broker.Broker.Context.{invalid_ttl}
use secret_broker.Broker.Ttl.{enforce_ttl, as_i64, exceeds, plus_seconds, positive, longest, latest}

as_i64_small : (secs : ℕ) → secs < 2 ^ 63 → as_i64 secs ≡ positive secs
unfolding as_i64
as_i64_small secs small = ground arith

-- A lifetime below 2 ^ 63 seconds is accepted, to expire that many seconds after the creation,
-- exactly when it is between one second and the broker's limit and chrono can represent it and the
-- expiry; it is refused exactly when it is zero or above the limit; and the addition panics exactly
-- when the lifetime is allowed but chrono cannot represent it or the expiry.
pub enforce_ttl_iff :
    (p : Platform) (secs max_allowed created_at : ℕ)
    → secs < 2 ^ 63
    → ((enforce_ttl p (some secs) max_allowed created_at
          ≡ some (ok (some (created_at + secs * nanos), some secs)))
        ↔ ((0 < secs)
            × (secs ≤ max_allowed)
            × (secs ≤ longest)
            × (created_at + secs * nanos ≤ latest p)))
      × ((enforce_ttl p (some secs) max_allowed created_at ≡ some (err invalid_ttl))
          ↔ ((secs ≡ 0) ⊎ (max_allowed < secs)))
      × ((enforce_ttl p (some secs) max_allowed created_at ≡ none) ↔ (
          (0 < secs)
          × (secs ≤ max_allowed)
          × ((longest < secs) ⊎ (latest p < created_at + secs * nanos))))
unfolding enforce_ttl exceeds plus_seconds
enforce_ttl_iff p secs max_allowed created_at small = rw (as_i64_small secs small) (
  (λ h. ground arith, λ h. ground arith),
  (λ h. ground arith, λ h. ground arith),
  (λ h. ground arith, λ h. ground arith),
)

-- No limit is enforced: for every limit there is a request above it that is accepted, with an
-- expiry before the creation. The creation is at least a second after the least time of chrono.
pub enforce_ttl-wrapped :
    (p : Platform) (max_allowed created_at : ℕ)
    → max_allowed < 2 ^ 63
    → nanos ≤ created_at
    → (secs : ℕ) × (t : ℕ) × (secs < 2 ^ 64)
      × (max_allowed < secs)
      × (enforce_ttl p (some secs) max_allowed created_at ≡ some (ok (some t, some secs)))
      × (t < created_at)
unfolding enforce_ttl as_i64 exceeds plus_seconds
enforce_ttl-wrapped p max_allowed created_at limit late =
    (2 ^ 64 - 1, created_at - nanos, omega arith, omega arith, ground arith, omega arith)
