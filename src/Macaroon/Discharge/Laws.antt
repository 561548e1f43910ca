-- ===== src/Macaroon/Discharge/Laws.antt =====
-- What a discharge proves, and what it does not.
use secret_broker.Base.{
  ℕ, ◌≡◌, refl, ◌↔◌, Bytes, false, Option, none, some, arith, bytes_eq_iff, ◌≤◌,
}
use secret_broker.Base.Result.{ok}
use secret_broker.Platform.{Platform}
use secret_broker.Macaroon.Types.{DischargeMacaroon}
use secret_broker.Macaroon.Discharge.{mint_with_expiry, is_past, verify}

-- Exactly when a discharge is accepted: it has not expired, its signature is that of the condition
-- under the caveat's key, and it is bound to the signature at the caveat.
verify_iff :
    (p : Platform) (d : DischargeMacaroon) (condition key sig : Bytes) (now : ℕ)
    → (verify p d condition key sig now ≡ ok tt) ↔ (
        (is_past now d.expires_at ≡ false)
        × (p.hmac key condition ≡ d.discharge_signature)
        × (p.hmac sig d.discharge_signature ≡ d.binding))
unfolding verify
verify_iff p d condition key sig now = (
  λ h. ground (
    arith,
    bytes_eq_iff (p.hmac key condition) d.discharge_signature,
    bytes_eq_iff (p.hmac sig d.discharge_signature) d.binding,
  ),
  λ h. ground (
    arith,
    bytes_eq_iff (p.hmac key condition) d.discharge_signature,
    bytes_eq_iff (p.hmac sig d.discharge_signature) d.binding,
  ),
)

-- The expiry is under neither signature: a holder who drops it from an accepted token has a token
-- for the same caveat that is accepted at every time.
pub expiry_can_be_dropped :
    (p : Platform) (d : DischargeMacaroon) (condition key sig : Bytes) (now later : ℕ)
    → verify p d condition key sig now ≡ ok tt
    → verify p (record d { expires_at = none }) condition key sig later ≡ ok tt
expiry_can_be_dropped p d condition key sig now later h =
    let (_, signed, bound) = (verify_iff p d condition key sig now).0 h in
    (verify_iff p (record d { expires_at = none }) condition key sig later).1
      (unfold is_past in refl, signed, bound)

-- The deadline, where there is one, is not behind `now`.
abbrev pub Unexpired : ℕ → Option ℕ → Type 0
Unexpired now none = Unit {0}
Unexpired now (some deadline) = now ≤ deadline

is_past-Unexpired :
    (now : ℕ) (deadline : Option ℕ) → (is_past now deadline ≡ false) ↔ Unexpired now deadline
unfolding is_past
is_past-Unexpired now none = (λ h. tt, λ h. refl)
is_past-Unexpired now (some deadline) = (λ h. ground arith, λ h. ground arith)

-- A discharge minted for one caveat is accepted for another exactly when its deadline, if it has
-- one, is not behind, the two caveats' keys sign the two conditions alike, and the two macaroons'
-- signatures at the caveats bind that signature alike. So it is accepted for its own caveat up to
-- the deadline, and for another one only over a collision of the HMAC.
pub verify-mint_iff :
    (p : Platform) (location condition key sig condition' key' sig' : Bytes) (deadline : Option ℕ)
    (now : ℕ)
    → let signed = p.hmac key condition in
      (verify p (mint_with_expiry p location condition key sig deadline) condition' key' sig' now
        ≡ ok tt)
      ↔ (Unexpired now deadline
          × (p.hmac key' condition' ≡ signed)
          × (p.hmac sig' signed ≡ p.hmac sig signed))
unfolding mint_with_expiry
verify-mint_iff p location condition key sig condition' key' sig' deadline now =
    let d = mint_with_expiry p location condition key sig deadline in
    let accepted = verify_iff p d condition' key' sig' now in
    let in_time = is_past-Unexpired now deadline in
    (
      λ h. let (timely, signed, bound) = accepted.0 h in (in_time.0 timely, signed, bound),
      λ (timely, signed, bound). accepted.1 (in_time.1 timely, signed, bound),
    )
