-- ===== src/Macaroon/Verifier/Discharged.antt =====
-- A third-party caveat holds exactly where a matching, valid discharge is at hand.
use mathlib.Core.List.{Memᴰ}
use secret_broker.Base.{
  ℕ, ◌≡◌, ◌≢◌, ◌↔◌, refl, sym, ◌∙◌, Bytes, Bool, true, false, Option, none, some, List, [], ◌∷◌,
  arith, Bool-cases, inl, inr,
}
use secret_broker.Base.Result.{ok}
use secret_broker.Platform.{Platform}
use secret_broker.Macaroon.Types.{DischargeMacaroon, DischargeKeyRef, CaveatVerifier}
use secret_broker.Macaroon.Discharge.{verify}
use secret_broker.Macaroon.Verifier.{
  find_key, is_candidate, is_ok, try_discharges, check_third_party,
}

-- `d` is one of the discharges, for this caveat, and verifies.
pub record Accepted (p : Platform) (location : Bytes) (key : DischargeKeyRef) (sig : Bytes)
    (now : ℕ) (ds : List DischargeMacaroon) : Type 0 where
  pub discharge : DischargeMacaroon
  pub among : Memᴰ discharge ds
  pub matching : is_candidate location key.condition discharge ≡ true
  pub valid : verify p discharge key.condition key.key sig now ≡ ok tt

module _ (p : Platform) (location : Bytes) (key : DischargeKeyRef) (sig : Bytes) (now : ℕ) where
  abbrev Good : List DischargeMacaroon → Type 0
  Good = Accepted p location key sig now

  good : DischargeMacaroon → Bool
  good d = is_ok (verify p d key.condition key.key sig now)

  good→ok :
      (d : DischargeMacaroon) → good d ≡ true → verify p d key.condition key.key sig now ≡ ok tt
  unfolding good is_ok
  good→ok d h = ground arith

  ok→good :
      (d : DischargeMacaroon) → verify p d key.condition key.key sig now ≡ ok tt → good d ≡ true
  unfolding good is_ok
  ok→good d h = rw h

  Accepted-cons : (d : DischargeMacaroon) (ds : List DischargeMacaroon) → Good ds → Good (d ∷ ds)
  Accepted-cons d ds a = record {
    discharge = a.discharge;
    among = Memᴰ.tail a.among;
    matching = a.matching;
    valid = a.valid;
  }

  -- The steps of the loop.
  try_discharges-accept :
      (saw : Bool) (d : DischargeMacaroon) (ds : List DischargeMacaroon)
      → is_candidate location key.condition d ≡ true
      → good d ≡ true
      → try_discharges p location key sig now saw (d ∷ ds) ≡ ok tt
  unfolding try_discharges good
  try_discharges-accept saw d ds f g = rw (f, g)

  try_discharges-reject :
      (saw : Bool) (d : DischargeMacaroon) (ds : List DischargeMacaroon)
      → is_candidate location key.condition d ≡ true
      → good d ≡ false
      → try_discharges p location key sig now saw (d ∷ ds)
        ≡ try_discharges p location key sig now true ds
  unfolding try_discharges good
  try_discharges-reject saw d ds f g = rw (f, g)

  try_discharges-skip :
      (saw : Bool) (d : DischargeMacaroon) (ds : List DischargeMacaroon)
      → is_candidate location key.condition d ≡ false
      → try_discharges p location key sig now saw (d ∷ ds)
        ≡ try_discharges p location key sig now saw ds
  unfolding try_discharges
  try_discharges-skip saw d ds f = rw f

  try_discharges-Accepted :
      (saw : Bool) (ds : List DischargeMacaroon)
      → try_discharges p location key sig now saw ds ≡ ok tt
      → Good ds
  try_discharges-Accepted saw [] h = absurd (unfold try_discharges in ground arith)
  try_discharges-Accepted saw (d ∷ ds) h =
      elim (Bool-cases (is_candidate location key.condition d)) [
        | inl fits ↦ elim (Bool-cases (good d)) [
          | inl g ↦ record {
            discharge = d;
            among = Memᴰ.head refl;
            matching = fits;
            valid = good→ok d g;
          }
          | inr bad ↦
              Accepted-cons d ds (
                try_discharges-Accepted true ds (sym (try_discharges-reject saw d ds fits bad) ∙ h))
        ]
        | inr other ↦
            Accepted-cons d ds
              (try_discharges-Accepted saw ds (sym (try_discharges-skip saw d ds other) ∙ h))
      ]

  Accepted-try_discharges :
      (saw : Bool) (d : DischargeMacaroon) (ds : List DischargeMacaroon)
      → Memᴰ d ds
      → is_candidate location key.condition d ≡ true
      → good d ≡ true
      → try_discharges p location key sig now saw ds ≡ ok tt
  Accepted-try_discharges saw d [] m f g = elim m [ ]
  Accepted-try_discharges saw d (x ∷ ds) (Memᴰ.head e) f g =
      try_discharges-accept saw x ds (rw (← e) f) (rw (← e) g)
  Accepted-try_discharges saw d (x ∷ ds) (Memᴰ.tail m) f g =
      elim (Bool-cases (is_candidate location key.condition x)) [
        | inl fits ↦ elim (Bool-cases (good x)) [
          | inl g' ↦ try_discharges-accept saw x ds fits g'
          | inr bad ↦
              try_discharges-reject saw x ds fits bad ∙ Accepted-try_discharges true d ds m f g
        ]
        | inr other ↦ try_discharges-skip saw x ds other ∙ Accepted-try_discharges saw d ds m f g
      ]

-- Where a key is found for its location and key id, a third-party caveat is satisfied exactly when
-- one of the discharges of the request is for the location and the condition sealed with the key,
-- and verifies under the key, bound to the signature at the caveat.
pub check_third_party_iff :
    (p : Platform) (v : CaveatVerifier) (location key_id sig : Bytes) (key : DischargeKeyRef)
    → find_key location key_id v.discharge_keys ≡ some key
    → (check_third_party p v location key_id (some sig) ≡ ok tt)
      ↔ Accepted p location key sig v.now v.discharges
unfolding check_third_party
check_third_party_iff p v location key_id sig key h = (
  λ e. try_discharges-Accepted p location key sig v.now false v.discharges (rw h at e),
  λ a. rw h (
      Accepted-try_discharges p location key sig v.now false a.discharge v.discharges a.among
        a.matching (ok→good p location key sig v.now a.discharge a.valid)),
)

-- With no key sealed for it a third-party caveat cannot be satisfied, whatever the request brings.
pub check_third_party-unsealed :
    (p : Platform) (v : CaveatVerifier) (location key_id : Bytes) (sig : Option Bytes)
    → find_key location key_id v.discharge_keys ≡ none
    → check_third_party p v location key_id sig ≢ ok tt
unfolding check_third_party
check_third_party-unsealed p v location key_id sig h e = ground arith
