-- ===== src/Broker/Lifecycle/Renewed.antt =====
-- A renewal of a lease, described without the code that computes it.
use secret_broker.Base.{
  ℕ, ◌+◌, ◌-◌, ◌^◌, ◌≤◌, ◌≡◌, ◌⊎◌, inl, inr, refl, arith, Option, none, some, ltb, Bool-cases,
}
use secret_broker.Store.Record.{StoredEnvelopeRecord}
use secret_broker.Store.Ops.{touch, renewed, saturating_succ}
use secret_broker.Broker.Renewal.{capped_lease}
use secret_broker.Broker.Lifecycle.Guarded.{Within, capped_lease-Within}

-- `after` is `r` with a lease to `requested`, or to the record's hard deadline where that is
-- earlier, and with one more renewal in its saturating count.
pub record Renewed (r : StoredEnvelopeRecord) (requested stored_at lease : ℕ)
    (after : StoredEnvelopeRecord) : Type 0 where
  pub same_else : after ≡ record r {
    lease_expires_at = some lease;
    lease_renewal_count = after.lease_renewal_count;
    last_accessed = some stored_at;
  }
  pub counted :
      (after.lease_renewal_count ≡ r.lease_renewal_count + 1)
      ⊎ ((after.lease_renewal_count ≡ 2 ^ 32 - 1) × (2 ^ 32 - 1 ≤ r.lease_renewal_count))
  pub in_time : lease ≤ requested
  pub within : Within lease r.expires_at
  pub chosen : (lease ≡ requested) ⊎ (r.expires_at ≡ some lease)

capped_lease-chosen :
    (hard : Option ℕ) (lease : ℕ)
    → (capped_lease hard lease ≡ lease) ⊎ (hard ≡ some (capped_lease hard lease))
unfolding capped_lease
capped_lease-chosen none lease = inl refl
capped_lease-chosen (some t) lease = elim (Bool-cases (ltb t lease)) [
  | inl over ↦ inr (rw over refl)
  | inr under ↦ inl (rw under refl)
]

saturating_succ-counted :
    (n : ℕ) → (saturating_succ n ≡ n + 1) ⊎ ((saturating_succ n ≡ 2 ^ 32 - 1) × (2 ^ 32 - 1 ≤ n))
unfolding saturating_succ
saturating_succ-counted n = elim (Bool-cases (ltb n (2 ^ 32 - 1))) [
  | inl below ↦ inl (rw below refl)
  | inr full ↦ inr (rw full refl, ground arith)
]

pub renewed-Renewed :
    (r : StoredEnvelopeRecord) (requested stored_at accessed_at : ℕ)
    → let lease = capped_lease r.expires_at requested in
      Renewed r requested stored_at lease (renewed lease stored_at (touch accessed_at r))
renewed-Renewed r requested stored_at accessed_at =
    let bounds = capped_lease-Within r.expires_at requested in
    record {
      same_else = refl;
      counted = saturating_succ-counted r.lease_renewal_count;
      in_time = bounds.1;
      within = bounds.0;
      chosen = capped_lease-chosen r.expires_at requested;
    }
