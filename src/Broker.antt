-- ===== src/Broker.antt =====
-- services/secret-broker/src/secret_broker_impl/handlers.rs, with the caller's context of mod.rs and
-- the broker's state of state.rs.
pub mod Context
pub mod Identity
pub mod State
pub mod Action
pub mod Meta
pub mod Ttl
pub mod Keys
pub mod Renewal
pub mod Services
pub mod Redeem
pub mod Unwrap
pub mod Persist
pub mod Wrap
pub mod NewCaveats
pub mod Attenuate
pub mod Custody
pub mod Shares
pub mod Lifecycle
