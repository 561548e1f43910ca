-- ===== src/Store.antt =====
-- services/secret-broker/src/secret_broker_impl/sealed_store.rs: the encrypted record store.
pub mod Record
pub mod Material
pub mod Backend
pub mod Ops
pub mod Spec
pub mod Refinement
pub mod Race
pub mod Spent
pub mod Evolution
pub mod Effects
