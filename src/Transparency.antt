-- ===== src/Transparency.antt =====
-- services/secret-broker/src/secret_broker_impl/transparency.rs: the hash-chained audit log.
pub mod Json
pub mod Event
pub mod Logger
